-- ===== src/Mail/Broker/Pool.antt =====
-- The pool of egress addresses: no address goes over its limit, and a slot is found while there is
-- one.
use envelockserver.Prelude.{
  ℕ, suc, ◌+◌, ◌*◌, ◌≤◌, ◌<◌, String, ◌≡◌, refl, inl, inr, false, none, some, List, [], ◌∷◌, arith,
  ltb, leb, if◌then◌else◌, ltb→lt, Bool-cases, Option-cases, ◌==◌, text_comparable,
  number_comparable, All, length, contains,
}
use envelockserver.Prelude.Dict.{Dict, insert, remove, lookup-insert, lookup-remove}
use envelockserver.Mail.Broker.{
  insert_ip, take_slot, total, or_none, strategy_eq, count_of, sorted_ips, first_free, pick,
  acquire, egress_key, capacity, in_use, exhausted, EgressPool,
}

-- No address is listed twice.
abbrev pub IsDistinct : List String → Type 0
IsDistinct [] = Unit
IsDistinct (ip ∷ ips) = (contains ip ips ≡ false) × IsDistinct ips

pub count_of-insert :
    (ip j : String) (n : ℕ) (counts : Dict String ℕ)
    → count_of j (insert ip n counts) ≡ (if ip == j then n else count_of j counts)
unfolding count_of
count_of-insert ip j n counts = rw (lookup-insert ip j n counts) (ground arith)

count_of-remove :
    (ip j : String) (counts : Dict String ℕ)
    → count_of j (remove ip counts) ≡ (if ip == j then 0 else count_of j counts)
unfolding count_of
count_of-remove ip j counts = rw (lookup-remove ip j counts) (ground arith)

first_free-some :
    (limit : ℕ) (counts : Dict String ℕ) (ips : List String) {ip : String}
    → first_free limit counts ips ≡ some ip
    → count_of ip counts < limit
unfolding first_free
first_free-some limit counts [] h = cc
first_free-some limit counts (j ∷ js) {ip} h = elim (Bool-cases (ltb (count_of j counts) limit)) [
  | inl free ↦ let e : j ≡ ip = ground arith in rw e at (ltb→lt _ _ free)
  | inr full ↦ first_free-some limit counts js (rw full at h)
]

first_free-none :
    (limit : ℕ) (counts : Dict String ℕ) (ips : List String)
    → first_free limit counts ips ≡ none
    → All (λ ip. limit ≤ count_of ip counts) ips
unfolding first_free
first_free-none limit counts [] h = tt
first_free-none limit counts (j ∷ js) h =
    (ground arith, first_free-none limit counts js (ground arith))

module _ (P : String → Type 0) (counts : Dict String ℕ) where
  All-insert_ip :
      (ip : String) (js : List String) → All P (insert_ip counts ip js) → P ip × All P js
  unfolding insert_ip
  All-insert_ip ip [] h = (h.0, tt)
  All-insert_ip ip (j ∷ js) h = elim (Bool-cases (leb (count_of ip counts) (count_of j counts))) [
    | inl less ↦ rw less at h
    | inr more ↦
        let h' : P j × All P (insert_ip counts ip js) = rw more at h in
        let (here, there) = All-insert_ip ip js h'.1 in (here, (h'.0, there))
  ]

  All-sorted_ips : (ips : List String) → All P (sorted_ips counts ips) → All P ips
  unfolding sorted_ips
  All-sorted_ips [] h = tt
  All-sorted_ips (ip ∷ ips) h =
      let (here, there) = All-insert_ip ip (sorted_ips counts ips) h in
      (here, All-sorted_ips ips there)

total-remove-le :
    (ip : String) (counts : Dict String ℕ)
    → count_of ip counts + total (remove ip counts) ≤ total counts
unfolding total count_of
total-remove-le ip [] = omega arith
total-remove-le ip ((j, n) ∷ counts) = ground (arith, total-remove-le ip counts)

All-remove :
    (limit : ℕ) (ip : String) (counts : Dict String ℕ) (ips : List String)
    → contains ip ips ≡ false
    → All (λ j. limit ≤ count_of j counts) ips
    → All (λ j. limit ≤ count_of j (remove ip counts)) ips
All-remove limit ip counts [] out h = tt
All-remove limit ip counts (j ∷ js) out h = (
  ground (arith, count_of-remove ip j counts, h.0),
  All-remove limit ip counts js (ground arith) h.1,
)

-- Addresses that are all full hold together as much as their number times the limit.
total-ge :
    (limit : ℕ) (ips : List String) (counts : Dict String ℕ)
    → IsDistinct ips
    → All (λ ip. limit ≤ count_of ip counts) ips
    → length ips * limit ≤ total counts
total-ge limit [] counts d h = omega arith
total-ge limit (ip ∷ ips) counts d h = omega (
  arith,
  h.0,
  total-remove-le ip counts,
  total-ge limit ips (remove ip counts) d.1 (All-remove limit ip counts ips d.0 h.1),
)

-- A pool that is not exhausted has a free address.
pub pick_of_room :
    (pool : EgressPool)
    → IsDistinct pool.ips
    → exhausted pool ≡ false
    → (ip : String) × (pick pool ≡ some ip) × (count_of ip pool.counts < pool.limit)
unfolding pick exhausted in_use capacity
pick_of_room pool d room = elim (Option-cases (pick pool)) [
  | inl nothing ↦
      let full =
        All-sorted_ips (λ ip. pool.limit ≤ count_of ip pool.counts) pool.counts pool.ips
          (first_free-none pool.limit pool.counts (sorted_ips pool.counts pool.ips) nothing) in
      let over = total-ge pool.limit pool.ips pool.counts d full in absurd (ground arith)
  | inr (ip, found) ↦ (ip, found, first_free-some pool.limit pool.counts _ found)
]

egress_key-or_none : (ip : String) → egress_key (or_none ip) ≡ ip
unfolding egress_key or_none
egress_key-or_none ip = ground (arith, text_comparable.equal_iff ip "")

-- In a pool of distinct addresses that is not exhausted, `acquire` takes a slot of an address that
-- stays below its limit until then, counts it there and nowhere else, and changes neither the
-- addresses nor the limit.
pub acquire_of_room :
    (pool : EgressPool)
    → IsDistinct pool.ips
    → exhausted pool ≡ false
    → let (egress, pool') = acquire pool in
      (count_of (egress_key egress) pool.counts < pool.limit)
      × ((j : String)
          → count_of j pool'.counts ≡ (
              if egress_key egress == j
              then suc (count_of j pool.counts)
              else count_of j pool.counts))
      × (pool'.ips ≡ pool.ips)
      × (pool'.limit ≡ pool.limit)
unfolding acquire
acquire_of_room pool d room =
    let (ip, found, free) = pick_of_room pool d room in
    rw (found, take_slot)
      (rw (egress_key-or_none ip) (
        free,
        λ j. ground (
          arith,
          count_of-insert ip j (count_of ip pool.counts + 1) pool.counts,
          text_comparable.equal_iff ip j,
        ),
        refl,
        refl,
      ))
