-- ===== src/Mail/ImapSync/Sorted.antt =====
-- Lists of message numbers: sorting, filtering and taking the last.
use envelockserver.Prelude.{
  ℕ, zero, suc, ◌-◌, ◌≤◌, ◌<◌, ◌≡◌, inl, inr, Bool, List, [], ◌∷◌, arith, ltb, leb, ltb→lt, leb→le,
  Bool-cases, ◌==◌, text_comparable, number_comparable, All, length, filter,
}
use envelockserver.Mail.ImapSync.{insert_uid, sorted, drop, last_of}

-- Each number is at most those after it.
abbrev pub IsSorted : List ℕ → Type 0
IsSorted [] = Unit
IsSorted (u ∷ us) = All (λ v. u ≤ v) us × IsSorted us

pub All-imp {ℓ κ} :
    {A : Type ℓ} (P Q : A → Type κ) (xs : List A) → ((x : A) → P x → Q x) → All P xs → All Q xs
All-imp P Q [] h a = tt
All-imp P Q (x ∷ xs) h a = (h x a.0, All-imp P Q xs h a.1)

All-insert_uid : (P : ℕ → Type 0) (u : ℕ) (us : List ℕ) → P u → All P us → All P (insert_uid u us)
unfolding insert_uid
All-insert_uid P u [] p a = (p, tt)
All-insert_uid P u (v ∷ vs) p a = elim (Bool-cases (leb u v)) [
  | inl le ↦ rw le (p, a)
  | inr gt ↦ rw gt (a.0, All-insert_uid P u vs p a.1)
]

insert_uid-IsSorted : (u : ℕ) (us : List ℕ) → IsSorted us → IsSorted (insert_uid u us)
unfolding insert_uid
insert_uid-IsSorted u [] s = (tt, tt)
insert_uid-IsSorted u (v ∷ vs) s = elim (Bool-cases (leb u v)) [
  | inl le ↦
      let above : u ≤ v = leb→le u v le in
      rw le ((above, All-imp _ _ vs (λ (w : ℕ) (h : v ≤ w). omega arith) s.0), s)
  | inr gt ↦
      rw gt (All-insert_uid (λ w. v ≤ w) u vs (ground arith) s.0, insert_uid-IsSorted u vs s.1)
]

pub sorted-IsSorted : (us : List ℕ) → IsSorted (sorted us)
unfolding sorted
sorted-IsSorted [] = tt
sorted-IsSorted (u ∷ us) = insert_uid-IsSorted u (sorted us) (sorted-IsSorted us)

pub All-filter : (P : ℕ → Type 0) (p : ℕ → Bool) (us : List ℕ) → All P us → All P (filter p us)
All-filter P p [] a = tt
All-filter P p (u ∷ us) a = elim (Bool-cases (p u)) [
  | inl good ↦ rw good (a.0, All-filter P p us a.1)
  | inr bad ↦ rw bad (All-filter P p us a.1)
]

pub filter-IsSorted : (p : ℕ → Bool) (us : List ℕ) → IsSorted us → IsSorted (filter p us)
filter-IsSorted p [] s = tt
filter-IsSorted p (u ∷ us) s = elim (Bool-cases (p u)) [
  | inl good ↦ rw good (All-filter (λ v. u ≤ v) p us s.0, filter-IsSorted p us s.1)
  | inr bad ↦ rw bad (filter-IsSorted p us s.1)
]

pub filter_above : (c : ℕ) (us : List ℕ) → All (λ u. c < u) (filter (λ u. ltb c u) us)
filter_above c [] = tt
filter_above c (u ∷ us) = elim (Bool-cases (ltb c u)) [
  | inl good ↦ rw good (ltb→lt c u good, filter_above c us)
  | inr bad ↦ rw bad (filter_above c us)
]

pub All-drop : (P : ℕ → Type 0) (n : ℕ) (us : List ℕ) → All P us → All P (drop n us)
unfolding drop
All-drop P zero us a = a
All-drop P (suc n) [] a = tt
All-drop P (suc n) (u ∷ us) a = All-drop P n us a.1

drop-IsSorted : (n : ℕ) (us : List ℕ) → IsSorted us → IsSorted (drop n us)
unfolding drop
drop-IsSorted zero us s = s
drop-IsSorted (suc n) [] s = tt
drop-IsSorted (suc n) (u ∷ us) s = drop-IsSorted n us s.1

pub length-drop : (n : ℕ) (us : List ℕ) → length (drop n us) ≡ length us - n
unfolding drop
length-drop zero us = omega arith
length-drop (suc n) [] = omega arith
length-drop (suc n) (u ∷ us) = omega (arith, length-drop n us)

pub All-last_of : (P : ℕ → Type 0) (n : ℕ) (us : List ℕ) → All P us → All P (last_of n us)
unfolding last_of
All-last_of P n us a = elim (Bool-cases (n == 0)) [
  | inl all_of ↦ rw all_of a
  | inr some_of ↦ rw some_of (All-drop P (length us - n) us a)
]

pub last_of-IsSorted : (n : ℕ) (us : List ℕ) → IsSorted us → IsSorted (last_of n us)
unfolding last_of
last_of-IsSorted n us s = elim (Bool-cases (n == 0)) [
  | inl all_of ↦ rw all_of s
  | inr some_of ↦ rw some_of (drop-IsSorted (length us - n) us s)
]

pub length-last_of-le : (n : ℕ) (us : List ℕ) → 0 < n → length (last_of n us) ≤ n
unfolding last_of
length-last_of-le n us pos = ground (arith, length-drop (length us - n) us)
