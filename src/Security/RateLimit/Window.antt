-- ===== src/Security/RateLimit/Window.antt =====
-- The sliding window of `RateLimiter.check` keeps its promise over every sequence of calls.
use envelockserver.Prelude.{
  ℕ, ◌+◌, ◌*◌, ◌≤◌, String, ◌≡◌, refl, ap, inl, inr, Bool, ◌&&◌, List, [], ◌∷◌, ◌++◌, arith, leb,
  if◌then◌else◌, Bool-cases, ◌==◌, number_comparable, text_comparable, All, length, filter,
  length-filter-le,
}
use envelockserver.Prelude.Time.{second}
use envelockserver.Prelude.Dict.{lookup-insert}
use envelockserver.Security.RateLimit.{
  insert, rule_for, RateLimiter, key_of, hits_of, drop_old, admit, check, Rule,
}

-- A hit that still counts at `current`.
abbrev pub is_recent : Rule → ℕ → ℕ → Bool
is_recent r current h = leb current (h + r.window * second)

abbrev pub recent : Rule → ℕ → List ℕ → ℕ
recent r current hits = length (filter (is_recent r current) hits)

-- A call: bucket, identity and time.
abbrev pub Call : Type 0
Call = String × String × ℕ

-- The times at which calls for the key of `bucket` and `identity` were admitted, newest first, where
-- calls for all keys are made in turn.
unfoldable pub admitted : String → String → RateLimiter → List ℕ → List Call → List ℕ
admitted bucket identity state log [] = log
admitted bucket identity state log ((b, i, t) ∷ calls) =
    let ((allowed, wait), state') = check b i t state in
    admitted bucket identity state'
      (if key_of b i == key_of bucket identity && allowed then t ∷ log else log) calls

-- At every admitted call, it and those admitted in the window before it are at most `limit`.
abbrev pub Throttled : Rule → List ℕ → Type 0
Throttled r [] = Unit
Throttled r (t ∷ log) = (1 + recent r t log ≤ r.limit) × Throttled r log

-- The times never run backwards.
abbrev pub IsOrdered : ℕ → List Call → Type 0
IsOrdered start [] = Unit
IsOrdered start ((b, i, t) ∷ calls) = (start ≤ t) × IsOrdered t calls

-- A call with the key of another bucket does not occur (as one could if a bucket's name had a colon).
abbrev pub NoCollision : String → String → List Call → Type 0
NoCollision bucket identity = All (λ c. key_of c.0 c.1 ≡ key_of bucket identity → c.0 ≡ bucket)

recent-drop_old :
    (r : Rule) (current later : ℕ) (hits : List ℕ)
    → current ≤ later
    → recent r later (drop_old r.window current hits) ≡ recent r later hits
unfolding drop_old
recent-drop_old r current later [] h = refl
recent-drop_old r current later (x ∷ xs) h = ground (arith, recent-drop_old r current later xs h)

recent-append :
    (r : Rule) (t : ℕ) (xs ys : List ℕ) → recent r t (xs ++ ys) ≡ recent r t xs + recent r t ys
recent-append r t [] ys = omega arith
recent-append r t (x ∷ xs) ys = ground (arith, recent-append r t xs ys)

recent-le-length : (r : Rule) (t : ℕ) (hits : List ℕ) → recent r t hits ≤ length hits
recent-le-length r t hits = length-filter-le (is_recent r t) hits

-- The deque accounts for every admitted call that still counts.
record Accounts (r : Rule) (now : ℕ) (hits log : List ℕ) : Type 0 where
  throttled : Throttled r log
  covered : (later : ℕ) → now ≤ later → recent r later log ≤ recent r later hits

admit-Accounts :
    (r : Rule) (now t : ℕ) (hits log : List ℕ)
    → now ≤ t
    → Accounts r now hits log
    → Accounts r t (admit r t hits).1 (if (admit r t hits).0.0 then t ∷ log else log)
unfolding admit
admit-Accounts r now t hits log le a =
    let kept = drop_old r.window t hits in
    elim (Bool-cases (leb r.limit (length kept))) [
      | inl full ↦ rw full (record {
        throttled = a.throttled;
        covered = λ later h.
            omega (arith, a.covered later (omega arith), recent-drop_old r t later hits h);
      })
      | inr room ↦ rw room (record {
        throttled = (
          ground (
            arith,
            a.covered t le,
            recent-drop_old r t t hits (omega arith),
            recent-le-length r t kept,
          ),
          a.throttled,
        );
        covered = λ later h. ground (
          arith,
          a.covered later (omega arith),
          recent-drop_old r t later hits h,
          recent-append r later kept (t ∷ []),
        );
      })
    ]

pub hits_of-insert :
    (key j : String) (hits : List ℕ) (state : RateLimiter)
    → hits_of j (insert key hits state) ≡ (if key == j then hits else hits_of j state)
unfolding hits_of
hits_of-insert key j hits state = rw (lookup-insert key j hits state) (ground arith)

-- One call, for the key or for another one.
step-Accounts :
    (r r' : Rule) (key k : String) (now t : ℕ) (state : RateLimiter) (log : List ℕ)
    → (k ≡ key → r' ≡ r)
    → now ≤ t
    → Accounts r now (hits_of key state) log
    → Accounts r t
        (hits_of key (insert k (admit r' t (hits_of k state)).1 state))
        (if k == key && (admit r' t (hits_of k state)).0.0 then t ∷ log else log)
step-Accounts r r' key k now t state log same_rule le a =
    rw (hits_of-insert k key (admit r' t (hits_of k state)).1 state) (elim (Bool-cases (k == key)) [
      | inl same ↦
          let e = (text_comparable.equal_iff k key).0 same in
          rw same (rw (e, same_rule e) (admit-Accounts r now t (hits_of key state) log le a))
      | inr other ↦
          rw other
            (record { throttled = a.throttled; covered = λ later h. a.covered later (omega arith) })
    ])

module _ (bucket identity : String) where
  admitted-Throttled :
      (now : ℕ) (state : RateLimiter) (log : List ℕ) (calls : List Call)
      → Accounts (rule_for bucket) now (hits_of (key_of bucket identity) state) log
      → IsOrdered now calls
      → NoCollision bucket identity calls
      → Throttled (rule_for bucket) (admitted bucket identity state log calls)
  unfolding admitted check
  admitted-Throttled now state log [] a ordered apart = a.throttled
  admitted-Throttled now state log ((b, i, t) ∷ calls) a ordered apart =
      let key = key_of bucket identity in
      let k = key_of b i in
      let ((allowed, wait), kept) = admit (rule_for b) t (hits_of k state) in
      admitted-Throttled t (insert k kept state) (if k == key && allowed then t ∷ log else log)
        calls
        (step-Accounts (rule_for bucket) (rule_for b) key k now t state log
          (λ e. ap rule_for (apart.0 e)) ordered.0 a)
        ordered.1 apart.1

-- From an empty limiter, whatever calls for whatever keys are made in turn at times that do not run
-- backwards, at every admitted call of a key at most `limit` calls of that key, itself included, were
-- admitted in the `window` that ends with it.
pub check_throttles :
    (bucket identity : String) (calls : List Call)
    → IsOrdered 0 calls
    → NoCollision bucket identity calls
    → Throttled (rule_for bucket) (admitted bucket identity [] [] calls)
unfolding hits_of
check_throttles bucket identity calls ordered apart =
    admitted-Throttled bucket identity 0 [] [] calls
      (record { throttled = tt; covered = λ later h. omega arith }) ordered apart
