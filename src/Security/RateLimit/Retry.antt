-- ===== src/Security/RateLimit/Retry.antt =====
-- What a refused call is told: the seconds after which it is admitted.
use envelockserver.Prelude.{
  ℕ, ◌+◌, ◌-◌, ◌*◌, ◌/◌, ◌≤◌, ◌<◌, String, ◌≡◌, ap, ◌∙◌, ◌≢◌, inl, inr, true, false, List, [], ◌∷◌,
  arith, leb, leb→le, Bool-cases, number_comparable, text_comparable, eq_refl, length,
  length-append,
}
use envelockserver.Prelude.Time.{second}
use envelockserver.Security.RateLimit.{
  oldest, rule_for, RateLimiter, key_of, hits_of, drop_old, admit, check, Rule,
}
use envelockserver.Security.RateLimit.Window.{hits_of-insert}

length-drop_old-le : (window t : ℕ) (hits : List ℕ) → length (drop_old window t hits) ≤ length hits
unfolding drop_old
length-drop_old-le window t [] = omega arith
length-drop_old-le window t (h ∷ hits) = ground (arith, length-drop_old-le window t hits)

-- A deque never holds more than `limit` hits.
pub length-admit-le :
    (r : Rule) (t : ℕ) (hits : List ℕ) → length hits ≤ r.limit → length (admit r t hits).1 ≤ r.limit
unfolding admit
length-admit-le r t hits h =
    ground
      (arith, length-drop_old-le r.window t hits, length-append (drop_old r.window t hits) (t ∷ []))

-- What is left after a drop begins with a hit that still counts, so a second drop at a later time
-- removes at least that one.
drop_old-head :
    (r : Rule) (later h : ℕ) (hits : List ℕ)
    → h + r.window * second < later
    → length (drop_old r.window later (h ∷ hits)) < length (h ∷ hits)
unfolding drop_old
drop_old-head r later h hits past = ground (arith, length-drop_old-le r.window later hits)

admit_of_room :
    (r : Rule) (t : ℕ) (hits : List ℕ)
    → length (drop_old r.window t hits) < r.limit
    → (admit r t hits).0.0 ≡ true
unfolding admit
admit_of_room r t hits h = ground arith

retry_kept :
    (r : Rule) (t later wait : ℕ) (kept : List ℕ)
    → 0 < r.limit
    → r.limit ≤ length kept
    → length kept ≤ r.limit
    → (oldest 0 kept + r.window * second - t) / second + 1 ≡ wait
    → t + wait * second ≤ later
    → (admit r later kept).0.0 ≡ true
unfolding oldest
retry_kept r t later wait [] some_room full fits e h = absurd (omega arith)
retry_kept r t later wait (x ∷ xs) some_room full fits e h =
    admit_of_room r later (x ∷ xs) (omega (arith, drop_old-head r later x xs (omega arith)))

admit_refused :
    (r : Rule) (t : ℕ) (hits : List ℕ) (wait : ℕ)
    → (admit r t hits).0 ≡ (false, wait)
    → let kept = drop_old r.window t hits in
      (r.limit ≤ length kept)
      × ((admit r t hits).1 ≡ kept)
      × ((oldest 0 kept + r.window * second - t) / second + 1 ≡ wait)
unfolding admit
admit_refused r t hits wait refused =
    elim (Bool-cases (leb r.limit (length (drop_old r.window t hits)))) [
      | inl full ↦
          let told : (oldest 0 (drop_old r.window t hits) + r.window * second - t) / second + 1
              ≡ wait =
            ap (λ p. p.1) (rw full at refused) in
          (leb→le _ _ full, rw full, told)
      | inr room ↦ absurd (cc (ap (λ p. p.0) (rw room at refused)))
    ]

admit_retry :
    (r : Rule) (t later : ℕ) (hits : List ℕ) (wait : ℕ)
    → 0 < r.limit
    → length hits ≤ r.limit
    → (admit r t hits).0 ≡ (false, wait)
    → t + wait * second ≤ later
    → (admit r later (admit r t hits).1).0.0 ≡ true
admit_retry r t later hits wait some_room fits refused h =
    let (full, same, told) = admit_refused r t hits wait refused in
    let kept = drop_old r.window t hits in
    rw same (
      retry_kept r t later wait kept some_room full
        (omega (arith, fits, length-drop_old-le r.window t hits)) told h)

rule_for-pos : (bucket : String) → 0 < (rule_for bucket).limit
unfolding rule_for
rule_for-pos bucket = ground arith

-- A call that is refused is told a number of seconds, and a call made that much later or still
-- later, with none of the same key in between, is admitted. The limiter holds at most `limit` hits
-- of the key, as every sequence of calls leaves it (`length-check-le`).
pub check_retry :
    (bucket identity : String) (t later wait : ℕ) (state : RateLimiter)
    → length (hits_of (key_of bucket identity) state) ≤ (rule_for bucket).limit
    → (check bucket identity t state).0 ≡ (false, wait)
    → t + wait * second ≤ later
    → (check bucket identity later (check bucket identity t state).1).0.0 ≡ true
unfolding check
check_retry bucket identity t later wait state fits refused h =
    let key = key_of bucket identity in
    let r = rule_for bucket in
    rw (hits_of-insert key key (admit r t (hits_of key state)).1 state, eq_refl key)
      (admit_retry r t later (hits_of key state) wait (rule_for-pos bucket) fits refused h)

-- Each call keeps the deques of its bucket's keys within the bucket's limit, and leaves the deque of
-- every other key as it was.
pub length-check-le :
    (bucket identity : String) (t : ℕ) (state : RateLimiter) (key : String)
    → (length (hits_of (key_of bucket identity) state) ≤ (rule_for bucket).limit
        → length (hits_of (key_of bucket identity) (check bucket identity t state).1)
          ≤ (rule_for bucket).limit)
      × (key_of bucket identity ≢ key
          → hits_of key (check bucket identity t state).1 ≡ hits_of key state)
unfolding check
length-check-le bucket identity t state key =
    let k = key_of bucket identity in
    let r = rule_for bucket in
    let kept = (admit r t (hits_of k state)).1 in
    (
      λ h. rw (hits_of-insert k k kept state, eq_refl k) (length-admit-le r t (hits_of k state) h),
      λ other. hits_of-insert k key kept state ∙ ground (arith, text_comparable.equal_iff k key),
    )
