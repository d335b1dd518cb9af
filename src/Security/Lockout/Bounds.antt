-- ===== src/Security/Lockout/Bounds.antt =====
-- How an account is locked and freed.
use Prim.Native.Nat.{min}
use envelockserver.Prelude.{
  ℕ, ◌+◌, ◌-◌, ◌*◌, ◌/◌, ◌≤◌, ◌<◌, String, ◌≡◌, ap, ◌≢◌, inl, inr, true, false, some, List, [], ◌∷◌,
  map, arith, Option-cases, number_comparable, text_comparable, eq_refl, All, length,
}
use envelockserver.Prelude.Dict.{lookup, insert, lookup-insert, lookup-remove}
use envelockserver.Prelude.Time.{second, hour}
use envelockserver.Security.Lockout.{
  lock_status, AccountLockout, threshold, backoffs, state_of, is_locked, backoff_at, fail,
  record_failure, record_success, reset, apply, apply_all, LockoutState, Event, failure, success,
  cleared,
}

pub backoff_at_bounds : (n : ℕ) → (60 ≤ backoff_at n) × (backoff_at n ≤ 3600)
unfolding backoff_at
backoff_at_bounds n = ground arith

backoffs_mono : (i j : ℕ) → i ≤ j → backoffs (min i 3) ≤ backoffs (min j 3)
backoffs_mono i j h = ground arith

pub backoff_at_mono : (m n : ℕ) → m ≤ n → backoff_at m ≤ backoff_at n
unfolding backoff_at
backoff_at_mono m n h =
    let step : (m - threshold) / threshold ≤ (n - threshold) / threshold = omega arith in
    backoffs_mono ((m - threshold) / threshold) ((n - threshold) / threshold) step

-- No lock reaches further than one hour after `last`.
abbrev pub LocksBy : ℕ → AccountLockout → Type 0
LocksBy last store =
    (identity : String) (s : LockoutState)
    → lookup identity store ≡ some s
    → s.locked_until ≤ last + hour

-- The times of the failures are at most `last`.
abbrev pub Before : ℕ → Event → Type 0
Before last (failure identity current) = current ≤ last
Before last _ = Unit

fail-LocksBy :
    (last current : ℕ) (s : LockoutState)
    → current ≤ last
    → s.locked_until ≤ last + hour
    → (fail current s).locked_until ≤ last + hour
unfolding fail
fail-LocksBy last current s le h = ground (arith, backoff_at_bounds (s.failures + 1))

state_of-LocksBy :
    (last : ℕ) (identity : String) (store : AccountLockout)
    → LocksBy last store
    → (state_of identity store).locked_until ≤ last + hour
unfolding state_of
state_of-LocksBy last identity store h = elim (Option-cases (lookup identity store)) [
  | inl absent ↦ rw absent (omega arith)
  | inr (s, there) ↦ rw there (h identity s there)
]

apply-LocksBy :
    (last : ℕ) (store : AccountLockout) (e : Event)
    → Before last e
    → LocksBy last store
    → LocksBy last (apply store e)
unfolding apply record_failure record_success reset
apply-LocksBy last store (failure i current) le h j s there =
    let new = fail current (state_of i store) in
    let bound = fail-LocksBy last current (state_of i store) le (state_of-LocksBy last i store h) in
    ground (arith, lookup-insert i j new store, h j s)
apply-LocksBy last store (success i) le h j s there = ground (arith, lookup-remove i j store, h j s)
apply-LocksBy last store cleared le h j s there = cc

apply_all-LocksBy :
    (last : ℕ) (store : AccountLockout) (events : List Event)
    → All (Before last) events
    → LocksBy last store
    → LocksBy last (apply_all store events)
unfolding apply_all
apply_all-LocksBy last store [] all_before h = h
apply_all-LocksBy last store (e ∷ events) all_before h =
    apply_all-LocksBy last (apply store e) events all_before.1
      (apply-LocksBy last store e all_before.0 h)

-- No lock is permanent: whatever failures, successes and resets an attacker brings about, one hour
-- after the last of the failures no account is locked.
pub never_permanent :
    (last now : ℕ) (events : List Event) (identity : String)
    → All (Before last) events
    → last + hour ≤ now
    → is_locked identity now (apply_all [] events) ≡ (false, 0)
unfolding is_locked
never_permanent last now events identity all_before h =
    let store = apply_all [] events in
    let by = apply_all-LocksBy last [] events all_before (λ i s there. cc) in
    elim (Option-cases (lookup identity store)) [
      | inl absent ↦ rw absent
      | inr (s, there) ↦ rw (there, lock_status) (ground (arith, by identity s there))
    ]

state_of-insert :
    (i : String) (s : LockoutState) (store : AccountLockout) → state_of i (insert i s store) ≡ s
unfolding state_of
state_of-insert i s store = rw (lookup-insert i i s store, eq_refl i)

failures-apply_all :
    (i : String) (store : AccountLockout) (ts : List ℕ)
    → (state_of i (apply_all store (map (λ t. failure i t) ts))).failures
      ≡ (state_of i store).failures + length ts
unfolding apply_all apply record_failure fail
failures-apply_all i store [] = omega arith
failures-apply_all i store (t ∷ ts) =
    let store' = record_failure i t store in
    omega (
      arith,
      failures-apply_all i store' ts,
      ap (λ (s : LockoutState). s.failures) (state_of-insert i (fail t (state_of i store)) store),
    )

-- The fifth failure in a row, and each one after it, locks the account for at least a minute, from
-- whatever state the store was in before; and a success then frees it at once.
pub fifth_failure_locks :
    (i : String) (store : AccountLockout) (ts : List ℕ) (t now : ℕ)
    → 4 ≤ length ts
    → t ≤ now
    → now < t + 60 * second
    → let store' = record_failure i t (apply_all store (map (λ u. failure i u) ts)) in
      ((is_locked i now store').0 ≡ true) × (is_locked i now (record_success i store') ≡ (false, 0))
unfolding record_failure is_locked fail record_success
fifth_failure_locks i store ts t now many le soon =
    let before = apply_all store (map (λ u. failure i u) ts) in
    let n = (state_of i before).failures in
    let counted : 4 ≤ n = omega (arith, failures-apply_all i store ts) in
    let locked = fail t (state_of i before) in
    (
      rw (lookup-insert i i locked before, eq_refl i)
          (unfold lock_status in ground (arith, backoff_at_bounds (n + 1))),
      rw (lookup-remove i i (insert i locked before), eq_refl i),
    )

-- A failure locks for longer, or as long, the more failures came before it; it does not lock before
-- the fifth; and it leaves every other account as it was.
pub record_failure_progressive :
    (i j : String) (store : AccountLockout) (t now : ℕ)
    → ((m n : ℕ) → m ≤ n → backoff_at m ≤ backoff_at n)
      × ((state_of i store).failures < 4
          → (state_of i store).locked_until ≤ now
          → (is_locked i now (record_failure i t store)).0 ≡ false)
      × (i ≢ j → is_locked j now (record_failure i t store) ≡ is_locked j now store)
unfolding record_failure is_locked fail
record_failure_progressive i j store t now =
    let new = fail t (state_of i store) in
    (
      backoff_at_mono,
      λ few over. rw (lookup-insert i i new store, eq_refl i) (unfold lock_status in ground arith),
      λ other. ground (arith, lookup-insert i j new store, text_comparable.equal_iff i j),
    )
