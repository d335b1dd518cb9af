-- ===== src/Security/Lockout.antt =====
-- security/limits.py: `AccountLockout`, progressive lockout by account. A time is a number of
-- microseconds. The field `history` of the state is never read or written and is left out.
pub mod Bounds
mod Examples
use Prim.Native.Nat.{min}
use envelockserver.Prelude.{
  ℕ, zero, suc, ◌+◌, ◌-◌, ◌*◌, ◌/◌, String, Bool, true, false, Option, none, some, List, [], ◌∷◌,
  leb, if◌then◌else◌, number_comparable, text_comparable,
}
use envelockserver.Prelude.Dict.{Dict, lookup, insert, remove}
use envelockserver.Prelude.Time.{second}

pub record LockoutState : Type 0 where
  pub failures : ℕ
  pub locked_until : ℕ

-- `_state`
abbrev pub AccountLockout : Type 0
AccountLockout = Dict String LockoutState

abbrev pub threshold : ℕ
threshold = 5

-- `BACKOFFS`, at an index below 4.
abbrev pub backoffs : ℕ → ℕ
backoffs zero = 60
backoffs (suc zero) = 300
backoffs (suc (suc zero)) = 900
backoffs _ = 3600

fresh_or : Option LockoutState → LockoutState
fresh_or none = record { failures = 0; locked_until = 0 }
fresh_or (some state) = state

-- `self._state[identity]` of a `defaultdict`
pub state_of : String → AccountLockout → LockoutState
unfolding fresh_or
state_of identity store = fresh_or (lookup identity store)

lock_status : ℕ → Option LockoutState → Bool × ℕ
lock_status current none = (false, 0)
lock_status current (some state) =
    if leb state.locked_until current
    then (false, 0)
    else (true, (state.locked_until - current) / second + 1)

pub is_locked : String → ℕ → AccountLockout → Bool × ℕ
unfolding lock_status
is_locked identity current store = lock_status current (lookup identity store)

-- The seconds that the n-th failure locks for.
pub backoff_at : ℕ → ℕ
backoff_at failures = backoffs (min ((failures - threshold) / threshold) 3)

pub fail : ℕ → LockoutState → LockoutState
fail current state =
    let failures = state.failures + 1 in
    record {
      failures = failures;
      locked_until =
          if leb threshold failures
          then current + backoff_at failures * second
          else state.locked_until;
    }

pub record_failure : String → ℕ → AccountLockout → AccountLockout
record_failure identity current store =
    insert identity (fail current (state_of identity store)) store

pub record_success : String → AccountLockout → AccountLockout
record_success identity store = remove identity store

pub reset : AccountLockout → AccountLockout
reset store = []

-- What the login handler may do with the store.
pub data Event : Type 0 where
  failure : String → ℕ → Event
  success : String → Event
  cleared : Event

pub apply : AccountLockout → Event → AccountLockout
apply store (failure identity current) = record_failure identity current store
apply store (success identity) = record_success identity store
apply store cleared = reset store

pub apply_all : AccountLockout → List Event → AccountLockout
apply_all store [] = store
apply_all store (e ∷ events) = apply_all (apply store e) events
