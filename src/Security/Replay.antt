-- ===== src/Security/Replay.antt =====
-- security/limits.py: `ReplayGuard`, one use for a value within its time to live.
pub mod OneTime
mod Examples
use envelockserver.Prelude.{
  ℕ, ◌+◌, ◌*◌, String, Bool, true, false, List, [], ◌∷◌, ltb, if◌then◌else◌, is_some,
  number_comparable, text_comparable,
}
use envelockserver.Prelude.Dict.{Dict, lookup, insert, prune}
use envelockserver.Prelude.Time.{second}

pub record ReplayGuard : Type 0 where
  pub ttl : ℕ
  pub seen : Dict String ℕ

pub check_and_record : String → ℕ → ReplayGuard → Bool × ReplayGuard
check_and_record key current guard =
    let live = prune (λ exp. ltb current exp) guard.seen in
    if is_some (lookup key live)
    then (false, record guard { seen = live })
    else (true, record guard { seen = insert key (current + guard.ttl * second) live })

pub reset : ReplayGuard → ReplayGuard
reset guard = record guard { seen = [] }

-- The answers to a list of calls made in turn, and the guard they leave.
pub check_all : List (String × ℕ) → ReplayGuard → List Bool × ReplayGuard
check_all [] guard = ([], guard)
check_all ((key, current) ∷ calls) guard =
    let (answer, guard') = check_and_record key current guard in
    let (answers, last) = check_all calls guard' in (answer ∷ answers, last)
