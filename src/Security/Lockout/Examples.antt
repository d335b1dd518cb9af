-- ===== src/Security/Lockout/Examples.antt =====
-- The lockout's theorems at concrete events.
use envelockserver.Prelude.{
  ℕ, ◌+◌, ◌*◌, ◌≡◌, false, List, [], ◌∷◌, map, arith, number_comparable, text_comparable,
}
use envelockserver.Prelude.Time.{second, hour}
use envelockserver.Security.Lockout.{is_locked, apply_all, Event, failure}
use envelockserver.Security.Lockout.Bounds.{never_permanent}

abbrev attack : List ℕ
attack = 1 * second ∷ 2 * second ∷ 3 * second ∷ 4 * second ∷ []

abbrev attack_events : List Event
attack_events = map (λ u. failure "victim" u) attack

never_permanent_example :
    is_locked "victim" (4 * second + hour) (apply_all [] attack_events) ≡ (false, 0)
never_permanent_example =
    never_permanent (4 * second) (4 * second + hour) attack_events "victim" (omega arith)
      (omega arith)
