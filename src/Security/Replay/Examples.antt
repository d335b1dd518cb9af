-- ===== src/Security/Replay/Examples.antt =====
-- The replay guard's theorem at concrete calls.
use envelockserver.Prelude.{
  ℕ, ◌*◌, String, ◌≡◌, refl, true, false, List, [], ◌∷◌, arith, number_comparable, text_comparable,
}
use envelockserver.Prelude.Time.{second}
use envelockserver.Security.Replay.{check_and_record, check_all, ReplayGuard}
use envelockserver.Security.Replay.OneTime.{Refused, check_and_record_once}

abbrev empty_guard : ReplayGuard
empty_guard = record { ttl = 120; seen = [] }

abbrev later : List (String × ℕ)
later = ("u:654321", 40 * second) ∷ ("u:123456", 59 * second) ∷ []

once_example :
    Refused "u:123456" later
      (check_all later (check_and_record "u:123456" (30 * second) empty_guard).1).0
unfolding check_and_record
once_example = check_and_record_once "u:123456" (30 * second) empty_guard later refl (omega arith)

other_accepted :
    (check_all later (check_and_record "u:123456" (30 * second) empty_guard).1).0
    ≡ true ∷ false ∷ []
unfolding check_and_record check_all
other_accepted = refl
