-- ===== src/Security/RateLimit/Examples.antt =====
-- The rate limiter's theorems at concrete calls.
use envelockserver.Prelude.{
  ◌*◌, ◌≡◌, refl, List, [], ◌∷◌, arith, number_comparable, text_comparable, length,
}
use envelockserver.Prelude.Time.{second}
use envelockserver.Security.RateLimit.{
  rule_for, RateLimiter, key_of, hits_of, drop_old, admit, check,
}
use envelockserver.Security.RateLimit.Window.{Call, admitted, Throttled, check_throttles}

-- Two keys in turn.
abbrev calls : List Call
calls =
    ("auth.phone", "a", 1 * second)
    ∷ ("auth.phone", "b", 2 * second)
    ∷ ("auth.phone", "a", 3 * second)
    ∷ ("auth.phone", "a", 3 * second)
    ∷ []

calls-admitted : length (admitted "auth.phone" "a" [] [] calls) ≡ 3
unfolding admitted check admit drop_old hits_of rule_for
calls-admitted = refl

throttles_example : Throttled (rule_for "auth.phone") (admitted "auth.phone" "a" [] [] calls)
throttles_example =
    check_throttles "auth.phone" "a" calls (omega arith)
      (λ e. refl, (λ e. refl, (λ e. refl, (λ e. refl, tt))))

-- Five calls in the first five seconds.
abbrev full_state : RateLimiter
full_state =
    (key_of "auth.phone" "a", 1 * second ∷ 2 * second ∷ 3 * second ∷ 4 * second ∷ 5 * second ∷ [])
    ∷ []
