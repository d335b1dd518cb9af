-- ===== src/Security/Revocations/Examples.antt =====
-- The revocation theorem at concrete calls.
use mathlib.Core.Bool.{false≢true}
use envelockserver.Prelude.{◌≡◌, true, List, [], ◌∷◌, arith, number_comparable, text_comparable}
use envelockserver.Security.Revocations.{
  revoke_jti, revoke_user, is_revoked, steps, TokenRevocations, Call, revoke_token, query,
}
use envelockserver.Security.Revocations.Lasting.{is_revoked_lasting}

abbrev nothing_revoked : TokenRevocations
nothing_revoked = record { revoked_jti = []; revoked_users = [] }

abbrev since : List Call
since = query "t2" "u2" 50 ∷ revoke_token "t2" 60 ∷ []

lasting_example :
    ((is_revoked "t1" "u1" 90 (steps (revoke_jti "t1" 100 nothing_revoked) since)).0 ≡ true)
    × ((is_revoked "t1" "u1" 90 (steps (revoke_user "u1" 100 nothing_revoked) since)).0 ≡ true)
lasting_example =
    is_revoked_lasting "t1" "u1" 100 90 nothing_revoked since
      (omega arith, (λ e. absurd (false≢true ((text_comparable.equal_iff "t2" "t1").1 e)), tt))
      (omega arith)
