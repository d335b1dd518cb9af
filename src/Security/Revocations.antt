-- ===== src/Security/Revocations.antt =====
-- security/limits.py: `TokenRevocations`, the refresh tokens and the users whose tokens are refused.
pub mod Lasting
mod Examples
use envelockserver.Prelude.{
  ℕ, String, Bool, true, List, [], ◌∷◌, ltb, if◌then◌else◌, is_some, number_comparable,
  text_comparable,
}
use envelockserver.Prelude.Dict.{Dict, lookup, insert, prune}

pub record TokenRevocations : Type 0 where
  pub revoked_jti : Dict String ℕ
  pub revoked_users : Dict String ℕ

pub revoke_jti : String → ℕ → TokenRevocations → TokenRevocations
revoke_jti jti expires_at r = record r { revoked_jti = insert jti expires_at r.revoked_jti }

pub revoke_user : String → ℕ → TokenRevocations → TokenRevocations
revoke_user user_id until r = record r { revoked_users = insert user_id until r.revoked_users }

pub is_revoked : String → String → ℕ → TokenRevocations → Bool × TokenRevocations
is_revoked jti user_id current r =
    let jtis = prune (λ exp. ltb current exp) r.revoked_jti in
    let users = prune (λ exp. ltb current exp) r.revoked_users in
    (
      if is_some (lookup jti jtis) then true else is_some (lookup user_id users),
      record { revoked_jti = jtis; revoked_users = users },
    )

pub reset : TokenRevocations → TokenRevocations
reset r = record { revoked_jti = []; revoked_users = [] }

-- A call of the store; the constructors take the arguments of the operations.
pub data Call : Type 0 where
  revoke_token : String → ℕ → Call
  revoke_all : String → ℕ → Call
  query : String → String → ℕ → Call

pub step : TokenRevocations → Call → TokenRevocations
step r (revoke_token jti expires_at) = revoke_jti jti expires_at r
step r (revoke_all user_id until) = revoke_user user_id until r
step r (query jti user_id current) = (is_revoked jti user_id current r).1

pub steps : TokenRevocations → List Call → TokenRevocations
steps r [] = r
steps r (c ∷ calls) = steps (step r c) calls
