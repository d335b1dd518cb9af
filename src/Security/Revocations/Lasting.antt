-- ===== src/Security/Revocations/Lasting.antt =====
-- A revocation holds until it expires.
use envelockserver.Prelude.{
  ℕ, ◌≤◌, ◌<◌, String, ◌≡◌, ◌⊎◌, inl, inr, true, false, none, some, List, [], ◌∷◌, arith, ltb,
  Bool-cases, ◌==◌, number_comparable, text_comparable, eq_refl, All,
}
use envelockserver.Prelude.Dict.{
  Dict, lookup, insert, prune, lookup-insert, lookup-prune, prune-none,
}
use envelockserver.Security.Revocations.{
  revoke_jti, revoke_user, is_revoked, step, steps, TokenRevocations, Call, revoke_token,
  revoke_all, query,
}

-- The call is made before `exp`, if it is a query, and does not revoke the token `jti` or the user
-- `user` anew with an earlier end.
abbrev pub Respects : String → String → ℕ → Call → Type 0
Respects jti user exp (revoke_token j e) = j ≡ jti → exp ≤ e
Respects jti user exp (revoke_all u e) = u ≡ user → exp ≤ e
Respects jti user exp (query j u current) = current < exp

-- `key` is in the store until `exp` or later.
abbrev Held : String → ℕ → Dict String ℕ → Type 0
Held key exp d = (e : ℕ) × (lookup key d ≡ some e) × (exp ≤ e)

prune-Held :
    (key : String) (exp current : ℕ) (d : Dict String ℕ)
    → current < exp
    → Held key exp d
    → Held key exp (prune (λ e. ltb current e) d)
prune-Held key exp current d soon (e, there, long) =
    (e, lookup-prune key _ d there (ground arith), long)

insert-Held :
    (key j : String) (exp e' : ℕ) (d : Dict String ℕ)
    → (j ≡ key → exp ≤ e')
    → Held key exp d
    → Held key exp (insert j e' d)
insert-Held key j exp e' d longer (e, there, long) = elim (Bool-cases (j == key)) [
  | inl same ↦
      (e', rw (lookup-insert j key e' d, same), longer ((text_comparable.equal_iff j key).0 same))
  | inr other ↦ (e, rw (lookup-insert j key e' d, other) there, long)
]

-- Either the token or its user is held.
abbrev Refuses : String → String → ℕ → TokenRevocations → Type 0
Refuses jti user exp r = Held jti exp r.revoked_jti ⊎ Held user exp r.revoked_users

step-Refuses :
    (jti user : String) (exp : ℕ) (r : TokenRevocations) (c : Call)
    → Respects jti user exp c
    → Refuses jti user exp r
    → Refuses jti user exp (step r c)
unfolding step revoke_jti revoke_user is_revoked
step-Refuses jti user exp r (revoke_token j e) ok (inl h) = inl (insert-Held jti j exp e _ ok h)
step-Refuses jti user exp r (revoke_token j e) ok (inr h) = inr h
step-Refuses jti user exp r (revoke_all u e) ok (inl h) = inl h
step-Refuses jti user exp r (revoke_all u e) ok (inr h) = inr (insert-Held user u exp e _ ok h)
step-Refuses jti user exp r (query j u current) ok (inl h) = inl (prune-Held jti exp current _ ok h)
step-Refuses jti user exp r (query j u current) ok (inr h) =
    inr (prune-Held user exp current _ ok h)

steps-Refuses :
    (jti user : String) (exp : ℕ) (r : TokenRevocations) (calls : List Call)
    → All (Respects jti user exp) calls
    → Refuses jti user exp r
    → Refuses jti user exp (steps r calls)
unfolding steps
steps-Refuses jti user exp r [] ok h = h
steps-Refuses jti user exp r (c ∷ calls) ok h =
    steps-Refuses jti user exp (step r c) calls ok.1 (step-Refuses jti user exp r c ok.0 h)

is_revoked_of_Refuses :
    (jti user : String) (exp current : ℕ) (r : TokenRevocations)
    → current < exp
    → Refuses jti user exp r
    → (is_revoked jti user current r).0 ≡ true
unfolding is_revoked
is_revoked_of_Refuses jti user exp current r soon (inl h) =
    let (e, there, long) = prune-Held jti exp current r.revoked_jti soon h in rw there
is_revoked_of_Refuses jti user exp current r soon (inr h) =
    let (e, there, long) = prune-Held user exp current r.revoked_users soon h in
    rw there (ground arith)

-- A revoked token is refused at every time before its end, whatever was asked or revoked since,
-- unless the same token or user was revoked anew with an earlier end; and revoking a user refuses
-- every token of that user in the same way.
pub is_revoked_lasting :
    (jti user : String) (exp current : ℕ) (r : TokenRevocations) (calls : List Call)
    → All (Respects jti user exp) calls
    → current < exp
    → ((is_revoked jti user current (steps (revoke_jti jti exp r) calls)).0 ≡ true)
      × ((is_revoked jti user current (steps (revoke_user user exp r) calls)).0 ≡ true)
unfolding revoke_jti revoke_user
is_revoked_lasting jti user exp current r calls ok soon = (
  is_revoked_of_Refuses jti user exp current _ soon (
      steps-Refuses jti user exp (revoke_jti jti exp r) calls ok
        (inl (exp, rw (lookup-insert jti jti exp r.revoked_jti, eq_refl jti), omega arith))),
  is_revoked_of_Refuses jti user exp current _ soon (
      steps-Refuses jti user exp (revoke_user user exp r) calls ok
        (inr (exp, rw (lookup-insert user user exp r.revoked_users, eq_refl user), omega arith))),
)

-- A token is not refused where neither it nor its user was ever revoked.
pub is_revoked_only :
    (jti user : String) (current : ℕ) (r : TokenRevocations)
    → lookup jti r.revoked_jti ≡ none
    → lookup user r.revoked_users ≡ none
    → (is_revoked jti user current r).0 ≡ false
unfolding is_revoked
is_revoked_only jti user current r no_token no_user = rw (
  prune-none jti (λ e. ltb current e) r.revoked_jti no_token,
  prune-none user (λ e. ltb current e) r.revoked_users no_user,
)
