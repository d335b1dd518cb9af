-- ===== src/Security/Replay/OneTime.antt =====
-- A value that was accepted is refused until its time to live has passed.
use envelockserver.Prelude.{
  ℕ, ◌+◌, ◌*◌, ◌<◌, String, ◌≡◌, refl, ap, inl, inr, Bool, true, false, none, some, List, [], ◌∷◌,
  arith, ltb, is_some, Bool-cases, number_comparable, text_comparable, eq_refl, All,
}
use envelockserver.Prelude.Dict.{lookup, insert, prune, lookup-insert, lookup-prune, prune-none}
use envelockserver.Prelude.Time.{second}
use envelockserver.Security.Replay.{check_and_record, check_all, ReplayGuard}

-- The entry of `key` says that it is spent until `exp`.
abbrev Spent : String → ℕ → ReplayGuard → Type 0
Spent key exp guard = lookup key guard.seen ≡ some exp

-- The call's time is before `exp`.
abbrev pub Within : ℕ → String × ℕ → Type 0
Within exp c = c.1 < exp

-- No call for `key` was answered with true.
abbrev pub Refused : String → List (String × ℕ) → List Bool → Type 0
Refused key [] answers = Unit
Refused key (c ∷ calls) [] = Unit
Refused key (c ∷ calls) (answer ∷ answers) =
    (c.0 ≡ key → answer ≡ false) × Refused key calls answers

step-Spent :
    (key j : String) (exp current : ℕ) (guard : ReplayGuard)
    → current < exp
    → Spent key exp guard
    → Spent key exp (check_and_record j current guard).1
      × (j ≡ key → (check_and_record j current guard).0 ≡ false)
unfolding check_and_record
step-Spent key j exp current guard soon spent =
    let live = prune (λ e. ltb current e) guard.seen in
    let kept : lookup key live ≡ some exp = lookup-prune key _ guard.seen spent (ground arith) in
    elim (Bool-cases (is_some (lookup j live))) [
      | inl old ↦ rw old (kept, λ same. refl)
      | inr new ↦ rw new (
        ground (
          arith,
          kept,
          lookup-insert j key (current + guard.ttl * second) live,
          text_comparable.equal_iff j key,
        ),
        λ same. cc (new, rw (← same) at (ap is_some kept)),
      )
    ]

check_all-Refused :
    (key : String) (exp : ℕ) (calls : List (String × ℕ)) (guard : ReplayGuard)
    → All (Within exp) calls
    → Spent key exp guard
    → Refused key calls (check_all calls guard).0
unfolding check_all
check_all-Refused key exp [] guard soon spent = tt
check_all-Refused key exp ((j, current) ∷ calls) guard soon spent =
    let (still, refused) = step-Spent key j exp current guard soon.0 spent in
    (refused, check_all-Refused key exp calls (check_and_record j current guard).1 soon.1 still)

-- A value accepted at `current` is refused by every call made before `current + ttl`, whatever other
-- values are checked in between and in whatever order the calls' times come.
pub check_and_record_once :
    (key : String) (current : ℕ) (guard : ReplayGuard) (calls : List (String × ℕ))
    → (check_and_record key current guard).0 ≡ true
    → All (Within (current + guard.ttl * second)) calls
    → Refused key calls (check_all calls (check_and_record key current guard).1).0
unfolding check_and_record
check_and_record_once key current guard calls accepted soon =
    let live = prune (λ e. ltb current e) guard.seen in
    elim (Bool-cases (is_some (lookup key live))) [
      | inl old ↦ absurd (cc (rw old at accepted))
      | inr new ↦ rw new (
          check_all-Refused key (current + guard.ttl * second) calls
            (record guard { seen = insert key (current + guard.ttl * second) live }) soon
            (rw (lookup-insert key key (current + guard.ttl * second) live, eq_refl key)))
    ]

-- A value that was never recorded is accepted.
pub check_and_record_fresh :
    (key : String) (current : ℕ) (guard : ReplayGuard)
    → lookup key guard.seen ≡ none
    → (check_and_record key current guard).0 ≡ true
unfolding check_and_record
check_and_record_fresh key current guard absent =
    rw (prune-none key (λ e. ltb current e) guard.seen absent)
