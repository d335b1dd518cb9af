-- ===== src/Detections/Base/Registry.antt =====
-- Which detections speak, and which are named as inactive.
use envelockserver.Prelude.{
  String, ◌≡◌, refl, sym, ◌∙◌, inl, inr, Bool, false, ◌&&◌, ◌||◌, none, List, [], ◌∷◌, arith,
  is_some, Bool-cases, ◌==◌, text_comparable, number_comparable, All, any, contains,
}
use envelockserver.Prelude.Dict.{Dict, lookup, insert, IsUnique, insert-IsUnique}
use envelockserver.Core.Capabilities.{Capability, capability_eq}
use envelockserver.Risk.Engine.Tiers.{contains-insert_service}
use envelockserver.Detections.Base.{register, active_for, inactive_for, registered, Detection}

module _ {V : Type 0} where
  -- The service is the name of a detection that is active.
  abbrev pub is_active : List Capability → Dict String (Detection V) → String → Bool
  is_active caps registry s = any (λ d. s == d.service) (active_for caps registry)

  -- Each detection stands under its own name.
  abbrev pub IsKeyed : Dict String (Detection V) → Type 0
  IsKeyed = All (λ e. e.0 ≡ e.1.service)

  insert-IsKeyed :
      (d : Detection V) (registry : Dict String (Detection V))
      → IsKeyed registry
      → IsKeyed (insert d.service d registry)
  insert-IsKeyed d [] k = (refl, tt)
  insert-IsKeyed d ((j, c) ∷ registry) k = elim (Bool-cases (j == d.service)) [
    | inl same ↦ rw same (refl, k.1)
    | inr other ↦ rw other (k.0, insert-IsKeyed d registry k.1)
  ]

  pub registered-IsKeyed :
      (ds : List (Detection V)) (registry : Dict String (Detection V))
      → IsKeyed registry
      → IsUnique registry
      → IsKeyed (registered ds registry) × IsUnique (registered ds registry)
  unfolding registered register
  registered-IsKeyed [] registry k u = (k, u)
  registered-IsKeyed (d ∷ ds) registry k u =
      registered-IsKeyed ds (insert d.service d registry) (insert-IsKeyed d registry k)
        (insert-IsUnique d.service d registry u)

  pub listed :
      (caps : List Capability) (registry : Dict String (Detection V)) (s : String)
      → IsKeyed registry
      → (is_active caps registry s || contains s (inactive_for caps registry))
        ≡ is_some (lookup s registry)
  unfolding active_for inactive_for
  listed caps [] s k = refl
  listed caps ((j, d) ∷ registry) s k = rw k.0 (
      ground (
        arith,
        listed caps registry s k.1,
        contains-insert_service s d.service (inactive_for caps registry),
        text_comparable.equal_iff s d.service,
        text_comparable.equal_iff d.service s,
      ))

  apart :
      (caps : List Capability) (registry : Dict String (Detection V)) (s : String)
      → IsKeyed registry
      → IsUnique registry
      → (is_active caps registry s && contains s (inactive_for caps registry)) ≡ false
  unfolding active_for inactive_for
  apart caps [] s k u = refl
  apart caps ((j, d) ∷ registry) s k u = elim (Bool-cases (s == d.service)) [
    | inl same ↦
        let here : s ≡ j = (text_comparable.equal_iff s d.service).0 same ∙ sym k.0 in
        let gone : lookup s registry ≡ none = rw (← here) at u.0 in
        ground (
          arith,
          rw gone at (listed caps registry s k.1),
          contains-insert_service s d.service (inactive_for caps registry),
        )
    | inr other ↦ ground (
      arith,
      apart caps registry s k.1 u.1,
      contains-insert_service s d.service (inactive_for caps registry),
    )
  ]

  -- Whatever detections are registered, in whatever order and however often, and whatever the
  -- capabilities of the mailbox: a service that is registered is active or named to the customer as
  -- inactive, never both; and no other service is either.
  pub active_or_inactive :
      (ds : List (Detection V)) (caps : List Capability) (s : String)
      → let registry = registered ds [] in
        ((is_active caps registry s || contains s (inactive_for caps registry))
          ≡ is_some (lookup s registry))
        × ((is_active caps registry s && contains s (inactive_for caps registry)) ≡ false)
  active_or_inactive ds caps s =
      let (k, u) = registered-IsKeyed ds [] tt tt in
      (listed caps (registered ds []) s k, apart caps (registered ds []) s k u)
