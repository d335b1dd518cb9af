-- ===== src/Core/Capabilities/Advice.antt =====
-- What `protection_advice` tells the customer is true and sufficient.
use envelockserver.Prelude.{
  suc, ◌≤◌, ◌≡◌, refl, ◌∙◌, true, false, not, List, [], ◌∷◌, ◌++◌, map, some, arith, contains,
  contains-append, contains-filter, subset, filter, All, length, Bool-cases, inl, inr, ◌≢◌,
}
use envelockserver.Core.Enums.{
  SourceMechanism, ProtectionLevel, full, standard, limited, source_mechanism_eq, graph_api,
}
use envelockserver.Core.Capabilities.{
  Capability, capability_eq, capability_iff, capabilities_for, protection_level, read_inbound,
  full_requirements, standard_requirements, Missing, sources_granting, all_mechanisms, describe,
  missing_for, advise, protection_advice,
}
use envelockserver.Core.Capabilities.Coverage.{rank, grants}

abbrev pub named : List Missing → List Capability
named = map (λ m. m.capability)

named-missing_for :
    (required caps : List Capability)
    → named (missing_for required caps) ≡ filter (λ c. not (contains c caps)) required
unfolding missing_for
named-missing_for [] caps = refl
named-missing_for (c ∷ required) caps = ground (arith, named-missing_for required caps)

-- Requirements that are there, or are among the missing ones, are all met.
subset_of_completed :
    (required caps all_caps : List Capability)
    → ((c : Capability) → contains c caps ≡ true → contains c all_caps ≡ true)
    → ((c : Capability)
        → contains c (filter (λ x. not (contains x caps)) required) ≡ true
        → contains c all_caps ≡ true)
    → subset required all_caps ≡ true
subset_of_completed [] caps all_caps old new = refl
subset_of_completed (c ∷ required) caps all_caps old new = elim (Bool-cases (contains c caps)) [
  | inl held ↦
      ground
        (arith, old c, subset_of_completed required caps all_caps old (λ x h. new x (rw held h)))
  | inr absent ↦ ground (
    arith,
    capability_iff c c,
    new c,
    subset_of_completed required caps all_caps old (λ x h. new x (rw absent (rw h (ground arith)))),
  )
]

subset-append_missing :
    (required caps : List Capability)
    → subset required (caps ++ named (missing_for required caps)) ≡ true
subset-append_missing required caps =
    let extra = missing_for required caps in
    subset_of_completed required caps (caps ++ named extra)
      (λ c h. contains-append c caps (named extra) ∙ rw h refl)
      λ c h.
        contains-append c caps (named extra)
        ∙ (rw (named-missing_for required caps, h) (ground arith))

full_of_subset :
    (caps : List Capability)
    → subset full_requirements caps ≡ true
    → rank full ≤ rank (protection_level caps)
unfolding protection_level
full_of_subset caps h = rw h (omega arith)

standard_of_subset :
    (caps : List Capability)
    → subset standard_requirements caps ≡ true
    → rank standard ≤ rank (protection_level caps)
unfolding protection_level
standard_of_subset caps h = elim (Bool-cases (subset full_requirements caps)) [
  | inl everything ↦ rw everything (omega arith)
  | inr some_missing ↦ rw (some_missing, h) (omega arith)
]

advise_reaches_next :
    (caps : List Capability) (l : ProtectionLevel)
    → let a = advise (protection_level caps) caps in
      a.next_level ≡ some l
      → (rank l ≡ suc (rank a.level)) × (rank l ≤ rank (protection_level (caps ++ named a.missing)))
unfolding advise
advise_reaches_next caps l = go (protection_level caps)
  where
    go :
        (level : ProtectionLevel)
        → (advise level caps).next_level ≡ some l
        → (rank l ≡ suc (rank (advise level caps).level))
          × (rank l ≤ rank (protection_level (caps ++ named (advise level caps).missing)))
    go full h = cc
    go standard h =
        let e : full ≡ l = ground arith in
        rw (← e) (refl, full_of_subset _ (subset-append_missing full_requirements caps))
    go limited h =
        let e : standard ≡ l = ground arith in
        rw (← e) (refl, standard_of_subset _ (subset-append_missing standard_requirements caps))

-- The advice names the level one above the present one, and a mailbox that gains the missing
-- capabilities it lists reaches that level.
pub protection_advice_reaches_next :
    (sources : List SourceMechanism) (l : ProtectionLevel)
    → let a = protection_advice sources in
      a.next_level ≡ some l
      → (rank l ≡ suc (rank a.level))
        × (rank l ≤ rank (protection_level (capabilities_for sources ++ named a.missing)))
unfolding protection_advice
protection_advice_reaches_next sources = advise_reaches_next (capabilities_for sources)

-- What is said of one missing capability.
abbrev pub IsHonest : List Capability → Missing → Type 0
IsHonest caps m =
    (contains m.capability caps ≡ false)
    × (length m.provided_by ≢ 0)
    × ((s : SourceMechanism) → contains s m.provided_by ≡ grants m.capability s)

length-sources_granting : (c : Capability) → length (sources_granting c) ≢ 0
unfolding sources_granting
length-sources_granting read_inbound = omega arith
length-sources_granting _ = omega arith

contains-all_mechanisms : (s : SourceMechanism) → contains s all_mechanisms ≡ true
contains-all_mechanisms graph_api = refl
contains-all_mechanisms _ = refl

contains-sources_granting :
    (c : Capability) (s : SourceMechanism) → contains s (sources_granting c) ≡ grants c s
unfolding sources_granting
contains-sources_granting c s =
    contains-filter (grants c) s all_mechanisms ∙ (rw (contains-all_mechanisms s) refl)

describe-IsHonest :
    (caps : List Capability) (c : Capability) → contains c caps ≡ false → IsHonest caps (describe c)
unfolding describe
describe-IsHonest caps c absent = (absent, length-sources_granting c, contains-sources_granting c)

missing_for-IsHonest :
    (required caps : List Capability) → All (IsHonest caps) (missing_for required caps)
unfolding missing_for
missing_for-IsHonest [] caps = tt
missing_for-IsHonest (c ∷ required) caps = elim (Bool-cases (contains c caps)) [
  | inl held ↦ rw held (missing_for-IsHonest required caps)
  | inr absent ↦ rw absent (describe-IsHonest caps c absent, missing_for-IsHonest required caps)
]

advise-IsHonest :
    (level : ProtectionLevel) (caps : List Capability)
    → All (IsHonest caps) (advise level caps).missing
unfolding advise
advise-IsHonest full caps = tt
advise-IsHonest standard caps = missing_for-IsHonest full_requirements caps
advise-IsHonest limited caps = missing_for-IsHonest standard_requirements caps

-- Each capability that the advice lists is one the mailbox does not have, at least one source is
-- named for it, and the named sources are exactly those that grant it.
pub protection_advice-IsHonest :
    (sources : List SourceMechanism)
    → All (IsHonest (capabilities_for sources)) (protection_advice sources).missing
unfolding protection_advice
protection_advice-IsHonest sources =
    advise-IsHonest (protection_level (capabilities_for sources)) (capabilities_for sources)
