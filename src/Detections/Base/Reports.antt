-- ===== src/Detections/Base/Reports.antt =====
-- What `run_all` reports when each registered detection speaks for itself.
use envelockserver.Prelude.{
  ℕ, ◌+◌, ◌≤◌, String, ◌≡◌, refl, sym, ◌∙◌, inl, inr, Bool, true, none, List, [], ◌∷◌, ◌++◌, arith,
  if◌then◌else◌, Bool-cases, ◌==◌, eq_refl, text_comparable, number_comparable, All, length, any,
  all, length-append, All-append, subset,
}
use envelockserver.Prelude.Dict.{Dict, lookup, insert, IsUnique}
use envelockserver.Core.Enums.{
  source_mechanism_eq, mailbox_class_eq, protection_level_eq, alert_tier_iff, alert_tier_eq,
  identity_event_kind_eq,
}
use envelockserver.Core.Capabilities.{Capability, capability_eq}
use envelockserver.Risk.Engine.{FindingResult}
use envelockserver.Detections.Context.{DetectionContext}
use envelockserver.Detections.Base.{
  register, active_for, evaluate_all, run_all, registered, Detection,
}
use envelockserver.Detections.Base.Registry.{is_active, IsKeyed, registered-IsKeyed, listed}
use envelockserver.Detections.Coherent.{tier_of, coherent, speaks}

-- A finding with a score of at most 100, the tier of its score and the name of an active detection.
pub record IsSound (names : String → Bool) (f : FindingResult) : Type 0 where
  pub bounded : f.score ≤ 100
  pub fits : f.tier ≡ tier_of f.score
  pub named : names f.service ≡ true

coherent-IsSound :
    (names : String → Bool) (service : String) (fs : List FindingResult)
    → names service ≡ true
    → all (coherent service) fs ≡ true
    → All (IsSound names) fs
coherent-IsSound names service [] h c = tt
coherent-IsSound names service (f ∷ fs) h c = (
  record {
    bounded = ground arith;
    fits = ground (arith, alert_tier_iff f.tier (tier_of f.score));
    named =
        let same : f.service ≡ service =
          (text_comparable.equal_iff f.service service).0 (ground arith) in
        rw same h;
  },
  coherent-IsSound names service fs h (ground arith),
)

-- How many of the findings bear the name of the service.
abbrev pub reports : String → List FindingResult → ℕ
reports s [] = 0
reports s (f ∷ fs) = (if f.service == s then 1 else 0) + reports s fs

reports-append :
    (s : String) (fs gs : List FindingResult) → reports s (fs ++ gs) ≡ reports s fs + reports s gs
reports-append s [] gs = omega arith
reports-append s (f ∷ fs) gs = omega (arith, reports-append s fs gs)

reports-speaks :
    (s service : String) (fs : List FindingResult)
    → speaks service fs ≡ true
    → reports s fs ≤ (if s == service then 1 else 0)
reports-speaks s service [] h = ground arith
reports-speaks s service (f ∷ []) h = ground (
  arith,
  text_comparable.equal_iff f.service service,
  text_comparable.equal_iff f.service s,
  text_comparable.equal_iff s service,
)
reports-speaks s service (f ∷ g ∷ fs) h = ground arith

module _ {V : Type 0} (ctx : DetectionContext V) where
  abbrev pub AllSpeak : List (Detection V) → Type 0
  AllSpeak = All (λ d. speaks d.service (d.evaluate ctx) ≡ true)

  registered-AllSpeak :
      (ds : List (Detection V)) (registry : Dict String (Detection V))
      → AllSpeak ds
      → All (λ e. speaks e.1.service (e.1.evaluate ctx) ≡ true) registry
      → All (λ e. speaks e.1.service (e.1.evaluate ctx) ≡ true) (registered ds registry)
  unfolding registered register
  registered-AllSpeak [] registry h k = k
  registered-AllSpeak (d ∷ ds) registry h k =
      registered-AllSpeak ds (insert d.service d registry) h.1 (insert-Speaks d registry h.0 k)
    where
      insert-Speaks :
          (d : Detection V) (registry : Dict String (Detection V))
          → speaks d.service (d.evaluate ctx) ≡ true
          → All (λ e. speaks e.1.service (e.1.evaluate ctx) ≡ true) registry
          → All (λ e. speaks e.1.service (e.1.evaluate ctx) ≡ true) (insert d.service d registry)
      insert-Speaks d [] h k = (h, tt)
      insert-Speaks d ((j, c) ∷ registry) h k = elim (Bool-cases (j == d.service)) [
        | inl same ↦ rw same (h, k.1)
        | inr other ↦ rw other (k.0, insert-Speaks d registry h k.1)
      ]

  active_for-AllSpeak :
      (caps : List Capability) (registry : Dict String (Detection V))
      → All (λ e. speaks e.1.service (e.1.evaluate ctx) ≡ true) registry
      → AllSpeak (active_for caps registry)
  unfolding active_for
  active_for-AllSpeak caps [] h = tt
  active_for-AllSpeak caps ((j, d) ∷ registry) h = elim (Bool-cases (subset d.requires caps)) [
    | inl active ↦ rw active (h.0, active_for-AllSpeak caps registry h.1)
    | inr other ↦ rw other (active_for-AllSpeak caps registry h.1)
  ]

  evaluate_all-IsSound :
      (names : String → Bool) (ds : List (Detection V))
      → ((s : String) → any (λ d. s == d.service) ds ≡ true → names s ≡ true)
      → AllSpeak ds
      → All (IsSound names) (evaluate_all ctx ds) × (length (evaluate_all ctx ds) ≤ length ds)
  unfolding evaluate_all
  evaluate_all-IsSound names [] known h = (tt, omega arith)
  evaluate_all-IsSound names (d ∷ ds) known h =
      let (sound, few) = evaluate_all-IsSound names ds (λ s inside. known s (ground arith)) h.1 in
      (
        All-append (IsSound names) (d.evaluate ctx) (evaluate_all ctx ds)
            (coherent-IsSound names d.service (d.evaluate ctx)
              (known d.service (rw (eq_refl d.service) refl)) (ground arith))
            sound,
        ground (arith, few, length-append (d.evaluate ctx) (evaluate_all ctx ds)),
      )

  -- The keys of the registry are the names of its detections, so that no two of them share a name.
  reports_once :
      (caps : List Capability) (registry : Dict String (Detection V)) (s : String)
      → IsKeyed registry
      → IsUnique registry
      → All (λ e. speaks e.1.service (e.1.evaluate ctx) ≡ true) registry
      → reports s (evaluate_all ctx (active_for caps registry))
        ≤ (if is_active caps registry s then 1 else 0)
  unfolding active_for evaluate_all
  reports_once caps [] s k u h = omega arith
  reports_once caps ((j, d) ∷ registry) s k u h =
      let rest = reports_once caps registry s k.1 u.1 h.1 in
      let here = reports-speaks s d.service (d.evaluate ctx) h.0 in
      let both = reports-append s (d.evaluate ctx) (evaluate_all ctx (active_for caps registry)) in
      elim (Bool-cases (subset d.requires caps)) [
        | inl active ↦ elim (Bool-cases (s == d.service)) [
          | inl same ↦
              let one : s ≡ j = (text_comparable.equal_iff s d.service).0 same ∙ sym k.0 in
              let gone : lookup s registry ≡ none = rw (← one) at u.0 in
              let silent = rw gone at (listed caps registry s k.1) in
              rw active (ground (arith, rest, here, both, silent))
          | inr other ↦ rw active (ground (arith, rest, here, both))
        ]
        | inr idle ↦ rw idle rest
      ]

  pub run_all-IsSound :
      (ds : List (Detection V)) (s : String)
      → AllSpeak ds
      → let registry = registered ds [] in
        All (IsSound (is_active ctx.capabilities registry)) (run_all registry ctx)
        × (reports s (run_all registry ctx)
            ≤ (if is_active ctx.capabilities registry s then 1 else 0))
        × (length (run_all registry ctx) ≤ length (active_for ctx.capabilities registry))
  unfolding run_all
  run_all-IsSound ds s h =
      let registry = registered ds [] in
      let (keyed, unique) = registered-IsKeyed ds [] tt tt in
      let spoken = registered-AllSpeak ds [] h tt in
      let (sound, few) =
        evaluate_all-IsSound (is_active ctx.capabilities registry)
          (active_for ctx.capabilities registry) (λ s inside. inside)
          (active_for-AllSpeak ctx.capabilities registry spoken) in
      (sound, reports_once ctx.capabilities registry s keyed unique spoken, few)
