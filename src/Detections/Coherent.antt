-- ===== src/Detections/Coherent.antt =====
-- What every detection of group C keeps: at most one finding, under its own name, with a score that
-- fits its tier.
use envelockserver.Prelude.{
  ℕ, String, Bool, ◌&&◌, List, leb, if◌then◌else◌, ◌==◌, text_comparable, number_comparable, length,
  all,
}
use envelockserver.Core.Enums.{
  source_mechanism_eq, mailbox_class_eq, protection_level_eq, alert_tier_eq, identity_event_kind_eq,
  AlertTier, low, medium, high, critical,
}
use envelockserver.Risk.Engine.{FindingResult}

-- The tier that a score stands for in group C.
abbrev pub tier_of : ℕ → AlertTier
tier_of score =
    if leb 95 score
    then critical
    else if leb 65 score
    then high
    else if leb 40 score
    then medium
    else low

-- Under the name of its detection, with a score of at most 100 and the tier of its score.
abbrev pub coherent : String → FindingResult → Bool
coherent service f = f.service == service && leb f.score 100 && f.tier == tier_of f.score

-- At most one finding, and a coherent one.
abbrev pub speaks : String → List FindingResult → Bool
speaks service fs = leb (length fs) 1 && all (coherent service) fs
