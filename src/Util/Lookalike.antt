-- ===== src/Util/Lookalike.antt =====
-- util/domains.py: `label` and `classify_lookalike`. The public-suffix rules behind `registrable_domain` and
-- the Unicode tables behind `skeleton` are parameters; a similarity is a fraction.
mod Verdicts
mod Examples
use Prim.Native.Nat.{max}
use envelockserver.Prelude.{
  ℕ, ◌-◌, Bool, true, false, ◌&&◌, ◌||◌, Option, none, some, [], ◌∷◌, leb, if◌then◌else◌, ◌==◌,
  text_comparable, number_comparable, length,
}
use envelockserver.Util.Distance.{Chars, chars_eq, edit_distance}

pub data Technique : Type 0 where
  tld_swap homoglyph cousin typosquat : Technique

-- A numerator and a denominator.
abbrev pub Similarity : Type 0
Similarity = ℕ × ℕ

-- `registrable_domain` and `skeleton`
pub record DomainRules : Type 0 where
  pub registrable_domain : Chars → Chars
  pub skeleton : Chars → Chars

-- `text.partition(".")[0]`
before_dot : Chars → Chars
before_dot [] = []
before_dot (c ∷ text) = let rest = before_dot text in if c == b'.' then [] else c ∷ rest

pub label : DomainRules → Chars → Chars
unfolding before_dot
label rules domain = before_dot (rules.registrable_domain domain)

starts : Chars → Chars → Bool
starts [] text = true
starts (c ∷ prefix) [] = false
starts (c ∷ prefix) (d ∷ text) = c == d && starts prefix text

-- `needle in text`
pub has_part : Chars → Chars → Bool
unfolding starts
has_part needle [] = starts needle []
has_part needle (c ∷ text) = starts needle (c ∷ text) || has_part needle text

pub edit_threshold : Chars → ℕ
edit_threshold protected = if leb (length protected) 6 then 1 else 2

-- The ladder of tests, on the two labels.
pub classify_labels : DomainRules → (candidate protected : Chars) → Option (Technique × Similarity)
unfolding has_part edit_threshold
classify_labels rules candidate protected =
    let apart = edit_distance candidate protected in
    let longest = max (length candidate) (length protected) in
    if chars_eq candidate protected
    then some (tld_swap, (95, 100))
    else if chars_eq (rules.skeleton candidate) (rules.skeleton protected)
    then some (homoglyph, (98, 100))
    else if has_part protected candidate && leb 4 (length protected)
    then some (cousin, (85, 100))
    else if leb apart (edit_threshold protected)
    then some (typosquat, (longest - apart, longest))
    else none

pub is_empty : Chars → Bool
is_empty [] = true
is_empty (c ∷ text) = false

pub classify_lookalike :
    DomainRules → (candidate protected : Chars) → Option (Technique × Similarity)
unfolding label is_empty classify_labels
classify_lookalike rules candidate protected =
    let candidate_domain = rules.registrable_domain candidate in
    let protected_domain = rules.registrable_domain protected in
    if is_empty candidate_domain
      || is_empty protected_domain
      || chars_eq candidate_domain protected_domain
    then none
    else classify_labels rules (label rules candidate_domain) (label rules protected_domain)
