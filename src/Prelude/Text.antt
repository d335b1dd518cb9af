-- ===== src/Prelude/Text.antt =====
-- What the program does with texts: Python's `in`, slices, `split` at a separator, joins and the
-- emptiness of an optional text.
use Prim.Native.String.{◌∷◌ as char_then, [] as no_text, ◌++◌ as join_text}
use text.Mathlib.Text.{find?, starts_with}
use envelockserver.Prelude.{
  ℕ, zero, suc, String, Bool, ◌||◌, Option, none, some, List, [], ◌∷◌, if◌then◌else◌, is_some, ◌==◌,
  text_comparable, number_comparable, any,
}
use envelockserver.Prelude.Dict.{Dict}

-- `needle in text`
abbrev pub has_text : String → String → Bool
has_text needle text = is_some (find? text needle)

-- `any(word in text for word in words)`
abbrev pub has_any : List String → String → Bool
has_any words text = any (λ word. has_text word text) words

-- `text[:n]`
pub first_chars : ℕ → String → String
first_chars zero text = ""
first_chars (suc n) no_text = ""
first_chars (suc n) (char_then c text) = char_then c (first_chars n text)

pub concat : List String → String
concat [] = ""
concat (t ∷ ts) = join_text t (concat ts)

-- `text or default`
abbrev pub text_or : String → Option String → String
text_or default none = default
text_or default (some text) = if text == "" then default else text

-- A text as an f-string shows it: the word None for none.
abbrev pub shown : Option String → String
shown none = "None"
shown (some text) = text

-- The entries of a dictionary display whose value is a text.
abbrev pub texts : List (String × Option String) → Dict String String
texts [] = []
texts ((k, none) ∷ rest) = texts rest
texts ((k, some v) ∷ rest) = (k, v) ∷ texts rest

abbrev pub is_prefix : String → String → Bool
is_prefix prefix text = starts_with text prefix

-- `text.endswith(suffix)`
unfoldable pub ends_with : String → String → Bool
ends_with suffix no_text = suffix == ""
ends_with suffix (char_then c text) = char_then c text == suffix || ends_with suffix text

abbrev pub ends_with_any : List String → String → Bool
ends_with_any suffixes text = any (λ suffix. ends_with suffix text) suffixes

drop_chars : ℕ → String → String
drop_chars zero text = text
drop_chars (suc n) no_text = no_text
drop_chars (suc n) (char_then c text) = drop_chars n text

-- `text.split(sep, 1)[0]`
pub before_first : String → String → String
before_first sep no_text = ""
before_first sep (char_then c text) =
    let rest = before_first sep text in
    if is_prefix sep (char_then c text) then "" else char_then c rest

after_found : ℕ → String → String → Option String
unfolding drop_chars
after_found n sep no_text = none
after_found n sep (char_then c text) =
    let rest = after_found n sep text in
    if is_prefix sep (char_then c text) then some (drop_chars n (char_then c text)) else rest

found_or : String → Option String → String
found_or text none = text
found_or text (some rest) = rest

-- `text.split(sep, 1)[-1]`, for a separator of `n` characters.
pub after_first : ℕ → String → String → String
unfolding after_found found_or
after_first n sep text = found_or text (after_found n sep text)

-- `text.split(sep)[-1]`, for a separator of one character.
pub after_last : String → String → String
unfolding found_or drop_chars
after_last sep no_text = ""
after_last sep (char_then c text) =
    let rest = after_last sep text in
    if is_some (find? text sep)
    then rest
    else if is_prefix sep (char_then c text)
    then text
    else char_then c text
