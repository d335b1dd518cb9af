-- ===== src/Util/Distance/Examples.antt =====
-- acme and amce, by the numbers of their letters.
use envelockserver.Prelude.{◌≡◌, refl, [], ◌∷◌, text_comparable, number_comparable}
use envelockserver.Util.Distance.{
  last_entry, Chars, entry, transposed, advance, entries, rows, first_row, edit_distance,
}
use envelockserver.Util.Distance.Reference.{distance}
use envelockserver.Util.Distance.Agreement.{reversed, edit_distance-distance}

abbrev pub acme : Chars
acme = b'a' ∷ b'c' ∷ b'm' ∷ b'e' ∷ []

abbrev pub amce : Chars
amce = b'a' ∷ b'm' ∷ b'c' ∷ b'e' ∷ []

reference_example : edit_distance acme amce ≡ distance (reversed acme) (reversed amce)
reference_example = edit_distance-distance acme amce

pub swapped_letters : edit_distance amce acme ≡ 1
unfolding edit_distance rows entries entry transposed advance first_row last_entry
swapped_letters = refl
