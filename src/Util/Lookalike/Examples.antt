-- ===== src/Util/Lookalike/Examples.antt =====
-- amce.com beside acme.com.
use envelockserver.Prelude.{
  ◌≡◌, refl, ap, ◌≢◌, true, false, [], ◌∷◌, arith, is_some, text_comparable, number_comparable,
}
use envelockserver.Util.Distance.{Chars, chars_eq}
use envelockserver.Util.Distance.Examples.{swapped_letters}
use envelockserver.Util.Lookalike.{before_dot, label, is_empty, classify_lookalike, DomainRules}
use envelockserver.Util.Lookalike.Verdicts.{chars_eq_refl, classify_lookalike_near}

abbrev plain : DomainRules
plain = record { registrable_domain = λ d. d; skeleton = λ d. d }

abbrev genuine : Chars
genuine = b'a' ∷ b'c' ∷ b'm' ∷ b'e' ∷ b'.' ∷ b'c' ∷ b'o' ∷ b'm' ∷ []

abbrev typo : Chars
typo = b'a' ∷ b'm' ∷ b'c' ∷ b'e' ∷ b'.' ∷ b'c' ∷ b'o' ∷ b'm' ∷ []

near_example : is_some (classify_lookalike plain typo genuine) ≡ true
unfolding label before_dot is_empty
near_example =
    classify_lookalike_near plain typo genuine refl refl (ne_of_heads typo genuine refl)
      (omega (arith, swapped_letters))
  where
    ne_of_heads : (a b : Chars) → chars_eq a b ≡ false → a ≢ b
    ne_of_heads a b h same = ground (arith, chars_eq_refl a, ap (λ c. chars_eq a c) same)
