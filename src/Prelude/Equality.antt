-- ===== src/Prelude/Equality.antt =====
-- Python's `==` as an interface: an instance gives the Boolean test and says that it decides
-- equality. An enumeration gets its instance from a numbering that can be undone.
use Prim.Native.Nat.{ℕ}
use Prim.Native.String.{String}
use mathlib.Core.Path.{◌≡◌, refl, ap, sym, ◌∙◌}
use mathlib.Core.Logic.{◌↔◌, ◌≢◌}
use native.Mathlib.Omega.{arith}
use mathlib.Core.Bool.{Bool, true, false, not}
use mathlib.Core.Option.{Option, none, some, some-injective}
use text.Mathlib.Text.{◌==◌ as str_beq}
use text.Mathlib.TextEquality.{eq_iff}
use envelockserver.Prelude.Tests.{nat_beq, nat_beq_iff}

pub record Comparable {ℓ} (A : Type ℓ) : Type ℓ where
  pub equal : A → A → Bool
  pub equal_iff : (x y : A) → (equal x y ≡ true) ↔ (x ≡ y)

module _ {ℓ} {A : Type ℓ} ⦃e : Comparable A⦄ where
  infix 50 ◌==◌
  abbrev pub ◌==◌ : A → A → Bool
  x == y = e.equal x y

  pub eq_refl : (x : A) → (x == x) ≡ true
  eq_refl x = (e.equal_iff x x).1 refl

  pub ne_of_unequal : (x y : A) → (x == y) ≡ false → x ≢ y
  ne_of_unequal x y h same = ground (arith, e.equal_iff x y)

instance abbrev pub text_comparable : Comparable String
text_comparable = record { equal = str_beq; equal_iff = eq_iff }

-- Python's truth of an optional text: neither `None` nor empty.
abbrev pub truthy : Option String → Bool
truthy none = false
truthy (some s) = not (s == "")

instance abbrev pub number_comparable : Comparable ℕ
number_comparable = record { equal = nat_beq; equal_iff = nat_beq_iff }

module _ {ℓ} {A : Type ℓ} (code : A → ℕ) (decode : ℕ → Option A) where
  pub code-injective : ((a : A) → decode (code a) ≡ some a) → (a b : A) → code a ≡ code b → a ≡ b
  code-injective back a b h = some-injective _ _ (sym (back a) ∙ ap decode h ∙ back b)

  pub coded_iff :
      ((a : A) → decode (code a) ≡ some a)
      → (a b : A) → (nat_beq (code a) (code b) ≡ true) ↔ (a ≡ b)
  coded_iff back a b =
      (λ h. code-injective back a b ((nat_beq_iff _ _).0 h), λ h. (nat_beq_iff _ _).1 (ap code h))
