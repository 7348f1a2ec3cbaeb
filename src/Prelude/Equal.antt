-- ===== src/Prelude/Equal.antt =====
-- `===` as an interface, with its instances for numbers and for JavaScript strings.
use Prim.Native.Nat.{ℕ}
use Prim.Native.Char.{code}
use Prim.Native.String.{String}
use mathlib.Core.Path.{◌≡◌, refl}
use mathlib.Core.Logic.{◌↔◌, ◌≢◌}
use mathlib.Core.Bool.{Bool, true, false, ◌&&◌}
use mathlib.Core.List.{List, [], ◌∷◌}
use native.Mathlib.Omega.{arith}
use noblechat.Prelude.Tests.{◌==◌, ==_iff}

pub record Eq {ℓ} (A : Type ℓ) : Type ℓ where
  pub beq : A → A → Bool
  pub beq_iff : (x y : A) → (beq x y ≡ true) ↔ (x ≡ y)

infix 50 ◌===◌
abbrev pub ◌===◌ {ℓ} : {A : Type ℓ} ⦃e : Eq A⦄ → A → A → Bool
◌===◌ ⦃e⦄ = e.beq

module _ {ℓ} {A : Type ℓ} ⦃e : Eq A⦄ where
  pub ===_iff : (a b : A) → ((a === b) ≡ true) ↔ (a ≡ b)
  ===_iff a b = e.beq_iff a b

  pub ===_refl : (a : A) → (a === a) ≡ true
  ===_refl a = (e.beq_iff a a).1 refl

  pub ===-eq-false : (a b : A) → a ≢ b → (a === b) ≡ false
  ===-eq-false a b h = ground (arith, e.beq_iff a b)

abbrev pub ℕ_beq : ℕ → ℕ → Bool
ℕ_beq a b = a == b

instance abbrev pub ℕ_eq : Eq ℕ
ℕ_eq = record { beq = ℕ_beq; beq_iff = ==_iff }

-- A JavaScript string is the list of its UTF-16 code units.
abbrev pub JsString : Type 0
JsString = List ℕ

abbrev pub text : String → JsString
text String.[] = []
text (String.◌∷◌ c s) = code c ∷ text s

abbrev pub text_beq : JsString → JsString → Bool
text_beq [] [] = true
text_beq [] (b ∷ v) = false
text_beq (a ∷ u) [] = false
text_beq (a ∷ u) (b ∷ v) = a == b && text_beq u v

pub text_beq_iff : (u v : JsString) → (text_beq u v ≡ true) ↔ (u ≡ v)
text_beq_iff [] [] = ground arith
text_beq_iff [] (b ∷ v) = ground arith
text_beq_iff (a ∷ u) [] = ground arith
text_beq_iff (a ∷ u) (b ∷ v) = ground (arith, text_beq_iff u v)

instance abbrev pub text_eq : Eq JsString
text_eq = record { beq = text_beq; beq_iff = text_beq_iff }
