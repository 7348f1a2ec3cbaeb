-- ===== src/Prelude/Xor.antt =====
-- Exclusive or of numbers: one equation for the lowest digit, and the law of cancellation.
use Prim.Native.Nat.{
  ℕ, zero, suc, ◌+◌, ◌*◌, ◌/◌, ◌%◌, ◌≤◌, ◌<◌, ◌^◌, differ, bit_xor, bit_xor-bitwise,
}
use mathlib.Core.Path.{◌≡◌, refl, sym, ap, ◌∙◌}
use native.Mathlib.Nat.{pow-suc}
use native.Mathlib.Omega.{arith}
use noblechat.Prelude.Digits.{bitwise-suc}

pub zero-bit_xor : (b : ℕ) → bit_xor 0 b ≡ b
zero-bit_xor b = bit_xor-bitwise 0 b

differ-mod : (x y : ℕ) → x < 2 → y < 2 → differ x y ≡ (x + y) % 2
differ-mod zero zero p q = refl
differ-mod zero (suc zero) p q = refl
differ-mod (suc zero) zero p q = refl
differ-mod (suc zero) (suc zero) p q = refl
differ-mod (suc (suc x)) y p q = absurd (omega arith)
differ-mod zero (suc (suc y)) p q = absurd (omega arith)
differ-mod (suc zero) (suc (suc y)) p q = absurd (omega arith)

bit_xor_step : (a b : ℕ) → bit_xor a b ≡ bit_xor (a / 2) (b / 2) * 2 + (a + b) % 2
bit_xor_step zero b = omega (arith, zero-bit_xor b, zero-bit_xor (b / 2))
bit_xor_step (suc a) b = simp bit_xor-bitwise (
    omega (
      arith,
      bitwise-suc (λ y. y) differ a b,
      differ-mod (suc a % 2) (b % 2) (omega arith) (omega arith),
    ))

bit_xor-div : (a b : ℕ) → bit_xor a b / 2 ≡ bit_xor (a / 2) (b / 2)
bit_xor-div a b = omega (arith, bit_xor_step a b)

xor_cancel_below : (n a b : ℕ) → a ≤ n → b ≤ n → bit_xor (bit_xor a b) b ≡ a
xor_cancel_below zero zero zero p q = refl
xor_cancel_below zero (suc a) b p q = absurd (omega arith)
xor_cancel_below zero zero (suc b) p q = absurd (omega arith)
xor_cancel_below (suc n) a b p q =
    let half : bit_xor (bit_xor a b / 2) (b / 2) ≡ a / 2 =
      rw (bit_xor-div a b) (xor_cancel_below n (a / 2) (b / 2) (omega arith) (omega arith)) in
    omega (arith, bit_xor_step (bit_xor a b) b, bit_xor_step a b, half)

-- Exclusive or with one value twice gives back the other.
pub bit_xor_cancel : (a b : ℕ) → bit_xor (bit_xor a b) b ≡ a
bit_xor_cancel a b = xor_cancel_below (a + b) a b (omega arith) (omega arith)

pub bit_xor-lt : (k a b : ℕ) → a < 2 ^ k → b < 2 ^ k → bit_xor a b < 2 ^ k
bit_xor-lt zero zero zero p q = omega arith
bit_xor-lt zero (suc a) b p q = absurd (omega arith)
bit_xor-lt zero zero (suc b) p q = absurd (omega arith)
bit_xor-lt (suc k) a b p q =
    let double : 2 ^ suc k ≡ 2 ^ k * 2 = pow-suc 2 k in
    omega (
      arith,
      double,
      bit_xor_step a b,
      bit_xor-lt k (a / 2) (b / 2) (omega (arith, double)) (omega (arith, double)),
    )

xor-eq-zero_below : (n a b : ℕ) → a ≤ n → b ≤ n → bit_xor a b ≡ 0 → a ≡ b
xor-eq-zero_below zero a b p q h = omega arith
xor-eq-zero_below (suc n) a b p q h = omega (
  arith,
  bit_xor_step a b,
  xor-eq-zero_below n (a / 2) (b / 2) (omega arith) (omega arith) (omega (arith, bit_xor_step a b)),
)

pub eq_of_bit_xor : (a b : ℕ) → bit_xor a b ≡ 0 → a ≡ b
eq_of_bit_xor a b = xor-eq-zero_below (a + b) a b (omega arith) (omega arith)

pub bit_xor_self : (a : ℕ) → bit_xor a a ≡ 0
bit_xor_self a = ap (λ (x : ℕ). bit_xor x a) (sym (zero-bit_xor a)) ∙ bit_xor_cancel 0 a
