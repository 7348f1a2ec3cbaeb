-- ===== src/Prelude/Digits.antt =====
-- The native bit operations are a recursion on binary digits, on fuel. Enough fuel changes
-- nothing, so each operation has one equation for the lowest digit.
use Prim.Native.Nat.{
  ℕ, zero, suc, ◌+◌, ◌*◌, ◌/◌, ◌%◌, ◌≤◌, min, max, digits, bitwise, bit_and, bit_or,
  bit_and-bitwise, bit_or-bitwise,
}
use mathlib.Core.Path.{◌≡◌, refl}
use native.Mathlib.Nat.{le_refl}
use native.Mathlib.Omega.{arith}

module _ (rest : ℕ → ℕ) (op : ℕ → ℕ → ℕ) where
  enough : (x y f g : ℕ) → x ≤ f → x ≤ g → digits rest op f x y ≡ digits rest op g x y
  enough zero y zero zero p q = refl
  enough zero y zero (suc g) p q = refl
  enough zero y (suc f) zero p q = refl
  enough zero y (suc f) (suc g) p q = refl
  enough (suc x) y zero g p q = elim p [ ]
  enough (suc x) y (suc f) zero p q = elim q [ ]
  enough (suc x) y (suc f) (suc g) p q =
      let half = suc x / 2 in rw (enough half (y / 2) f g (omega arith) (omega arith))

  pub bitwise-suc :
      (x y : ℕ)
      → bitwise rest op (suc x) y ≡ bitwise rest op (suc x / 2) (y / 2) * 2 + op (suc x % 2) (y % 2)
  bitwise-suc x y =
      let half = suc x / 2 in omega (arith, enough half (y / 2) x half (omega arith) (le_refl half))

zero-bit_or : (b : ℕ) → bit_or 0 b ≡ b
zero-bit_or b = bit_or-bitwise 0 b

pub bit_or_step : (a b : ℕ) → bit_or a b ≡ bit_or (a / 2) (b / 2) * 2 + max (a % 2) (b % 2)
bit_or_step zero b = omega (arith, zero-bit_or b, zero-bit_or (b / 2))
bit_or_step (suc a) b = simp bit_or-bitwise (omega (arith, bitwise-suc (λ y. y) max a b))

-- `and` on the lowest digit is `min`.
pub bit_and_step : (x y : ℕ) → bit_and x y ≡ min (x % 2) (y % 2) + 2 * bit_and (x / 2) (y / 2)
bit_and_step (suc x) y = simp bit_and-bitwise (omega (arith, bitwise-suc (λ n. 0) min x y))
bit_and_step zero y = omega (arith, bit_and-bitwise 0 y, bit_and-bitwise 0 (y / 2))
