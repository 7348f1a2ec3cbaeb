-- ===== src/Prelude/Fields.antt =====
-- Bytes as fields of a word: `(hi << 8) | lo`, `x & 0xff`, and `|` of differences.
use Prim.Native.Nat.{ℕ, zero, suc, ◌+◌, ◌*◌, ◌/◌, ◌%◌, ◌^◌, ◌≤◌, ◌<◌, bit_and, bit_or}
use mathlib.Core.Path.{◌≡◌, refl, ap, ap₂}
use mathlib.Core.Logic.{◌↔◌}
use native.Mathlib.Nat.{pow-suc}
use native.Mathlib.Omega.{arith}
use noblechat.Prelude.Digits.{bit_or_step, bit_and_step}

bit_or-zero_below : (n a : ℕ) → a ≤ n → bit_or a 0 ≡ a
bit_or-zero_below n zero h = refl
bit_or-zero_below zero (suc a) h = elim h [ ]
bit_or-zero_below (suc n) (suc a) h =
    omega (arith, bit_or_step (suc a) 0, bit_or-zero_below n (suc a / 2) (omega arith))

pub bit_or-zero : (a : ℕ) → bit_or a 0 ≡ a
bit_or-zero a = bit_or-zero_below a a (omega arith)

-- A field of k bits below a number that is a multiple of 2 ^ k.
or_field : (k q r : ℕ) → r < 2 ^ k → bit_or (q * 2 ^ k) r ≡ q * 2 ^ k + r
or_field zero q zero h = omega (arith, bit_or-zero (q * 1))
or_field zero q (suc r) h = absurd (omega arith)
or_field (suc k) q r h =
    let double : 2 ^ suc k ≡ 2 ^ k * 2 = pow-suc 2 k in
    let times : q * 2 ^ suc k ≡ q * 2 ^ k * 2 = omega (arith, ap (λ (t : ℕ). q * t) double) in
    let halved : q * 2 ^ suc k / 2 ≡ q * 2 ^ k = omega (arith, times) in
    let field : bit_or (q * 2 ^ suc k / 2) (r / 2) ≡ q * 2 ^ k + r / 2 =
      rw halved (or_field k q (r / 2) (omega (arith, double))) in
    omega (arith, bit_or_step (q * 2 ^ suc k) r, field, times)

pub bit_or_byte : (hi lo : ℕ) → lo < 256 → bit_or (hi * 256) lo ≡ hi * 256 + lo
bit_or_byte hi lo h = or_field 8 hi lo h

bit_and-zero_below : (n a : ℕ) → a ≤ n → bit_and a 0 ≡ 0
bit_and-zero_below n zero h = refl
bit_and-zero_below zero (suc a) h = elim h [ ]
bit_and-zero_below (suc n) (suc a) h =
    omega (arith, bit_and_step (suc a) 0, bit_and-zero_below n (suc a / 2) (omega arith))

bit_and-zero : (a : ℕ) → bit_and a 0 ≡ 0
bit_and-zero a = bit_and-zero_below a a (omega arith)

bit_and_15 : (a : ℕ) → bit_and a 15 ≡ a % 16
bit_and_15 a = omega (
  arith,
  bit_and_step a 15,
  bit_and_step (a / 2) 7,
  bit_and_step (a / 2 / 2) 3,
  bit_and_step (a / 2 / 2 / 2) 1,
  bit_and-zero (a / 2 / 2 / 2 / 2),
)

pub bit_and_255 : (a : ℕ) → bit_and a 255 ≡ a % 256
bit_and_255 a = omega (
  arith,
  bit_and_step a 255,
  bit_and_step (a / 2) 127,
  bit_and_step (a / 2 / 2) 63,
  bit_and_step (a / 2 / 2 / 2) 31,
  bit_and_15 (a / 2 / 2 / 2 / 2),
)

or-eq-zero_below : (n a b : ℕ) → a ≤ n → b ≤ n → bit_or a b ≡ 0 → (a ≡ 0) × (b ≡ 0)
or-eq-zero_below zero a b p q h = (omega arith, omega arith)
or-eq-zero_below (suc n) a b p q h =
    let half : bit_or (a / 2) (b / 2) ≡ 0 = omega (arith, bit_or_step a b) in
    let (l, r) = or-eq-zero_below n (a / 2) (b / 2) (omega arith) (omega arith) half in
    (omega (arith, bit_or_step a b, l, r), omega (arith, bit_or_step a b, l, r))

pub bit_or-eq-zero : (a b : ℕ) → (bit_or a b ≡ 0) ↔ ((a ≡ 0) × (b ≡ 0))
bit_or-eq-zero a b =
    (or-eq-zero_below (a + b) a b (omega arith) (omega arith), λ (l, r). ap₂ bit_or l r)
