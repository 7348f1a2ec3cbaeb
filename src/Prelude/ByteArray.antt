-- ===== src/Prelude/ByteArray.antt =====
-- Byte arrays as lists of numbers: reads, slices and `xorBytes`.
use Prim.Native.Nat.{ℕ, zero, suc, ◌+◌, ◌-◌, ◌<◌}
use mathlib.Core.Path.{◌≡◌, refl, ap}
use mathlib.Core.List.{List, [], ◌∷◌, ◌++◌}
use native.Mathlib.Omega.{arith}
use noblechat.Prelude.Lists.{
  length, take, drop, replicate, All, take-append_length, drop-append_length,
}

abbrev pub Bytes : Type 0
Bytes = List ℕ

abbrev pub IsByte : ℕ → Type 0
IsByte b = b < 256

-- `bytes[i]` where the program has checked the index; 0 beyond the end.
abbrev pub byte_at : Bytes → ℕ → ℕ
byte_at [] i = 0
byte_at (b ∷ bs) zero = b
byte_at (b ∷ bs) (suc i) = byte_at bs i

-- `subarray(from, to)`, `slice(from, to)`
abbrev pub slice {ℓ} : {A : Type ℓ} → ℕ → ℕ → List A → List A
slice from to xs = take (to - from) (drop from xs)

-- `new Uint8Array(n)`
abbrev pub zeros : ℕ → Bytes
zeros n = replicate n 0

pub byte_at-append : (pre bs : Bytes) (i : ℕ) → byte_at (pre ++ bs) (length pre + i) ≡ byte_at bs i
byte_at-append [] bs i = ap (byte_at bs) (omega arith)
byte_at-append (b ∷ pre) bs i =
    let shift : suc (length pre) + i ≡ suc (length pre + i) = omega arith in
    rw shift (byte_at-append pre bs i)

pub byte_at-append_length : (pre bs : Bytes) → byte_at (pre ++ bs) (length pre) ≡ byte_at bs 0
byte_at-append_length [] bs = refl
byte_at-append_length (b ∷ pre) bs = byte_at-append_length pre bs

module _ {ℓ} {A : Type ℓ} where
  -- A slice that starts behind a prefix and holds exactly the next part.
  pub slice-append :
      (pre f rest : List A) (from to : ℕ)
      → from ≡ length pre
      → to ≡ length pre + length f
      → slice from to (pre ++ (f ++ rest)) ≡ f
  slice-append pre f rest from to p q =
      let size : to - from ≡ length f = omega arith in
      rw (size, p, drop-append_length) (take-append_length f rest)

  pub drop-append : (pre xs : List A) (i : ℕ) → drop (length pre + i) (pre ++ xs) ≡ drop i xs
  drop-append [] xs i = ap (λ (n : ℕ). drop n xs) (omega arith)
  drop-append (x ∷ pre) xs i =
      let shift : suc (length pre) + i ≡ suc (length pre + i) = omega arith in
      rw shift (drop-append pre xs i)

pub drop-byte_at : (bs : Bytes) (i : ℕ) → i < length bs → drop i bs ≡ byte_at bs i ∷ drop (suc i) bs
drop-byte_at [] i h = elim h [ ]
drop-byte_at (b ∷ bs) zero h = refl
drop-byte_at (b ∷ bs) (suc i) h = drop-byte_at bs i (omega arith)

pub byte_at-IsByte : (bs : Bytes) (i : ℕ) → All IsByte bs → IsByte (byte_at bs i)
byte_at-IsByte [] i h = omega arith
byte_at-IsByte (b ∷ bs) zero h = h.0
byte_at-IsByte (b ∷ bs) (suc i) h = byte_at-IsByte bs i h.1
