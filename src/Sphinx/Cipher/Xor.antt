-- ===== src/Sphinx/Cipher/Xor.antt =====
-- Laws of `xorBytes` and `eqBytes`.
use noblechat.Prelude.{
  ℕ, zero, suc, ◌≤◌, bit_or, bit_xor, [], ◌∷◌, ◌++◌, length, true, false, Bytes, zeros, arith, ◌≡◌,
  ◌↔◌, ◌≢◌, inl, inr, Bool-cases, refl, ap, ap₂, bit_xor_cancel, zero-bit_xor, bit_xor_self,
  eq_of_bit_xor, bit_or-eq-zero, ==_iff,
}
use noblechat.Sphinx.Cipher.{xor_bytes, gather_differences, eq_bytes}

pub length-xor_bytes : (a b : Bytes) → length a ≤ length b → length (xor_bytes a b) ≡ length a
unfolding xor_bytes
length-xor_bytes [] b h = refl
length-xor_bytes (x ∷ a) [] h = elim h [ ]
length-xor_bytes (x ∷ a) (y ∷ b) h = ap suc (length-xor_bytes a b (omega arith))

-- Masking twice with the same stream gives back the bytes.
pub xor_bytes_cancel : (a b : Bytes) → length a ≤ length b → xor_bytes (xor_bytes a b) b ≡ a
unfolding xor_bytes
xor_bytes_cancel [] b h = refl
xor_bytes_cancel (x ∷ a) [] h = elim h [ ]
xor_bytes_cancel (x ∷ a) (y ∷ b) h =
    ap₂ (λ (u : ℕ) (v : Bytes). u ∷ v) (bit_xor_cancel x y) (xor_bytes_cancel a b (omega arith))

pub xor_bytes-append :
    (a b c d : Bytes)
    → length a ≡ length b
    → xor_bytes (a ++ c) (b ++ d) ≡ xor_bytes a b ++ xor_bytes c d
unfolding xor_bytes
xor_bytes-append [] [] c d h = refl
xor_bytes-append [] (y ∷ b) c d h = absurd (omega arith)
xor_bytes-append (x ∷ a) [] c d h = absurd (omega arith)
xor_bytes-append (x ∷ a) (y ∷ b) c d h =
    ap (λ (v : Bytes). bit_xor x y ∷ v) (xor_bytes-append a b c d (omega arith))

pub zeros-xor_bytes : (n : ℕ) (b : Bytes) → length b ≡ n → xor_bytes (zeros n) b ≡ b
unfolding xor_bytes
zeros-xor_bytes zero [] h = refl
zeros-xor_bytes zero (y ∷ b) h = absurd (omega arith)
zeros-xor_bytes (suc n) [] h = absurd (omega arith)
zeros-xor_bytes (suc n) (y ∷ b) h =
    ap₂ (λ (u : ℕ) (v : Bytes). u ∷ v) (zero-bit_xor y) (zeros-xor_bytes n b (omega arith))

gather-eq-zero :
    (d : ℕ) (a b : Bytes)
    → length a ≡ length b
    → (gather_differences d a b ≡ 0) ↔ ((d ≡ 0) × (a ≡ b))
unfolding gather_differences
gather-eq-zero d [] [] h = ground arith
gather-eq-zero d [] (y ∷ b) h = absurd (omega arith)
gather-eq-zero d (x ∷ a) [] h = absurd (omega arith)
gather-eq-zero d (x ∷ a) (y ∷ b) h = ground (
  arith,
  gather-eq-zero (bit_or d (bit_xor x y)) a b (omega arith),
  bit_or-eq-zero d (bit_xor x y),
  eq_of_bit_xor x y,
  bit_xor_self x,
)

-- The comparison without early exit answers true exactly on equal byte arrays.
pub eq_bytes_iff : (a b : Bytes) → (eq_bytes a b ≡ true) ↔ (a ≡ b)
unfolding eq_bytes
eq_bytes_iff a b = ground (arith, gather-eq-zero 0 a b, ==_iff (length a) (length b))

pub eq_bytes-eq-false : (a b : Bytes) → a ≢ b → eq_bytes a b ≡ false
eq_bytes-eq-false a b h = elim (Bool-cases (eq_bytes a b)) [
  | inl same ↦ absurd (h ((eq_bytes_iff a b).0 same))
  | inr other ↦ other
]
