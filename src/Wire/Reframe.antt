-- ===== src/Wire/Reframe.antt =====
-- What `unpack` accepts is what `pack` writes: there is one frame for a list of fields.
use noblechat.Prelude.{
  ℕ, zero, suc, ◌+◌, ◌-◌, ◌*◌, ◌/◌, ◌≤◌, bit_and, List, [], ◌∷◌, ◌++◌, length, ltb, Bytes, byte_at,
  slice, ok, >>=-eq-ok, ◌≡◌, refl, sym, ap, ◌∙◌, arith, false, Bool-cases, inl, inr, bit_and_255,
  bit_or_byte, take, drop, All, IsByte, length-take, length-drop, take_add, drop_add, drop-byte_at,
  byte_at-IsByte, ltb-eq-false,
}
use noblechat.Wire.{pack, unpack, unpack_from, read_length}

-- The bytes that a list of fields takes in a frame.
abbrev pub frame_size : List Bytes → ℕ
frame_size [] = 0
frame_size (f ∷ fields) = 2 + length f + frame_size fields

module _ (bytes : Bytes) (valid : All IsByte bytes) (off : ℕ) where
  read_length_parts : read_length bytes off ≡ byte_at bytes off * 256 + byte_at bytes (off + 1)
  unfolding read_length
  read_length_parts = bit_or_byte _ _ (byte_at-IsByte bytes (off + 1) valid)

  unpack_from-suc :
      (n : ℕ) (fields : List Bytes)
      → unpack_from bytes off (suc n) ≡ ok fields
      → (later : List Bytes) × (unpack_from bytes (off + 2 + read_length bytes off) n ≡ ok later)
        × (off + 2 + read_length bytes off ≤ length bytes)
        × (fields ≡ slice (off + 2) (off + 2 + read_length bytes off) bytes ∷ later)
  unfolding unpack_from
  unpack_from-suc n fields h = elim (Bool-cases (ltb (length bytes) (off + 2))) [
    | inl short ↦ cc (rw short at h)
    | inr room ↦ elim (Bool-cases (ltb (length bytes) (off + 2 + read_length bytes off))) [
      | inl short ↦ cc (rw (room, short) at h)
      | inr whole ↦
          let (later, read, same) =
            >>=-eq-ok (unpack_from bytes (off + 2 + read_length bytes off) n) _
              (rw (room, whole) at h) in
          (later, read, ground arith, ground arith)
    ]
  ]

  field_length :
      off + 2 + read_length bytes off ≤ length bytes
      → length (slice (off + 2) (off + 2 + read_length bytes off) bytes) ≡ read_length bytes off
  field_length h = omega (
    arith,
    length-take (off + 2 + read_length bytes off - (off + 2)) (drop (off + 2) bytes),
    length-drop (off + 2) bytes,
  )

-- The frame that starts at `off`, cut into the two bytes, the field and what follows.
frame_split :
    (bytes : Bytes) (off len size : ℕ)
    → off + 2 + len ≤ length bytes
    → take (2 + len + size) (drop off bytes)
      ≡ byte_at bytes off
        ∷ byte_at bytes (off + 1)
        ∷ (slice (off + 2) (off + 2 + len) bytes ++ take size (drop (off + 2 + len) bytes))
frame_split bytes off len size h =
    let first : drop off bytes
        ≡ byte_at bytes off ∷ byte_at bytes (suc off) ∷ drop (suc (suc off)) bytes =
      drop-byte_at bytes off (omega arith)
      ∙ ap (λ (t : Bytes). byte_at bytes off ∷ t) (drop-byte_at bytes (suc off) (omega arith)) in
    let two : suc (suc off) ≡ off + 2 = omega arith in
    let one : suc off ≡ off + 1 = omega arith in
    let count : 2 + len + size ≡ suc (suc (len + size)) = omega arith in
    let width : off + 2 + len - (off + 2) ≡ len = omega arith in
    rw (first, two, one, count, width, take_add, drop_add (off + 2) len bytes) refl

pack_field :
    (hi lo : ℕ) (f : Bytes) (fields : List Bytes) (parts : Bytes)
    → IsByte hi
    → IsByte lo
    → length f ≡ hi * 256 + lo
    → pack fields ≡ ok parts
    → pack (f ∷ fields) ≡ ok (hi ∷ lo ∷ (f ++ parts))
unfolding pack
pack_field hi lo f fields parts h l size packed =
    let fits : ltb 0xffff (length f) ≡ false = ltb-eq-false 0xffff (length f) (omega arith) in
    let high : bit_and (length f / 256) 255 ≡ hi = omega (arith, bit_and_255 (length f / 256)) in
    let low : bit_and (length f) 255 ≡ lo = omega (arith, bit_and_255 (length f)) in
    rw (fits, packed, high, low) refl

pack-nil : pack [] ≡ ok []
unfolding pack
pack-nil = refl

unpack_from-zero : (bytes : Bytes) (off : ℕ) → unpack_from bytes off 0 ≡ ok []
unfolding unpack_from
unpack_from-zero bytes off = refl

abbrev Reframed : Bytes → ℕ → ℕ → List Bytes → Type 0
Reframed bytes off n fields =
    (pack fields ≡ ok (take (frame_size fields) (drop off bytes)))
    × (off + frame_size fields ≤ length bytes)
    × (length fields ≡ n)

Reframed-cons :
    (bytes : Bytes) (off n : ℕ) (later : List Bytes)
    → All IsByte bytes
    → off + 2 + read_length bytes off ≤ length bytes
    → Reframed bytes (off + 2 + read_length bytes off) n later
    → Reframed bytes off (suc n) (slice (off + 2) (off + 2 + read_length bytes off) bytes ∷ later)
Reframed-cons bytes off n later valid whole (packed, bound, count) =
    let len = read_length bytes off in
    let f = slice (off + 2) (off + 2 + len) bytes in
    let size : length f ≡ len = field_length bytes valid off whole in
    let hi = byte_at-IsByte bytes off valid in
    let lo = byte_at-IsByte bytes (off + 1) valid in
    let parts = read_length_parts bytes valid off in
    let total : 2 + length f + frame_size later ≡ 2 + len + frame_size later = omega arith in
    (
      pack_field _ _ f later _ hi lo (size ∙ parts) packed
          ∙ ap ok (
              sym (frame_split bytes off len (frame_size later) whole)
              ∙ ap (λ (k : ℕ). take k (drop off bytes)) (sym total)),
      omega arith,
      omega arith,
    )

pack-unpack_from :
    (bytes : Bytes) (off n : ℕ) (fields : List Bytes)
    → All IsByte bytes
    → off ≤ length bytes
    → unpack_from bytes off n ≡ ok fields
    → Reframed bytes off n fields
pack-unpack_from bytes off zero [] valid inside h = (pack-nil, omega arith, refl)
pack-unpack_from bytes off zero (f ∷ fields) valid inside h = cc (unpack_from-zero bytes off)
pack-unpack_from bytes off (suc n) fields valid inside h =
    let (later, read, whole, same) = unpack_from-suc bytes valid off n fields h in
    let rest = pack-unpack_from bytes (off + 2 + read_length bytes off) n later valid whole read in
    rw same (Reframed-cons bytes off n later valid whole rest)

-- From bytes below 256, what `unpack` reads is a number of fields that is the one asked for, and
-- framing these fields gives exactly the bytes that it consumed, which lie within its input.
pub pack-unpack :
    (bytes : Bytes) (n : ℕ) (fields : List Bytes)
    → All IsByte bytes
    → unpack bytes n ≡ ok fields
    → (pack fields ≡ ok (take (frame_size fields) bytes))
      × (frame_size fields ≤ length bytes)
      × (length fields ≡ n)
unfolding unpack
pack-unpack bytes n fields valid h =
    let (packed, bound, count) = pack-unpack_from bytes 0 n fields valid (omega arith) h in
    (packed, omega arith, count)
