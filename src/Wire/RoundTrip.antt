-- ===== src/Wire/RoundTrip.antt =====
-- Reading back what was framed, and framing again what was read.
use noblechat.Prelude.{
  ℕ, suc, ◌+◌, ◌/◌, ◌%◌, ◌≤◌, bit_and, List, [], ◌∷◌, ◌++◌, length, ltb, Bytes, slice, ok,
  >>=-eq-ok, ◌≡◌, refl, arith, false, Bool-cases, inl, inr, bit_and_255, bit_or_byte, length-append,
  byte_at-append, byte_at-append_length, ltb-eq-false, slice-append, append_assoc,
}
use noblechat.Wire.{pack, unpack, unpack_from, read_length}

abbrev frame : Bytes → Bytes
frame f = bit_and (length f / 256) 255 ∷ bit_and (length f) 255 ∷ []

pack-cons :
    (f : Bytes) (fields : List Bytes) (bytes : Bytes)
    → pack (f ∷ fields) ≡ ok bytes
    → (parts : Bytes) × (pack fields ≡ ok parts)
      × (length f ≤ 0xffff)
      × (bytes ≡ frame f ++ (f ++ parts))
unfolding pack
pack-cons f fields bytes h = elim (Bool-cases (ltb 0xffff (length f))) [
  | inl big ↦ absurd (ground arith)
  | inr fits ↦
      let (parts, packed, same) = >>=-eq-ok (pack fields) _ (rw fits at h) in
      (parts, packed, ground arith, ground arith)
]

module _ (pre f rest : Bytes) (fits : length f ≤ 0xffff) where
  length_read : read_length (pre ++ (frame f ++ (f ++ rest))) (length pre) ≡ length f
  unfolding read_length
  length_read =
      rw
        (
          byte_at-append_length pre (frame f ++ (f ++ rest)),
          byte_at-append pre (frame f ++ (f ++ rest)) 1,
          bit_and_255 (length f / 256),
          bit_and_255 (length f),
          bit_or_byte (length f / 256 % 256) (length f % 256) (omega arith),
        )
        (omega arith)

  framed_length : length (pre ++ (frame f ++ (f ++ rest))) ≡ length pre + 2 + length f + length rest
  framed_length = omega (arith, length-append pre (frame f ++ (f ++ rest)), length-append f rest)

  field_read :
      slice (length pre + 2) (length pre + 2 + length f) (pre ++ (frame f ++ (f ++ rest))) ≡ f
  field_read = rw (← append_assoc pre (frame f) (f ++ rest)) (
      slice-append (pre ++ frame f) f rest _ _ (omega (arith, length-append pre (frame f)))
        (omega (arith, length-append pre (frame f))))

  unpack_field :
      (n : ℕ) (out : List Bytes)
      → unpack_from (pre ++ (frame f ++ (f ++ rest))) (length pre + 2 + length f) n ≡ ok out
      → unpack_from (pre ++ (frame f ++ (f ++ rest))) (length pre) (suc n) ≡ ok (f ∷ out)
  unfolding unpack_from
  unpack_field n out h =
      let bytes = pre ++ (frame f ++ (f ++ rest)) in
      let start = length pre + 2 in
      let room : ltb (length bytes) start ≡ false =
        ltb-eq-false (length bytes) start (omega (arith, framed_length)) in
      let whole : ltb (length bytes) (start + length f) ≡ false =
        ltb-eq-false (length bytes) (start + length f) (omega (arith, framed_length)) in
      rw (length_read, room, whole, h, field_read) refl

unpack_from-zero : (bytes : Bytes) (off : ℕ) → unpack_from bytes off 0 ≡ ok []
unfolding unpack_from
unpack_from-zero bytes off = refl

unpack_from-pack :
    (pre rest : Bytes) (fields : List Bytes) (bytes : Bytes)
    → pack fields ≡ ok bytes
    → unpack_from (pre ++ (bytes ++ rest)) (length pre) (length fields) ≡ ok fields
unpack_from-pack pre rest [] bytes h = unpack_from-zero (pre ++ (bytes ++ rest)) (length pre)
unpack_from-pack pre rest (f ∷ fields) bytes h =
    let (parts, packed, fits, same) = pack-cons f fields bytes h in
    let whole : pre ++ (bytes ++ rest) ≡ pre ++ (frame f ++ (f ++ (parts ++ rest))) =
      rw same (simp append_assoc) in
    let nested : pre ++ (frame f ++ (f ++ (parts ++ rest)))
        ≡ (pre ++ (frame f ++ f)) ++ (parts ++ rest) =
      simp append_assoc in
    let size : length pre + 2 + length f ≡ length (pre ++ (frame f ++ f)) =
      omega (arith, length-append pre (frame f ++ f)) in
    let later = unpack_from-pack (pre ++ (frame f ++ f)) rest fields parts packed in
    rw whole
      (unpack_field pre f (parts ++ rest) fits (length fields) fields (rw (nested, size) later))

-- `unpack` gives back every list of fields that `pack` framed, whatever bytes follow the frame.
pub unpack-pack :
    (fields : List Bytes) (bytes rest : Bytes)
    → pack fields ≡ ok bytes
    → unpack (bytes ++ rest) (length fields) ≡ ok fields
unfolding unpack
unpack-pack fields bytes rest h = unpack_from-pack [] rest fields bytes h
