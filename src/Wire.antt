-- ===== src/Wire.antt =====
-- packages/protocol/src/wire.js: framing of byte fields, each behind its length in two bytes.
pub mod RoundTrip
pub mod Reframe
use noblechat.Prelude.{
  ℕ, zero, suc, ◌+◌, ◌*◌, ◌/◌, bit_and, bit_or, List, [], ◌∷◌, ◌++◌, length, ltb, if◌then◌else◌,
  Bytes, byte_at, slice, Result, ok, err, ◌>>=◌,
}

-- The three errors that the module throws.
pub data WireError : Type 0 where
  field_too_large truncated truncated_field : WireError

-- `pack(fields)`
unfoldable pub pack : List Bytes → Result WireError Bytes
pack [] = ok []
pack (f ∷ fields) =
    let packed = pack fields in
    if ltb 0xffff (length f) then err field_too_large else do
      parts ← packed
      ok (bit_and (length f / 256) 255 ∷ bit_and (length f) 255 ∷ (f ++ parts))

-- `(bytes[off] << 8) | bytes[off + 1]`
read_length : Bytes → ℕ → ℕ
read_length bytes off = bit_or (byte_at bytes off * 256) (byte_at bytes (off + 1))

-- The loop of `unpack`, with `off` as its variable.
unpack_from : Bytes → ℕ → ℕ → Result WireError (List Bytes)
unpack_from bytes off zero = ok []
unpack_from bytes off (suc count) =
    let len = read_length bytes off in
    let start = off + 2 in
    let later = unpack_from bytes (start + len) count in
    if ltb (length bytes) start
    then err truncated
    else if ltb (length bytes) (start + len)
    then err truncated_field
    else do out ← later; ok (slice start (start + len) bytes ∷ out)

unfoldable pub unpack : Bytes → ℕ → Result WireError (List Bytes)
unfolding unpack_from read_length
unpack bytes count = unpack_from bytes 0 count
