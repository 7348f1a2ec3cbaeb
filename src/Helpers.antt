-- ===== src/Helpers.antt =====
-- packages/crypto/src/util.js: random indices, hexadecimal, comparison, fingerprints.
pub mod Uniform
use noblechat.Prelude.{
  ℕ, zero, suc, ◌+◌, ◌-◌, ◌*◌, ◌/◌, ◌%◌, ◌^◌, ◌<◌, ◌≤◌, ltb, leb, ◌==◌, bit_or, bit_xor,
  if◌then◌else◌, List, [], ◌∷◌, ◌++◌, Option, none, some, Bool, true, false, ◌&&◌, JsString, Bytes,
  IsByte, byte_at, length, All, ◌≡◌, ◌≢◌, ◌↔◌, refl, ap, ap₂, arith, bit_or-eq-zero, eq_of_bit_xor,
  bit_xor_self, ==_iff, map, Bool-cases, inl, inr,
}

-- `((b[0] << 24) | (b[1] << 16) | (b[2] << 8) | b[3]) >>> 0`
unfoldable pub word_of : Bytes → ℕ
word_of b =
    bit_or (bit_or (bit_or (byte_at b 0 * 0x1000000) (byte_at b 1 * 0x10000)) (byte_at b 2 * 256))
      (byte_at b 3)

-- `limit`: the largest multiple of n that is at most 2 ** 32
abbrev pub index_limit : ℕ → ℕ
index_limit n = (2 ^ 32) / n * n

-- The loop of `randomIndex`, on the words that are drawn one after the other; nothing when all are rejected
unfoldable pub draw_index : ℕ → List Bytes → Option ℕ
draw_index n [] = none
draw_index n (b ∷ draws) =
    let rest = draw_index n draws in
    if leb (index_limit n) (word_of b) then rest else some (word_of b % n)

-- `randomIndex`
unfoldable pub random_index : ℕ → List Bytes → Option ℕ
random_index n draws = if leb n 1 then some 0 else draw_index n draws

-- `concatBytes`
unfoldable pub concat_bytes : List Bytes → Bytes
concat_bytes [] = []
concat_bytes (a ∷ arrays) = a ++ concat_bytes arrays

-- A digit of `toString(16)`
abbrev pub hex_digit : ℕ → ℕ
hex_digit d = if ltb d 10 then 48 + d else 87 + d

-- `toHex`; `padStart` puts the zero in front of one digit.
unfoldable pub to_hex : Bytes → JsString
to_hex [] = []
to_hex (b ∷ bytes) = hex_digit (b / 16) ∷ hex_digit (b % 16) ∷ to_hex bytes

-- `fromHex`, with `parseInt(…, 16)` on two characters, as a byte
unfoldable pub from_hex : (ℕ → ℕ → ℕ) → JsString → Bytes
from_hex parse_int_16 (hi ∷ lo ∷ hex) = parse_int_16 hi lo ∷ from_hex parse_int_16 hex
from_hex parse_int_16 hex = []

-- `parseInt` reads the digits that `toString` writes.
abbrev pub ReadsHex : (ℕ → ℕ → ℕ) → Type 0
ReadsHex parse_int_16 =
    (hi lo : ℕ) → hi < 16 → lo < 16 → parse_int_16 (hex_digit hi) (hex_digit lo) ≡ 16 * hi + lo

-- Bytes come back from their hexadecimal text, which has two characters for each.
pub from_hex-to_hex :
    (parse_int_16 : ℕ → ℕ → ℕ) (bytes : Bytes)
    → ReadsHex parse_int_16
    → All IsByte bytes
    → (from_hex parse_int_16 (to_hex bytes) ≡ bytes) × (length (to_hex bytes) ≡ 2 * length bytes)
unfolding to_hex from_hex
from_hex-to_hex parse_int_16 [] reads small = (refl, refl)
from_hex-to_hex parse_int_16 (b ∷ bytes) reads (is_byte, small) =
    let (back, size) = from_hex-to_hex parse_int_16 bytes reads small in
    let first = reads (b / 16) (b % 16) (omega (arith, is_byte)) (omega arith) in
    (ap₂ (λ (x : ℕ) (xs : Bytes). x ∷ xs) (omega (arith, first)) back, omega (arith, size))

-- The loop of `timingSafeEqual`
unfoldable pub difference : ℕ → Bytes → Bytes → ℕ
difference diff (x ∷ a) (y ∷ b) = difference (bit_or diff (bit_xor x y)) a b
difference diff _ _ = diff

-- `timingSafeEqual`
unfoldable pub timing_safe_equal : Bytes → Bytes → Bool
timing_safe_equal a b = (length a == length b) && (difference 0 a b == 0)

difference-eq-zero :
    (diff : ℕ) (a b : Bytes)
    → length a ≡ length b
    → (difference diff a b ≡ 0) ↔ ((diff ≡ 0) × (a ≡ b))
unfolding difference
difference-eq-zero diff [] [] same = (λ h. (h, refl), λ h. h.0)
difference-eq-zero diff [] (y ∷ b) same = absurd (omega (arith, same))
difference-eq-zero diff (x ∷ a) [] same = absurd (omega (arith, same))
difference-eq-zero diff (x ∷ a) (y ∷ b) same =
    let (to, from) = difference-eq-zero (bit_or diff (bit_xor x y)) a b (omega (arith, same)) in
    (
      λ h.
          let (both, tail) = to h in
          let (before, here) = (bit_or-eq-zero diff (bit_xor x y)).0 both in
          (before, ap₂ (λ (u : ℕ) (us : Bytes). u ∷ us) (eq_of_bit_xor x y here) tail),
      λ h.
          let heads = ap head h.1 in
          from ((bit_or-eq-zero diff (bit_xor x y)).1 (h.0, differ x y heads), ap tail_of h.1),
    )
  where
    head : Bytes → ℕ
    head bs = byte_at bs 0

    tail_of : Bytes → Bytes
    tail_of [] = []
    tail_of (u ∷ us) = us

    differ : (u v : ℕ) → u ≡ v → bit_xor u v ≡ 0
    differ u v e = rw e (bit_xor_self v)

-- `timingSafeEqual` is true exactly on equal byte strings.
pub timing_safe_equal_iff : (a b : Bytes) → (timing_safe_equal a b ≡ true) ↔ (a ≡ b)
unfolding timing_safe_equal
timing_safe_equal_iff a b = elim (Bool-cases (length a == length b)) [
  | inr differs ↦ (
    λ h. absurd (ground (arith, differs, h)),
    λ e. absurd (ground (arith, differs, (==_iff (length a) (length b)).1 (ap length e))),
  )
  | inl same ↦
      let (to, from) = difference-eq-zero 0 a b ((==_iff (length a) (length b)).0 same) in
      (
        λ h. (to ((==_iff (difference 0 a b) 0).0 (ground (arith, same, h)))).1,
        λ e. ground (arith, same, (==_iff (difference 0 a b) 0).1 (from (refl, e))),
      )
]

-- `keysFingerprint`, with the library's base64, `sort`, `join("|")` in UTF-8 and SHA-256
unfoldable pub keys_fingerprint :
    (Bytes → JsString)
    → (List JsString → List JsString)
    → (List JsString → Bytes)
    → (Bytes → Bytes)
    → List (Bytes × Bytes)
    → JsString
keys_fingerprint to_b64 sort join sha256 sign_keys =
    to_hex (sha256 (join (sort (map (λ k. to_b64 k.0 ++ (46 ∷ to_b64 k.1)) sign_keys))))
