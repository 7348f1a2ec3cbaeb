-- ===== src/Sphinx/Primitives.antt =====
-- What sphinx.js takes from @noble/curves, @noble/ciphers and @noble/hashes: the Ristretto group, the
-- chacha20 stream cipher, HMAC-SHA512 and the hashes, with the documented laws that are used.
use noblechat.Prelude.{ℕ, ◌*◌, ◌%◌, ◌++◌, length, take, Bytes, Option, some, ◌≡◌}

pub record Primitives (Point : Type 0) : Type 0 where
  -- `ed25519.CURVE.n`
  pub order : ℕ
  -- `RistrettoPoint.BASE.multiply(a)` and `point.multiply(a)`
  pub base_multiply : ℕ → Point
  pub multiply : Point → ℕ → Point
  -- `point.toRawBytes()` and `RistrettoPoint.fromHex(bytes)`, which throws on other bytes
  pub to_raw_bytes : Point → Bytes
  pub from_hex : Bytes → Option Point
  pub sha256 : Bytes → Bytes
  pub sha512 : Bytes → Bytes
  -- `chacha20(key, nonce, data)`; it throws on a key that is not 32 bytes or a nonce that is not 12, and
  -- nothing is assumed of what this function gives there.
  pub chacha20 : Bytes → Bytes → Bytes → Bytes
  -- `hmac(sha512, key, data)`
  pub hmac_sha512 : Bytes → Bytes → Bytes
  -- An encoded point decodes to itself, and multiplying twice is multiplying by the product.
  pub from_hex-to_raw_bytes : (p : Point) → from_hex (to_raw_bytes p) ≡ some p
  pub multiply-base_multiply :
      (a b : ℕ) → multiply (base_multiply a) b ≡ base_multiply ((a * b) % order)
  -- With a key of 32 bytes and a nonce of 12, the stream cipher keeps lengths, and enciphers a prefix to
  -- a prefix.
  pub length-chacha20 :
      (key nonce d : Bytes)
      → length key ≡ 32
      → length nonce ≡ 12
      → length (chacha20 key nonce d) ≡ length d
  pub take-chacha20 :
      (key nonce d e : Bytes)
      → length key ≡ 32
      → length nonce ≡ 12
      → take (length d) (chacha20 key nonce (d ++ e)) ≡ chacha20 key nonce d
  pub length-sha256 : (d : Bytes) → length (sha256 d) ≡ 32
  pub length-hmac_sha512 : (key d : Bytes) → length (hmac_sha512 key d) ≡ 64
