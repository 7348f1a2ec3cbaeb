-- ===== src/Sphinx/Scalar.antt =====
-- Scalars, node keys and the secrets shared with the hops of a path.
use noblechat.Prelude.{
  ℕ, ◌+◌, ◌*◌, ◌%◌, ◌==◌, bit_or, List, [], ◌∷◌, ◌++◌, Option, none, some, text, Bytes, Result, ok,
  err, ◌>>=◌, if◌then◌else◌,
}
use noblechat.Sphinx.Primitives.{Primitives}

-- What `createPacket` and `processPacket` throw; `bad_point` is the error of `fromHex`.
pub data SphinxError : Type 0 where
  bad_path_length payload_too_large mac_failed bad_point : SphinxError

-- `mod(a, m)` on numbers that are not negative
unfoldable pub mod_order : ℕ → ℕ → ℕ
mod_order a m = (a % m + m) % m

-- `bytesToNumberLE(bytes)`; the loop goes from the last byte to the first.
unfoldable pub bytes_to_number_le : Bytes → ℕ
bytes_to_number_le [] = 0
bytes_to_number_le (b ∷ bytes) = bit_or (bytes_to_number_le bytes * 256) b

-- `n === 0n ? 1n : n`
unfoldable pub nonzero : ℕ → ℕ
nonzero n = if n == 0 then 1 else n

pub record NodeKey : Type 0 where
  pub secret : ℕ
  pub public : Bytes

-- One entry of `alphas` and `secrets`.
pub record Shared : Type 0 where
  pub alpha : Bytes
  pub secret : Bytes

module _ {Point : Type 0} (p : Primitives Point) where
  -- `randScalar()`, from the 32 random bytes that it draws
  unfoldable pub rand_scalar : Bytes → ℕ
  unfolding mod_order nonzero bytes_to_number_le
  rand_scalar random = nonzero (mod_order (bytes_to_number_le (p.sha512 random)) p.order)

  -- `blindingFactor(alphaBytes, sBytes)`
  unfoldable pub blinding_factor : Bytes → Bytes → ℕ
  unfolding mod_order nonzero bytes_to_number_le
  blinding_factor alpha s =
      nonzero (mod_order (bytes_to_number_le (p.sha512 (text "blind" ++ (alpha ++ s)))) p.order)

  -- `generateNodeKey(seed)`; without a seed, from the random bytes of `randScalar`
  unfoldable pub generate_node_key : Option Bytes → Bytes → NodeKey
  unfolding rand_scalar
  generate_node_key seed random =
      let secret : ℕ = elim seed [ some bytes ↦ rand_scalar bytes | none ↦ rand_scalar random ] in
      record { secret = secret; public = p.to_raw_bytes (p.base_multiply secret) }

  unfoldable pub decode_point : Bytes → Result SphinxError Point
  decode_point bytes = elim (p.from_hex bytes) [ some point ↦ ok point | none ↦ err bad_point ]

  -- The loop of `computeSharedSecrets`, with `acc` as its variable.
  unfoldable pub shared_secrets : ℕ → List Bytes → Result SphinxError (List Shared)
  unfolding decode_point mod_order
  shared_secrets acc [] = ok []
  shared_secrets acc (public ∷ publics) =
      let alpha = p.to_raw_bytes (p.base_multiply acc) in
      let step : Point → Result SphinxError (List Shared) = λ pk.
        let s = p.to_raw_bytes (p.multiply pk acc) in
        shared_secrets (mod_order (acc * blinding_factor alpha s) p.order) publics >>= λ later.
        ok (record { alpha = alpha; secret = s } ∷ later) in
      decode_point public >>= step
