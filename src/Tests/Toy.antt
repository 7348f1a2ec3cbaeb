-- ===== src/Tests/Toy.antt =====
-- Concrete functions with the laws that the models ask of the cryptographic libraries.
use noblechat.Prelude.{
  ℕ, ◌+◌, ◌*◌, ◌%◌, [], ◌∷◌, ◌++◌, replicate, Bytes, Option, some, none, ◌≡◌, refl, ap, arith,
  take-append_length, length-replicate,
}
use native.Mathlib.Nat.{div-add-mod}
use noblechat.Sphinx.Primitives.{Primitives}
use noblechat.Sphinx.Travel.{MixNode}

abbrev pub checksum : Bytes → ℕ
checksum [] = 7
checksum (b ∷ bytes) = (3 * checksum bytes + b) % 251

abbrev pub decode_seven : Bytes → Option ℕ
decode_seven [] = none
decode_seven (x ∷ []) = some x
decode_seven (x ∷ y ∷ bytes) = none

pub multiply_seven : (a b : ℕ) → ((a % 7) * b) % 7 ≡ ((a * b) % 7) % 7
multiply_seven a b = omega (arith, ap (λ (t : ℕ). t * b) (div-add-mod a 7))

-- The numbers modulo seven, a stream cipher that masks with nothing, and a checksum for each hash.
abbrev pub toy : Primitives ℕ
toy = record {
  order = 7;
  base_multiply = λ a. a % 7;
  multiply = λ x b. (x * b) % 7;
  to_raw_bytes = λ x. x ∷ [];
  from_hex = decode_seven;
  sha256 = λ d. replicate 32 (checksum d);
  sha512 = λ d. replicate 64 (checksum d);
  chacha20 = λ key nonce d. d;
  hmac_sha512 = λ key d. replicate 64 (checksum (key ++ d));
  from_hex-to_raw_bytes = λ x. refl;
  multiply-base_multiply = multiply_seven;
  length-chacha20 = λ key nonce d k n. refl;
  take-chacha20 = λ key nonce d e k n. take-append_length d e;
  length-sha256 = λ d. length-replicate 32 (checksum d);
  length-hmac_sha512 = λ key d. length-replicate 64 (checksum (key ++ d));
}

abbrev pub node_a : MixNode
node_a = record { id = replicate 16 1; secret = 3 }

abbrev pub node_b : MixNode
node_b = record { id = replicate 16 2; secret = 5 }
