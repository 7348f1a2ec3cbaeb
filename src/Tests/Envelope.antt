-- ===== src/Tests/Envelope.antt =====
-- Toy schemes with the laws of the libraries, and one sealed envelope.
use noblechat.Prelude.{
  ℕ, ◌+◌, ◌-◌, ◌==◌, [], ◌∷◌, ◌++◌, some, Bool, true, Bytes, byte_at, zeros, length, take, text, ok,
  ◌≡◌, refl, ap, arith, length-append, length-replicate, take-append_length, ==_refl,
}
use noblechat.Envelope.Schemes.{Schemes}
use noblechat.Envelope.Hybrid.{
  kem_public_bundle, sign_public_bundle, generate_kem_keypair, generate_sign_keypair,
}
use noblechat.Envelope.Seal.{Opened, Drawn, seal_envelope, open_envelope}
use noblechat.Envelope.Opening.{open_envelope-seal_envelope}

-- A key of `n + 1` bytes that starts with the secret
abbrev pub key : ℕ → ℕ → Bytes
key n s = s ∷ zeros n

pub length-key : (n s : ℕ) → length (key n s) ≡ n + 1
length-key n s = omega (arith, length-replicate {A = ℕ} n 0)

pub length-padded : (p : Bytes) → length (p ++ zeros 16) ≡ length p + 16
length-padded p = length-append p (zeros 16)

pub unpadded : (p : Bytes) → some (take (length (p ++ zeros 16) - 16) (p ++ zeros 16)) ≡ some p
unpadded p =
    let size : length (p ++ zeros 16) - 16 ≡ length p = omega (arith, length-padded p) in
    rw size (ap (λ (b : Bytes). some b) (take-append_length p (zeros 16)))

abbrev pub schemes : Schemes ℕ
schemes = record {
  x_public = key 31;
  x_shared = λ a bundle. some ((a + byte_at bundle 0) ∷ []);
  kem_public = key 0;
  kem_encapsulate = λ bundle coins. some (key 1087 coins, (byte_at bundle 0 + coins) ∷ []);
  kem_decapsulate = λ ct s. some ((s + byte_at ct 0) ∷ []);
  sha256 = λ b. take 32 b;
  hkdf = λ ikm salt info n. take n ikm;
  encrypt = λ k n p. p ++ zeros 16;
  decrypt = λ k n ct. some (take (length ct - 16) ct);
  ed_public = key 0;
  ed_sign = λ m s. key 63 s;
  ed_verify = λ sig m bundle. some (byte_at sig 0 == byte_at bundle 0);
  dsa_public = key 0;
  dsa_sign = λ s m. key 3308 s;
  dsa_verify = λ bundle m sig. some (byte_at sig 0 == byte_at bundle 0);
  agree = λ a b.
      let swap : b + a ≡ a + b = omega arith in
      ((a + b) ∷ [], refl, ap (λ (n : ℕ). some (n ∷ [])) swap);
  kem_agree = λ s coins. (key 1087 coins, (s + coins) ∷ [], refl, refl, length-key 1087 coins);
  decrypt-encrypt = λ k n p. unpadded p;
  ed_verify-ed_sign = λ m s. ap (λ (b : Bool). some b) (==_refl s);
  dsa_verify-dsa_sign = λ m s. ap (λ (b : Bool). some b) (==_refl s);
  length-x_public = λ s. length-key 31 s;
  length-encrypt = λ k n p. length-padded p;
  length-ed_sign = λ m s. length-key 63 s;
  length-dsa_sign = λ m s. length-key 3308 s;
}

abbrev pub drawn : Drawn ℕ
drawn = record { eph_secret = 3; coins = 5; nonce = zeros 24 }

open_envelope-seal_envelope_example :
    (env : Bytes) × (opened : Opened) × (seal_envelope schemes drawn
        (kem_public_bundle (generate_kem_keypair schemes 11 12))
        (text "hello")
        (some (generate_sign_keypair schemes 13 14))
      ≡ ok env)
    × (open_envelope schemes (generate_kem_keypair schemes 11 12) env ≡ ok opened)
    × (opened.content ≡ text "hello")
    × (opened.verify_with (sign_public_bundle (generate_sign_keypair schemes 13 14)) ≡ true)
    × (length env ≡ 5 + 4546)
open_envelope-seal_envelope_example =
    open_envelope-seal_envelope schemes drawn 11 12 13 14 (text "hello") (omega arith) refl
