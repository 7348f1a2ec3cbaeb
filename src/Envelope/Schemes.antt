-- ===== src/Envelope/Schemes.antt =====
-- What packages/crypto takes from @noble: X25519, ML-KEM-768, HKDF, XChaCha20-Poly1305, Ed25519 and
-- ML-DSA-65, with the documented behaviour that is used. `Secret` is the type of the secret keys that
-- the libraries generate, and of the coins of an encapsulation.
use noblechat.Prelude.{ℕ, ◌+◌, length, Bytes, Option, some, Bool, true, ◌≡◌}

pub record Schemes (Secret : Type 0) : Type 0 where
  -- `x25519.getPublicKey` and `x25519.getSharedSecret`, which throws on a bad point
  pub x_public : Secret → Bytes
  pub x_shared : Secret → Bytes → Option Bytes
  -- `ml_kem768`; `encapsulate` gives the ciphertext and the secret.
  pub kem_public : Secret → Bytes
  pub kem_encapsulate : Bytes → Secret → Option (Bytes × Bytes)
  pub kem_decapsulate : Bytes → Secret → Option Bytes
  pub sha256 : Bytes → Bytes
  -- `hkdf(sha256, ikm, salt, info, length)`
  pub hkdf : Bytes → Bytes → Bytes → ℕ → Bytes
  -- `xchacha20poly1305(key, nonce)`; `decrypt` throws on a bad tag.
  pub encrypt : Bytes → Bytes → Bytes → Bytes
  pub decrypt : Bytes → Bytes → Bytes → Option Bytes
  -- The signatures; `verify` may throw.
  pub ed_public : Secret → Bytes
  pub ed_sign : Bytes → Secret → Bytes
  pub ed_verify : Bytes → Bytes → Bytes → Option Bool
  pub dsa_public : Secret → Bytes
  pub dsa_sign : Secret → Bytes → Bytes
  pub dsa_verify : Bytes → Bytes → Bytes → Option Bool
  -- Both sides of an exchange get the same secret.
  pub agree :
      (a b : Secret)
      → (s : Bytes) × (x_shared a (x_public b) ≡ some s) × (x_shared b (x_public a) ≡ some s)
  pub kem_agree :
      (s coins : Secret)
      → (ct : Bytes) × (ss : Bytes) × (kem_encapsulate (kem_public s) coins ≡ some (ct, ss))
        × (kem_decapsulate ct s ≡ some ss)
        × (length ct ≡ 1088)
  pub decrypt-encrypt : (k n p : Bytes) → decrypt k n (encrypt k n p) ≡ some p
  pub ed_verify-ed_sign :
      (m : Bytes) (s : Secret) → ed_verify (ed_sign m s) m (ed_public s) ≡ some true
  pub dsa_verify-dsa_sign :
      (m : Bytes) (s : Secret) → dsa_verify (dsa_public s) m (dsa_sign s m) ≡ some true
  -- The lengths of the encodings
  pub length-x_public : (s : Secret) → length (x_public s) ≡ 32
  pub length-encrypt : (k n p : Bytes) → length (encrypt k n p) ≡ length p + 16
  pub length-ed_sign : (m : Bytes) (s : Secret) → length (ed_sign m s) ≡ 64
  pub length-dsa_sign : (m : Bytes) (s : Secret) → length (dsa_sign s m) ≡ 3309
