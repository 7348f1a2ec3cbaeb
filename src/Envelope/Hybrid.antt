-- ===== src/Envelope/Hybrid.antt =====
-- packages/crypto/src: hybrid.js, sign.js, aead.js and kdf.js. What the source draws at random is an
-- argument.
use noblechat.Prelude.{
  ℕ, ◌++◌, Option, none, some, Bool, true, false, take, drop, text, Bytes, Result, ok, err, ◌>>=◌,
}
use noblechat.Wire.{WireError}
use noblechat.Envelope.Schemes.{Schemes}

-- What the libraries throw, and the errors of protocol.js
pub data EnvelopeError : Type 0 where
  bad_key unauthentic signer_required unknown_version undefined_field : EnvelopeError
  framing : WireError → EnvelopeError

abbrev pub thrown {ℓ} : {A : Type ℓ} → EnvelopeError → Option A → Result EnvelopeError A
thrown e none = err e
thrown e (some a) = ok a

pub record KeyPair (Secret : Type 0) : Type 0 where
  pub public_key : Bytes
  pub secret_key : Secret

pub record KemKeypair (Secret : Type 0) : Type 0 where
  pub x : KeyPair Secret
  pub kem : KeyPair Secret

pub record KemBundle : Type 0 where
  pub x : Bytes
  pub kem : Bytes

pub record SignKeypair (Secret : Type 0) : Type 0 where
  pub ed : KeyPair Secret
  pub dsa : KeyPair Secret

-- Both a public bundle and a signature are a pair `{ ed, dsa }` of byte arrays.
pub record SignBundle : Type 0 where
  pub ed : Bytes
  pub dsa : Bytes

pub record KemHeader : Type 0 where
  pub epk : Bytes
  pub kct : Bytes

-- `NONCE_LEN`
abbrev pub nonce_len : ℕ
nonce_len = 24

module _ {Secret : Type 0} (c : Schemes Secret) where
  -- `hash` and `deriveKey`
  unfoldable pub hash : Bytes → Bytes
  hash bytes = c.sha256 bytes

  unfoldable pub derive_key : Bytes → Bytes → Bytes → ℕ → Bytes
  derive_key ikm salt info length = c.hkdf ikm salt info length

  -- `generateKemKeypair`, of its two random secrets
  unfoldable pub generate_kem_keypair : Secret → Secret → KemKeypair Secret
  generate_kem_keypair x_secret kem_secret = record {
    x = record { public_key = c.x_public x_secret; secret_key = x_secret };
    kem = record { public_key = c.kem_public kem_secret; secret_key = kem_secret };
  }

  -- `generateSignKeypair`
  unfoldable pub generate_sign_keypair : Secret → Secret → SignKeypair Secret
  generate_sign_keypair ed_secret dsa_secret = record {
    ed = record { public_key = c.ed_public ed_secret; secret_key = ed_secret };
    dsa = record { public_key = c.dsa_public dsa_secret; secret_key = dsa_secret };
  }

  -- `transcript`
  unfoldable pub transcript : Bytes → Bytes → Bytes → Bytes → Bytes
  transcript eph_x recip_x recip_kem kct = hash (eph_x ++ (recip_x ++ (recip_kem ++ kct)))

  abbrev pub info : Bytes
  info = text "noblechat/hybrid-kem/v1"

  -- `encapsulate`, of the ephemeral secret and the coins
  unfoldable pub encapsulate :
      Secret → Secret → KemBundle → Result EnvelopeError (KemHeader × Bytes)
  encapsulate eph_secret coins recipient = do
    dh ← thrown EnvelopeError.bad_key (c.x_shared eph_secret recipient.x)
    sent ← thrown EnvelopeError.bad_key (c.kem_encapsulate recipient.kem coins)
    ok (
      record { epk = c.x_public eph_secret; kct = sent.0 },
      derive_key (dh ++ sent.1)
          (transcript (c.x_public eph_secret) recipient.x recipient.kem sent.0) info 32,
    )

  -- `decapsulate`
  unfoldable pub decapsulate : KemKeypair Secret → KemHeader → Result EnvelopeError Bytes
  decapsulate kp header = do
    dh ← thrown EnvelopeError.bad_key (c.x_shared kp.x.secret_key header.epk)
    kem_ss ← thrown EnvelopeError.bad_key (c.kem_decapsulate header.kct kp.kem.secret_key)
    ok (
        derive_key (dh ++ kem_ss)
          (transcript header.epk kp.x.public_key kp.kem.public_key header.kct) info 32)

  -- `seal` and `open` of aead.js, with the random nonce as an argument; no caller passes `aad`.
  unfoldable pub seal : Bytes → Bytes → Bytes → Bytes
  seal nonce key plaintext = nonce ++ c.encrypt key nonce plaintext

  unfoldable pub open_aead : Bytes → Bytes → Result EnvelopeError Bytes
  open_aead key sealed =
      thrown EnvelopeError.unauthentic
        (c.decrypt key (take nonce_len sealed) (drop nonce_len sealed))

  -- `sign`
  unfoldable pub sign : SignKeypair Secret → Bytes → SignBundle
  sign kp message = record {
    ed = c.ed_sign message kp.ed.secret_key;
    dsa = c.dsa_sign kp.dsa.secret_key message;
  }

  -- `verify`: false when a library throws. `&&` asks the second scheme only after the first agreed.
  unfoldable pub verify : SignBundle → Bytes → SignBundle → Bool
  verify bundle message sig = elim (c.ed_verify sig.ed message bundle.ed) [
    | none ↦ false
    | some false ↦ false
    | some true ↦ elim (c.dsa_verify bundle.dsa message sig.dsa) [ none ↦ false | some b ↦ b ]
  ]

-- `kemPublicBundle` and `signPublicBundle`
unfoldable pub kem_public_bundle : {Secret : Type 0} → KemKeypair Secret → KemBundle
kem_public_bundle kp = record { x = kp.x.public_key; kem = kp.kem.public_key }

unfoldable pub sign_public_bundle : {Secret : Type 0} → SignKeypair Secret → SignBundle
sign_public_bundle kp = record { ed = kp.ed.public_key; dsa = kp.dsa.public_key }
