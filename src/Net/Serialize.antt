-- ===== src/Net/Serialize.antt =====
-- packages/net/src/serialize.js: packets, cards and identities with their bytes in base64.
use noblechat.Prelude.{Option, none, some, JsString, Bytes, ◌≡◌, refl}
use noblechat.Sphinx.Packet.{Packet}
use noblechat.Envelope.Hybrid.{KemBundle, SignBundle}

-- The base64 codec of `Buffer`: encoding is undone by decoding, which takes any string.
pub record Base64 : Type 0 where
  pub to_b64 : Bytes → JsString
  pub from_b64 : JsString → Bytes
  pub from_b64-to_b64 : (b : Bytes) → from_b64 (to_b64 b) ≡ b

-- A field of a packet object, as `Buffer.from(field, "base64")` takes it: a string; an array or the like, with
-- the bytes that it gives; or anything else, on which it throws.
pub data Field : Type 0 where
  words : JsString → Field
  bytes : Bytes → Field
  refused : Field

-- A packet object as it is parsed
pub record PacketObj : Type 0 where
  pub a : Field
  pub b : Field
  pub g : Field
  pub p : Field

infixl 5 ◌>>=◌
abbrev ◌>>=◌ {ℓ κ} : {A : Type ℓ} {B : Type κ} → Option A → (A → Option B) → Option B
none >>= f = none
some x >>= f = f x

module _ (codec : Base64) where
  -- `serializePacket`
  unfoldable pub serialize_packet : Packet → PacketObj
  serialize_packet pkt = record {
    a = words (codec.to_b64 pkt.header.alpha);
    b = words (codec.to_b64 pkt.header.beta);
    g = words (codec.to_b64 pkt.header.gamma);
    p = words (codec.to_b64 pkt.payload);
  }

  -- `fromB64` of a field
  abbrev pub field_bytes : Field → Option Bytes
  field_bytes (words s) = some (codec.from_b64 s)
  field_bytes (bytes b) = some b
  field_bytes refused = none

  -- `deserializePacket`, from the alpha on
  abbrev pub with_alpha : PacketObj → Bytes → Option Packet
  with_alpha o alpha = do
    beta ← field_bytes o.b
    gamma ← field_bytes o.g
    payload ← field_bytes o.p
    some record { header = record { alpha = alpha; beta = beta; gamma = gamma }; payload = payload }

  unfoldable pub deserialize_packet : PacketObj → Option Packet
  deserialize_packet o = field_bytes o.a >>= λ alpha. with_alpha o alpha

-- A key pair, its secret key as bytes, and the two pairs of key pairs of an identity
pub record RawPair : Type 0 where
  pub public_key : Bytes
  pub secret_key : Bytes

pub record Card : Type 0 where
  pub handle : JsString
  pub provider_id : Bytes
  pub mailbox : Bytes
  pub kem : KemBundle
  pub sign : SignBundle

pub record Identity : Type 0 where
  pub handle : JsString
  pub provider_id : Bytes
  pub mailbox : Bytes
  pub kem_x : RawPair
  pub kem_kem : RawPair
  pub sign_ed : RawPair
  pub sign_dsa : RawPair
  pub card : Card

-- The same as JSON values
pub record PairText : Type 0 where
  pub fst : JsString
  pub snd : JsString

pub record CardText : Type 0 where
  pub handle : JsString
  pub provider_id : JsString
  pub mailbox : JsString
  pub kem : PairText
  pub sign : PairText

pub record IdentityText : Type 0 where
  pub handle : JsString
  pub provider_id : JsString
  pub mailbox : JsString
  pub kem_x : PairText
  pub kem_kem : PairText
  pub sign_ed : PairText
  pub sign_dsa : PairText
  pub card : CardText

module _ (codec : Base64) where
  -- `serBundleKem`, `serBundleSign`, `serKp` and their inverses
  abbrev pub ser_bundle_kem : KemBundle → PairText
  ser_bundle_kem k = record { fst = codec.to_b64 k.x; snd = codec.to_b64 k.kem }

  abbrev pub de_bundle_kem : PairText → KemBundle
  de_bundle_kem t = record { x = codec.from_b64 t.fst; kem = codec.from_b64 t.snd }

  abbrev pub ser_bundle_sign : SignBundle → PairText
  ser_bundle_sign k = record { fst = codec.to_b64 k.ed; snd = codec.to_b64 k.dsa }

  abbrev pub de_bundle_sign : PairText → SignBundle
  de_bundle_sign t = record { ed = codec.from_b64 t.fst; dsa = codec.from_b64 t.snd }

  abbrev pub ser_kp : RawPair → PairText
  ser_kp kp = record { fst = codec.to_b64 kp.public_key; snd = codec.to_b64 kp.secret_key }

  abbrev pub de_kp : PairText → RawPair
  de_kp t = record { public_key = codec.from_b64 t.fst; secret_key = codec.from_b64 t.snd }

  -- `serializeCard` and `deserializeCard`
  unfoldable pub serialize_card : Card → CardText
  serialize_card card = record {
    handle = card.handle;
    provider_id = codec.to_b64 card.provider_id;
    mailbox = codec.to_b64 card.mailbox;
    kem = ser_bundle_kem card.kem;
    sign = ser_bundle_sign card.sign;
  }

  unfoldable pub deserialize_card : CardText → Card
  deserialize_card o = record {
    handle = o.handle;
    provider_id = codec.from_b64 o.provider_id;
    mailbox = codec.from_b64 o.mailbox;
    kem = de_bundle_kem o.kem;
    sign = de_bundle_sign o.sign;
  }

  -- `serializeIdentity` and `deserializeIdentity`
  unfoldable pub serialize_identity : Identity → IdentityText
  serialize_identity id = record {
    handle = id.handle;
    provider_id = codec.to_b64 id.provider_id;
    mailbox = codec.to_b64 id.mailbox;
    kem_x = ser_kp id.kem_x;
    kem_kem = ser_kp id.kem_kem;
    sign_ed = ser_kp id.sign_ed;
    sign_dsa = ser_kp id.sign_dsa;
    card = serialize_card id.card;
  }

  unfoldable pub deserialize_identity : IdentityText → Identity
  deserialize_identity o = record {
    handle = o.handle;
    provider_id = codec.from_b64 o.provider_id;
    mailbox = codec.from_b64 o.mailbox;
    kem_x = de_kp o.kem_x;
    kem_kem = de_kp o.kem_kem;
    sign_ed = de_kp o.sign_ed;
    sign_dsa = de_kp o.sign_dsa;
    card = deserialize_card o.card;
  }

  -- With a base64 codec that decodes what it encodes: a packet, a card and an identity come back from their serialized forms as they were.
  pub deserialize-serialize :
      (packet : Packet) (card : Card) (id : Identity)
      → (deserialize_packet codec (serialize_packet codec packet) ≡ some packet)
        × (deserialize_card (serialize_card card) ≡ card)
        × (deserialize_identity (serialize_identity id) ≡ id)
  unfolding deserialize_packet serialize_packet deserialize_card serialize_card deserialize_identity
      serialize_identity
  deserialize-serialize packet card id =
      let same : (b : Bytes) → codec.from_b64 (codec.to_b64 b) ≡ b = codec.from_b64-to_b64 in
      (simp same refl, simp same refl, simp same refl)
