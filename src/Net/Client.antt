-- ===== src/Net/Client.antt =====
-- packages/net/src/client.js: the identities of clients, the packets that they build, and what they open.
pub mod Delivery
use noblechat.Prelude.{
  ℕ, List, [], ◌∷◌, Option, none, some, JsString, Bytes, Result, ok, err, ◌>>=◌, Bool, ◌≡◌,
}
use noblechat.Sphinx.Primitives.{Primitives}
use noblechat.Sphinx.Scalar.{SphinxError}
use noblechat.Sphinx.Packet.{Packet, PathNode, create_packet}
use noblechat.Wire.{WireError}
use noblechat.Envelope.Schemes.{Schemes}
use noblechat.Envelope.Hybrid.{
  EnvelopeError, KemKeypair, SignKeypair, SignBundle, kem_public_bundle, sign_public_bundle,
  generate_kem_keypair, generate_sign_keypair,
}
use noblechat.Envelope.Seal.{Drawn, Opened, mailbox_id, seal_envelope, open_envelope, pack_inner}
use noblechat.Net.Serialize.{Card}
use noblechat.Net.Directory.{PathError}

pub record FullIdentity (Secret : Type 0) : Type 0 where
  pub handle : JsString
  pub provider_id : Bytes
  pub kem : KemKeypair Secret
  pub sign : SignKeypair Secret
  pub mailbox : Bytes
  pub card : Card

-- What building or opening a message may throw
pub data ClientError : Type 0 where
  no_path : PathError → ClientError
  not_sealed : EnvelopeError → ClientError
  not_packed : WireError → ClientError
  not_wrapped : SphinxError → ClientError
  not_json no_first_node : ClientError

-- `JSON` on the contents of messages, in UTF-8: `encodeContent` and `decodeContent`
pub record Codec (Content : Type 0) : Type 0 where
  pub encode_content : Content → Bytes
  pub decode_content : Bytes → Option Content
  pub decode-encode : (c : Content) → decode_content (encode_content c) ≡ some c

pub record Outgoing : Type 0 where
  pub first_node_id : Bytes
  pub packet : Packet

pub record InnerPacket : Type 0 where
  pub provider_id : Bytes
  pub inner : Bytes

-- What `openIncoming` returns
pub record Incoming (Content : Type 0) : Type 0 where
  pub content : Content
  pub verify_with : SignBundle → Bool

abbrev pub or_throw {ℓ κ} :
    {E : Type ℓ} {A : Type κ} → (E → ClientError) → Result E A → Result ClientError A
or_throw wrap (ok a) = ok a
or_throw wrap (err e) = err (wrap e)

module _ {Secret : Type 0} (c : Schemes Secret) where
  -- `generateIdentity`, and `generateIdentityStaged` without the reports of its progress
  unfoldable pub generate_identity :
      JsString → Bytes → Secret → Secret → Secret → Secret → FullIdentity Secret
  generate_identity handle provider_id x_secret kem_secret ed_secret dsa_secret =
      let kem = generate_kem_keypair c x_secret kem_secret in
      let sign = generate_sign_keypair c ed_secret dsa_secret in
      let kem_bundle = kem_public_bundle kem in
      let mailbox = mailbox_id c kem_bundle in
      record {
        handle = handle;
        provider_id = provider_id;
        kem = kem;
        sign = sign;
        mailbox = mailbox;
        card = record {
          handle = handle;
          provider_id = provider_id;
          mailbox = mailbox;
          kem = kem_bundle;
          sign = sign_public_bundle sign;
        };
      }

  module _ {Content : Type 0} (codec : Codec Content) where
    -- `buildInner`
    unfoldable pub build_inner :
        Drawn Secret → Card → Content → Option (SignKeypair Secret) → Result ClientError InnerPacket
    build_inner drawn card content signer = do
      envelope ←
          or_throw not_sealed (seal_envelope c drawn card.kem (codec.encode_content content) signer)
      inner ← or_throw not_packed (pack_inner card.mailbox envelope)
      ok (record { provider_id = card.provider_id; inner = inner })

    abbrev pub opened_content : Opened → Option Content → Result ClientError (Incoming Content)
    opened_content opened none = err not_json
    opened_content opened (some content) =
        ok (record { content = content; verify_with = opened.verify_with })

    -- `openIncoming`
    unfoldable pub open_incoming :
        FullIdentity Secret → Bytes → Result ClientError (Incoming Content)
    open_incoming identity envelope = do
      opened ← or_throw not_sealed (open_envelope c identity.kem envelope)
      opened_content opened (codec.decode_content opened.content)

    module _ {Point : Type 0} (p : Primitives Point)
        (pick_path : Bytes → Result PathError (List PathNode)) where
      abbrev pub outgoing_on : List PathNode → Packet → Result ClientError Outgoing
      outgoing_on [] packet = err no_first_node
      outgoing_on (n ∷ path) packet = ok (record { first_node_id = n.id; packet = packet })

      -- `buildOutgoing`, with the random bytes of `createPacket`
      unfoldable pub build_outgoing :
          Bytes
          → Drawn Secret
          → Card
          → Content
          → Option (SignKeypair Secret)
          → Result ClientError Outgoing
      build_outgoing random drawn card content signer = do
        path ← or_throw no_path (pick_path card.provider_id)
        envelope ←
            or_throw not_sealed
              (seal_envelope c drawn card.kem (codec.encode_content content) signer)
        inner ← or_throw not_packed (pack_inner card.mailbox envelope)
        packet ← or_throw not_wrapped (create_packet p random path inner)
        outgoing_on path packet

      -- `buildCoverLoop`, on the content `{ t: "cover", ts: 0 }`
      unfoldable pub build_cover_loop :
          Bytes → Drawn Secret → Content → FullIdentity Secret → Result ClientError Outgoing
      build_cover_loop random drawn cover identity =
          build_outgoing random drawn identity.card cover (some identity.sign)
