-- ===== src/Envelope/Seal.antt =====
-- packages/protocol/src/protocol.js: `sealEnvelope`, `openEnvelope` and the mix payload.
use noblechat.Prelude.{
  ℕ, ◌==◌, if◌then◌else◌, List, [], ◌∷◌, ◌++◌, Option, none, some, Bool, take, text, Bytes, Result,
  ok, err, ◌>>=◌,
}
use noblechat.Wire.{WireError, pack, unpack}
use noblechat.Envelope.Schemes.{Schemes}
use noblechat.Envelope.Hybrid.{
  EnvelopeError, KemKeypair, KemBundle, SignKeypair, SignBundle, hash, encapsulate, decapsulate,
  seal, open_aead, sign, verify, kem_public_bundle,
}

-- `MAILBOX_LEN` and `SIGNED_V1`
abbrev pub mailbox_len : ℕ
mailbox_len = 16

abbrev pub signed_v1 : ℕ
signed_v1 = 1

abbrev pub framed {ℓ} : {A : Type ℓ} → Result WireError A → Result EnvelopeError A
framed (ok a) = ok a
framed (err e) = err (EnvelopeError.framing e)

-- What `openEnvelope` returns; `verify` takes the sender's public bundle.
pub record Opened : Type 0 where
  pub content : Bytes
  pub verify_with : SignBundle → Bool

-- What the source draws at random for one envelope
pub record Drawn (Secret : Type 0) : Type 0 where
  pub eph_secret : Secret
  pub coins : Secret
  pub nonce : Bytes

module _ {Secret : Type 0} (c : Schemes Secret) where
  -- `mailboxId`
  unfoldable pub mailbox_id : KemBundle → Bytes
  mailbox_id bundle = take mailbox_len (hash c (bundle.x ++ bundle.kem))

  -- `signedTranscript`
  unfoldable pub signed_transcript : KemBundle → Bytes → Bytes
  signed_transcript recipient content =
      hash c (text "noblechat/signed-envelope/v1" ++ (recipient.x ++ (recipient.kem ++ content)))

  -- `sealEnvelope`; a sender without a signature key pair is refused.
  unfoldable pub seal_envelope :
      Drawn Secret → KemBundle → Bytes → Option (SignKeypair Secret) → Result EnvelopeError Bytes
  seal_envelope drawn recipient content none = err EnvelopeError.signer_required
  seal_envelope drawn recipient content (some signer) =
      let sig = sign c signer (signed_transcript recipient content) in
      do
        fields ← framed (pack (content ∷ sig.ed ∷ sig.dsa ∷ []))
        sent ← encapsulate c drawn.eph_secret drawn.coins recipient
        framed
            (pack (sent.0.epk ∷ sent.0.kct ∷ seal c drawn.nonce sent.1 (signed_v1 ∷ fields) ∷ []))

  -- The last lines of `openEnvelope`, on the three fields of the plaintext
  unfoldable pub signed_content : KemKeypair Secret → List Bytes → Result EnvelopeError Opened
  signed_content kp (content ∷ ed ∷ dsa ∷ fields) = ok record {
    content = content;
    verify_with = λ bundle.
        verify c bundle (signed_transcript (kem_public_bundle kp) content)
          record { ed = ed; dsa = dsa };
  }
  signed_content kp fields = err EnvelopeError.undefined_field

  -- The version byte, then the signed fields
  unfoldable pub open_plain : KemKeypair Secret → Bytes → Result EnvelopeError Opened
  open_plain kp [] = err EnvelopeError.unknown_version
  open_plain kp (version ∷ fields) =
      let opened = framed (unpack fields 3) >>= signed_content kp in
      if version == signed_v1 then opened else err EnvelopeError.unknown_version

  unfoldable pub open_sealed : KemKeypair Secret → List Bytes → Result EnvelopeError Opened
  open_sealed kp (epk ∷ kct ∷ aead ∷ fields) = do
    shared_secret ← decapsulate c kp record { epk = epk; kct = kct }
    plain ← open_aead c shared_secret aead
    open_plain kp plain
  open_sealed kp fields = err EnvelopeError.undefined_field

  -- `openEnvelope`
  unfoldable pub open_envelope : KemKeypair Secret → Bytes → Result EnvelopeError Opened
  open_envelope kp envelope_bytes = do
    fields ← framed (unpack envelope_bytes 3)
    open_sealed kp fields

-- `packInner`
unfoldable pub pack_inner : Bytes → Bytes → Result WireError Bytes
pack_inner mailbox envelope = pack (mailbox ∷ envelope ∷ [])

abbrev pub two_fields : List Bytes → Option (Bytes × Bytes)
two_fields (mailbox ∷ envelope ∷ fields) = some (mailbox, envelope)
two_fields fields = none

-- `unpackInner`: the mailbox and the envelope
unfoldable pub unpack_inner : Bytes → Result EnvelopeError (Bytes × Bytes)
unpack_inner inner = do
  fields ← framed (unpack inner 2)
  elim (two_fields fields) [ none ↦ err EnvelopeError.undefined_field | some p ↦ ok p ]
