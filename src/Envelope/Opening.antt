-- ===== src/Envelope/Opening.antt =====
-- What is sealed to a recipient opens with the recipient's keys, and its signature verifies.
use noblechat.Prelude.{
  ◌+◌, ◌≤◌, ltb, List, [], ◌∷◌, some, true, false, length, Bytes, ok, ◌≡◌, arith, refl, sym, subst,
  ltb-eq-false, length-append, append-nil, take-append_length, drop-append_length,
}
use noblechat.Wire.{pack, unpack}
use noblechat.Wire.RoundTrip.{unpack-pack}
use noblechat.Envelope.Schemes.{Schemes}
use noblechat.Envelope.Hybrid.{
  KemKeypair, KemBundle, KemHeader, SignKeypair, SignBundle, encapsulate, decapsulate, seal,
  open_aead, sign, verify, kem_public_bundle, sign_public_bundle, generate_kem_keypair,
  generate_sign_keypair, nonce_len,
}
use noblechat.Envelope.Seal.{
  signed_v1, Opened, Drawn, signed_transcript, seal_envelope, signed_content, open_plain,
  open_sealed, open_envelope,
}

-- A frame of fields that fit has two bytes more for each field.
pub pack_fits :
    (f : Bytes) (fields : List Bytes) (parts : Bytes)
    → length f ≤ 0xffff
    → pack fields ≡ ok parts
    → (bytes : Bytes) × (pack (f ∷ fields) ≡ ok bytes)
      × (length bytes ≡ 2 + length f + length parts)
unfolding pack
pack_fits f fields parts fits packed =
    let small : ltb 0xffff (length f) ≡ false = ltb-eq-false 0xffff (length f) fits in
    rw (small, packed) (_, refl, omega (arith, length-append f parts))

pack-nil : pack [] ≡ ok []
unfolding pack
pack-nil = refl

pub pack_three :
    (f g h : Bytes)
    → length f ≤ 0xffff
    → length g ≤ 0xffff
    → length h ≤ 0xffff
    → (bytes : Bytes) × (pack (f ∷ g ∷ h ∷ []) ≡ ok bytes)
      × (length bytes ≡ 6 + length f + length g + length h)
pack_three f g h p q r =
    let (b1, e1, l1) = pack_fits h [] [] r pack-nil in
    let (b2, e2, l2) = pack_fits g (h ∷ []) b1 q e1 in
    let (b3, e3, l3) = pack_fits f (g ∷ h ∷ []) b2 p e2 in (b3, e3, omega (arith, l1, l2, l3))

pub pack_two :
    (f g : Bytes)
    → length f ≤ 0xffff
    → length g ≤ 0xffff
    → (bytes : Bytes) × (pack (f ∷ g ∷ []) ≡ ok bytes) × (length bytes ≡ 4 + length f + length g)
pack_two f g p q =
    let (b1, e1, l1) = pack_fits g [] [] q pack-nil in
    let (b2, e2, l2) = pack_fits f (g ∷ []) b1 p e1 in (b2, e2, omega (arith, l1, l2))

unpack_packed :
    (fields : List Bytes) (bytes : Bytes)
    → pack fields ≡ ok bytes
    → unpack bytes (length fields) ≡ ok fields
unpack_packed fields bytes h =
    subst (λ (b : Bytes). unpack b (length fields) ≡ ok fields) (append-nil bytes)
      (unpack-pack fields bytes [] h)

module _ {Secret : Type 0} (c : Schemes Secret) where
  open-seal :
      (nonce key plain : Bytes)
      → length nonce ≡ nonce_len
      → open_aead c key (seal c nonce key plain) ≡ ok plain
  unfolding open_aead seal
  open-seal nonce key plain size =
      rw
        (
          sym size,
          take-append_length nonce (c.encrypt key nonce plain),
          drop-append_length nonce (c.encrypt key nonce plain),
          c.decrypt-encrypt key nonce plain,
        )
        refl

  -- Both sides of the hybrid exchange derive the same secret.
  pub decapsulate-encapsulate :
      (eph_secret coins x_secret kem_secret : Secret)
      → (header : KemHeader) × (shared : Bytes) × (encapsulate c eph_secret coins
            (kem_public_bundle (generate_kem_keypair c x_secret kem_secret))
          ≡ ok (header, shared))
        × (decapsulate c (generate_kem_keypair c x_secret kem_secret) header ≡ ok shared)
        × (length header.epk ≡ 32)
        × (length header.kct ≡ 1088)
  unfolding encapsulate decapsulate kem_public_bundle generate_kem_keypair
  decapsulate-encapsulate eph_secret coins x_secret kem_secret =
      let (dh, ours, theirs) = c.agree eph_secret x_secret in
      let (ct, ss, sent, received, size) = c.kem_agree kem_secret coins in
      rw (ours, sent) (_, _, refl, rw (theirs, received) refl, c.length-x_public eph_secret, size)

  pub verify-sign :
      (ed_secret dsa_secret : Secret) (message : Bytes)
      → verify c
          (sign_public_bundle (generate_sign_keypair c ed_secret dsa_secret))
          message
          (sign c (generate_sign_keypair c ed_secret dsa_secret) message)
        ≡ true
  unfolding verify sign sign_public_bundle generate_sign_keypair
  verify-sign ed_secret dsa_secret message =
      rw (verify, c.ed_verify-ed_sign message ed_secret, c.dsa_verify-dsa_sign message dsa_secret)
        refl

  -- The two frames of an envelope, for a content that fits.
  sealed_fields :
      (drawn : Drawn Secret) (recipient : KemBundle) (content : Bytes) (signer : SignKeypair Secret)
      (header : KemHeader) (shared : Bytes)
      → length content ≤ 62115
      → encapsulate c drawn.eph_secret drawn.coins recipient ≡ ok (header, shared)
      → length header.epk ≡ 32
      → length header.kct ≡ 1088
      → length drawn.nonce ≡ nonce_len
      → (fields : Bytes) × (env : Bytes) × (pack (
            content
            ∷ (sign c signer (signed_transcript c recipient content)).ed
            ∷ (sign c signer (signed_transcript c recipient content)).dsa
            ∷ [])
          ≡ ok fields)
        × (pack (header.epk ∷ header.kct ∷ seal c drawn.nonce shared (signed_v1 ∷ fields) ∷ [])
            ≡ ok env)
        × (seal_envelope c drawn recipient content (some signer) ≡ ok env)
        × (length env ≡ length content + 4546)
  unfolding sign seal seal_envelope
  sealed_fields drawn recipient content signer header shared small sent epk kct nonce =
      let message = signed_transcript c recipient content in
      let ed = c.length-ed_sign message signer.ed.secret_key in
      let dsa = c.length-dsa_sign message signer.dsa.secret_key in
      let (fields, packed, size) =
        pack_three content (c.ed_sign message signer.ed.secret_key)
          (c.dsa_sign signer.dsa.secret_key message) (omega arith) (omega (arith, ed))
          (omega (arith, dsa)) in
      let aead = length-seal drawn.nonce shared (signed_v1 ∷ fields) in
      let (env, enveloped, whole) =
        pack_three header.epk header.kct (seal c drawn.nonce shared (signed_v1 ∷ fields))
          (omega arith) (omega arith) (omega (arith, aead, size, ed, dsa)) in
      (
        fields,
        env,
        packed,
        enveloped,
        sealed env fields packed sent enveloped,
        omega (arith, whole, aead, size, ed, dsa, epk, kct, nonce),
      )
    where
      length-seal : (n k p : Bytes) → length (seal c n k p) ≡ length n + length p + 16
      length-seal n k p = omega (arith, length-append n (c.encrypt k n p), c.length-encrypt k n p)

      sealed :
          (env fields : Bytes)
          → pack (
              content
              ∷ (sign c signer (signed_transcript c recipient content)).ed
              ∷ (sign c signer (signed_transcript c recipient content)).dsa
              ∷ [])
            ≡ ok fields
          → encapsulate c drawn.eph_secret drawn.coins recipient ≡ ok (header, shared)
          → pack (header.epk ∷ header.kct ∷ seal c drawn.nonce shared (signed_v1 ∷ fields) ∷ [])
            ≡ ok env
          → seal_envelope c drawn recipient content (some signer) ≡ ok env
      sealed env fields p q r = rw (seal_envelope, p, q, r) refl

  open_sealed_fields :
      (kp : KemKeypair Secret) (signer : SignKeypair Secret)
      (content fields nonce shared env : Bytes) (header : KemHeader) (sig : SignBundle)
      → pack (content ∷ sig.ed ∷ sig.dsa ∷ []) ≡ ok fields
      → pack (header.epk ∷ header.kct ∷ seal c nonce shared (signed_v1 ∷ fields) ∷ []) ≡ ok env
      → decapsulate c kp header ≡ ok shared
      → length nonce ≡ nonce_len
      → open_envelope c kp env ≡ signed_content c kp (content ∷ sig.ed ∷ sig.dsa ∷ [])
  unfolding open_envelope open_sealed open_plain
  open_sealed_fields kp signer content fields nonce shared env header sig packed enveloped received
        size =
      let outer =
        unpack_packed (header.epk ∷ header.kct ∷ seal c nonce shared (signed_v1 ∷ fields) ∷ []) env
          enveloped in
      let inner = unpack_packed (content ∷ sig.ed ∷ sig.dsa ∷ []) fields packed in
      let opened = open-seal nonce shared (signed_v1 ∷ fields) size in
      rw (open_envelope, outer, received, opened, inner) refl

  -- A content of at most 62115 bytes that a sender with its own key pair seals to a recipient's public
  -- bundle, with a nonce of 24 bytes, gives an envelope that is 4546 bytes longer. The recipient's key
  -- pair opens it to the same content, and the signature verifies against the sender's public bundle.
  pub open_envelope-seal_envelope :
      (drawn : Drawn Secret) (x_secret kem_secret ed_secret dsa_secret : Secret) (content : Bytes)
      → length content ≤ 62115
      → length drawn.nonce ≡ nonce_len
      → (env : Bytes) × (opened : Opened) × (seal_envelope c drawn
            (kem_public_bundle (generate_kem_keypair c x_secret kem_secret))
            content
            (some (generate_sign_keypair c ed_secret dsa_secret))
          ≡ ok env)
        × (open_envelope c (generate_kem_keypair c x_secret kem_secret) env ≡ ok opened)
        × (opened.content ≡ content)
        × (opened.verify_with (sign_public_bundle (generate_sign_keypair c ed_secret dsa_secret))
            ≡ true)
        × (length env ≡ length content + 4546)
  unfolding signed_content
  open_envelope-seal_envelope drawn x_secret kem_secret ed_secret dsa_secret content small size =
      let kp = generate_kem_keypair c x_secret kem_secret in
      let signer = generate_sign_keypair c ed_secret dsa_secret in
      let message = signed_transcript c (kem_public_bundle kp) content in
      let (header, shared, sent, received, epk, kct) =
        decapsulate-encapsulate drawn.eph_secret drawn.coins x_secret kem_secret in
      let (fields, env, packed, enveloped, sealed, long) =
        sealed_fields drawn (kem_public_bundle kp) content signer header shared small sent epk kct
          size in
      (
        env,
        _,
        sealed,
        open_sealed_fields kp signer content fields drawn.nonce shared env header
            (sign c signer message) packed enveloped received size,
        refl,
        verify-sign ed_secret dsa_secret message,
        long,
      )
