-- ===== src/Sphinx/Packet.antt =====
-- `createPacket` and `processPacket`.
use noblechat.Prelude.{
  ℕ, ◌+◌, ◌-◌, ◌*◌, ◌==◌, ◌||◌, List, [], ◌∷◌, ◌++◌, length, map, ltb, text, Bytes, slice, zeros,
  Result, ok, err, ◌>>=◌, if◌then◌else◌,
}
use noblechat.Sphinx.Primitives.{Primitives}
use noblechat.Sphinx.Cipher.{
  xor_bytes, eq_bytes, subkey, prg, mac, lioness_encrypt, lioness_decrypt,
}
use noblechat.Sphinx.Scalar.{
  SphinxError, bad_path_length, payload_too_large, mac_failed, Shared, rand_scalar, blinding_factor,
  decode_point, shared_secrets,
}
use noblechat.Sphinx.Header.{k, max_hops, beta_len, stream_len, final_marker, Hop, create_routing}

abbrev pub payload_len : ℕ
payload_len = 8192

pub record Header : Type 0 where
  pub alpha : Bytes
  pub beta : Bytes
  pub gamma : Bytes

pub record Packet : Type 0 where
  pub header : Header
  pub payload : Bytes

-- An entry of `path`.
pub record PathNode : Type 0 where
  pub id : Bytes
  pub public : Bytes

-- What `processPacket` returns.
pub data Processed : Type 0 where
  final : Bytes → Processed
  forward : Bytes → Packet → Processed

abbrev pub join_hops : List PathNode → List Shared → List Hop
join_hops [] secrets = []
join_hops (n ∷ path) [] = []
join_hops (n ∷ path) (s ∷ secrets) =
    record { id = n.id; secret = s.secret } ∷ join_hops path secrets

module _ {Point : Type 0} (p : Primitives Point) where
  -- The loop of `onionEncrypt`: the last hop's layer is put on first.
  unfoldable pub onion_layers : List Shared → Bytes → Bytes
  onion_layers [] payload = payload
  onion_layers (s ∷ secrets) payload = lioness_encrypt p s.secret (onion_layers secrets payload)

  -- Padding with zeros to the size of every payload.
  unfoldable pub pad : Bytes → Bytes
  pad inner =
      if ltb (length inner) payload_len then inner ++ zeros (payload_len - length inner) else inner

  unfoldable pub onion_encrypt : List Shared → Bytes → Result SphinxError Bytes
  onion_encrypt secrets inner =
      if ltb payload_len (length inner)
      then err payload_too_large
      else ok (onion_layers secrets (pad inner))

  unfoldable pub seal_header : List PathNode → List Shared → Header
  seal_header (n ∷ path) (s ∷ secrets) =
      let r = create_routing p (record { id = n.id; secret = s.secret }) (join_hops path secrets) in
      record { alpha = s.alpha; beta = r.beta; gamma = r.gamma }
  seal_header _ _ = record { alpha = []; beta = []; gamma = [] }

  -- `createPacket(path, innerPayload)`, with the 32 random bytes of `randScalar`
  unfoldable pub create_packet : Bytes → List PathNode → Bytes → Result SphinxError Packet
  create_packet random path inner =
      if length path == 0 || ltb max_hops (length path) then err bad_path_length else do
        secrets ← shared_secrets p (rand_scalar p random) (map (λ n. n.public) path)
        payload ← onion_encrypt secrets inner
        ok (record { header = seal_header path secrets; payload = payload })

  -- The end of `processPacket`: the unmasked block tells the exit from a hop that forwards.
  unfoldable pub dispatch : Point → Bytes → Bytes → Bytes → Bytes → Processed
  dispatch alpha alpha_bytes s block next_payload =
      let next_id = slice 0 k block in
      let next_gamma = slice k (2 * k) block in
      let next_beta = slice (2 * k) (2 * k + beta_len) block in
      let next_alpha = p.to_raw_bytes (p.multiply alpha (blinding_factor p alpha_bytes s)) in
      if eq_bytes next_id final_marker
      then final next_payload
      else forward next_id (record {
        header = record { alpha = next_alpha; beta = next_beta; gamma = next_gamma };
        payload = next_payload;
      })

  -- The part behind the MAC check: one routing layer and one payload layer come off.
  unfoldable pub peel : Point → Bytes → Packet → Processed
  peel alpha s packet =
      let stream = prg p (subkey p (text "rho") s) stream_len in
      let block = xor_bytes (packet.header.beta ++ zeros (2 * k)) stream in
      dispatch alpha packet.header.alpha s block (lioness_decrypt p s packet.payload)

  -- `processPacket(nodeSecret, packet)`
  unfoldable pub process_packet : ℕ → Packet → Result SphinxError Processed
  process_packet node_secret packet = decode_point p packet.header.alpha >>= λ alpha.
      let s = p.to_raw_bytes (p.multiply alpha node_secret) in
      if eq_bytes (mac p (subkey p (text "mu") s) packet.header.beta) packet.header.gamma
      then ok (peel alpha s packet)
      else err mac_failed
