-- ===== src/Net/Client/Delivery.antt =====
-- A message from its sender to its recipient: sealed, packed, sent over the mix network, and opened.
use noblechat.Prelude.{
  ℕ, ◌≤◌, List, ◌∷◌, ◌++◌, length-take, Option, some, Bool, true, length, JsString, Bytes, ok, ◌≡◌,
  refl, arith, ap, sym, ◌∙◌, [],
}
use noblechat.Sphinx.Primitives.{Primitives}
use noblechat.Sphinx.Travel.{MixNode, path_of}
use noblechat.Sphinx.Delivery.{IsPath}
use noblechat.Envelope.Schemes.{Schemes}
use noblechat.Envelope.Hybrid.{generate_sign_keypair, sign_public_bundle, nonce_len, hash}
use noblechat.Envelope.Seal.{Drawn, mailbox_id, pack_inner}
use noblechat.Envelope.Opening.{open_envelope-seal_envelope, pack_two}
use noblechat.Net.Directory.{DirNode, Testnet, testnet_of, lookup, pick_path}
use noblechat.Net.Directory.Provider.{last_id, entry_for, pick_path-last_id}
use noblechat.Net.Client.{
  Codec, Outgoing, Incoming, generate_identity, build_outgoing, open_incoming,
}
use noblechat.Router.{MailboxStore, Mixnet, NodeEntry, mailbox_key, deliver_to, inject}
use noblechat.Router.Delivery.{Known, exit_of, seen_all, inject-create_packet}

-- The router's view of the directory that a testnet is
abbrev pub directory : (Bytes → JsString) → Testnet → Bytes → Option NodeEntry
directory to_b64 dir id = entry_for (lookup to_b64 dir id)

module _ {S Point : Type 0} (store : MailboxStore S) (to_b64 : Bytes → JsString) (ready : ℕ → Bool)
    (p : Primitives Point) (find : Bytes → Option NodeEntry) (label : MixNode → JsString) where
  last_id-path_of :
      (n : MixNode) (nodes : List MixNode)
      → last_id (path_of p (n ∷ nodes)) ≡ some (exit_of store to_b64 ready p find label n nodes).id
  unfolding last_id
  last_id-path_of n [] = refl
  last_id-path_of n (n' ∷ nodes) = rw (last_id-path_of n' nodes) refl

module _ {Secret Content S Point : Type 0} (c : Schemes Secret) (codec : Codec Content)
    (store : MailboxStore S) (to_b64 : Bytes → JsString) (ready : ℕ → Bool) (p : Primitives Point)
    (label : MixNode → JsString) where
  -- A sender with its own signature keys builds a packet for the card of a recipient, over the path that
  -- `pickPath` gives for the recipient's provider on a directory with these layers and providers. The path
  -- has one to five nodes with well-formed ids, which the directory finds with their secrets; the content
  -- has at most 3626 bytes, the nonce 24. The packet is built, and injecting it at its first node delivers
  -- one envelope to the recipient's mailbox at the recipient's provider. The recipient opens that envelope
  -- to the same content, and its signature verifies against the sender's public keys.
  pub open_incoming-inject :
      (layers : List (List DirNode)) (providers : List DirNode) (random_index : ℕ → ℕ → ℕ)
      (handle : JsString) (provider_id random : Bytes)
      (x_secret kem_secret r_ed r_dsa s_ed s_dsa : Secret) (drawn : Drawn Secret)
      (content : Content) (n : MixNode) (nodes : List MixNode) (net : Mixnet S)
      → let dir = testnet_of to_b64 layers providers in
        let recipient = generate_identity c handle provider_id x_secret kem_secret r_ed r_dsa in
        let signer = generate_sign_keypair c s_ed s_dsa in
        length (codec.encode_content content) ≤ 3626
        → length drawn.nonce ≡ nonce_len
        → pick_path to_b64 dir random_index provider_id ≡ ok (path_of p (n ∷ nodes))
        → IsPath p (n ∷ nodes)
        → length (n ∷ nodes) ≤ 5
        → Known store to_b64 ready p (directory to_b64 dir) label (n ∷ nodes)
        → (out : Outgoing) × (env : Bytes) × (opened : Incoming Content) × (build_outgoing c codec p
              (pick_path to_b64 dir random_index)
              random
              drawn
              recipient.card
              content
              (some signer)
            ≡ ok out)
          × (inject store to_b64 ready p (directory to_b64 dir) 5 out.first_node_id out.packet net
              ≡ deliver_to store to_b64 ready
                  (mailbox_key to_b64 provider_id recipient.mailbox)
                  env
                  (seen_all store to_b64 ready p (directory to_b64 dir) label (n ∷ nodes) net))
          × (open_incoming c codec recipient env ≡ ok opened)
          × (opened.content ≡ content)
          × (opened.verify_with (sign_public_bundle signer) ≡ true)
  unfolding generate_identity pack_inner mailbox_id build_outgoing open_incoming
  open_incoming-inject layers providers random_index handle provider_id random x_secret kem_secret
        r_ed r_dsa s_ed s_dsa drawn content n nodes net small nonce picked path few known =
      let dir = testnet_of to_b64 layers providers in
      let find = directory to_b64 dir in
      let recipient = generate_identity c handle provider_id x_secret kem_secret r_ed r_dsa in
      let (env, opened, sealed, unsealed, same, verified, size) =
        open_envelope-seal_envelope c drawn x_secret kem_secret s_ed s_dsa
          (codec.encode_content content) (omega (arith, small)) nonce in
      let short = length-take 16 (hash c (recipient.card.kem.x ++ recipient.card.kem.kem)) in
      let (inner, packed, long) =
        pack_two recipient.mailbox env (omega (arith, short)) (omega (arith, small, size)) in
      let (packet, made, arrives) =
        inject-create_packet store to_b64 ready p find label random recipient.mailbox env inner n
          nodes net packed (omega (arith, long, short, size, small)) path few known in
      let (id, last, at_provider) =
        pick_path-last_id to_b64 layers providers random_index provider_id (path_of p (n ∷ nodes))
          picked in
      let exit : some (exit_of store to_b64 ready p find label n nodes).id ≡ some id =
        sym (last_id-path_of store to_b64 ready p find label n nodes) ∙ last in
      let there : to_b64 (exit_of store to_b64 ready p find label n nodes).id ≡ to_b64 provider_id =
        ap to_b64 (ground (arith, exit)) ∙ at_provider in
      (
        record { first_node_id = n.id; packet = packet },
        env,
        record { content = content; verify_with = opened.verify_with },
        rw (build_outgoing, picked, sealed, packed, made) refl,
        arrives
            ∙ ap
                (λ (t : JsString).
                  deliver_to store to_b64 ready (t ++ (58 ∷ to_b64 recipient.mailbox)) env
                    (seen_all store to_b64 ready p find label (n ∷ nodes) net))
                there,
        rw (open_incoming, unsealed, same, codec.decode-encode content) refl,
        refl,
        verified,
      )
