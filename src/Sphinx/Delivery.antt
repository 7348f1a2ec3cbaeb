-- ===== src/Sphinx/Delivery.antt =====
-- A packet made by `createPacket` crosses exactly its path, and the last node receives the payload.
use noblechat.Prelude.{
  ℕ, suc, ◌-◌, ◌≤◌, ◌==◌, ltb, List, [], ◌∷◌, length, Bytes, zeros, arith, ◌≡◌, ◌≢◌, refl, ap, ◌∙◌,
  All, ok, length-append, length-replicate, length-map, false, ltb-eq-false, ltb→lt, Bool-cases,
  inl, inr,
}
use noblechat.Sphinx.Primitives.{Primitives}
use noblechat.Sphinx.Cipher.Inverse.{lioness_inverse}
use noblechat.Sphinx.Scalar.{Shared, rand_scalar}
use noblechat.Sphinx.Header.{final_marker, Hop, Routing, filler, routing_from, create_routing}
use noblechat.Sphinx.Packet.{
  Packet, final, forward, payload_len, onion_layers, pad, onion_encrypt, seal_header, create_packet,
  process_packet,
}
use noblechat.Sphinx.Peeling.{IsRouting, length-mac}
use noblechat.Sphinx.Path.{Unwinds, Routed, HasIds, create_routing-Unwinds}
use noblechat.Sphinx.Travel.{
  MixNode, alpha_of, secret_at, next_acc, path_of, share, hop_at, hops_from, shared_secrets-share,
  join_hops-share, processed_final, processed_forward,
}

module _ {Point : Type 0} (p : Primitives Point) where
  -- Every packet has these sizes, whatever it carries.
  pub record HasPacketSize (packet : Packet) : Type 0 where
    pub beta : length packet.header.beta ≡ 176
    pub gamma : length packet.header.gamma ≡ 16
    pub payload : length packet.payload ≡ 8192

  -- The packet goes from node to node along the list, each naming the next; the last one is the exit
  -- and receives `out`; and it has the constant size on every link.
  abbrev pub Travels : List MixNode → Packet → Bytes → Type 0
  Travels [] packet out = ⊥
  Travels (n ∷ []) packet out =
      HasPacketSize packet × (process_packet p n.secret packet ≡ ok (final out))
  Travels (n ∷ n' ∷ nodes) packet out =
      (next : Packet) × HasPacketSize packet
      × (process_packet p n.secret packet ≡ ok (forward n'.id next))
      × Travels (n' ∷ nodes) next out

  -- No id of a node is the marker.
  abbrev pub IsPath : List MixNode → Type 0
  IsPath nodes = All (λ n. (length n.id ≡ 16) × (n.id ≢ final_marker)) nodes

  IsPath-ids : (acc : ℕ) (nodes : List MixNode) → IsPath nodes → HasIds p (hops_from p acc nodes)
  IsPath-ids acc [] h = tt
  IsPath-ids acc (n ∷ nodes) (h, hs) = (h.0, IsPath-ids (next_acc p acc n) nodes hs)

  length-onion_layers :
      (secrets : List Shared) (payload : Bytes)
      → 32 ≤ length payload
      → length (onion_layers p secrets payload) ≡ length payload
  unfolding onion_layers
  length-onion_layers [] payload long = refl
  length-onion_layers (s ∷ secrets) payload long =
      let size = length-onion_layers secrets payload long in
      (lioness_inverse p s.secret (onion_layers p secrets payload) (omega (arith, size, long))).2
      ∙ size

  -- The packet for the node `n` of the path, when the blinded scalar is `acc`.
  packet_at : ℕ → Bytes → ℕ → MixNode → List MixNode → Bytes → Packet
  packet_at nu total acc n nodes out =
      let r = routing_from p nu total (hop_at p acc n) (hops_from p (next_acc p acc n) nodes) in
      record {
        header = record { alpha = alpha_of p acc; beta = r.beta; gamma = r.gamma };
        payload = onion_layers p (share p acc (n ∷ nodes)) out;
      }

  routed_sizes :
      (secret phi : Bytes) (r : Routing)
      → IsRouting p secret phi r
      → (length r.beta ≡ 176) × (length r.gamma ≡ 16)
  routed_sizes secret phi r i = (
    ap length i.beta ∙ length-append i.head phi ∙ i.size,
    ap length i.gamma ∙ length-mac p _ r.beta,
  )

  Routed-head :
      (nu : ℕ) (total : Bytes) (h : Hop) (hops : List Hop)
      → Routed p nu total h hops
      → (phi : Bytes) × IsRouting p h.secret phi (routing_from p nu total h hops)
  Routed-head nu total h [] routed = routed
  Routed-head nu total h (h' ∷ hops) routed = routed.0

  packet_at-size :
      (nu : ℕ) (total : Bytes) (acc : ℕ) (n : MixNode) (nodes : List MixNode) (out : Bytes)
      → length out ≡ 8192
      → Routed p nu total (hop_at p acc n) (hops_from p (next_acc p acc n) nodes)
      → HasPacketSize (packet_at nu total acc n nodes out)
  unfolding packet_at
  packet_at-size nu total acc n nodes out size routed =
      let (phi, layer) = Routed-head nu total _ (hops_from p (next_acc p acc n) nodes) routed in
      let (beta, gamma) = routed_sizes (secret_at p acc n) phi _ layer in
      record {
        beta = beta;
        gamma = gamma;
        payload = length-onion_layers (share p acc (n ∷ nodes)) out (omega (arith, size)) ∙ size;
      }

  packet_at-Travels :
      (nu : ℕ) (total : Bytes) (acc : ℕ) (n : MixNode) (nodes : List MixNode) (out : Bytes)
      → IsPath (n ∷ nodes)
      → length out ≡ 8192
      → Unwinds p nu total (hop_at p acc n) (hops_from p (next_acc p acc n) nodes)
      → Routed p nu total (hop_at p acc n) (hops_from p (next_acc p acc n) nodes)
      → Travels (n ∷ nodes) (packet_at nu total acc n nodes out) out
  unfolding packet_at onion_layers
  packet_at-Travels nu total acc n [] out path size unwinds (phi, routed) = (
    packet_at-size nu total acc n [] out size (phi, routed),
    processed_final p acc n (routing_from p nu total (hop_at p acc n) []) out (omega (arith, size))
        routed.gamma unwinds,
  )
  packet_at-Travels nu total acc n (n' ∷ nodes) out path size (unwinds, later) (routed, rest) =
      let hops = hops_from p (next_acc p acc n) (n' ∷ nodes) in
      let r = routing_from p nu total (hop_at p acc n) hops in
      let next = packet_at-size nu total (next_acc p acc n) n' nodes out size rest in
      (
        packet_at nu total (next_acc p acc n) n' nodes out,
        packet_at-size nu total acc n (n' ∷ nodes) out size (routed, rest),
        processed_forward p acc n r (onion_layers p (share p (next_acc p acc n) (n' ∷ nodes)) out)
            (omega (arith, next.payload)) routed.1.gamma n'.id _ unwinds
            (path.1.0.0, next.gamma, next.beta) path.1.0.1,
        packet_at-Travels nu total (next_acc p acc n) n' nodes out path.1 size later rest,
      )

  length-pad : (inner : Bytes) → length inner ≤ payload_len → length (pad p inner) ≡ 8192
  unfolding pad
  length-pad inner fits = elim (Bool-cases (ltb (length inner) payload_len)) [
    | inl short ↦
        let size : length (zeros (payload_len - length inner)) ≡ payload_len - length inner =
          length-replicate (payload_len - length inner) 0 in
        rw short (
          omega (arith, length-append inner (zeros (payload_len - length inner)), ltb→lt _ _ short))
    | inr full ↦ rw full (ground arith)
  ]

  length-hops_from :
      (acc : ℕ) (nodes : List MixNode) → length (hops_from p acc nodes) ≡ length nodes
  length-hops_from acc [] = refl
  length-hops_from acc (n ∷ nodes) = ap suc (length-hops_from (next_acc p acc n) nodes)

  -- The packet that the sender makes is the one for the first node.
  abbrev first_packet : ℕ → MixNode → List MixNode → Bytes → Packet
  first_packet acc n nodes inner =
      let hops = hops_from p acc (n ∷ nodes) in
      packet_at (length hops) (filler p 1 [] hops) acc n nodes (pad p inner)

  sealed :
      (acc : ℕ) (n : MixNode) (nodes : List MixNode)
      → seal_header p (path_of p (n ∷ nodes)) (share p acc (n ∷ nodes))
        ≡ (first_packet acc n nodes []).header
  unfolding seal_header create_routing packet_at
  sealed acc n nodes = rw (join_hops-share p (next_acc p acc n) nodes)

  onion_encrypt-fits :
      (secrets : List Shared) (inner : Bytes)
      → length inner ≤ payload_len
      → onion_encrypt p secrets inner ≡ ok (onion_layers p secrets (pad p inner))
  unfolding onion_encrypt
  onion_encrypt-fits secrets inner room = rw (ltb-eq-false payload_len (length inner) room)

  created :
      (random inner : Bytes) (n : MixNode) (nodes : List MixNode)
      → length (n ∷ nodes) ≤ 5
      → length inner ≤ payload_len
      → create_packet p random (path_of p (n ∷ nodes)) inner
        ≡ ok (first_packet (rand_scalar p random) n nodes inner)
  unfolding create_packet packet_at
  created random inner n nodes fits room =
      let acc = rand_scalar p random in
      let count : length (path_of p nodes) ≡ length nodes = length-map _ nodes in
      let short : ltb 5 (suc (length (path_of p nodes))) ≡ false =
        ltb-eq-false 5 (suc (length (path_of p nodes))) (omega arith) in
      let some_hop : (suc (length (path_of p nodes)) == 0) ≡ false = ground arith in
      rw (
        some_hop,
        short,
        shared_secrets-share p acc (n ∷ nodes),
        onion_encrypt-fits (share p acc (n ∷ nodes)) inner room,
        sealed acc n nodes,
      )

  -- `createPacket` over a path of one to five nodes of the network succeeds on an inner payload of at
  -- most 8192 bytes, whatever randomness it draws. Its packet goes from each node of the path to the
  -- next, with the same sizes on every link, and the last node receives the payload, padded with zeros.
  pub create_packet-Travels :
      (random inner : Bytes) (n : MixNode) (nodes : List MixNode)
      → IsPath (n ∷ nodes)
      → length (n ∷ nodes) ≤ 5
      → length inner ≤ payload_len
      → (packet : Packet) × (create_packet p random (path_of p (n ∷ nodes)) inner ≡ ok packet)
        × Travels (n ∷ nodes) packet (pad p inner)
  create_packet-Travels random inner n nodes path fits room =
      let acc = rand_scalar p random in
      let few : length (hops_from p acc (n ∷ nodes)) ≤ 5 =
        omega (arith, length-hops_from acc (n ∷ nodes)) in
      let (unwinds, routed) =
        create_routing-Unwinds p (hop_at p acc n) (hops_from p (next_acc p acc n) nodes) few
          (IsPath-ids acc (n ∷ nodes) path).1 in
      (
        first_packet acc n nodes inner,
        created random inner n nodes fits room,
        packet_at-Travels _ _ acc n nodes (pad p inner) path (length-pad inner room) unwinds routed,
      )
