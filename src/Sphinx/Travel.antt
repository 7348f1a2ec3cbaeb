-- ===== src/Sphinx/Travel.antt =====
-- What a packet does at each hop of the path that it was made for.
use noblechat.Prelude.{
  ℕ, ◌*◌, ◌%◌, List, [], ◌∷◌, ◌≤◌, ◌++◌, length, take, map, text, Bytes, slice, arith, ◌≡◌, ◌≢◌,
  refl, sym, ap, ◌∙◌, ok, true, false, slice-append, length-append, append-nil, append_assoc,
}
use native.Mathlib.Nat.{mul_comm, add-mod_right, mod-mod}
use noblechat.Sphinx.Primitives.{Primitives}
use noblechat.Sphinx.Cipher.{eq_bytes, subkey, mac, lioness_encrypt}
use noblechat.Sphinx.Cipher.Xor.{eq_bytes_iff, eq_bytes-eq-false}
use noblechat.Sphinx.Cipher.Inverse.{lioness_inverse}
use noblechat.Sphinx.Scalar.{mod_order, Shared, blinding_factor, decode_point, shared_secrets}
use noblechat.Sphinx.Header.{final_marker, Hop, Routing}
use noblechat.Sphinx.Packet.{
  Packet, PathNode, final, forward, join_hops, dispatch, peel, process_packet,
}
use noblechat.Sphinx.Peeling.{unmasked}

-- A node of the network with its secret scalar.
pub record MixNode : Type 0 where
  pub id : Bytes
  pub secret : ℕ

mod_order-eq-mod : (a m : ℕ) → mod_order a m ≡ a % m
unfolding mod_order
mod_order-eq-mod a m = add-mod_right (a % m) m ∙ mod-mod a m

module _ {Point : Type 0} (p : Primitives Point) where
  abbrev pub alpha_of : ℕ → Bytes
  alpha_of acc = p.to_raw_bytes (p.base_multiply acc)

  -- The secret that the sender and the node share, when the blinded scalar is `acc`.
  abbrev pub secret_at : ℕ → MixNode → Bytes
  secret_at acc n = alpha_of ((acc * n.secret) % p.order)

  abbrev pub next_acc : ℕ → MixNode → ℕ
  next_acc acc n = (acc * blinding_factor p (alpha_of acc) (secret_at acc n)) % p.order

  abbrev pub path_of : List MixNode → List PathNode
  path_of nodes = map (λ n. record { id = n.id; public = alpha_of n.secret }) nodes

  abbrev pub share : ℕ → List MixNode → List Shared
  share acc [] = []
  share acc (n ∷ nodes) =
      record { alpha = alpha_of acc; secret = secret_at acc n } ∷ share (next_acc acc n) nodes

  abbrev pub hop_at : ℕ → MixNode → Hop
  hop_at acc n = record { id = n.id; secret = secret_at acc n }

  abbrev pub hops_from : ℕ → List MixNode → List Hop
  hops_from acc [] = []
  hops_from acc (n ∷ nodes) = hop_at acc n ∷ hops_from (next_acc acc n) nodes

  decode-alpha : (acc : ℕ) → decode_point p (alpha_of acc) ≡ ok (p.base_multiply acc)
  unfolding decode_point
  decode-alpha acc = rw (p.from_hex-to_raw_bytes (p.base_multiply acc), decode_point)

  pub shared_secrets-share :
      (acc : ℕ) (nodes : List MixNode)
      → shared_secrets p acc (map (λ n. n.public) (path_of nodes)) ≡ ok (share acc nodes)
  unfolding shared_secrets
  shared_secrets-share acc [] = refl
  shared_secrets-share acc (n ∷ nodes) =
      let alpha = alpha_of acc in
      let commute : n.secret * acc ≡ acc * n.secret = mul_comm n.secret acc in
      rw (
        decode-alpha n.secret,
        p.multiply-base_multiply n.secret acc,
        commute,
        mod_order-eq-mod (acc * blinding_factor p alpha (secret_at acc n)) p.order,
        shared_secrets-share (next_acc acc n) nodes,
      )

  pub join_hops-share :
      (acc : ℕ) (nodes : List MixNode)
      → join_hops (path_of nodes) (share acc nodes) ≡ hops_from acc nodes
  join_hops-share acc [] = refl
  join_hops-share acc (n ∷ nodes) =
      ap (λ (t : List Hop). hop_at acc n ∷ t) (join_hops-share (next_acc acc n) nodes)

  dispatch_final :
      (acc : ℕ) (s block payload : Bytes)
      → take 16 block ≡ final_marker
      → dispatch p (p.base_multiply acc) (alpha_of acc) s block payload ≡ final payload
  unfolding dispatch
  dispatch_final acc s block payload h = rw ((eq_bytes_iff (take 16 block) final_marker).1 h)

  dispatch_forward :
      (acc : ℕ) (s next_id : Bytes) (next : Routing) (payload : Bytes)
      → (length next_id ≡ 16) × (length next.gamma ≡ 16) × (length next.beta ≡ 176)
      → next_id ≢ final_marker
      → dispatch p
          (p.base_multiply acc)
          (alpha_of acc)
          s
          (next_id ++ (next.gamma ++ next.beta))
          payload
        ≡ forward next_id (record {
          header = record {
            alpha = alpha_of ((acc * blinding_factor p (alpha_of acc) s) % p.order);
            beta = next.beta;
            gamma = next.gamma;
          };
          payload = payload;
        })
  unfolding dispatch
  dispatch_forward acc s next_id next payload (is, gs, bs) ne =
      let id_read = slice-append [] next_id (next.gamma ++ next.beta) 0 16 refl (omega arith) in
      let gamma_read =
        slice-append next_id next.gamma next.beta 16 32 (omega arith) (omega arith) in
      let whole : next_id ++ (next.gamma ++ next.beta)
          ≡ (next_id ++ next.gamma) ++ (next.beta ++ []) =
        simp (append_assoc, append-nil) in
      let beta_read =
        ap (slice 32 208) whole
        ∙ slice-append (next_id ++ next.gamma) next.beta [] 32 208
            (omega (arith, length-append next_id next.gamma))
            (omega (arith, length-append next_id next.gamma)) in
      let other : eq_bytes next_id final_marker ≡ false =
        eq_bytes-eq-false next_id final_marker ne in
      rw (
        id_read,
        other,
        gamma_read,
        beta_read,
        p.multiply-base_multiply acc (blinding_factor p (alpha_of acc) s),
      )

  -- What one hop does with a header that passes its MAC check.
  module _ (acc : ℕ) (n : MixNode) (r : Routing) (payload : Bytes) (long : 32 ≤ length payload)
      (gamma : r.gamma ≡ mac p (subkey p (text "mu") (secret_at acc n)) r.beta) where
    abbrev pub packet_for : Packet
    packet_for = record {
      header = record { alpha = alpha_of acc; beta = r.beta; gamma = r.gamma };
      payload = lioness_encrypt p (secret_at acc n) payload;
    }

    processed :
        process_packet p n.secret packet_for
        ≡ ok (peel p (p.base_multiply acc) (secret_at acc n) packet_for)
    unfolding process_packet
    processed =
        let mu = subkey p (text "mu") (secret_at acc n) in
        let passes : eq_bytes (mac p mu r.beta) r.gamma ≡ true =
          (eq_bytes_iff (mac p mu r.beta) r.gamma).1 (sym gamma) in
        rw (decode-alpha acc, p.multiply-base_multiply acc n.secret, passes)

    opened :
        process_packet p n.secret packet_for
        ≡ ok (
            dispatch p
              (p.base_multiply acc)
              (alpha_of acc)
              (secret_at acc n)
              (unmasked p (secret_at acc n) r)
              payload)
    unfolding peel
    opened =
        processed
        ∙ ap
            (λ (d : Bytes). ok (
              dispatch p (p.base_multiply acc) (alpha_of acc) (secret_at acc n)
                (unmasked p (secret_at acc n) r) d))
            (lioness_inverse p (secret_at acc n) payload long).0

    -- The exit hands over the payload under its layer.
    pub processed_final :
        take 16 (unmasked p (secret_at acc n) r) ≡ final_marker
        → process_packet p n.secret packet_for ≡ ok (final payload)
    processed_final h = opened ∙ ap ok (dispatch_final acc (secret_at acc n) _ payload h)

    -- Any other hop forwards the next hop's packet.
    pub processed_forward :
        (next_id : Bytes) (next : Routing)
        → unmasked p (secret_at acc n) r ≡ next_id ++ (next.gamma ++ next.beta)
        → (length next_id ≡ 16) × (length next.gamma ≡ 16) × (length next.beta ≡ 176)
        → next_id ≢ final_marker
        → process_packet p n.secret packet_for
          ≡ ok (
              forward next_id (record {
                header = record {
                  alpha = alpha_of (next_acc acc n);
                  beta = next.beta;
                  gamma = next.gamma;
                };
                payload = payload;
              }))
    processed_forward next_id next h sizes ne =
        opened
        ∙ ap ok (
            ap
              (λ (b : Bytes).
                dispatch p (p.base_multiply acc) (alpha_of acc) (secret_at acc n) b payload)
              h
            ∙ dispatch_forward acc (secret_at acc n) next_id next payload sizes ne)
