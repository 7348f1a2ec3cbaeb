-- ===== src/Sphinx/Peeling.antt =====
-- `processPacket` undoes `createHeader`, hop by hop: the block that a hop unmasks is the next hop's id
-- with the routing that `createHeader` had made for that hop, and at the exit it begins with the marker.
use noblechat.Prelude.{
  ℕ, zero, suc, ◌+◌, ◌-◌, ◌≤◌, ◌∷◌, ◌++◌, length, take, drop, text, Bytes, zeros, arith, ◌≡◌, refl,
  sym, ap, ap₂, ◌∙◌, append_assoc, length-append, length-take, length-drop, length-replicate,
}
use noblechat.Sphinx.Primitives.{Primitives}
use noblechat.Sphinx.Cipher.{xor_bytes, subkey, prg, mac}
use noblechat.Sphinx.Cipher.Xor.{length-xor_bytes}
use noblechat.Sphinx.Cipher.Inverse.{length-prg, length-subkey}
use noblechat.Sphinx.Header.{stream_len, Routing, wrap_routing, wrap_gamma}
use noblechat.Sphinx.Layers.{
  next_filler, next_filler_lem, mask_layer, unmask_layer, length-masked, w_part,
}

zeros-add : (n m : ℕ) → zeros (n + m) ≡ zeros n ++ zeros m
zeros-add zero m = ap zeros (omega arith)
zeros-add (suc n) m =
    let shift : suc n + m ≡ suc (n + m) = omega arith in
    rw shift (ap (λ (t : Bytes). 0 ∷ t) (zeros-add n m))

module _ {Point : Type 0} (p : Primitives Point) where
  -- The stream that masks the routing of the hop with secret `s`.
  abbrev pub rho : Bytes → Bytes
  rho s = prg p (subkey p (text "rho") s) stream_len

  -- The block that `processPacket` computes from a header.
  abbrev pub unmasked : Bytes → Routing → Bytes
  unmasked s r = xor_bytes (r.beta ++ zeros 32) (rho s)

  pub take-prg :
      (key : Bytes) (n m : ℕ) → length key ≡ 32 → take n (prg p key (n + m)) ≡ prg p key n
  unfolding prg
  take-prg key n m k =
      let size : length (zeros n) ≡ n = length-replicate n 0 in
      ap (λ (d : Bytes). take n (p.chacha20 key (zeros 12) d)) (zeros-add n m)
      ∙ ap (λ (c : ℕ). take c (p.chacha20 key (zeros 12) (zeros n ++ zeros m))) (sym size)
      ∙ p.take-chacha20 key (zeros 12) (zeros n) (zeros m) k refl

  pub length-mac : (key d : Bytes) → length (mac p key d) ≡ 16
  unfolding mac
  length-mac key d = omega (arith, length-take 16 (p.hmac_sha512 key d), p.length-hmac_sha512 key d)

  -- What holds of the routing of a hop before which the filler was `phi`.
  pub record IsRouting (s phi : Bytes) (r : Routing) : Type 0 where
    pub head : Bytes
    pub beta : r.beta ≡ head ++ phi
    pub size : length head + length phi ≡ 176
    pub gamma : r.gamma ≡ mac p (subkey p (text "mu") s) r.beta

  length-rho : (s : Bytes) → length (rho s) ≡ 208
  length-rho s = length-prg p (subkey p (text "rho") s) 208 (length-subkey p (text "rho") s)

  -- Each round makes the filler 32 bytes longer.
  pub length-round :
      (s phi : Bytes)
      → length phi ≤ 144
      → length (xor_bytes (phi ++ zeros 32) (drop (176 - length phi) (rho s))) ≡ length phi + 32
  length-round s phi short =
      let tail : length (zeros 32) ≡ 32 = refl in
      let room : length (phi ++ zeros 32) ≤ length (drop (176 - length phi) (rho s)) = omega (
        arith,
        length-append phi (zeros 32),
        tail,
        length-drop (176 - length phi) (rho s),
        length-rho s,
      ) in
      length-xor_bytes (phi ++ zeros 32) (drop (176 - length phi) (rho s)) room
      ∙ omega (arith, length-append phi (zeros 32), tail)

  module _ (s s' next_id phi phi' : Bytes) (r : Routing) (id_size : length next_id ≡ 16)
      (short : length phi ≤ 144)
      (round : phi' ≡ xor_bytes (phi ++ zeros 32) (drop (176 - length phi) (rho s)))
      (inner : IsRouting s' phi' r) where
    route : Bytes
    route = next_id ++ (r.gamma ++ inner.head)

    gamma_size : length r.gamma ≡ 16
    gamma_size = ap length inner.gamma ∙ length-mac (subkey p (text "mu") s') r.beta

    rho_size : length (rho s) ≡ 208
    rho_size = length-rho s

    grown : length phi' ≡ length phi + 32
    grown = ap length round ∙ length-round s phi short

    route_size : length route + length phi ≡ 176
    unfolding route
    route_size = omega (
      arith,
      length-append next_id (r.gamma ++ inner.head),
      length-append r.gamma inner.head,
      grown,
      gamma_size,
      inner.size,
    )

    next_lem : next_filler route phi (rho s) route_size rho_size ≡ phi'
    next_lem =
        let rest : length route ≡ 176 - length phi = omega (arith, route_size) in
        next_filler_lem route phi (rho s) route_size rho_size
        ∙ ap (λ (n : ℕ). xor_bytes (phi ++ zeros 32) (drop n (rho s))) rest
        ∙ sym round

    whole :
        next_id ++ (r.gamma ++ r.beta) ≡ route ++ next_filler route phi (rho s) route_size rho_size
    unfolding route
    whole =
        ap (λ (t : Bytes). next_id ++ (r.gamma ++ t))
          (inner.beta ∙ ap (λ (t : Bytes). inner.head ++ t) (sym next_lem))
        ∙ simp append_assoc

    masked :
        (wrap_routing p s next_id r).beta
        ≡ xor_bytes
            (take 176 (route ++ next_filler route phi (rho s) route_size rho_size))
            (take 176 (rho s))
    unfolding wrap_routing
    masked =
        ap₂ (λ (a b : Bytes). xor_bytes (take 176 a) b) whole
          (sym (take-prg (subkey p (text "rho") s) 176 32 (length-subkey p (text "rho") s)))

    pub IsRouting-wrap : IsRouting s phi (wrap_routing p s next_id r)
    IsRouting-wrap = record {
      head = xor_bytes route (w_part route phi (rho s) route_size rho_size);
      beta = masked ∙ mask_layer route phi (rho s) route_size rho_size;
      size = omega (arith, length-masked route phi (rho s) route_size rho_size, route_size);
      gamma = wrap_gamma p s next_id r;
    }

    -- A hop that is not the exit unmasks the next hop's id, MAC and block.
    pub unmasked-wrap : unmasked s (wrap_routing p s next_id r) ≡ next_id ++ (r.gamma ++ r.beta)
    unmasked-wrap =
        ap (λ (b : Bytes). xor_bytes (b ++ zeros 32) (rho s)) masked
        ∙ unmask_layer route phi (rho s) route_size rho_size
        ∙ sym whole
