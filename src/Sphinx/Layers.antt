-- ===== src/Sphinx/Layers.antt =====
-- The bytes of one routing layer: putting it on and taking it off, with the filler behind it.
use noblechat.Prelude.{
  ℕ, ◌+◌, ◌++◌, length, take, drop, Bytes, zeros, arith, ◌≡◌, refl, sym, ap, ap₂, ◌∙◌, append_assoc,
  length-append, length-take, length-drop, take_add, take-append_length, take-append-drop,
}
use noblechat.Sphinx.Cipher.{xor_bytes}
use noblechat.Sphinx.Cipher.Xor.{
  length-xor_bytes, xor_bytes_cancel, xor_bytes-append, zeros-xor_bytes,
}

-- The stream of a hop, in three parts: what masks the routing information, what masks the filler, and
-- the 32 bytes that become the end of the next hop's filler.
module _ (route phi w u v : Bytes) (wide : length w ≡ length route) (same : length u ≡ length phi)
    (tail : length v ≡ 32) where
  -- The filler after this hop's round.
  filler_round : xor_bytes (phi ++ zeros 32) (u ++ v) ≡ xor_bytes phi u ++ v
  filler_round =
      xor_bytes-append phi u (zeros 32) v (sym same)
      ∙ ap (λ (t : Bytes). xor_bytes phi u ++ t) (zeros-xor_bytes 32 v tail)

  -- Putting the layer on: the filler before this round stands at the end of the masked bytes.
  layer_on : xor_bytes (route ++ xor_bytes phi u) (w ++ u) ≡ xor_bytes route w ++ phi
  layer_on =
      xor_bytes-append route w (xor_bytes phi u) u (sym wide)
      ∙ ap (λ (t : Bytes). xor_bytes route w ++ t) (xor_bytes_cancel phi u (omega arith))

  -- Taking it off: the routing information, and the filler of the next hop whole.
  layer_off :
      xor_bytes ((xor_bytes route w ++ phi) ++ zeros 32) (w ++ (u ++ v))
      ≡ route ++ (xor_bytes phi u ++ v)
  layer_off =
      let masked = length-xor_bytes route w (omega arith) in
      rw append_assoc (
        xor_bytes-append (xor_bytes route w) w (phi ++ zeros 32) (u ++ v) (masked ∙ sym wide)
        ∙ ap₂ (λ (s t : Bytes). s ++ t) (xor_bytes_cancel route w (omega arith)) filler_round)

take-append : (n : ℕ) (a b : Bytes) → n ≡ length a → take n (a ++ b) ≡ a
take-append n a b h = rw h (take-append_length a b)

-- The same for a stream that is cut at the lengths of the code: `route` is the next hop's id, its MAC
-- and the head of its block.
module _ (route phi rho : Bytes) (size : length route + length phi ≡ 176)
    (long : length rho ≡ 208) where
  abbrev pub w_part : Bytes
  w_part = take (length route) rho

  abbrev u_part : Bytes
  u_part = take (length phi) (drop (length route) rho)

  abbrev v_part : Bytes
  v_part = drop (length phi) (drop (length route) rho)

  w_size : length w_part ≡ length route
  w_size = omega (arith, length-take (length route) rho)

  u_size : length u_part ≡ length phi
  u_size =
      omega
        (arith, length-take (length phi) (drop (length route) rho), length-drop (length route) rho)

  v_size : length v_part ≡ 32
  v_size =
      omega
        (arith, length-drop (length phi) (drop (length route) rho), length-drop (length route) rho)

  uv_join : u_part ++ v_part ≡ drop (length route) rho
  uv_join = take-append-drop (length phi) (drop (length route) rho)

  rho_join : w_part ++ (u_part ++ v_part) ≡ rho
  rho_join = rw uv_join (take-append-drop (length route) rho)

  wu_join : take 176 rho ≡ w_part ++ u_part
  wu_join = rw (← size) (take_add (length route) (length phi) rho)

  pub next_filler : Bytes
  next_filler = xor_bytes (phi ++ zeros 32) (drop (length route) rho)

  pub next_filler_lem : next_filler ≡ xor_bytes (phi ++ zeros 32) (drop (length route) rho)
  unfolding next_filler
  next_filler_lem = refl

  next_filler_parts : next_filler ≡ xor_bytes phi u_part ++ v_part
  unfolding next_filler
  next_filler_parts =
      ap (λ (t : Bytes). xor_bytes (phi ++ zeros 32) t) (sym uv_join)
      ∙ filler_round route phi w_part u_part v_part w_size u_size v_size

  pub length-next_filler : length next_filler ≡ length phi + 32
  length-next_filler = rw next_filler_parts (
      omega (
        arith,
        length-append (xor_bytes phi u_part) v_part,
        length-xor_bytes phi u_part (omega (arith, u_size)),
        u_size,
        v_size,
      ))

  pub wrapped : take 176 (route ++ next_filler) ≡ route ++ xor_bytes phi u_part
  wrapped =
      rw (next_filler_parts, ← append_assoc route (xor_bytes phi u_part) v_part)
        (take-append 176 (route ++ xor_bytes phi u_part) v_part (
          omega (
            arith,
            length-append route (xor_bytes phi u_part),
            length-xor_bytes phi u_part (omega (arith, u_size)),
            u_size,
          )))

  -- The masked block is its head, followed by the filler that was there before.
  pub mask_layer :
      xor_bytes (take 176 (route ++ next_filler)) (take 176 rho) ≡ xor_bytes route w_part ++ phi
  mask_layer = rw (wrapped, wu_join) (layer_on route phi w_part u_part v_part w_size u_size v_size)

  -- A hop that adds 32 zeros and unmasks recovers the routing information and the next block.
  pub unmask_layer :
      xor_bytes (xor_bytes (take 176 (route ++ next_filler)) (take 176 rho) ++ zeros 32) rho
      ≡ route ++ next_filler
  unmask_layer = rw mask_layer (
      ap (λ (t : Bytes). xor_bytes ((xor_bytes route w_part ++ phi) ++ zeros 32) t) (sym rho_join)
      ∙ layer_off route phi w_part u_part v_part w_size u_size v_size
      ∙ ap (λ (t : Bytes). route ++ t) (sym next_filler_parts))

  pub length-masked : length (xor_bytes route w_part) ≡ length route
  length-masked = length-xor_bytes route w_part (omega (arith, w_size))
