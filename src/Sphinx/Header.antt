-- ===== src/Sphinx/Header.antt =====
-- `createHeader`: the filler, the block of the exit, and one routing layer per earlier hop.
use noblechat.Prelude.{
  ℕ, ◌+◌, ◌-◌, ◌*◌, List, [], ◌∷◌, ◌++◌, length, take, drop, text, Bytes, zeros, ◌≡◌, refl,
}
use noblechat.Sphinx.Primitives.{Primitives}
use noblechat.Sphinx.Cipher.{xor_bytes, subkey, prg, mac}

-- `K`, `R`, `BETA_LEN` and the length of the stream of a hop, `BETA_LEN + 2 * K`
abbrev pub k : ℕ
k = 16

abbrev pub max_hops : ℕ
max_hops = 5

abbrev pub beta_len : ℕ
beta_len = (2 * max_hops + 1) * k

abbrev pub stream_len : ℕ
stream_len = beta_len + 2 * k

-- `FINAL_MARKER`
abbrev pub final_marker : Bytes
final_marker = text "NOBLECHAT::FINAL"

-- A hop of the path: its id, and the secret shared with it.
pub record Hop : Type 0 where
  pub id : Bytes
  pub secret : Bytes

-- The routing information for one hop, with its MAC.
pub record Routing : Type 0 where
  pub beta : Bytes
  pub gamma : Bytes

module _ {Point : Type 0} (p : Primitives Point) where
  -- The loop that builds the filler `phi`, from round `i` on: one round for each secret but the last.
  unfoldable pub filler : ℕ → Bytes → List Hop → Bytes
  filler i phi [] = phi
  filler i phi (h ∷ []) = phi
  filler i phi (h ∷ h' ∷ hops) =
      let min = (2 * (max_hops - i) + 3) * k in
      let rho = prg p (subkey p (text "rho") h.secret) stream_len in
      filler (i + 1) (xor_bytes (phi ++ zeros (2 * k)) (drop min rho)) (h' ∷ hops)

  unfoldable pub authenticate : Bytes → Bytes → Routing
  authenticate secret beta = record {
    beta = beta;
    gamma = mac p (subkey p (text "mu") secret) beta;
  }

  -- The exit's block: the marker, zeros up to `finalLen`, masked, and then the filler.
  unfoldable pub exit_routing : Bytes → ℕ → Bytes → Routing
  unfolding authenticate
  exit_routing secret nu phi =
      let final_len = (2 * (max_hops - nu) + 3) * k in
      let final_block = final_marker ++ zeros (final_len - length final_marker) in
      authenticate secret
        (xor_bytes final_block (prg p (subkey p (text "rho") secret) final_len) ++ phi)

  -- One round of the backward loop.
  unfoldable pub wrap_routing : Bytes → Bytes → Routing → Routing
  unfolding authenticate
  wrap_routing secret next_id r =
      let routing = take beta_len (next_id ++ (r.gamma ++ r.beta)) in
      authenticate secret (xor_bytes routing (prg p (subkey p (text "rho") secret) beta_len))

  -- From the exit backwards; `phi` is the whole filler and `nu` the length of the path.
  unfoldable pub routing_from : ℕ → Bytes → Hop → List Hop → Routing
  routing_from nu phi h [] = exit_routing h.secret nu phi
  routing_from nu phi h (h' ∷ hops) = wrap_routing h.secret h'.id (routing_from nu phi h' hops)

  -- `createHeader`, without the alpha that it passes on
  unfoldable pub create_routing : Hop → List Hop → Routing
  create_routing h hops = routing_from (length (h ∷ hops)) (filler 1 [] (h ∷ hops)) h hops

  pub wrap_gamma :
      (secret next_id : Bytes) (r : Routing)
      → (wrap_routing secret next_id r).gamma
        ≡ mac p (subkey p (text "mu") secret) (wrap_routing secret next_id r).beta
  unfolding wrap_routing
  wrap_gamma secret next_id r = refl

  pub exit_gamma :
      (secret : Bytes) (nu : ℕ) (phi : Bytes)
      → (exit_routing secret nu phi).gamma
        ≡ mac p (subkey p (text "mu") secret) (exit_routing secret nu phi).beta
  unfolding exit_routing
  exit_gamma secret nu phi = refl
