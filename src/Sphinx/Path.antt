-- ===== src/Sphinx/Path.antt =====
-- All the routing blocks of a path, by induction on it.
use noblechat.Prelude.{
  ℕ, ◌+◌, ◌-◌, ◌*◌, ◌≤◌, List, [], ◌∷◌, ◌++◌, length, take, drop, Bytes, zeros, arith, ◌≡◌, ap, All,
}
use noblechat.Sphinx.Primitives.{Primitives}
use noblechat.Sphinx.Cipher.{xor_bytes}
use noblechat.Sphinx.Header.{max_hops, final_marker, Hop, filler, routing_from}
use noblechat.Sphinx.Peeling.{rho, unmasked, IsRouting, IsRouting-wrap, unmasked-wrap, length-round}
use noblechat.Sphinx.Exit.{IsRouting-exit, unmasked-exit}

module _ {Point : Type 0} (p : Primitives Point) where
  -- Each hop unmasks what the next one is to be handed, and the exit unmasks the marker.
  abbrev pub Unwinds : ℕ → Bytes → Hop → List Hop → Type 0
  Unwinds nu total h [] =
      take 16 (unmasked p h.secret (routing_from p nu total h [])) ≡ final_marker
  Unwinds nu total h (h' ∷ hops) =
      let r = routing_from p nu total h' hops in
      (unmasked p h.secret (routing_from p nu total h (h' ∷ hops)) ≡ h'.id ++ (r.gamma ++ r.beta))
      × Unwinds nu total h' hops

  -- With that, the block of every hop has 176 bytes and the MAC that the hop checks.
  abbrev pub Routed : ℕ → Bytes → Hop → List Hop → Type 0
  Routed nu total h [] = (phi : Bytes) × IsRouting p h.secret phi (routing_from p nu total h [])
  Routed nu total h (h' ∷ hops) =
      ((phi : Bytes) × IsRouting p h.secret phi (routing_from p nu total h (h' ∷ hops)))
      × Routed nu total h' hops

  abbrev pub HasIds : List Hop → Type 0
  HasIds hops = All (λ h. length h.id ≡ 16) hops

  abbrev Correct : ℕ → Bytes → Bytes → Hop → List Hop → Type 0
  Correct nu phi total h hops =
      IsRouting p h.secret phi (routing_from p nu total h hops)
      × Unwinds nu total h hops
      × Routed nu total h hops

  unwind :
      (i nu : ℕ) (phi : Bytes) (h : Hop) (hops : List Hop)
      → i + length hops ≡ nu
      → 1 ≤ i
      → nu ≤ 5
      → length phi + 32 ≡ 32 * i
      → HasIds hops
      → Correct nu phi (filler p i phi (h ∷ hops)) h hops
  unfolding filler routing_from
  unwind i nu phi h [] count pos fits size ids =
      let exit = IsRouting-exit p h.secret phi nu (omega arith) fits (omega arith) in
      (exit, unmasked-exit p h.secret phi nu (omega arith) fits (omega arith), (phi, exit))
  unwind i nu phi h (h' ∷ hops) count pos fits size (id_size, ids) =
      let min = (2 * (max_hops - i) + 3) * 16 in
      let phi' = xor_bytes (phi ++ zeros 32) (drop min (rho p h.secret)) in
      let cut : min ≡ 176 - length phi = omega arith in
      let round : phi' ≡ xor_bytes (phi ++ zeros 32) (drop (176 - length phi) (rho p h.secret)) =
        ap (λ (n : ℕ). xor_bytes (phi ++ zeros 32) (drop n (rho p h.secret))) cut in
      let grown : length phi' + 32 ≡ 32 * (i + 1) =
        omega (arith, ap length round, length-round p h.secret phi (omega arith)) in
      let (inner, later, routed) =
        unwind (i + 1) nu phi' h' hops (omega arith) (omega arith) fits grown ids in
      let r = routing_from p nu (filler p (i + 1) phi' (h' ∷ hops)) h' hops in
      let layer =
        IsRouting-wrap p h.secret h'.secret h'.id phi phi' r id_size (omega arith) round inner in
      let off =
        unmasked-wrap p h.secret h'.secret h'.id phi phi' r id_size (omega arith) round inner in
      (layer, (off, later), ((phi, layer), routed))

  -- `createHeader` over a path of at most five hops: the block of every hop is well formed, and each
  -- hop unmasks exactly what the next one needs.
  pub create_routing-Unwinds :
      (h : Hop) (hops : List Hop)
      → length (h ∷ hops) ≤ 5
      → HasIds hops
      → Unwinds (length (h ∷ hops)) (filler p 1 [] (h ∷ hops)) h hops
        × Routed (length (h ∷ hops)) (filler p 1 [] (h ∷ hops)) h hops
  create_routing-Unwinds h hops fits ids =
      let (_, unwinds, routed) =
        unwind 1 (length (h ∷ hops)) [] h hops (omega arith) (omega arith) fits (omega arith) ids in
      (unwinds, routed)
