-- ===== src/Sphinx/Exit.antt =====
-- The block of the exit, and all the blocks of a path by induction on it.
use noblechat.Prelude.{
  ℕ, ◌+◌, ◌-◌, ◌*◌, ◌≤◌, ◌++◌, length, take, drop, text, Bytes, zeros, arith, ◌≡◌, refl, sym, ap,
  ap₂, ◌∙◌, append_assoc, length-append, length-replicate, take-append_length, take-append-drop,
}
use noblechat.Sphinx.Primitives.{Primitives}
use noblechat.Sphinx.Cipher.{xor_bytes, subkey, prg}
use noblechat.Sphinx.Cipher.Xor.{length-xor_bytes, xor_bytes-append, xor_bytes_cancel}
use noblechat.Sphinx.Cipher.Inverse.{length-prg, length-subkey}
use noblechat.Sphinx.Header.{k, max_hops, final_marker, exit_routing, exit_gamma}
use noblechat.Sphinx.Peeling.{rho, unmasked, take-prg, IsRouting}

-- `finalLen` for a path of `nu` hops.
abbrev final_len : ℕ → ℕ
final_len nu = (2 * (max_hops - nu) + 3) * k

abbrev final_block : ℕ → Bytes
final_block nu = final_marker ++ zeros (final_len nu - length final_marker)

length-final_block : (nu : ℕ) → length (final_block nu) ≡ final_len nu
length-final_block nu =
    let room : length (zeros (final_len nu - length final_marker))
        ≡ final_len nu - length final_marker =
      length-replicate (final_len nu - length final_marker) 0 in
    omega (arith, length-append final_marker (zeros (final_len nu - length final_marker)), room)

module _ {Point : Type 0} (p : Primitives Point) where
  module _ (s phi : Bytes) (nu : ℕ) (some_hop : 1 ≤ nu) (fits : nu ≤ 5)
      (size : length phi + 32 ≡ 32 * nu) where
    mask : Bytes
    mask = prg p (subkey p (text "rho") s) (final_len nu)

    mask_size : length mask ≡ final_len nu
    unfolding mask
    mask_size =
        length-prg p (subkey p (text "rho") s) (final_len nu) (length-subkey p (text "rho") s)

    mask_prefix : mask ++ drop (final_len nu) (rho p s) ≡ rho p s
    unfolding mask
    mask_prefix =
        let cut : final_len nu + (208 - final_len nu) ≡ 208 = omega arith in
        ap (λ (t : Bytes). t ++ drop (final_len nu) (rho p s))
          (sym (
              take-prg p (subkey p (text "rho") s) (final_len nu) (208 - final_len nu)
                (length-subkey p (text "rho") s))
            ∙ ap (λ (n : ℕ). take (final_len nu) (prg p (subkey p (text "rho") s) n)) cut)
        ∙ take-append-drop (final_len nu) (rho p s)

    exit_beta : (exit_routing p s nu phi).beta ≡ xor_bytes (final_block nu) mask ++ phi
    unfolding exit_routing mask
    exit_beta = refl

    masked_size : length (xor_bytes (final_block nu) mask) ≡ final_len nu
    masked_size =
        length-xor_bytes (final_block nu) mask (omega (arith, length-final_block nu, mask_size))
        ∙ length-final_block nu

    pub IsRouting-exit : IsRouting p s phi (exit_routing p s nu phi)
    IsRouting-exit = record {
      head = xor_bytes (final_block nu) mask;
      beta = exit_beta;
      size = omega (arith, masked_size);
      gamma = exit_gamma p s nu phi;
    }

    -- What the exit unmasks begins with the marker.
    pub unmasked-exit : take 16 (unmasked p s (exit_routing p s nu phi)) ≡ final_marker
    unmasked-exit =
        let masked = xor_bytes (final_block nu) mask in
        let rest = drop (final_len nu) (rho p s) in
        let tail = zeros (final_len nu - length final_marker) in
        let clear : xor_bytes masked mask ≡ final_block nu =
          xor_bytes_cancel (final_block nu) mask
            (omega (arith, length-final_block nu, mask_size)) in
        let whole : unmasked p s (exit_routing p s nu phi)
            ≡ final_marker ++ (tail ++ xor_bytes (phi ++ zeros 32) rest) =
          ap₂ (λ (a b : Bytes). xor_bytes (a ++ zeros 32) b) exit_beta (sym mask_prefix)
          ∙ ap (λ (t : Bytes). xor_bytes t (mask ++ rest)) (append_assoc masked phi (zeros 32))
          ∙ xor_bytes-append masked mask (phi ++ zeros 32) rest
              (omega (arith, masked_size, mask_size))
          ∙ ap (λ (t : Bytes). t ++ xor_bytes (phi ++ zeros 32) rest) clear
          ∙ append_assoc final_marker tail (xor_bytes (phi ++ zeros 32) rest) in
        ap (take 16) whole
        ∙ take-append_length final_marker (tail ++ xor_bytes (phi ++ zeros 32) rest)
