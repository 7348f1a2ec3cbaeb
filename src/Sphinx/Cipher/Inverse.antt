-- ===== src/Sphinx/Cipher/Inverse.antt =====
-- LIONESS is a permutation of the blocks: each round undoes itself, and the rounds of decryption
-- are those of encryption backwards.
use noblechat.Prelude.{
  ℕ, ◌+◌, ◌≤◌, text, ◌++◌, length, take, drop, Bytes, slice, zeros, arith, ◌≡◌, refl, sym, ap, ◌∙◌,
  length-take, length-replicate, take-append-drop, length-append, take-append_length,
  drop-append_length,
}
use noblechat.Sphinx.Primitives.{Primitives}
use noblechat.Sphinx.Cipher.{
  xor_bytes, subkey, left_len, prg, hash_l, mix_right, mix_left, lioness_encrypt, lioness_decrypt,
  Keys, lioness_keys, encrypt_halves, decrypt_halves,
}
use noblechat.Sphinx.Cipher.Xor.{length-xor_bytes, xor_bytes_cancel}

abbrev left : Bytes → Bytes
left block = slice 0 left_len block

abbrev right : Bytes → Bytes
right block = drop left_len block

left-append : (l r : Bytes) → length l ≡ 32 → left (l ++ r) ≡ l
left-append l r full = ap (λ (n : ℕ). take n (l ++ r)) (sym full) ∙ take-append_length l r

right-append : (l r : Bytes) → length l ≡ 32 → right (l ++ r) ≡ r
right-append l r full = ap (λ (n : ℕ). drop n (l ++ r)) (sym full) ∙ drop-append_length l r

module _ {Point : Type 0} (p : Primitives Point) where
  pub length-prg : (key : Bytes) (n : ℕ) → length key ≡ 32 → length (prg p key n) ≡ n
  unfolding prg
  length-prg key n h = p.length-chacha20 key (zeros 12) (zeros n) h refl ∙ length-replicate n 0

  pub length-subkey : (name s : Bytes) → length (subkey p name s) ≡ 32
  unfolding subkey
  length-subkey name s = p.length-sha256 (name ++ s)

  length-hash_l : (key d : Bytes) → length (hash_l p key d) ≡ 32
  unfolding hash_l
  length-hash_l key d =
      omega (arith, length-take 32 (p.hmac_sha512 key d), p.length-hmac_sha512 key d)

  -- The seed of a round over the right half is a key.
  length-seed : (key l : Bytes) → length key ≡ 32 → length l ≡ 32 → length (xor_bytes l key) ≡ 32
  length-seed key l k h = length-xor_bytes l key (omega (arith, k, h)) ∙ h

  length-mix_right :
      (key l r : Bytes) → length key ≡ 32 → length l ≡ 32 → length (mix_right p key l r) ≡ length r
  unfolding mix_right
  length-mix_right key l r k h =
      length-xor_bytes r (prg p (xor_bytes l key) (length r))
        (omega (arith, length-prg (xor_bytes l key) (length r) (length-seed key l k h)))

  length-mix_left : (key l r : Bytes) → length l ≡ 32 → length (mix_left p key l r) ≡ 32
  unfolding mix_left
  length-mix_left key l r h =
      length-xor_bytes l (hash_l p key r) (omega (arith, h, length-hash_l key r)) ∙ h

  mix_right_twice :
      (key l r : Bytes)
      → length key ≡ 32
      → length l ≡ 32
      → mix_right p key l (mix_right p key l r) ≡ r
  unfolding mix_right
  mix_right_twice key l r k h =
      let stream = prg p (xor_bytes l key) (length r) in
      let size : length r ≤ length stream =
        omega (arith, length-prg (xor_bytes l key) (length r) (length-seed key l k h)) in
      rw (length-xor_bytes r stream size) (xor_bytes_cancel r stream size)

  mix_left_twice : (key l r : Bytes) → length l ≡ 32 → mix_left p key (mix_left p key l r) r ≡ l
  unfolding mix_left
  mix_left_twice key l r h =
      xor_bytes_cancel l (hash_l p key r) (omega (arith, h, length-hash_l key r))

  abbrev IsKeys : Keys → Type 0
  IsKeys keys = (length keys.k1 ≡ 32) × (length keys.k3 ≡ 32)

  lioness_keys-IsKeys : (s : Bytes) → IsKeys (lioness_keys p s)
  unfolding lioness_keys
  lioness_keys-IsKeys s = (length-subkey (text "li1") s, length-subkey (text "li3") s)

  module _ (keys : Keys) (ks : IsKeys keys) (l r : Bytes) (h : length l ≡ 32) where
    encrypted_halves :
        (l' : Bytes) × (r' : Bytes) × (encrypt_halves p keys l r ≡ l' ++ r')
        × (length l' ≡ 32)
        × (length r' ≡ length r)
        × (decrypt_halves p keys l' r' ≡ l ++ r)
    unfolding encrypt_halves decrypt_halves
    encrypted_halves =
        let r1 = mix_right p keys.k1 l r in
        let l1 = mix_left p keys.k2 l r1 in
        let r2 = mix_right p keys.k3 l1 r1 in
        let h1 = length-mix_left keys.k2 l r1 h in
        (
          mix_left p keys.k4 l1 r2,
          r2,
          refl,
          length-mix_left keys.k4 l1 r2 h1,
          length-mix_right keys.k3 l1 r1 ks.1 h1 ∙ length-mix_right keys.k1 l r ks.0 h,
          rw (
            mix_left_twice keys.k4 l1 r2 h1,
            mix_right_twice keys.k3 l1 r1 ks.1 h1,
            mix_left_twice keys.k2 l r1 h,
            mix_right_twice keys.k1 l r ks.0 h,
          ),
        )

    decrypted_halves :
        (l' : Bytes) × (r' : Bytes) × (decrypt_halves p keys l r ≡ l' ++ r')
        × (length l' ≡ 32)
        × (length r' ≡ length r)
        × (encrypt_halves p keys l' r' ≡ l ++ r)
    unfolding encrypt_halves decrypt_halves
    decrypted_halves =
        let l1 = mix_left p keys.k4 l r in
        let r1 = mix_right p keys.k3 l1 r in
        let l2 = mix_left p keys.k2 l1 r1 in
        let h1 = length-mix_left keys.k4 l r h in
        let h2 = length-mix_left keys.k2 l1 r1 h1 in
        (
          l2,
          mix_right p keys.k1 l2 r1,
          refl,
          h2,
          length-mix_right keys.k1 l2 r1 ks.0 h2 ∙ length-mix_right keys.k3 l1 r ks.1 h1,
          rw (
            mix_right_twice keys.k1 l2 r1 ks.0 h2,
            mix_left_twice keys.k2 l1 r1 h1,
            mix_right_twice keys.k3 l1 r ks.1 h1,
            mix_left_twice keys.k4 l r h,
          ),
        )

  -- On a block of at least 32 bytes, the left half that chacha20 needs, a layer of LIONESS comes off with the
  -- key it was put on with, and goes back on with the key it came off with; and both directions keep
  -- the length of the block.
  pub lioness_inverse :
      (s block : Bytes)
      → 32 ≤ length block
      → (lioness_decrypt p s (lioness_encrypt p s block) ≡ block)
        × (lioness_encrypt p s (lioness_decrypt p s block) ≡ block)
        × (length (lioness_encrypt p s block) ≡ length block)
        × (length (lioness_decrypt p s block) ≡ length block)
  unfolding lioness_encrypt lioness_decrypt
  lioness_inverse s block long =
      let keys = lioness_keys p s in
      let ks = lioness_keys-IsKeys s in
      let l = left block in
      let r = right block in
      let h : length l ≡ 32 = omega (arith, length-take 32 block) in
      let whole = take-append-drop 32 block in
      let (le, re, joined_e, size_le, size_re, back_e) = encrypted_halves keys ks l r h in
      let (ld, rd, joined_d, size_ld, size_rd, back_d) = decrypted_halves keys ks l r h in
      let size : length l + length r ≡ length block =
        omega (arith, length-append l r, ap length whole) in
      (
        rw (joined_e, left-append le re size_le, right-append le re size_le, back_e) whole,
        rw (joined_d, left-append ld rd size_ld, right-append ld rd size_ld, back_d) whole,
        rw joined_e (omega (arith, length-append le re)),
        rw joined_d (omega (arith, length-append ld rd)),
      )
