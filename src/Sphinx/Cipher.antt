-- ===== src/Sphinx/Cipher.antt =====
-- The symmetric primitives keyed by a hop's shared secret, and the LIONESS wide-block cipher.
pub mod Xor
pub mod Inverse
use noblechat.Prelude.{
  ℕ, zero, suc, ◌==◌, bit_or, bit_xor, [], ◌∷◌, ◌++◌, length, drop, text, Bool, false, Bytes, slice,
  zeros, if◌then◌else◌,
}
use noblechat.Sphinx.Primitives.{Primitives}

-- `xorBytes(a, b)`: as long as the shorter of the two.
unfoldable pub xor_bytes : Bytes → Bytes → Bytes
xor_bytes [] b = []
xor_bytes (x ∷ a) [] = []
xor_bytes (x ∷ a) (y ∷ b) = bit_xor x y ∷ xor_bytes a b

-- The loop of `eqBytes`, with `d` as its variable, over arrays of one length.
gather_differences : ℕ → Bytes → Bytes → ℕ
gather_differences d [] b = d
gather_differences d (x ∷ a) [] = d
gather_differences d (x ∷ a) (y ∷ b) = gather_differences (bit_or d (bit_xor x y)) a b

unfoldable pub eq_bytes : Bytes → Bytes → Bool
unfolding gather_differences
eq_bytes a b = if length a == length b then gather_differences 0 a b == 0 else false

-- The size of the left half, one chacha20 key.
abbrev pub left_len : ℕ
left_len = 32

pub record Keys : Type 0 where
  pub k1 : Bytes
  pub k2 : Bytes
  pub k3 : Bytes
  pub k4 : Bytes

module _ {Point : Type 0} (p : Primitives Point) where
  -- `subkey(name, sBytes)`
  unfoldable pub subkey : Bytes → Bytes → Bytes
  subkey name s = p.sha256 (name ++ s)

  -- `prg(key, len)` and `streamR(seed32, len)`, on a key of 32 bytes; on another one the source throws.
  unfoldable pub prg : Bytes → ℕ → Bytes
  prg key len = p.chacha20 key (zeros 12) (zeros len)

  -- `mac(key, data)`
  unfoldable pub mac : Bytes → Bytes → Bytes
  mac key d = slice 0 16 (p.hmac_sha512 key d)

  -- `hashL(key, data)`
  unfoldable pub hash_l : Bytes → Bytes → Bytes
  hash_l key d = slice 0 left_len (p.hmac_sha512 key d)

  -- The two kinds of Feistel round: over the right half, and over the left.
  unfoldable pub mix_right : Bytes → Bytes → Bytes → Bytes
  mix_right key l r = xor_bytes r (prg (xor_bytes l key) (length r))

  unfoldable pub mix_left : Bytes → Bytes → Bytes → Bytes
  mix_left key l r = xor_bytes l (hash_l key r)

  -- `lionessKeys(s)`
  pub lioness_keys : Bytes → Keys
  lioness_keys s = record {
    k1 = subkey (text "li1") s;
    k2 = subkey (text "li2") s;
    k3 = subkey (text "li3") s;
    k4 = subkey (text "li4") s;
  }

  -- The four rounds on the halves of a block, and the same rounds backwards.
  encrypt_halves : Keys → Bytes → Bytes → Bytes
  encrypt_halves keys l0 r0 =
      let r1 = mix_right keys.k1 l0 r0 in
      let l1 = mix_left keys.k2 l0 r1 in
      let r2 = mix_right keys.k3 l1 r1 in let l2 = mix_left keys.k4 l1 r2 in l2 ++ r2

  decrypt_halves : Keys → Bytes → Bytes → Bytes
  decrypt_halves keys l0 r0 =
      let l1 = mix_left keys.k4 l0 r0 in
      let r1 = mix_right keys.k3 l1 r0 in
      let l2 = mix_left keys.k2 l1 r1 in let r2 = mix_right keys.k1 l2 r1 in l2 ++ r2

  -- `lionessEncrypt(s, block)`, on a block of at least `left_len` bytes: the seeds of a shorter one are no
  -- keys of chacha20, so the source throws there.
  unfoldable pub lioness_encrypt : Bytes → Bytes → Bytes
  unfolding encrypt_halves
  lioness_encrypt s block =
      encrypt_halves (lioness_keys s) (slice 0 left_len block) (drop left_len block)

  -- `lionessDecrypt(s, block)`, on a block of at least `left_len` bytes
  unfoldable pub lioness_decrypt : Bytes → Bytes → Bytes
  unfolding decrypt_halves
  lioness_decrypt s block =
      decrypt_halves (lioness_keys s) (slice 0 left_len block) (drop left_len block)
