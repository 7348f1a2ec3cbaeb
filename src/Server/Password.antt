-- ===== src/Server/Password.antt =====
-- apps/server/util.js: `hashPassword` and `verifyPassword`.
use noblechat.Prelude.{
  ℕ, ◌==◌, if◌then◌else◌, [], ◌∷◌, ◌++◌, Option, none, some, Bool, true, false, not, ◌||◌, JsString,
  Bytes, length, text_eq, ◌===◌, ===_refl, ℕ_eq, includes, ◌≡◌, ◌∙◌, arith, refl,
}

-- What it takes from Node: scrypt, which may fail, and the hex codec of `Buffer`. Encoding has no `$`
-- and is undone by decoding; scrypt gives the length that was asked for.
pub record Node : Type 0 where
  pub scrypt : JsString → Bytes → ℕ → Option Bytes
  pub to_hex : Bytes → JsString
  pub from_hex : JsString → Bytes
  pub from_hex-to_hex : (b : Bytes) → from_hex (to_hex b) ≡ b
  pub to_hex-plain : (b : Bytes) → includes (to_hex b) 36 ≡ false
  pub length-scrypt :
      (pw : JsString) (salt : Bytes) (n : ℕ) (key : Bytes)
      → scrypt pw salt n ≡ some key
      → length key ≡ n

-- `indexOf("$")` and the two slices around it
unfoldable pub cut : JsString → Option (JsString × JsString)
cut [] = none
cut (u ∷ s) =
    let rest = cut s in
    if u == 36 then some ([], s) else elim rest [ none ↦ none | some p ↦ some (u ∷ p.0, p.1) ]

-- `got.length === want.length && timingSafeEqual(got, want)`, and false when scrypt rejected
abbrev pub key_matches : Option Bytes → Bytes → Bool
key_matches none want = false
key_matches (some got) want = got === want

module _ (node : Node) where
  -- `hashPassword`, with the random salt as an argument; none if scrypt rejects.
  unfoldable pub hash_password : Bytes → JsString → Option JsString
  hash_password salt pw = elim (node.scrypt pw salt 64) [
    | none ↦ none
    | some hash ↦ some (node.to_hex salt ++ (36 ∷ node.to_hex hash))
  ]

  -- The comparison behind the checks on the stored value
  unfoldable pub matches : JsString → Bytes → Bytes → Bool
  matches pw salt want =
      let same = key_matches (node.scrypt pw salt (length want)) want in
      if (not (length salt == 16)) || (length want == 0) then false else same

  -- `verifyPassword`
  unfoldable pub verify_password : JsString → JsString → Bool
  verify_password pw stored = elim (cut stored) [
    | none ↦ false
    | some p ↦ matches pw (node.from_hex p.0) (node.from_hex p.1)
  ]

  cut-append : (s t : JsString) → includes s 36 ≡ false → cut (s ++ (36 ∷ t)) ≡ some (s, t)
  unfolding cut
  cut-append [] t h = refl
  cut-append (u ∷ s) t h = ground (arith, cut-append s t)

  matches_key :
      (pw : JsString) (salt key : Bytes)
      → length salt ≡ 16
      → length key ≡ 64
      → matches pw salt key ≡ key_matches (node.scrypt pw salt 64) key
  unfolding matches
  matches_key pw salt key size long = rw (matches, size, long) refl

  verify_stored :
      (salt key : Bytes) (attempt : JsString)
      → length salt ≡ 16
      → length key ≡ 64
      → verify_password attempt (node.to_hex salt ++ (36 ∷ node.to_hex key))
        ≡ key_matches (node.scrypt attempt salt 64) key
  unfolding verify_password
  verify_stored salt key attempt size long =
      rw
        (
          verify_password,
          cut-append (node.to_hex salt) (node.to_hex key) (node.to_hex-plain salt),
          node.from_hex-to_hex salt,
          node.from_hex-to_hex key,
        )
        (matches_key attempt salt key size long)

  -- A stored hash of a password, under a salt of 16 bytes, is matched by a password exactly when scrypt
  -- makes the same key of it, and by the password itself.
  pub verify_password-hash_password :
      (salt key : Bytes) (pw attempt : JsString)
      → length salt ≡ 16
      → node.scrypt pw salt 64 ≡ some key
      → (stored : JsString) × (hash_password salt pw ≡ some stored)
        × (verify_password attempt stored ≡ key_matches (node.scrypt attempt salt 64) key)
        × (verify_password pw stored ≡ true)
  unfolding hash_password
  verify_password-hash_password salt key pw attempt size made =
      let long = node.length-scrypt pw salt 64 key made in
      let hashed : hash_password salt pw ≡ some (node.to_hex salt ++ (36 ∷ node.to_hex key)) =
        rw (hash_password, made) refl in
      (
        _,
        hashed,
        verify_stored salt key attempt size long,
        verify_stored salt key pw size long ∙ rw made (===_refl key),
      )
