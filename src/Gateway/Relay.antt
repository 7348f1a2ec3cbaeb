-- ===== src/Gateway/Relay.antt =====
-- apps/server/turn.js: the credentials of the TURN relay.
use noblechat.Prelude.{
  ℕ, zero, suc, ◌+◌, ◌*◌, ◌/◌, ◌≤◌, max, ltb, ◌==◌, if◌then◌else◌, List, [], ◌∷◌, ◌++◌, not, keep,
  JsString, text, text_eq, ◌===◌, decimal, digits_of, All, ◌≡◌, ◌≢◌, refl, arith, Bool-cases, inl,
  inr,
}

pub record TurnCredential : Type 0 where
  pub username : JsString
  pub credential : JsString
  pub expiry : ℕ

pub record IceServer : Type 0 where
  pub urls : List JsString
  pub username : JsString
  pub credential : JsString

-- `String(label || "noblechat").replace(/:/g, "")`
abbrev pub safe_label : JsString → JsString
safe_label label = keep (λ u. not (u == 58)) (if label === [] then text "noblechat" else label)

module _ (hmac_sha1_b64 : JsString → JsString → JsString) where
  -- `turnCredentials`
  unfoldable pub turn_credentials : JsString → ℕ → ℕ → JsString → TurnCredential
  turn_credentials secret ttl_sec now label =
      let expiry = now / 1000 + max 60 ttl_sec in
      let username = decimal expiry ++ (58 ∷ safe_label label) in
      record { username = username; credential = hmac_sha1_b64 secret username; expiry = expiry }

  -- `turnIceServers`; without a secret or an address there is none.
  unfoldable pub turn_ice_servers : JsString → List JsString → ℕ → ℕ → JsString → List IceServer
  turn_ice_servers [] turn_uris ttl_sec now label = []
  turn_ice_servers (u ∷ secret) [] ttl_sec now label = []
  turn_ice_servers (u ∷ secret) (uri ∷ turn_uris) ttl_sec now label =
      let t = turn_credentials (u ∷ secret) ttl_sec now label in
      record { urls = uri ∷ turn_uris; username = t.username; credential = t.credential } ∷ []

-- A user name cut at its first colon, the way the relay reads it
unfoldable pub at_colon : JsString → JsString × JsString
at_colon [] = ([], [])
at_colon (u ∷ s) = let rest = at_colon s in if u == 58 then ([], s) else (u ∷ rest.0, rest.1)

abbrev pub NoColon : JsString → Type 0
NoColon s = All (λ u. u ≢ 58) s

NoColon-append : (s t : JsString) → NoColon s → NoColon t → NoColon (s ++ t)
NoColon-append [] t hs ht = ht
NoColon-append (u ∷ s) t (hu, hs) ht = (hu, NoColon-append s t hs ht)

digits_of-NoColon : (fuel n : ℕ) → NoColon (digits_of fuel n)
unfolding digits_of
digits_of-NoColon zero n = tt
digits_of-NoColon (suc fuel) n = elim (Bool-cases (ltb n 10)) [
  | inl single ↦ rw single ((λ e. absurd (ground (arith, single, e))), tt)
  | inr many ↦ rw many (
      NoColon-append (digits_of fuel (n / 10)) _ (digits_of-NoColon fuel (n / 10))
        ((λ e. absurd (omega (arith, e))), tt))
]

keep-NoColon : (s : JsString) → NoColon (keep (λ u. not (u == 58)) s)
keep-NoColon [] = tt
keep-NoColon (u ∷ s) = elim (Bool-cases (u == 58)) [
  | inl colon ↦ rw colon (keep-NoColon s)
  | inr other ↦ rw other ((λ e. absurd (ground (arith, other, e))), keep-NoColon s)
]

at_colon-append : (s t : JsString) → NoColon s → at_colon (s ++ (58 ∷ t)) ≡ (s, t)
unfolding at_colon
at_colon-append [] t h = refl
at_colon-append (u ∷ s) t (hu, h) = elim (Bool-cases (u == 58)) [
  | inl colon ↦ absurd (hu (ground (arith, colon)))
  | inr other ↦ rw (other, at_colon-append s t h) refl
]

-- The user name that is handed out reads, at its first colon, as the digits of its expiry and the label
-- without colons. It expires at least a minute after now, and the password is the MAC of the user name.
pub turn_credentials-at_colon :
    (hmac_sha1_b64 : JsString → JsString → JsString) (secret label : JsString) (ttl_sec now : ℕ)
    → let t = turn_credentials hmac_sha1_b64 secret ttl_sec now label in
      (at_colon t.username ≡ (decimal t.expiry, safe_label label))
      × NoColon (safe_label label)
      × (now + 59000 ≤ 1000 * t.expiry)
      × (t.credential ≡ hmac_sha1_b64 secret t.username)
unfolding turn_credentials
turn_credentials-at_colon hmac_sha1_b64 secret label ttl_sec now =
    let expiry = now / 1000 + max 60 ttl_sec in
    (
      at_colon-append (decimal expiry) (safe_label label) (digits_of-NoColon (expiry + 1) expiry),
      keep-NoColon (if label === [] then text "noblechat" else label),
      omega arith,
      refl,
    )
