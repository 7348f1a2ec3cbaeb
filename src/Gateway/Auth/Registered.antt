-- ===== src/Gateway/Auth/Registered.antt =====
-- An account that registers is signed in, and signs in again.
use noblechat.Prelude.{
  ℕ, List, [], ◌∷◌, ◌++◌, none, some, Bool, true, false, any, length, JsString, Bytes, ok, ◌≡◌, ◌∙◌,
  ===_refl, text_eq, arith, refl,
}
use noblechat.Store.Tables.{Account, first}
use noblechat.Store.Accounts.{create_account, get_account, has_account, of_user}
use noblechat.Store.Access.{first-append}
use noblechat.Store.Sessions.{create_session, has_token}
use noblechat.Server.Limiter.{limit}
use noblechat.Server.Lockout.{retry_after}
use noblechat.Server.Password.{hash_password, verify_password, verify_password-hash_password}
use noblechat.Gateway.Fields.{Value, as_handle, auth_secret_re}
use noblechat.Gateway.State.{
  Host, Settings, Gateway, Reply, auth_limited, unlocked, log_event, login_lockout, auth_limit,
}
use noblechat.Gateway.Auth.{
  Credentials, Fresh, open_session, register, register_as, store_account, hash_secret, login,
  login_as, verified, verify_auth, credentials_match,
}

first-eq-none : {A : Type 0} (p : A → Bool) (xs : List A) → any p xs ≡ false → first p xs ≡ none
unfolding first
first-eq-none p [] h = refl
first-eq-none p (x ∷ xs) h = ground (arith, first-eq-none p xs, h)

module _ (h : Host) (s : Settings) where
  open_session_lem :
      (now : ℕ) (fresh : Fresh) (u : JsString) (g : Gateway)
      → any (has_token (s.store.hash_token fresh.token)) g.db.sessions ≡ false
      → ((open_session h s now fresh u g).0 ≡ Reply.signed_in fresh.token u)
        × ((open_session h s now fresh u g).1.db.accounts ≡ g.db.accounts)
  unfolding open_session create_session
  open_session_lem now fresh u g new = rw new (refl, refl)

  -- The account that a registration stores
  abbrev pub new_account : ℕ → JsString → JsString → Account
  new_account now u hashed = record {
    username = u;
    pass = hashed;
    created_at = now;
    banned = false;
    is_admin = false;
    auth_ver = 2;
  }

  module _ (username password : Value) (secret u : JsString) where
    abbrev pub signing : Credentials
    signing = record { username = username; auth_secret = Value.string secret; password = password }

    -- A handle that is free, a secret of the right shape and a token that is not in use: the registration opens
    -- a session, and stores the account with the hash of the secret.
    store_account_lem :
        (now : ℕ) (fresh : Fresh) (hashed : JsString) (g : Gateway)
        → has_account u g.db ≡ false
        → any (has_token (s.store.hash_token fresh.token)) g.db.sessions ≡ false
        → ((store_account h s now fresh u hashed g).0 ≡ Reply.signed_in fresh.token u)
          × (get_account u (store_account h s now fresh u hashed g).1.db
              ≡ some (new_account now u hashed))
    unfolding store_account create_account get_account log_event open_session first create_session
    store_account_lem now fresh hashed g free new =
        let acc = new_account now u hashed in
        let added = first-append (of_user u) g.db.accounts acc in
        let mine = ===_refl u in
        let created : create_account now u hashed 2 g.db
            ≡ ok (record g.db { accounts = g.db.accounts ++ acc ∷ [] }) =
          rw free refl in
        rw (store_account, created, open_session, new) (refl, ground (arith, added, free, mine))

    register_lem :
        (now : ℕ) (fresh : Fresh) (ip hashed : JsString) (g : Gateway)
        → (limit auth_limit ip 1 now g.auth_buckets).0 ≡ true
        → as_handle h.to_lower_case username ≡ some u
        → auth_secret_re secret ≡ true
        → hash_password h.node fresh.salt secret ≡ some hashed
        → has_account u g.db ≡ false
        → any (has_token (s.store.hash_token fresh.token)) g.db.sessions ≡ false
        → ((register h s now fresh ip (ok signing) g).0 ≡ Reply.signed_in fresh.token u)
          × (get_account u (register h s now fresh ip (ok signing) g).1.db
              ≡ some (new_account now u hashed))
    unfolding register auth_limited register_as hash_secret get_account as_handle first
    register_lem now fresh ip hashed g paid handle shape made free new =
        let absent : first (of_user u) g.db.accounts ≡ none =
          first-eq-none (of_user u) g.db.accounts free in
        rw (paid, handle, shape, absent, made) (store_account_lem now fresh hashed _ free new)

    login_lem :
        (now : ℕ) (fresh : Fresh) (ip : JsString) (acc : Account) (g : Gateway)
        → (limit auth_limit ip 1 now g.auth_buckets).0 ≡ true
        → as_handle h.to_lower_case username ≡ some u
        → (retry_after login_lockout u now g.lockout).0 ≡ 0
        → get_account u g.db ≡ some acc
        → acc.auth_ver ≡ 2
        → acc.banned ≡ false
        → auth_secret_re secret ≡ true
        → verify_password h.node secret acc.pass ≡ true
        → any (has_token (s.store.hash_token fresh.token)) g.db.sessions ≡ false
        → (login h s now fresh ip (ok signing) g).0 ≡ Reply.signed_in fresh.token u
    unfolding login auth_limited unlocked login_as verify_auth credentials_match verified
    login_lem now fresh ip acc g paid handle free known version allowed shape matches new =
        rw (paid, handle, free, known, version, shape, matches, allowed)
          (open_session_lem now fresh u _ new).0

  -- A handle that is free, a secret of 64 hexadecimal digits that scrypt hashes under a salt of 16 bytes, and an
  -- address within its limit: the registration signs the handle in. From then on, while the account stays
  -- as it was stored, a sign-in with the same secret, with a fresh token, from an address within its
  -- limit and while the handle is not backed off, signs it in again.
  pub login-register :
      (username password : Value) (secret u ip ip' : JsString) (now later : ℕ)
      (fresh fresh' : Fresh) (key : Bytes) (g g' : Gateway)
      → let b = signing username password secret u in
        (limit auth_limit ip 1 now g.auth_buckets).0 ≡ true
        → as_handle h.to_lower_case username ≡ some u
        → auth_secret_re secret ≡ true
        → length fresh.salt ≡ 16
        → h.node.scrypt secret fresh.salt 64 ≡ some key
        → has_account u g.db ≡ false
        → any (has_token (s.store.hash_token fresh.token)) g.db.sessions ≡ false
        → get_account u g'.db ≡ get_account u (register h s now fresh ip (ok b) g).1.db
        → (limit auth_limit ip' 1 later g'.auth_buckets).0 ≡ true
        → (retry_after login_lockout u later g'.lockout).0 ≡ 0
        → any (has_token (s.store.hash_token fresh'.token)) g'.db.sessions ≡ false
        → ((register h s now fresh ip (ok b) g).0 ≡ Reply.signed_in fresh.token u)
          × ((login h s later fresh' ip' (ok b) g').0 ≡ Reply.signed_in fresh'.token u)
  login-register username password secret u ip ip' now later fresh fresh' key g g' paid handle shape
        salt made free new kept paid' ready new' =
      let (hashed, stored, any_attempt, matches) =
        verify_password-hash_password h.node fresh.salt key secret secret salt made in
      let (signed, known) =
        register_lem username password secret u now fresh ip hashed g paid handle shape stored free
          new in
      (
        signed,
        login_lem username password secret u later fresh' ip' (new_account now u hashed) g' paid'
            handle ready (kept ∙ known) refl refl shape matches new',
      )
