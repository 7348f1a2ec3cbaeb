-- ===== src/Gateway/Auth.antt =====
-- Registration, sign-in and sign-out.
pub mod Login
pub mod Registered
use noblechat.Prelude.{
  ℕ, ◌+◌, ◌==◌, leb, ltb, if◌then◌else◌, List, [], ◌∷◌, Option, none, some, Bool, true, false, ◌&&◌,
  ◌||◌, not, JsString, text, Bytes, Result, ok, err,
}
use noblechat.Store.Tables.{Account, Db, StoreError}
use noblechat.Store.Accounts.{create_account, get_account, upgrade_auth}
use noblechat.Store.Sessions.{create_session, delete_session}
use noblechat.Server.Lockout.{fail, succeed}
use noblechat.Server.Password.{hash_password, verify_password}
use noblechat.Gateway.Fields.{Value, text_of, string_of, as_handle, as_token, auth_secret_re}
use noblechat.Gateway.State.{
  Host, Settings, Gateway, Reply, Action, BodyError, auth_limited, with_body, unlocked, unless,
  log_event, login_lockout,
}

-- The body of a registration or a sign-in
pub record Credentials : Type 0 where
  pub username : Value
  pub auth_secret : Value
  pub password : Value

-- What one request draws: the token of a session and the salt of a hash
pub record Fresh : Type 0 where
  pub token : JsString
  pub salt : Bytes

abbrev pub bad_request : Reply
bad_request = Reply.error 400 (text "bad request")

abbrev pub wrong_login : Reply
wrong_login = Reply.error 401 (text "wrong handle or password")

module _ (h : Host) (s : Settings) (now : ℕ) (fresh : Fresh) where
  abbrev pub opened : JsString → Gateway → Result StoreError Db → Reply × Gateway
  opened username g (err e) = (bad_request, g)
  opened username g (ok db) = (Reply.signed_in fresh.token username, record g { db = db })

  -- `createSession` and the answer, in the `try` of the handler
  unfoldable pub open_session : JsString → Action
  open_session username g =
      opened username g
        (create_session s.store.hash_token now fresh.token username s.session_ttl_ms g.db)

  -- The account of a registration is stored, with the hash of its secret.
  unfoldable pub store_account : JsString → JsString → Action
  store_account username hashed g = elim (create_account now username hashed 2 g.db) [
    | err e ↦ (bad_request, g)
    | ok db ↦ open_session username (
        log_event now (text "info") (text "account registered") username
          record g { db = db; registered = g.registered + 1 })
  ]

  -- `hashPassword(b.authSecret)`, which throws on what is no string
  unfoldable pub hash_secret : Value → Option JsString
  hash_secret v = elim (string_of v) [
    | none ↦ none
    | some secret ↦ hash_password h.node fresh.salt secret
  ]

  unfoldable pub register_as : Credentials → JsString → Action
  register_as b username g =
      let secret = text_of b.auth_secret in
      if not (auth_secret_re secret)
      then (Reply.error 400 (text "bad auth secret"), g)
      else elim (get_account username g.db) [
        | some acc ↦ (Reply.error 409 (text "handle already taken"), g)
        | none ↦ elim (hash_secret b.auth_secret) [
          | none ↦ (bad_request, g)
          | some hashed ↦ store_account username hashed g
        ]
      ]

  -- `/api/account/register`
  unfoldable pub register : JsString → Result BodyError Credentials → Action
  register ip body = auth_limited now ip (
      with_body body (λ b g. elim (as_handle h.to_lower_case b.username) [
        | none ↦ (Reply.error 400 (text "handle must be 3-24 chars: a-z 0-9 _"), g)
        | some username ↦ register_as b username g
      ]))

  -- `legacyAuthOpen`; a deadline of 0 counts as none.
  unfoldable pub legacy_auth_open : Bool
  legacy_auth_open = elim s.legacy_auth_until [ none ↦ true | some t ↦ (t == 0) || ltb now t ]

  -- The upgrade of an account that proved its password; none if the hash rejects
  unfoldable pub upgrade : Account → Credentials → Gateway → Option Gateway
  upgrade acc b g =
      let secret = text_of b.auth_secret in
      if auth_secret_re secret
      then elim (hash_password h.node fresh.salt secret) [
        | none ↦ none
        | some hashed ↦ some (
            log_event now (text "info") (text "auth upgraded") acc.username
              record g { db = upgrade_auth acc.username hashed g.db })
      ]
      else some g

  -- Whether the credentials are right for the account, by the scheme that it is on
  unfoldable pub credentials_match : Account → Credentials → Bool
  credentials_match acc b =
      let secret = text_of b.auth_secret in
      if leb 2 acc.auth_ver
      then auth_secret_re secret && verify_password h.node secret acc.pass
      else legacy_auth_open && (elim (string_of b.password) [
        | none ↦ false
        | some [] ↦ false
        | some (u ∷ pw) ↦ verify_password h.node (u ∷ pw) acc.pass
      ])

  -- `verifyAuth`: true with the next state, false, or none if it throws
  unfoldable pub verify_auth : Account → Credentials → Gateway → Option (Bool × Gateway)
  verify_auth acc b g =
      if not (credentials_match acc b)
      then some (false, g)
      else if leb 2 acc.auth_ver
      then some (true, g)
      else elim (upgrade acc b g) [ none ↦ none | some g' ↦ some (true, g') ]

  abbrev pub no_password : Credentials → Bool
  no_password b = elim (string_of b.password) [ none ↦ true | some pw ↦ false ]

  -- `authFailure`
  unfoldable pub auth_failure : Credentials → Option Account → Reply
  auth_failure b none = wrong_login
  auth_failure b (some acc) =
      if ltb acc.auth_ver 2 && legacy_auth_open && no_password b
      then Reply.retry_legacy
      else wrong_login

  unfoldable pub count_failure : Credentials → JsString → Option Account → Action
  count_failure b username acc g =
      (auth_failure b acc, record g { lockout = (fail login_lockout username now g.lockout).1 })

  -- What follows a sign-in that is right
  abbrev pub welcomed : JsString → Gateway → Gateway
  welcomed username g = record g {
    lockout = succeed login_lockout username g.lockout;
    logins = g.logins + 1;
  }

  abbrev pub welcome : JsString → Action
  welcome username g = open_session username (welcomed username g)

  unfoldable pub verified : Credentials → JsString → Account → Option (Bool × Gateway) → Action
  verified b username acc none g = (bad_request, g)
  verified b username acc (some (false, g')) g = count_failure b username (some acc) g'
  verified b username acc (some (true, g')) g =
      if acc.banned then (Reply.error 403 (text "account suspended"), g') else welcome username g'

  abbrev pub by_account : Credentials → JsString → Gateway → Option Account → Reply × Gateway
  by_account b username g none = count_failure b username none g
  by_account b username g (some acc) = verified b username acc (verify_auth acc b g) g

  unfoldable pub login_as : Credentials → JsString → Action
  login_as b username g = by_account b username g (get_account username g.db)

  abbrev pub by_name : Credentials → Option JsString → Action
  by_name b none g = (wrong_login, g)
  by_name b (some username) g = unlocked now username (login_as b username) g

  abbrev pub named : Credentials → Action
  named b g = by_name b (as_handle h.to_lower_case b.username) g

  -- `/api/account/login`
  unfoldable pub login : JsString → Result BodyError Credentials → Action
  login ip body = auth_limited now ip (with_body body named)

  unfoldable pub open_admin_session : JsString → Action
  open_admin_session username g =
      elim (create_session s.store.hash_token now fresh.token username s.session_ttl_ms g.db) [
        | err e ↦ (bad_request, g)
        | ok db ↦ (
          Reply.signed_in fresh.token username,
          log_event now (text "info") (text "admin signed in") username record g { db = db },
        )
      ]

  unfoldable pub admin_verified :
      Credentials → JsString → Account → Option (Bool × Gateway) → Action
  admin_verified b username acc none g = (bad_request, g)
  admin_verified b username acc (some (false, g')) g = count_failure b username (some acc) g'
  admin_verified b username acc (some (true, g')) g =
      if acc.banned
      then (Reply.error 403 (text "account suspended"), g')
      else if not acc.is_admin
      then (Reply.error 403 (text "not an admin account"), g')
      else open_admin_session username
          record g' { lockout = succeed login_lockout username g'.lockout }

  unfoldable pub admin_login_as : Credentials → JsString → Action
  admin_login_as b username g = elim (get_account username g.db) [
    | none ↦ count_failure b username none g
    | some acc ↦ admin_verified b username acc (verify_auth acc b g) g
  ]

  -- `/api/admin/login`
  unfoldable pub admin_login : JsString → Result BodyError Credentials → Action
  admin_login ip body = auth_limited now ip (
      with_body body (λ b g. elim (as_handle h.to_lower_case b.username) [
        | none ↦ (wrong_login, g)
        | some username ↦ unlocked now username (admin_login_as b username) g
      ]))

-- `/api/account/logout`, on the token of the body; it answers the same whatever goes wrong.
unfoldable pub logout : Settings → Result BodyError Value → Action
logout s (err e) g = (Reply.done, g)
logout s (ok token) g = elim (as_token token) [
  | none ↦ (Reply.done, g)
  | some t ↦ (Reply.done, record g { db = delete_session s.store.hash_token t g.db })
]
