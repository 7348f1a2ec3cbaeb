-- ===== src/Gateway/State.antt =====
-- The state of `main`, the configuration, the answers, and the guards that the handlers share. A
-- handler takes the state to its answer and the next state.
use noblechat.Prelude.{
  ℕ, ltb, if◌then◌else◌, List, [], ◌∷◌, Option, none, some, Bool, JsString, text, text_eq, Result,
  ok, err,
}
use noblechat.Store.Tables.{Db}
use noblechat.Store.Sessions.{get_session}
use noblechat.Store.Run.{Config}
use noblechat.Server.Limiter
use noblechat.Server.Limiter.{Buckets, limit}
use noblechat.Server.Lockout
use noblechat.Server.Lockout.{Hits, retry_after}
use noblechat.Server.Log.{Log, Event, add_event}
use noblechat.Server.Password.{Node}
use noblechat.Gateway.Relay.{IceServer}

-- What the handlers take from the platform: `toLowerCase`, and Node's MACs, scrypt and codec.
pub record Host : Type 0 where
  pub to_lower_case : JsString → JsString
  -- The SHA-1 MAC of `turn.js`, in base64
  pub hmac_sha1_b64 : JsString → JsString → JsString
  pub node : Node

pub data Transport : Type 0 where
  internal nym : Transport

-- The fields of `CFG` that the handlers read; `store` has those that go to the store.
pub record Settings : Type 0 where
  pub store : Config
  pub session_ttl_ms : ℕ
  pub admin_token : JsString
  pub legacy_auth_until : Option ℕ
  pub max_blob_bytes : ℕ
  pub min_free_bytes : ℕ
  pub max_upload_bytes : ℕ
  pub nym_configured : Bool
  pub turn_secret : JsString
  pub turn_uris : List JsString
  pub turn_ttl_sec : ℕ

-- What goes out to sockets and nodes: a socket is a number.
pub data Out : Type 0 where
  close_socket : ℕ → ℕ → JsString → Out
  device_added : ℕ → ℕ → Out
  status : ℕ → Out
  deliver_to : ℕ → JsString → Out

pub record Gateway : Type 0 where
  pub db : Db
  pub lockout : Hits
  pub http_buckets : Buckets
  pub auth_buckets : Buckets
  pub lookup_buckets : Buckets
  pub presence_buckets : Buckets
  pub log : Log
  pub registered : ℕ
  pub logins : ℕ
  pub maintenance : Bool
  pub maintenance_msg : JsString
  pub announcement : JsString
  pub transport : Transport
  pub desired_transport : Transport
  -- The sidecar's address while it is connected
  pub nym_address : Option JsString
  pub banned_mbkeys : List JsString
  pub sockets : List ℕ
  pub mbkey_sockets : List (JsString × List ℕ)
  pub outbox : List Out

-- An answer: a status and a body, or the two bodies of a sign-in, or a list.
pub data Reply : Type 0 where
  error : ℕ → JsString → Reply
  bare : ℕ → Reply
  done : Reply
  signed_in : JsString → JsString → Reply
  retry_legacy : Reply
  retry_later : ℕ → Reply
  removed : ℕ → Reply
  bundle : JsString → List JsString → Reply
  online : List JsString → Reply
  blob : Option JsString → Reply
  uploaded : JsString → Reply
  download : Option ℕ → Reply
  transport_now : Transport → Reply
  logs : List Event → Reply
  ice_servers : List IceServer → Reply

abbrev pub Action : Type 0
Action = Gateway → Reply × Gateway

-- What reading and parsing a body may end in
pub data BodyError : Type 0 where
  too_large malformed : BodyError

-- `badBody`
abbrev pub bad_body : BodyError → Reply
bad_body BodyError.too_large = Reply.error 413 (text "payload too large")
bad_body BodyError.malformed = Reply.error 400 (text "bad request")

-- The limiters of `main`, in fractions of a token that make their refills whole
abbrev pub http_limit : Limiter.Options
http_limit = record { capacity = 60; unit = 100; refill_per_ms = 1 }

abbrev pub auth_limit : Limiter.Options
auth_limit = record { capacity = 12; unit = 20000; refill_per_ms = 3 }

abbrev pub lookup_limit : Limiter.Options
lookup_limit = record { capacity = 60; unit = 2000; refill_per_ms = 1 }

abbrev pub presence_limit : Limiter.Options
presence_limit = record { capacity = 300; unit = 100; refill_per_ms = 1 }

-- `loginLockout`
abbrev pub login_lockout : Lockout.Options
login_lockout = record {
  threshold = 8;
  base_delay_ms = 2000;
  max_delay_ms = 900000;
  forget_after_ms = 3600000;
  max_entries = 10000;
}

-- `elog.add`, on `createLog()`
unfoldable pub log_event : ℕ → JsString → JsString → JsString → Gateway → Gateway
log_event now level event detail g = record g {
  log = (add_event 400 now level event detail g.log).1;
}

abbrev pub refuse : Reply → Action
refuse r g = (r, g)

-- `if (cond) return json(…)`
abbrev pub unless : Bool → Reply → Action → Action
unless b r k g = if b then (r, g) else k g

-- `if (!httpLimit(ip, cost)) return …`
unfoldable pub http_limited : ℕ → JsString → ℕ → Action → Action
http_limited now ip cost k g =
    let r = limit http_limit ip cost now g.http_buckets in
    let g' = record g { http_buckets = r.1 } in
    if r.0 then k g' else (Reply.error 429 (text "rate limited"), g')

-- `if (!authLimit(ip)) return …`
unfoldable pub auth_limited : ℕ → JsString → Action → Action
auth_limited now ip k g =
    let r = limit auth_limit ip 1 now g.auth_buckets in
    let g' = record g { auth_buckets = r.1 } in
    if r.0 then k g' else (Reply.error 429 (text "too many attempts"), g')

-- `JSON.parse(await readBody(…))` in a `try` with `badBody`
abbrev pub with_body {ℓ} : {A : Type ℓ} → Result BodyError A → (A → Action) → Action
with_body (err e) k g = (bad_body e, g)
with_body (ok b) k g = k b g

module _ (s : Settings) where
  -- `sessionUser`; a token that is null or empty has no session.
  unfoldable pub session_user : ℕ → Option JsString → Db → Option JsString × Db
  session_user now none db = (none, db)
  session_user now (some []) db = (none, db)
  session_user now (some (u ∷ token)) db = get_session s.store.hash_token now (u ∷ token) db

  -- The handlers' `const username = await sessionUser(…); if (!username) return …`
  unfoldable pub with_user : ℕ → Option JsString → (JsString → Action) → Action
  with_user now token k g =
      let r = session_user now token g.db in
      let g' = record g { db = r.1 } in
      elim r.0 [ none ↦ (Reply.error 401 (text "not signed in"), g') | some u ↦ k u g' ]

-- `lockedOut` in front of the rest of a sign-in
unfoldable pub unlocked : ℕ → JsString → Action → Action
unlocked now handle k g =
    let r = retry_after login_lockout handle now g.lockout in
    let g' = record g { lockout = r.1 } in if ltb 0 r.0 then (Reply.retry_later r.0, g') else k g'
