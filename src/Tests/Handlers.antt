-- ===== src/Tests/Handlers.antt =====
-- The handlers of the gateway.
use noblechat.Prelude.{
  [], ◌∷◌, ◌++◌, none, some, true, false, JsString, text, text_eq, ℕ_eq, ◌≡◌, refl, ok, Result, get,
  replicate, zeros, take, put,
}
use noblechat.Store.Tables.{Account, empty_db, first}
use noblechat.Store.Accounts.{get_account, create_account}
use noblechat.Store.Sessions.{create_session, get_session}
use noblechat.Store.Run.{Config}
use noblechat.Server.Limiter.{limit, bucket_of, refilled, pay}
use noblechat.Server.Lockout.{retry_after}
use noblechat.Server.Log.{empty_log}
use noblechat.Server.Password.{hash_password, verify_password, matches, cut}
use noblechat.Gateway.Fields.{Value, as_handle, handle_re, auth_secret_re}
use noblechat.Gateway.State.{
  Host, Settings, Gateway, Reply, Transport, BodyError, session_user, login_lockout, auth_limited,
  unlocked, log_event,
}
use noblechat.Gateway.Auth.{
  Credentials, Fresh, register, register_as, hash_secret, store_account, login, login_as, verified,
  verify_auth, credentials_match, open_session,
}
use noblechat.Gateway.Auth.Registered.{login-register}
use noblechat.Gateway.Auth.Login.{login-signed_in}
use noblechat.Gateway.Files.{Upload, Seconds, Ending, upload_as}
use noblechat.Gateway.Files.Orphans.{UploadDone, upload_as-UploadDone}
use noblechat.Gateway.Transport.{
  Switching, start_transport, ask, resume, link_up, link_down, admit, begin_switch, finish_switch,
  nym_connected, on_connect, nym_disconnected, on_disconnect, broadcast_status,
}
use noblechat.Gateway.Transport.Fallback
use noblechat.Gateway.Transport.Fallback.{Reach, Step, InEffect, Reach-InEffect}
use noblechat.Gateway.Admin.{AdminRoute, AdminBody, AdminRequest, admin_request, behind}
use noblechat.Gateway.Unauthorized.{
  UserRoute, user_route, route_token, Refused, user_route-Refused, Guarded, admin_request-Guarded,
}
use noblechat.Tests.Gateway.{node, shift}

abbrev ann : JsString
ann = text "ann"

abbrev host : Host
host = record { to_lower_case = λ s. s; hmac_sha1_b64 = λ key d. d; node = node }

abbrev config : Config
config = record {
  mailbox_ttl_ms = 1000;
  max_per_mailbox = 2;
  max_devices = 1;
  max_account_bytes = 100;
  hash_token = λ t. 35 ∷ t;
}

abbrev pub settings : Settings
settings = record {
  store = config;
  session_ttl_ms = 1000;
  admin_token = [];
  legacy_auth_until = none;
  max_blob_bytes = 1000;
  min_free_bytes = 10;
  max_upload_bytes = 50;
  nym_configured = true;
  turn_secret = text "turn";
  turn_uris = text "turn:relay" ∷ [];
  turn_ttl_sec = 600;
}

-- The secret that ann's client derives, and its hash
abbrev secret : JsString
secret = replicate 64 97

abbrev account : Account
account = record {
  username = ann;
  pass = shift (zeros 16) ++ (36 ∷ shift secret);
  created_at = 1;
  banned = false;
  is_admin = false;
  auth_ver = 2;
}

abbrev pub started : Gateway
started = record {
  db = record empty_db { accounts = account ∷ [] };
  lockout = [];
  http_buckets = [];
  auth_buckets = [];
  lookup_buckets = [];
  presence_buckets = [];
  log = empty_log;
  registered = 0;
  logins = 0;
  maintenance = false;
  maintenance_msg = [];
  announcement = [];
  transport = Transport.internal;
  desired_transport = Transport.internal;
  nym_address = none;
  banned_mbkeys = [];
  sockets = [];
  mbkey_sockets = [];
  outbox = [];
}

abbrev fresh : Fresh
fresh = record { token = text "tok"; salt = zeros 16 }

abbrev credentials : Credentials
credentials = record {
  username = Value.string ann;
  auth_secret = Value.string secret;
  password = Value.absent;
}

abbrev body : Result BodyError Credentials
body = ok credentials

abbrev address : JsString
address = text "1.2.3.4"

login_run : (login host settings 10 fresh address body started).0 ≡ Reply.signed_in (text "tok") ann
unfolding login auth_limited limit bucket_of refilled pay as_handle handle_re unlocked retry_after
    get login_as get_account verify_auth credentials_match auth_secret_re verify_password matches
    cut verified open_session create_session first
login_run = refl

login-signed_in_example :
    (b : Credentials) × (acc : Account) × (body ≡ ok b)
    × (as_handle host.to_lower_case b.username ≡ some ann)
    × (get_account ann started.db ≡ some acc)
    × (credentials_match host settings 10 fresh acc b ≡ true)
    × (acc.banned ≡ false)
    × ((retry_after login_lockout ann 10 started.lockout).0 ≡ 0)
    × (text "tok" ≡ fresh.token)
login-signed_in_example =
    login-signed_in host settings 10 fresh address body started (text "tok") ann login_run

abbrev nobody : Gateway
nobody = record started { db = empty_db }

-- The gateway after ann registered, a while later
abbrev registered : Gateway
registered = (register host settings 10 fresh address body nobody).1

abbrev next_fresh : Fresh
next_fresh = record { token = text "tok2"; salt = zeros 16 }

login-register_example :
    ((register host settings 10 fresh address body nobody).0 ≡ Reply.signed_in (text "tok") ann)
    × ((login host settings 500 next_fresh address body registered).0
        ≡ Reply.signed_in (text "tok2") ann)
unfolding limit bucket_of refilled pay as_handle handle_re auth_secret_re retry_after get register
    auth_limited register_as hash_secret store_account get_account create_account create_session
    open_session log_event first hash_password put
login-register_example =
    login-register host settings (Value.string ann) Value.absent secret ann address address 10 500
      fresh next_fresh (take 64 (secret ++ zeros 64)) nobody registered refl refl refl refl refl
      refl refl refl refl refl refl

user_route-Refused_example :
    Refused settings 10
      (some (text "no"))
      started
      (user_route host settings 10 address (UserRoute.read_blob_route (some (text "no"))) started)
unfolding session_user get_session first route_token
user_route-Refused_example =
    user_route-Refused host settings 10 address (UserRoute.read_blob_route (some (text "no")))
      started none_found
  where
    none_found : (session_user settings 10 (some (text "no")) started.db).0 ≡ none
    none_found = refl

abbrev admin_body : AdminBody
admin_body = record {
  handle = Value.string ann;
  username = Value.absent;
  message_text = Value.absent;
  message = Value.absent;
  mode = Value.absent;
  reason = Value.absent;
  on = false;
  admin = true;
}

admin_request-Guarded_example :
    Guarded settings 10
      (some (text "no"))
      (behind host settings 10 (AdminRequest.posts AdminRoute.setadmin (ok admin_body)))
      started
      (admin_request host settings 10
        (some (text "no"))
        (AdminRequest.posts AdminRoute.setadmin (ok admin_body))
        started)
admin_request-Guarded_example =
    admin_request-Guarded host settings 10 (some (text "no"))
      (AdminRequest.posts AdminRoute.setadmin (ok admin_body)) started

abbrev small_upload : Upload
small_upload = record {
  expire_sec = Seconds.whole 60;
  free_bytes = some 1000;
  open_error = none;
  chunks = 20 ∷ 20 ∷ [];
  ending = Ending.broken (text "aborted");
  unlinks = true;
}

upload_as-UploadDone_example :
    UploadDone true 10
      (text "f1")
      started
      (upload_as settings 10 (text "f1") small_upload ann started)
upload_as-UploadDone_example =
    upload_as-UploadDone settings 10 (text "f1") small_upload ann started refl

-- Nym is wanted, the sidecar connects, and an admin asks for the internal network.
abbrev linked : Switching
linked = link_up 9 (text "addr") (Fallback.started 5 (some Transport.nym) started)

abbrev waiting : Switching
waiting = ask settings (text "internal") linked

abbrev settled : Switching
settled = resume 12 [] Transport.internal [] waiting

Reach-InEffect_example : InEffect settled.gateway
unfolding link_up ask resume admit
Reach-InEffect_example =
    Reach-InEffect settings 5 (some Transport.nym) started settled
      (Reach.next
        (Reach.next
          (Reach.next Reach.here
            (Step.connects (Fallback.started 5 (some Transport.nym) started) 9 (text "addr")))
          (Step.asks linked (text "internal")))
        (Step.resumes waiting 12 [] Transport.internal [] refl))
      refl refl

-- The sidecar drops while a change to nym waits: nym is in effect with no link.
abbrev left_alone : Switching
left_alone =
    resume 14 [] Transport.nym []
      (link_down 13 (ask settings (text "nym") (link_up 9 (text "addr") settled)))

dropped_meanwhile :
    (left_alone.gateway.transport ≡ Transport.nym) × (left_alone.gateway.nym_address ≡ none)
unfolding link_up link_down ask resume admit begin_switch finish_switch nym_connected on_connect
    nym_disconnected on_disconnect start_transport log_event broadcast_status
dropped_meanwhile = (refl, refl)
