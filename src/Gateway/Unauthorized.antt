-- ===== src/Gateway/Unauthorized.antt =====
-- What a caller without a session or without an admin's credential can bring about.
use noblechat.Prelude.{
  ℕ, Option, none, some, false, JsString, text, text_eq, Result, ok, err, ◌≡◌, ◌⊎◌, inl, inr, refl,
  branch, length, arith, true, ◌≢◌, subst, Bool-cases, Option-cases, ===_iff,
}
use noblechat.Store.Tables.{Db, Account}
use noblechat.Store.Accounts.{get_account, is_admin, is_banned}
use noblechat.Server.Limiter.{limit}
use noblechat.Gateway.Fields.{Value, as_token}
use noblechat.Gateway.State.{
  Host, Settings, Gateway, Reply, Action, BodyError, http_limited, with_body, with_user,
  session_user, http_limit,
}
use noblechat.Gateway.Auth.{bad_request}
use noblechat.Gateway.Account.{
  DeviceBody, device, device_as, forget_others, forget_others_as, delete, delete_as, read_blob,
  write_blob, write_blob_as, lookup, presence, turn_credentials_route,
}
use noblechat.Gateway.Files.{Upload, upload, Reading, download}
use noblechat.Gateway.Admin.{
  AdminRequest, require_admin, admin_request, admin_post, admin_logs, behind, admin_user,
  holds_admin_token,
}

-- The routes that ask for a session, each with its request
pub data UserRoute : Type 0 where
  device_route : Result BodyError DeviceBody → UserRoute
  forget_route : Result BodyError (Value × Value) → UserRoute
  delete_route : Result BodyError Value → UserRoute
  read_blob_route : Option JsString → UserRoute
  write_blob_route : Result BodyError (Value × Value) → UserRoute
  bundle_route : Option JsString → JsString → UserRoute
  presence_route : Option JsString → JsString → UserRoute
  upload_route : Option JsString → JsString → Upload → UserRoute
  download_route : Option JsString → JsString → Reading → UserRoute
  turn_route : Option JsString → UserRoute

-- The token that a request brings, in its body or in its header
body_token {ℓ} : {A : Type ℓ} → (A → Value) → Result BodyError A → Option JsString
body_token f (err e) = none
body_token f (ok b) = as_token (f b)

unfoldable pub route_token : UserRoute → Option JsString
unfolding body_token
route_token (UserRoute.device_route body) = body_token (λ b. b.token) body
route_token (UserRoute.forget_route body) = body_token (λ b. b.0) body
route_token (UserRoute.delete_route body) = body_token (λ b. b) body
route_token (UserRoute.read_blob_route token) = token
route_token (UserRoute.write_blob_route body) = body_token (λ b. b.0) body
route_token (UserRoute.bundle_route token query) = token
route_token (UserRoute.presence_route token query) = token
route_token (UserRoute.upload_route token id u) = token
route_token (UserRoute.download_route token id reading) = token
route_token (UserRoute.turn_route token) = token

-- The dispatch of the handler, for these routes
unfoldable pub user_route : Host → Settings → ℕ → JsString → UserRoute → Action
user_route h s now ip (UserRoute.device_route body) = device h s now ip body
user_route h s now ip (UserRoute.forget_route body) = forget_others h s now ip body
user_route h s now ip (UserRoute.delete_route body) = delete h s now ip body
user_route h s now ip (UserRoute.read_blob_route token) = read_blob h s now ip token
user_route h s now ip (UserRoute.write_blob_route body) = write_blob h s now ip body
user_route h s now ip (UserRoute.bundle_route token query) = lookup h s now ip token query
user_route h s now ip (UserRoute.presence_route token query) = presence h s now ip token query
user_route h s now ip (UserRoute.upload_route token id u) = upload s now id ip token u
user_route h s now ip (UserRoute.download_route token id reading) =
    download s now ip token id reading
user_route h s now ip (UserRoute.turn_route token) = turn_credentials_route h s now ip token

-- An answer that refuses: too many requests, no session, or a body that cannot be read
unfoldable pub IsRefusal : Reply → Type 0
IsRefusal r =
    (r ≡ Reply.error 429 (text "rate limited"))
    ⊎ (r ≡ Reply.error 401 (text "not signed in"))
    ⊎ (r ≡ bad_request)
    ⊎ (r ≡ Reply.error 413 (text "payload too large"))

-- A refusal that changes at most the rate limiter and drops an expired session
unfoldable pub Refused : Settings → ℕ → Option JsString → Gateway → Reply × Gateway → Type 0
Refused s now token g r =
    IsRefusal r.0
    × ((r.1 ≡ record g { http_buckets = r.1.http_buckets })
        ⊎ (r.1
            ≡ record g { http_buckets = r.1.http_buckets; db = (session_user s now token g.db).1 }))

module _ (s : Settings) (now : ℕ) where
  with_user-Refused :
      (token : Option JsString) (k : JsString → Action) (g : Gateway)
      → (session_user s now token g.db).0 ≡ none
      → with_user s now token k g ≡ (
        Reply.error 401 (text "not signed in"),
        record g { db = (session_user s now token g.db).1 },
      )
  unfolding with_user
  with_user-Refused token k g h = rw (with_user, h) refl

  http_limited-Refused :
      (token : Option JsString) (k : JsString → Action) (g : Gateway) (ip : JsString) (cost : ℕ)
      → (session_user s now token g.db).0 ≡ none
      → Refused s now token g (http_limited now ip cost (with_user s now token k) g)
  unfolding Refused IsRefusal http_limited
  http_limited-Refused token k g ip cost h =
      let r = limit http_limit ip cost now g.http_buckets in
      let g' = record g { http_buckets = r.1 } in
      branch (Refused s now token g) r.0
        (rw (with_user-Refused token k g' h) (inr (inl refl), inr refl)) (inl refl, inl refl)

  with_body-Refused :
      {A : Type 0} (f : A → Value) (k : A → JsString → Action) (body : Result BodyError A)
      (g : Gateway) (ip : JsString) (cost : ℕ)
      → (session_user s now (body_token f body) g.db).0 ≡ none
      → Refused s now (body_token f body) g (
          http_limited now ip cost (with_body body (λ b. with_user s now (as_token (f b)) (k b))) g)
  unfolding Refused IsRefusal http_limited body_token
  with_body-Refused f k (err BodyError.too_large) g ip cost h =
      branch (Refused s now none g) (limit http_limit ip cost now g.http_buckets).0
        (inr (inr (inr refl)), inl refl) (inl refl, inl refl)
  with_body-Refused f k (err BodyError.malformed) g ip cost h =
      branch (Refused s now none g) (limit http_limit ip cost now g.http_buckets).0
        (inr (inr (inl refl)), inl refl) (inl refl, inl refl)
  with_body-Refused f k (ok b) g ip cost h = http_limited-Refused (as_token (f b)) (k b) g ip cost h

  device-Refused :
      (host : Host) (body : Result BodyError DeviceBody) (g : Gateway) (ip : JsString)
      → (session_user s now (body_token (λ (b : DeviceBody). b.token) body) g.db).0 ≡ none
      → Refused s now
          (body_token (λ (b : DeviceBody). b.token) body)
          g
          (device host s now ip body g)
  unfolding device body_token Refused IsRefusal http_limited
  device-Refused host (err e) g ip h =
      branch (Refused s now none g) (limit http_limit ip 2 now g.http_buckets).0
        (inr (inr (inl refl)), inl refl) (inl refl, inl refl)
  device-Refused host (ok b) g ip h =
      http_limited-Refused (as_token b.token) (device_as host s now b) g ip 2 h

-- Every route for users that asks for a session, thus all but those of the admins: if the token of the request has none, the answer is a refusal, and
-- the state changes at most in the buckets of the limiter and by the row of an expired session. So no
-- account, device, mailbox, file or setting changes, and nothing is sent to a socket.
pub user_route-Refused :
    (h : Host) (s : Settings) (now : ℕ) (ip : JsString) (route : UserRoute) (g : Gateway)
    → (session_user s now (route_token route) g.db).0 ≡ none
    → Refused s now (route_token route) g (user_route h s now ip route g)
unfolding user_route route_token forget_others delete read_blob write_blob lookup presence upload
    download turn_credentials_route
user_route-Refused h s now ip (UserRoute.device_route body) g e = device-Refused s now h body g ip e
user_route-Refused h s now ip (UserRoute.forget_route body) g e =
    with_body-Refused s now (λ (b : Value × Value). b.0) (λ b. forget_others_as h s now b.1) body g
      ip 2 e
user_route-Refused h s now ip (UserRoute.delete_route body) g e =
    with_body-Refused s now (λ (b : Value). b) (λ b. delete_as h s now) body g ip 2 e
user_route-Refused h s now ip (UserRoute.read_blob_route token) g e =
    http_limited-Refused s now token _ g ip 1 e
user_route-Refused h s now ip (UserRoute.write_blob_route body) g e =
    with_body-Refused s now (λ (b : Value × Value). b.0) (λ b. write_blob_as h s now b.1) body g ip
      1 e
user_route-Refused h s now ip (UserRoute.bundle_route token query) g e =
    http_limited-Refused s now token _ g ip 1 e
user_route-Refused h s now ip (UserRoute.presence_route token query) g e =
    http_limited-Refused s now token _ g ip 1 e
user_route-Refused h s now ip (UserRoute.upload_route token id u) g e =
    http_limited-Refused s now token _ g ip 4 e
user_route-Refused h s now ip (UserRoute.download_route token id reading) g e =
    http_limited-Refused s now token _ g ip 1 e
user_route-Refused h s now ip (UserRoute.turn_route token) g e =
    http_limited-Refused s now token _ g ip 1 e

-- Who may use the admin routes, on the rows of the store: a bearer of the shared token, where one is set, or
-- a session of an account whose row has the flag of an admin and is not banned.
unfoldable pub Authorised : Settings → ℕ → Option JsString → Gateway → Type 0
Authorised s now none g = ⊥
Authorised s now (some token) g =
    ((token ≡ s.admin_token) × (length s.admin_token ≢ 0))
    ⊎ ((u : JsString) × (a : Account) × ((session_user s now (some token) g.db).0 ≡ some u)
        × (get_account u (session_user s now (some token) g.db).1 ≡ some a)
        × (a.is_admin ≡ true)
        × (a.banned ≡ false))

-- 401, with nothing changed but the row of an expired session
unfoldable pub TurnedAway : Settings → ℕ → Option JsString → Gateway → Reply × Gateway → Type 0
TurnedAway s now token g r =
    (r.0 ≡ Reply.error 401 (text "unauthorized"))
    × (r.1 ≡ record g { db = (session_user s now token g.db).1 })

admin_user-account :
    (h : Host) (s : Settings) (now : ℕ) (u : JsString) (db : Db)
    → admin_user h s now (some u) db ≡ true
    → (a : Account) × (get_account u db ≡ some a) × (a.is_admin ≡ true) × (a.banned ≡ false)
unfolding is_admin is_banned
admin_user-account h s now u db e = elim (Option-cases (get_account u db)) [
  | inl missing ↦ ground (arith, missing, e)
  | inr (a, found) ↦ (a, found, ground (arith, found, e), ground (arith, found, e))
]

-- The request is made by an admin and does what it does behind the check, or it is turned away.
unfoldable pub Guarded :
    Settings → ℕ → Option JsString → Action → Gateway → Reply × Gateway → Type 0
Guarded s now token k g r =
    (Authorised s now token g
      × ((r ≡ k g) ⊎ (r ≡ k (record g { db = (session_user s now token g.db).1 }))))
    ⊎ TurnedAway s now token g r

require_admin-Guarded :
    (h : Host) (s : Settings) (now : ℕ) (token : Option JsString) (k : Action) (g : Gateway)
    → Guarded s now token k g (require_admin h s now token k g)
unfolding Guarded require_admin Authorised TurnedAway session_user
require_admin-Guarded h s now none k g = inr (refl, refl)
require_admin-Guarded h s now (some token) k g =
    let r = session_user s now (some token) g.db in
    elim (Bool-cases (holds_admin_token h s now token)) [
      | inl shared ↦ inl (
        inl (ground (arith, shared, ===_iff token s.admin_token), λ e. ground (arith, shared, e)),
        inl (rw (require_admin, shared) refl),
      )
      | inr foreign ↦ elim (Bool-cases (admin_user h s now r.0 r.1)) [
        | inr no_admin ↦ inr (rw (require_admin, foreign, no_admin) (refl, refl))
        | inl admin ↦ elim (Option-cases r.0) [
          | inl nobody ↦
              ground (
                arith,
                subst (λ (o : Option JsString). admin_user h s now o r.1 ≡ true) nobody admin,
              )
          | inr (u, found) ↦
              let (a, row, flag, free) =
                admin_user-account h s now u r.1
                  (subst (λ (o : Option JsString). admin_user h s now o r.1 ≡ true) found admin) in
              inl
                (inr (u, a, found, row, flag, free), inr (rw (require_admin, foreign, admin) refl))
        ]
      ]
    ]

-- A request to an admin route, with a token in its header or with none: either it is made by someone whom
-- the rows of the store make an admin, or by a bearer of the shared token, and has the effect of its
-- route; or its answer is 401, and nothing changes but the row of an expired session. This holds of the
-- routes with a body, of the log, and of the routes that only read.
pub admin_request-Guarded :
    (h : Host) (s : Settings) (now : ℕ) (token : Option JsString) (request : AdminRequest)
    (g : Gateway)
    → Guarded s now token (behind h s now request) g (admin_request h s now token request g)
unfolding admin_request admin_post admin_logs
admin_request-Guarded h s now token (AdminRequest.posts route body) g =
    require_admin-Guarded h s now token (behind h s now (AdminRequest.posts route body)) g
admin_request-Guarded h s now token (AdminRequest.logs_since since) g =
    require_admin-Guarded h s now token (behind h s now (AdminRequest.logs_since since)) g
admin_request-Guarded h s now token (AdminRequest.reads answer) g =
    require_admin-Guarded h s now token (behind h s now (AdminRequest.reads answer)) g
