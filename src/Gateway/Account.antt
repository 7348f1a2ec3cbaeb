-- ===== src/Gateway/Account.antt =====
-- The routes of a signed-in account: devices, deletion, the encrypted blob, key bundles and presence.
use noblechat.Prelude.{
  ℕ, max, ◌==◌, ltb, if◌then◌else◌, List, [], ◌∷◌, ◌++◌, Option, none, some, Bool, ◌&&◌, ◌||◌, not,
  JsString, text, text_eq, ◌===◌, Result, ok, err, get, map, any, all, keep, take, length,
}
use noblechat.Store.Tables.{Db, StoreError}
use noblechat.Store.Accounts.{get_blob, set_blob}
use noblechat.Store.Devices.{add_device, clear_other_devices, device_mbkeys, owned_by, rows_for}
use noblechat.Store.Moderation.{delete_account}
use noblechat.Store.Accounts.{is_banned}
use noblechat.Server.Address.{split_commas}
use noblechat.Server.Limiter.{limit}
use noblechat.Gateway.Fields.{
  Value, CardValue, string_of, as_token, device_id_re, handle_re, b64_unit, valid_card,
}
use noblechat.Gateway.State.{
  Host, Settings, Gateway, Reply, Action, BodyError, Out, http_limited, with_body, with_user,
  log_event, lookup_limit, presence_limit,
}
use noblechat.Gateway.Auth.{bad_request}
use noblechat.Gateway.Relay.{turn_ice_servers}

-- The sockets subscribed to a mailbox
abbrev pub sockets_of : JsString → Gateway → List ℕ
sockets_of k g = elim (get k g.mbkey_sockets) [ none ↦ [] | some sockets ↦ sockets ]

-- `for (const k of mbk) … for (const ws of set) ws.close(code, reason)`
unfoldable pub close_all : ℕ → JsString → List JsString → Gateway → Gateway
close_all code reason [] g = g
close_all code reason (k ∷ ks) g =
    close_all code reason ks
      record g { outbox = g.outbox ++ map (λ ws. Out.close_socket ws code reason) (sockets_of k g) }

-- The notice to the other devices
unfoldable pub announce_device : ℕ → JsString → List JsString → Gateway → Gateway
announce_device now mbkey [] g = g
announce_device now mbkey (k ∷ ks) g =
    let told = record g {
      outbox = g.outbox ++ map (λ ws. Out.device_added ws now) (sockets_of k g);
    } in
    announce_device now mbkey ks (if k === mbkey then g else told)

-- The body of a device registration; `card_text` is the JSON of its card.
pub record DeviceBody : Type 0 where
  pub token : Value
  pub device_id : Value
  pub card : Option CardValue
  pub card_text : JsString

-- `deviceId` if it is a string of the right form
abbrev pub checked_id : Value → Option JsString
checked_id v = elim (string_of v) [
  | none ↦ none
  | some id ↦ if device_id_re id then some id else none
]

abbrev pub or_empty : Option JsString → JsString
or_empty none = []
or_empty (some s) = s

-- `${card.providerId}:${card.mailbox}`
abbrev pub card_mbkey : CardValue → JsString
card_mbkey c = or_empty (string_of c.provider_id) ++ (58 ∷ or_empty (string_of c.mailbox))

-- A card that is valid and names this account
abbrev pub card_of : (JsString → JsString) → JsString → Option CardValue → Option CardValue
card_of to_lower_case username none = none
card_of to_lower_case username (some c) =
    if valid_card to_lower_case (some c)
      && (to_lower_case (or_empty (string_of c.handle)) === username)
    then some c
    else none

-- The answer to an error of `addDevice`, less the number in the first text
abbrev pub device_error : StoreError → Reply
device_error StoreError.device_limit = Reply.error 409 (text "device limit reached")
device_error StoreError.mailbox_taken =
    Reply.error 409 (text "mailbox already registered to another device")
device_error StoreError.duplicate_key = bad_request
device_error StoreError.missing_account = bad_request

module _ (h : Host) (s : Settings) (now : ℕ) where
  -- What `addDevice` answered
  abbrev pub device_added :
      JsString → JsString → Gateway → Result StoreError (Bool × Db) → Reply × Gateway
  device_added username mbkey g (err e) = (device_error e, g)
  device_added username mbkey g (ok (is_new, db)) =
      let stored = record g { db = db } in
      (
        Reply.done,
        if is_new then announce_device now mbkey (device_mbkeys username db) stored else stored,
      )

  unfoldable pub device_as : DeviceBody → JsString → Action
  device_as b username g =
      if is_banned username g.db
      then (Reply.error 403 (text "account suspended"), g)
      else elim (checked_id b.device_id) [
        | none ↦ (Reply.error 400 (text "bad device id"), g)
        | some id ↦ elim (card_of h.to_lower_case username b.card) [
          | none ↦ (Reply.error 400 (text "card must match your handle"), g)
          | some c ↦
              device_added username (card_mbkey c) g
                (add_device now id username b.card_text (card_mbkey c) s.store.max_devices g.db)
        ]
      ]

  -- `/api/account/device`; every error but two of the store is a bad request.
  unfoldable pub device : JsString → Result BodyError DeviceBody → Action
  device ip (err e) = http_limited now ip 2 (λ g. (bad_request, g))
  device ip (ok b) = http_limited now ip 2 (with_user s now (as_token b.token) (device_as b))

  unfoldable pub forget_others_as : Value → JsString → Action
  forget_others_as device_id username g = elim (checked_id device_id) [
    | none ↦ (Reply.error 400 (text "bad device id"), g)
    | some id ↦
        let r = clear_other_devices username id g.db in
        (
          Reply.removed (length r.0),
          close_all 4005 (text "signed out elsewhere") r.0 record g { db = r.1 },
        )
  ]

  -- `/api/account/forget-others`, on the token and the device id of the body
  unfoldable pub forget_others : JsString → Result BodyError (Value × Value) → Action
  forget_others ip body =
      http_limited now ip 2
        (with_body body (λ b. with_user s now (as_token b.0) (forget_others_as b.1)))

  unfoldable pub delete_as : JsString → Action
  delete_as username g =
      let r = delete_account username g.db in
      (
        Reply.done,
        log_event now (text "warn") (text "account self-deleted") username
            (close_all 4004 (text "account deleted") r.0 record g { db = r.1 }),
      )

  -- `/api/account/delete`, on the token of the body
  unfoldable pub delete : JsString → Result BodyError Value → Action
  delete ip body =
      http_limited now ip 2 (with_body body (λ token. with_user s now (as_token token) delete_as))

  -- `/api/account/blob`; the token of a GET comes from the header.
  unfoldable pub read_blob : JsString → Option JsString → Action
  read_blob ip token =
      http_limited now ip 1
        (with_user s now token (λ username g. (Reply.blob (get_blob username g.db), g)))

  unfoldable pub write_blob_as : Value → JsString → Action
  write_blob_as v username g = elim (string_of v) [
    | none ↦ (Reply.error 400 (text "bad blob"), g)
    | some blob ↦
        if ltb s.max_blob_bytes (length blob) || not (all b64_unit blob)
        then (Reply.error 400 (text "bad blob"), g)
        else (Reply.done, record g { db = set_blob now username blob g.db })
  ]

  unfoldable pub write_blob : JsString → Result BodyError (Value × Value) → Action
  write_blob ip body =
      http_limited now ip 1
        (with_body body (λ b. with_user s now (as_token b.0) (write_blob_as b.1)))

  -- `deviceBundle`: the cards of a handle, in the order in which they were added
  unfoldable pub device_bundle : JsString → Db → List JsString
  device_bundle username db = map (λ d. d.card) (keep (owned_by username) db.devices)

  unfoldable pub lookup_as : JsString → JsString → Action
  lookup_as query me g =
      let r = limit lookup_limit me 1 now g.lookup_buckets in
      let g' = record g { lookup_buckets = r.1 } in
      let handle = h.to_lower_case query in
      let devices = device_bundle handle g.db in
      if not r.0
      then (Reply.error 429 (text "too many lookups"), g')
      else if not (handle_re handle)
      then (Reply.error 400 (text "bad handle"), g')
      else if length devices == 0
      then (Reply.error 404 (text "not found"), g')
      else (Reply.bundle handle devices, g')

  -- `/api/bundle`, on the parameter `handle`
  unfoldable pub lookup : JsString → Option JsString → JsString → Action
  lookup ip token query = http_limited now ip 1 (with_user s now token (lookup_as query))

  -- The handles that a presence request asks about
  unfoldable pub asked_handles : JsString → List JsString
  asked_handles query = take 100 (keep handle_re (split_commas (h.to_lower_case query)))

  -- A handle is online if a socket is subscribed to a mailbox of one of its devices.
  unfoldable pub is_online : Gateway → List (JsString × JsString) → JsString → Bool
  is_online g rows handle =
      any (λ row. (row.0 === handle) && ltb 0 (length (sockets_of row.1 g))) rows

  unfoldable pub presence_as : JsString → JsString → Action
  presence_as query username g =
      let handles = asked_handles query in
      let r = limit presence_limit username (max 1 (length handles)) now g.presence_buckets in
      let g' = record g { presence_buckets = r.1 } in
      if not r.0
      then (Reply.error 429 (text "too many lookups"), g')
      else (Reply.online (keep (is_online g (rows_for handles g.db.devices)) handles), g')

  -- `/api/presence`, on the parameter `handles`
  unfoldable pub presence : JsString → Option JsString → JsString → Action
  presence ip token query = http_limited now ip 1 (with_user s now token (presence_as query))

-- `/api/turn-credentials`
unfoldable pub turn_credentials_route : Host → Settings → ℕ → JsString → Option JsString → Action
turn_credentials_route h s now ip token = http_limited now ip 1 (
    with_user s now token (λ username g. (
      Reply.ice_servers
          (turn_ice_servers h.hmac_sha1_b64 s.turn_secret s.turn_uris s.turn_ttl_sec now username),
      g,
    )))
