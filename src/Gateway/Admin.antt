-- ===== src/Gateway/Admin.antt =====
-- The admin routes, behind `requireAdmin`.
use noblechat.Prelude.{
  ℕ, ◌==◌, if◌then◌else◌, [], ◌++◌, Option, none, some, Bool, false, ◌&&◌, not, JsString, text,
  text_eq, ◌===◌, Result, take, length,
}
use noblechat.Store.Tables.{Db}
use noblechat.Store.Accounts.{is_admin, is_banned, set_admin, set_setting}
use noblechat.Store.Devices.{clear_devices}
use noblechat.Store.Moderation.{ban_account, unban_account, delete_account, all_banned_mbkeys}
use noblechat.Server.Log.{list_since}
use noblechat.Gateway.Fields.{Value, text_of, as_handle, handle_re}
use noblechat.Gateway.State.{
  Host, Settings, Gateway, Reply, Action, BodyError, with_body, session_user, log_event,
}
use noblechat.Gateway.Account.{close_all}
use noblechat.Gateway.Transport.{admin_transport, broadcast_status}

-- The routes that take a body
pub data AdminRoute : Type 0 where
  announce changelog maintenance transport ban unban setadmin delete cleardevices : AdminRoute

-- The parsed body; a flag is the truth of a value.
pub record AdminBody : Type 0 where
  pub handle : Value
  pub username : Value
  pub message_text : Value
  pub message : Value
  pub mode : Value
  pub reason : Value
  pub on : Bool
  pub admin : Bool

-- A request behind `requireAdmin`: one with a body, one for the log, or one that reads and formats, the
-- status, users and mixnodes, with the answer it works out.
pub data AdminRequest : Type 0 where
  posts : AdminRoute → Result BodyError AdminBody → AdminRequest
  logs_since : ℕ → AdminRequest
  reads : (Gateway → Reply) → AdminRequest

-- `refreshBans`
unfoldable pub refresh_bans : Gateway → Gateway
refresh_bans g = record g { banned_mbkeys = all_banned_mbkeys g.db }

abbrev pub or_handle : Option JsString → Option JsString → JsString
or_handle (some handle) name = handle
or_handle none (some name) = name
or_handle none none = []

-- `asHandle(body.handle) || asHandle(body.username) || ""`
unfoldable pub target : Host → AdminBody → JsString
target h b = or_handle (as_handle h.to_lower_case b.handle) (as_handle h.to_lower_case b.username)

module _ (h : Host) (s : Settings) (now : ℕ) where
  abbrev pub on_off : Bool → JsString
  on_off on = if on then text "on" else text "off"

  unfoldable pub set_announcement : AdminBody → Action
  set_announcement b g =
      let said = take 500 (text_of b.message_text) in
      (
        Reply.done,
        broadcast_status (
            log_event now (text "info")
              (if length said == 0
                then text "announcement cleared"
                else text "announcement published")
              []
              record g { announcement = said; db = set_setting (text "announcement") said g.db }),
      )

  unfoldable pub set_changelog : AdminBody → Action
  set_changelog b g = (
    Reply.done,
    log_event now (text "info") (text "changelog updated") []
        record g { db = set_setting (text "changelog") (take 20000 (text_of b.message_text)) g.db },
  )

  unfoldable pub set_maintenance : AdminBody → Action
  set_maintenance b g =
      let said = take 500 (text_of b.message) in
      let stored =
        set_setting (text "maintenance_msg") said
          (set_setting (text "maintenance") (on_off b.on) g.db) in
      (
        Reply.done,
        broadcast_status (
            log_event now (text "warn")
              (text "maintenance " ++ (if b.on then text "enabled" else text "disabled")) []
              record g { maintenance = b.on; maintenance_msg = said; db = stored }),
      )

  unfoldable pub admin_ban : AdminBody → Action
  admin_ban b g =
      let handle = target h b in
      let r = ban_account handle (take 200 (text_of b.reason)) g.db in
      if not (handle_re handle) then (Reply.error 400 (text "bad handle"), g) else (
        Reply.done,
        close_all 4003 (text "banned") r.0 (
            log_event now (text "warn") (text "account banned") handle
              (refresh_bans record g { db = r.1 })),
      )

  unfoldable pub admin_unban : AdminBody → Action
  admin_unban b g =
      let handle = target h b in
      (
        Reply.done,
        log_event now (text "info") (text "account unbanned") handle
            (refresh_bans record g { db = unban_account handle g.db }),
      )

  unfoldable pub admin_set_admin : AdminBody → Action
  admin_set_admin b g =
      let handle = target h b in
      let r = set_admin handle b.admin g.db in
      let stored = record g { db = r.1 } in
      if not (handle_re handle)
      then (Reply.error 400 (text "bad handle"), g)
      else if not r.0
      then (Reply.error 404 (text "no such account"), stored)
      else (
        Reply.done,
        log_event now (text "warn") (if b.admin then text "admin granted" else text "admin revoked")
            handle stored,
      )

  unfoldable pub admin_delete : AdminBody → Action
  admin_delete b g =
      let handle = target h b in
      let r = delete_account handle g.db in
      (
        Reply.done,
        close_all 4004 (text "removed") r.0 (
            log_event now (text "warn") (text "account deleted") handle
              (refresh_bans record g { db = r.1 })),
      )

  unfoldable pub admin_clear_devices : AdminBody → Action
  admin_clear_devices b g =
      let handle = target h b in
      let r = clear_devices handle g.db in
      if not (handle_re handle) then (Reply.error 400 (text "bad handle"), g) else (
        Reply.removed (length r.0),
        close_all 4005 (text "devices cleared") r.0
            (log_event now (text "warn") (text "devices cleared") handle record g { db = r.1 }),
      )

  unfoldable pub admin_route : AdminRoute → AdminBody → Action
  admin_route AdminRoute.announce b = set_announcement b
  admin_route AdminRoute.changelog b = set_changelog b
  admin_route AdminRoute.maintenance b = set_maintenance b
  admin_route AdminRoute.transport b = admin_transport s now (text_of b.mode)
  admin_route AdminRoute.ban b = admin_ban b
  admin_route AdminRoute.unban b = admin_unban b
  admin_route AdminRoute.setadmin b = admin_set_admin b
  admin_route AdminRoute.delete b = admin_delete b
  admin_route AdminRoute.cleardevices b = admin_clear_devices b

  abbrev pub unauthorized : Reply
  unauthorized = Reply.error 401 (text "unauthorized")

  abbrev pub holds_admin_token : JsString → Bool
  holds_admin_token token = not (length s.admin_token == 0) && (token === s.admin_token)

  abbrev pub admin_user : Option JsString → Db → Bool
  admin_user none db = false
  admin_user (some u) db = is_admin u db && not (is_banned u db)

  -- `requireAdmin` in front of a route, with the token of the header
  unfoldable pub require_admin : Option JsString → Action → Action
  require_admin none k g = (unauthorized, g)
  require_admin (some token) k g =
      let r = session_user s now (some token) g.db in
      let g' = record g { db = r.1 } in
      if holds_admin_token token
      then k g
      else if admin_user r.0 r.1
      then k g'
      else (unauthorized, g')

  -- `POST /api/admin/…`
  unfoldable pub admin_post : Option JsString → AdminRoute → Result BodyError AdminBody → Action
  admin_post token route body = require_admin token (with_body body (admin_route route))

  -- `/api/admin/logs`
  unfoldable pub admin_logs : Option JsString → ℕ → Action
  admin_logs token since = require_admin token (λ g. (Reply.logs (list_since since g.log), g))

  -- What an admin's request does
  abbrev pub behind : AdminRequest → Action
  behind (AdminRequest.posts route body) = with_body body (admin_route route)
  behind (AdminRequest.logs_since since) = λ g. (Reply.logs (list_since since g.log), g)
  behind (AdminRequest.reads answer) = λ g. (answer g, g)

  -- The admin routes, all but the sign-in
  unfoldable pub admin_request : Option JsString → AdminRequest → Action
  admin_request token (AdminRequest.posts route body) = admin_post token route body
  admin_request token (AdminRequest.logs_since since) = admin_logs token since
  admin_request token (AdminRequest.reads answer) =
      require_admin token (behind (AdminRequest.reads answer))
