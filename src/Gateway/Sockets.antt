-- ===== src/Gateway/Sockets.antt =====
-- apps/server/server.js, the WebSocket gateway and /internal/deliver: connections, messages, heartbeats.
pub mod Owned
pub mod Lifetime
use noblechat.Prelude.{
  ℕ, ◌+◌, ltb, if◌then◌else◌, List, [], ◌∷◌, ◌++◌, Option, none, some, Bool, true, false, not, ◌&&◌,
  ◌||◌, keep, map, length, JsString, text, text_eq, ℕ_eq, Bytes, ◌===◌, ◌==◌, get, put, delete, add,
  includes, Result, ok, err,
}
use noblechat.Server.Limiter
use noblechat.Server.Limiter.{Buckets, limit}
use noblechat.Server.Connections.{Connections, try_acquire_conn, release_conn}
use noblechat.Store.Devices.{device_mbkeys}
use noblechat.Router.{MailboxStore, Mixnet, mailbox_key, subscribe, unsubscribe, deliver}
use noblechat.Net.Serialize.{Base64, PacketObj, deserialize_packet}
use noblechat.Gateway.Fields.{Value, text_of, is_b64, as_token}
use noblechat.Gateway.State.{Settings, Gateway, Out, Reply, BodyError, bad_body, session_user}
use noblechat.Gateway.Account.{sockets_of}

abbrev pub to_list : Option JsString → List JsString
to_list none = []
to_list (some s) = s ∷ []

-- `originAllowed`; `url_host` is `new URL(…).host`, which throws on what is no URL.
abbrev pub host_matches : Option JsString → JsString → Bool → Bool
host_matches none host_header allowed = false
host_matches (some host) host_header allowed =
    (not (host_header === []) && (host === host_header)) || allowed

unfoldable pub origin_allowed :
    (JsString → Option JsString) → JsString → JsString → List JsString → Bool
origin_allowed url_host origin_header host_header allowed_origins =
    (origin_header === [])
    || host_matches (url_host origin_header) host_header (includes allowed_origins origin_header)

-- The variables of one connection: `ip`, `ws.isAlive`, the key that `unsub` takes out of the router, and
-- `myMbkey`
pub record Connection : Type 0 where
  pub ip : JsString
  pub is_alive : Bool
  pub unsub : Option JsString
  pub my_mbkey : Option JsString

pub record Hub (S : Type 0) : Type 0 where
  pub gateway : Gateway
  pub net : Mixnet S
  pub conns : Connections
  pub clients : List (ℕ × Connection)
  pub submit_buckets : Buckets
  pub submitted : ℕ
  -- What `forwardToNode`, `ws.ping` and `ws.terminate` were called with
  pub forwards : List (JsString × PacketObj)
  pub pings : List ℕ
  pub terminated : List ℕ

pub data Message : Type 0 where
  submit : Value → PacketObj → Message
  subscribe_to : Value → Value → Value → Message
  other : Message

abbrev pub submit_limit : Limiter.Options
submit_limit = record { capacity = 120; unit = 25; refill_per_ms = 1 }

-- `MAX_INNER_BYTES`
abbrev pub max_inner_bytes : ℕ
max_inner_bytes = 65536

-- A socket as the key of `submitLimit`
abbrev pub socket_key : ℕ → JsString
socket_key ws = ws ∷ []

-- `set.delete(ws); if (!set.size) mbkeySockets.delete(myMbkey)`
abbrev pub left_over : JsString → List ℕ → List (JsString × List ℕ) → List (JsString × List ℕ)
left_over k [] m = delete k m
left_over k (w ∷ sockets) m = put k (w ∷ sockets) m

abbrev pub leave : Option JsString → ℕ → Gateway → Gateway
leave none ws g = g
leave (some k) ws g = elim (get k g.mbkey_sockets) [
  | none ↦ g
  | some sockets ↦ record g {
    mbkey_sockets = left_over k (keep (λ w. not (w == ws)) sockets) g.mbkey_sockets;
  }
]

module _ {S : Type 0} where
  abbrev pub send_out : Out → Hub S → Hub S
  send_out out hub = record hub {
    gateway = record hub.gateway { outbox = hub.gateway.outbox ++ out ∷ [] };
  }

  -- The connection behind the check of its origin
  unfoldable pub accept : ℕ → JsString → ℕ → Hub S → Hub S
  accept max_conn_per_ip ip ws hub =
      let r = try_acquire_conn ip max_conn_per_ip hub.conns in
      let opened : Connection = record {
        ip = ip;
        is_alive = true;
        unsub = none;
        my_mbkey = none;
      } in
      let joined = record hub {
        gateway = record hub.gateway {
          sockets = add ws hub.gateway.sockets;
          outbox = hub.gateway.outbox ++ Out.status ws ∷ [];
        };
        conns = r.1;
        clients = put ws opened hub.clients;
      } in
      if r.0 then joined else send_out (Out.close_socket ws 1013 (text "too many connections")) hub

  -- `wss.on("connection")`
  unfoldable pub connection :
      (JsString → Option JsString)
      → ℕ
      → List JsString
      → JsString
      → JsString
      → JsString
      → ℕ
      → Hub S
      → Hub S
  connection url_host max_conn_per_ip allowed_origins origin host ip ws hub =
      if origin_allowed url_host origin host allowed_origins
      then accept max_conn_per_ip ip ws hub
      else send_out (Out.close_socket ws 4008 (text "forbidden origin")) hub

  abbrev pub with_client : ℕ → (Connection → Connection) → Hub S → Hub S
  with_client ws f hub = elim (get ws hub.clients) [
    | none ↦ hub
    | some c ↦ record hub { clients = put ws (f c) hub.clients }
  ]

  -- `ws.on("pong")`
  unfoldable pub pong : ℕ → Hub S → Hub S
  pong ws hub = with_client ws (λ c. record c { is_alive = true }) hub

  -- One pass of the heartbeat over the clients
  unfoldable pub heartbeat_over : List (ℕ × Connection) → Hub S → Hub S
  heartbeat_over [] hub = hub
  heartbeat_over ((ws, c) ∷ clients) hub =
      let silent = record hub { terminated = hub.terminated ++ ws ∷ [] } in
      let waiting = record hub {
        clients = put ws (record c { is_alive = false }) hub.clients;
        pings = hub.pings ++ ws ∷ [];
      } in
      heartbeat_over clients (if c.is_alive then waiting else silent)

  unfoldable pub heartbeat : Hub S → Hub S
  heartbeat hub = heartbeat_over hub.clients hub

  -- `if (unsub) unsub()`
  abbrev pub run_unsub :
      Option JsString → ℕ → MailboxStore S → (Bytes → JsString) → (ℕ → Bool) → Mixnet S → Mixnet S
  run_unsub none ws store to_b64 ready net = net
  run_unsub (some k) ws store to_b64 ready net = unsubscribe store to_b64 ready k ws net

  module _ (store : MailboxStore S) (codec : Base64) (ready : ℕ → Bool) where
    abbrev pub closed : ℕ → Hub S → Option Connection → Hub S
    closed ws hub none = hub
    closed ws hub (some c) = record hub {
      gateway =
          leave c.my_mbkey ws
            record hub.gateway { sockets = keep (λ w. not (w == ws)) hub.gateway.sockets };
      net = run_unsub c.unsub ws store codec.to_b64 ready hub.net;
      conns = release_conn c.ip hub.conns;
      clients = delete ws hub.clients;
    }

    -- `ws.on("close")`
    unfoldable pub close_client : ℕ → Hub S → Hub S
    close_client ws hub = closed ws hub (get ws hub.clients)

    -- A subscription that nothing forbids
    unfoldable pub subscribe_client : JsString → JsString → Connection → ℕ → Hub S → Hub S
    subscribe_client provider mailbox c ws hub =
        let mbkey = provider ++ (58 ∷ mailbox) in
        let provider_id = codec.from_b64 provider in
        let key = mailbox_key codec.to_b64 provider_id (codec.from_b64 mailbox) in
        record hub {
          gateway = record hub.gateway {
            mbkey_sockets =
                put mbkey (add ws (sockets_of mbkey hub.gateway)) hub.gateway.mbkey_sockets;
          };
          net =
              subscribe store codec.to_b64 ready provider_id (codec.from_b64 mailbox) ws
                (run_unsub c.unsub ws store codec.to_b64 ready hub.net);
          clients = put ws (record c { unsub = some key; my_mbkey = some mbkey }) hub.clients;
        }

    -- The check of the mailbox, for a signed-in user
    unfoldable pub subscribe_as :
        JsString → JsString → ℕ → Option Connection → Option JsString → Hub S → Hub S
    subscribe_as provider mailbox ws c none hub =
        send_out (Out.close_socket ws 4001 (text "unauthorized")) hub
    subscribe_as provider mailbox ws none (some username) hub = hub
    subscribe_as provider mailbox ws (some c) (some username) hub =
        if not (includes (device_mbkeys username hub.gateway.db) (provider ++ (58 ∷ mailbox)))
        then send_out (Out.close_socket ws 4001 (text "forbidden mailbox")) hub
        else if ready ws
        then subscribe_client provider mailbox c ws hub
        else hub

    -- The message `subscribe`; it is one step, with the state of the socket after the session is checked.
    unfoldable pub subscribe_message : Settings → ℕ → Value → Value → Value → ℕ → Hub S → Hub S
    subscribe_message s now provider mailbox token ws hub =
        let mbkey = text_of provider ++ (58 ∷ text_of mailbox) in
        let r = session_user s now (as_token token) hub.gateway.db in
        let hub' = record hub { gateway = record hub.gateway { db = r.1 } } in
        if not (is_b64 provider && is_b64 mailbox)
        then hub
        else if includes hub.gateway.banned_mbkeys mbkey
        then send_out (Out.close_socket ws 4003 (text "banned")) hub
        else subscribe_as (text_of provider) (text_of mailbox) ws (get ws hub'.clients) r.0 hub'

    -- `if (url) { … forwardToNode(…) }`
    abbrev pub forward_to : Option JsString → PacketObj → Hub S → Hub S
    forward_to none packet hub = hub
    forward_to (some url) packet hub = record hub {
      submitted = hub.submitted + 1;
      forwards = hub.forwards ++ (url, packet) ∷ [];
    }

    module _ (url_of : Bytes → Option JsString) where
      -- `deserializePacket` throws on what is no packet.
      abbrev pub submit_shaped : Value → PacketObj → Hub S → Hub S
      submit_shaped node packet hub = elim (deserialize_packet codec packet) [
        | none ↦ hub
        | some parsed ↦ forward_to (url_of (codec.from_b64 (text_of node))) packet hub
      ]

      -- The message `submit`
      unfoldable pub submit_message : ℕ → Value → PacketObj → ℕ → Hub S → Hub S
      submit_message now node packet ws hub =
          let r = limit submit_limit (socket_key ws) 1 now hub.submit_buckets in
          let hub' = record hub { submit_buckets = r.1 } in
          if hub.gateway.maintenance
          then hub
          else if not r.0
          then hub'
          else if not (is_b64 node)
          then hub'
          else submit_shaped node packet hub'

      -- `ws.on("message")`, on what is JSON
      unfoldable pub on_message : Settings → ℕ → Message → ℕ → Hub S → Hub S
      on_message s now (submit node packet) ws hub = submit_message now node packet ws hub
      on_message s now (subscribe_to provider mailbox token) ws hub =
          subscribe_message s now provider mailbox token ws hub
      on_message s now other ws hub = hub

    -- `/internal/deliver`, on the provider and the payload of its body, and the counter of deliveries
    unfoldable pub internal_deliver :
        Bool → Result BodyError (JsString × JsString) → Hub S × ℕ → Reply × Hub S × ℕ
    internal_deliver false body (hub, delivered) = (Reply.bare 401, hub, delivered)
    internal_deliver true (err e) (hub, delivered) = (Reply.bare 202, hub, delivered)
    internal_deliver true (ok (provider_id, payload)) (hub, delivered) =
        let bytes = codec.from_b64 payload in
        if ltb max_inner_bytes (length bytes)
        then (Reply.error 413 (text "too large"), hub, delivered)
        else (
          Reply.bare 202,
          record hub {
            net = deliver store codec.to_b64 ready (codec.from_b64 provider_id) bytes hub.net;
          },
          delivered + 1,
        )
