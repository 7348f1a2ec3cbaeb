-- ===== src/Gateway/Transport.antt =====
-- The switch between the internal mix network and Nym: what is wanted, what is in effect, and the link
-- to the sidecar.
pub mod Fallback
use noblechat.Prelude.{
  ℕ, ◌+◌, if◌then◌else◌, List, [], ◌∷◌, ◌++◌, Option, none, some, Bool, true, false, ◌&&◌, ◌||◌,
  not, JsString, text, text_eq, ◌===◌, map, take, Result, ok, err,
}
use noblechat.Store.Accounts.{set_setting}
use noblechat.Gateway.State.{Settings, Gateway, Reply, Action, Transport, Out, log_event}

-- `TRANSPORTS` and `isTransport`, with the transport that a mode names
abbrev pub transport_of : JsString → Option Transport
transport_of mode =
    if mode === text "internal"
    then some Transport.internal
    else if mode === text "nym"
    then some Transport.nym
    else none

abbrev pub transport_name : Transport → JsString
transport_name Transport.internal = text "internal"
transport_name Transport.nym = text "nym"

abbrev pub is_nym : Transport → Bool
is_nym Transport.internal = false
is_nym Transport.nym = true

abbrev pub same_transport : Transport → Transport → Bool
same_transport Transport.internal t = not (is_nym t)
same_transport Transport.nym t = is_nym t

-- `broadcastStatus`
unfoldable pub broadcast_status : Gateway → Gateway
broadcast_status g = record g { outbox = g.outbox ++ map (λ ws. Out.status ws) g.sockets }

-- The stored choice at the start; an unknown or a missing one is the internal network.
abbrev pub chosen : Option Transport → Transport
chosen none = Transport.internal
chosen (some t) = t

-- The start of `main`: nym is only wanted until the sidecar connects.
unfoldable pub start_transport : ℕ → Option Transport → Gateway → Gateway
start_transport now stored g =
    let wanted = record g {
      transport = Transport.internal;
      desired_transport = chosen stored;
      nym_address = none;
    } in
    if is_nym (chosen stored)
    then log_event now (text "info") (text "transport pending")
        (text "nym desired, waiting for sidecar to connect") wanted
    else wanted

-- `isConnected()` of the link, and that with the truth of `getAddress()`, which an empty address has not
abbrev pub is_connected : Option JsString → Bool
is_connected none = false
is_connected (some address) = true

abbrev pub is_linked : Option JsString → Bool
is_linked none = false
is_linked (some []) = false
is_linked (some (u ∷ address)) = true

-- `onConnect`
unfoldable pub on_connect : ℕ → Gateway → Gateway
on_connect now g =
    if is_nym g.desired_transport && not (is_nym g.transport)
    then broadcast_status (
        log_event now (text "info") (text "transport restored")
          (text "nym sidecar connected, switching back to nym")
          record g { transport = Transport.nym })
    else g

-- `onDisconnect`
unfoldable pub on_disconnect : ℕ → Gateway → Gateway
on_disconnect now g =
    if is_nym g.transport
    then broadcast_status (
        log_event now (text "warn") (text "transport auto-fallback")
          (text "nym sidecar dropped, serving internal until it returns")
          record g { transport = Transport.internal })
    else g

-- The sidecar tells its address; the first time since the link is up, that is `onConnect`.
unfoldable pub nym_connected : ℕ → JsString → Gateway → Gateway
nym_connected now address g =
    let linked = record g { nym_address = some address } in
    if is_connected g.nym_address
    then linked
    else on_connect now (
        log_event now (text "info") (text "nym sidecar connected") (take 24 address ++ text "...")
          linked)

-- `down` of the link: `onDisconnect` if it was connected, with the address still there, which it does not read
unfoldable pub nym_disconnected : ℕ → Gateway → Gateway
nym_disconnected now g =
    let unlinked = record g { nym_address = none } in
    if is_connected g.nym_address
    then on_disconnect now
        (log_event now (text "warn") (text "nym sidecar disconnected") [] unlinked)
    else unlinked

-- The checks of `/api/admin/transport`: an answer that refuses, or the mode
abbrev pub admit_nym : Bool → Bool → Result Reply Transport
admit_nym unconfigured linked =
    if unconfigured
    then err (Reply.error 409 (text "nym sidecar not configured (NYM_CLIENT_URL)"))
    else if not linked
    then err (Reply.error 409 (text "nym sidecar not connected to the mixnet"))
    else ok Transport.nym

unfoldable pub admit : Settings → JsString → Gateway → Result Reply Transport
admit s mode g = elim (transport_of mode) [
  | none ↦ err (Reply.error 400 (text "unknown transport"))
  | some Transport.internal ↦ ok Transport.internal
  | some Transport.nym ↦ admit_nym (not s.nym_configured) (is_linked g.nym_address)
]

-- Up to the `await` of the handler: `desiredTransport = mode`, and the write of `setSetting` that it waits for
unfoldable pub begin_switch : Transport → Gateway → Gateway
begin_switch mode g = record g {
  desired_transport = mode;
  db = set_setting (text "transport") (transport_name mode) g.db;
}

-- From the `await` on
unfoldable pub finish_switch : ℕ → Transport → Gateway → Gateway
finish_switch now mode g =
    let switched = record g { transport = mode } in
    if same_transport mode g.transport
    then g
    else broadcast_status
        (log_event now (text "warn") (text "transport switched") (transport_name mode) switched)

abbrev pub switch_to : ℕ → Gateway → Result Reply Transport → Reply × Gateway
switch_to now g (err refusal) = (refusal, g)
switch_to now g (ok mode) = (Reply.transport_now mode, finish_switch now mode (begin_switch mode g))

-- `/api/admin/transport`, when nothing comes in during its `await`
unfoldable pub admin_transport : Settings → ℕ → JsString → Action
admin_transport s now mode g = switch_to now g (admit s mode g)

-- The gateway with the changes that await `setSetting`. `is_disturbed` is no variable of the program: it tells
-- that the sidecar's link or another request came in while a change was waiting, and is taken back when a
-- connected sidecar drops while none is.
pub record Switching : Type 0 where
  pub gateway : Gateway
  pub awaiting : List Transport
  pub is_disturbed : Bool

abbrev pub is_waiting : List Transport → Bool
is_waiting [] = false
is_waiting (mode ∷ modes) = true

abbrev pub asked : Switching → Result Reply Transport → Switching
asked sw (err refusal) = sw
asked sw (ok mode) = record {
  gateway = begin_switch mode sw.gateway;
  awaiting = sw.awaiting ++ mode ∷ [];
  is_disturbed = sw.is_disturbed || is_waiting sw.awaiting;
}

unfoldable pub ask : Settings → JsString → Switching → Switching
ask s mode sw = asked sw (admit s mode sw.gateway)

-- One of the waiting changes goes on; the others are `before` and `after` it.
unfoldable pub resume : ℕ → List Transport → Transport → List Transport → Switching → Switching
resume now before mode after sw = record {
  gateway = finish_switch now mode sw.gateway;
  awaiting = before ++ after;
  is_disturbed = sw.is_disturbed;
}

unfoldable pub link_up : ℕ → JsString → Switching → Switching
link_up now address sw = record sw {
  gateway = nym_connected now address sw.gateway;
  is_disturbed = sw.is_disturbed || is_waiting sw.awaiting;
}

unfoldable pub link_down : ℕ → Switching → Switching
link_down now sw = record sw {
  gateway = nym_disconnected now sw.gateway;
  is_disturbed =
      is_waiting sw.awaiting || (sw.is_disturbed && not (is_connected sw.gateway.nym_address));
}
