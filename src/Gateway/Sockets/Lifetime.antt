-- ===== src/Gateway/Sockets/Lifetime.antt =====
-- Where sockets listen over their lives, and that they listen nowhere after they close.
use noblechat.Prelude.{
  ℕ, List, Option, none, some, Bool, true, false, JsString, text_eq, ℕ_eq, ===_iff, get, put,
  delete, get-put, get-put_self, get-delete, ap, ◌≡◌, ◌≢◌, inl, inr, refl, subst, arith, Bool-cases,
  branch,
}
use noblechat.Server.Connections.{try_acquire_conn}
use noblechat.Router.{MailboxStore, Mixnet}
use noblechat.Net.Serialize.{Base64}
use noblechat.Gateway.Sockets.{
  Connection, Hub, accept, closed, close_client, subscribe_client, run_unsub,
}
use noblechat.Router.Listeners.{is_subscribed, is_subscribed-subscribe, is_subscribed-unsubscribe}

module _ {S : Type 0} (store : MailboxStore S) (codec : Base64) (ready : ℕ → Bool) where
  -- What happens to the hub in the life of its sockets. A new socket is a new object, so it has no
  -- connection and no subscription.
  pub data Event : Hub S → Hub S → Type 0 where
    opens :
        (max : ℕ) (ip : JsString) (ws : ℕ) (hub : Hub S)
        → get ws hub.clients ≡ none
        → Event hub (accept max ip ws hub)
    subscribes :
        (provider mailbox : JsString) (c : Connection) (ws : ℕ) (hub : Hub S)
        → get ws hub.clients ≡ some c
        → Event hub (subscribe_client store codec ready provider mailbox c ws hub)
    closes : (ws : ℕ) (hub : Hub S) → Event hub (close_client store codec ready ws hub)

  abbrev pub listens : ℕ → JsString → Mixnet S → Bool
  listens ws k net = is_subscribed store codec.to_b64 ready ws k net

  abbrev pub unsub_of : Option Connection → Option JsString
  unsub_of none = none
  unsub_of (some c) = c.unsub

  -- A socket only listens, in the router, where its own connection says so.
  abbrev pub Tracked : Hub S → Type 0
  Tracked hub =
      (ws : ℕ) (k : JsString) → listens ws k hub.net ≡ true → unsub_of (get ws hub.clients) ≡ some k

  apart-get :
      (ws w : ℕ) (c : Connection) (m : List (ℕ × Connection))
      → w ≢ ws
      → get w (put ws c m) ≡ get w m
  apart-get ws w c m apart = ground (arith, get-put ws w c m, ===_iff ws w)

  -- Behind `if (unsub) unsub()` the socket listens nowhere.
  run_unsub-drops :
      (ws w : ℕ) (k : JsString) (o : Option JsString) (net : Mixnet S)
      → ((j : JsString) → listens ws j net ≡ true → o ≡ some j)
      → listens w k (run_unsub o ws store codec.to_b64 ready net) ≡ true
      → (listens w k net ≡ true) × (w ≢ ws)
  run_unsub-drops ws w k none net own heard = (
    heard,
    λ e. absurd (ground (arith, own k (subst (λ (v : ℕ). listens v k net ≡ true) e heard))),
  )
  run_unsub-drops ws w k (some key) net own heard =
      let (kept, other) = is_subscribed-unsubscribe store codec.to_b64 ready ws w key k net heard in
      (
        kept,
        λ e.
            let mine = own k (subst (λ (v : ℕ). listens v k net ≡ true) e kept) in
            absurd (other (some_inj mine) e),
      )
    where
      some_inj : {x y : JsString} → some x ≡ some y → x ≡ y
      some_inj h = ap (λ (t : Option JsString). elim t [ none ↦ key | some z ↦ z ]) h

  accept-Tracked :
      (max : ℕ) (ip : JsString) (ws : ℕ) (hub : Hub S)
      → get ws hub.clients ≡ none
      → Tracked hub
      → Tracked (accept max ip ws hub)
  unfolding accept
  accept-Tracked max ip ws hub fresh tracked w k heard =
      branch (λ (h : Hub S). listens w k h.net ≡ true → unsub_of (get w h.clients) ≡ some k)
        (try_acquire_conn ip max hub.conns).0 (λ found. joined found) (λ found. tracked w k found)
        heard
    where
      apart : listens w k hub.net ≡ true → w ≢ ws
      apart found e =
          let at_ws =
            subst (λ (v : ℕ). unsub_of (get v hub.clients) ≡ some k) e (tracked w k found) in
          absurd
            (ground (arith, subst (λ (o : Option Connection). unsub_of o ≡ some k) fresh at_ws))

      joined :
          listens w k hub.net ≡ true
          → unsub_of (
              get w (
                put ws
                  record { ip = ip; is_alive = true; unsub = none; my_mbkey = none }
                  hub.clients))
            ≡ some k
      joined found = rw (apart-get ws w _ hub.clients (apart found)) (tracked w k found)

  subscribes-Tracked :
      (provider mailbox : JsString) (c : Connection) (ws : ℕ) (hub : Hub S)
      → get ws hub.clients ≡ some c
      → Tracked hub
      → Tracked (subscribe_client store codec ready provider mailbox c ws hub)
  unfolding subscribe_client
  subscribes-Tracked provider mailbox c ws hub found tracked w k heard =
      elim (is_subscribed-subscribe store codec.to_b64 ready (codec.from_b64 provider)
        (codec.from_b64 mailbox) ws w k _ heard) [
          | inr (e, same) ↦ rw (e, get-put_self ws _ hub.clients) (ap some same)
          | inl before ↦
              let (kept, other) = run_unsub-drops ws w k c.unsub hub.net own before in
              rw (apart-get ws w _ hub.clients other) (tracked w k kept)
        ]
    where
      own : (j : JsString) → listens ws j hub.net ≡ true → c.unsub ≡ some j
      own j h = subst (λ (o : Option Connection). unsub_of o ≡ some j) found (tracked ws j h)

  closed-Tracked :
      (ws : ℕ) (hub : Hub S) (o : Option Connection)
      → get ws hub.clients ≡ o
      → Tracked hub
      → Tracked (closed store codec ready ws hub o)
        × ((c : Connection)
            → o ≡ some c
            → (k : JsString) → listens ws k (closed store codec ready ws hub o).net ≡ false)
  closed-Tracked ws hub none found tracked = (tracked, λ c e. absurd (ground (arith, e)))
  closed-Tracked ws hub (some c) found tracked = (
    λ w k heard.
        let (kept, other) = run_unsub-drops ws w k c.unsub hub.net own heard in
        rw (removed w other) (tracked w k kept),
    λ d e k.
        elim (Bool-cases (listens ws k (run_unsub c.unsub ws store codec.to_b64 ready hub.net))) [
          | inr silent ↦ silent
          | inl heard ↦ absurd ((run_unsub-drops ws ws k c.unsub hub.net own heard).1 refl)
        ],
  )
    where
      own : (j : JsString) → listens ws j hub.net ≡ true → c.unsub ≡ some j
      own j h = subst (λ (o : Option Connection). unsub_of o ≡ some j) found (tracked ws j h)

      removed : (w : ℕ) → w ≢ ws → get w (delete ws hub.clients) ≡ get w hub.clients
      removed w other = ground (arith, get-delete ws w hub.clients, ===_iff ws w)

  Event-Tracked : {hub next : Hub S} → Event hub next → Tracked hub → Tracked next
  unfolding close_client
  Event-Tracked (opens max ip ws hub fresh) tracked = accept-Tracked max ip ws hub fresh tracked
  Event-Tracked (subscribes provider mailbox c ws hub found) tracked =
      subscribes-Tracked provider mailbox c ws hub found tracked
  Event-Tracked (closes ws hub) tracked = (closed-Tracked ws hub _ refl tracked).0

  pub data Life (start : Hub S) : Hub S → Type 0 where
    starts : Life start start
    happens : {hub next : Hub S} → Life start hub → Event hub next → Life start next

  -- From a router without subscriptions, after any sequence of sockets that open, subscribe, subscribe again and
  -- close: a socket that listens to a mailbox is connected, and its connection names that mailbox, so it
  -- listens to one mailbox at most. After a connected socket closes it listens to none.
  pub Life-Tracked :
      {start hub : Hub S}
      → ((ws : ℕ) (k : JsString) → listens ws k start.net ≡ false)
      → Life start hub
      → Tracked hub
        × ((ws : ℕ) (c : Connection) (k : JsString)
            → get ws hub.clients ≡ some c
            → listens ws k (close_client store codec ready ws hub).net ≡ false)
  unfolding close_client
  Life-Tracked {start} {hub} silent life =
      let tracked = over life in
      (tracked, λ ws c k found. (closed-Tracked ws hub _ refl tracked).1 c found k)
    where
      over : {h : Hub S} → Life start h → Tracked h
      over starts = λ ws k heard. absurd (ground (arith, silent ws k, heard))
      over (happens before event) = Event-Tracked event (over before)
