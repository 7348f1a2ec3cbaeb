-- ===== src/Gateway/Sockets/Owned.antt =====
-- Who may subscribe to a mailbox.
use noblechat.Prelude.{
  ℕ, ◌∷◌, ◌++◌, Option, none, some, Bool, true, false, ◌&&◌, JsString, text_eq, ℕ_eq, get, includes,
  ◌≡◌, ◌⊎◌, inl, inr, refl, Bool-cases,
}
use noblechat.Store.Devices.{device_mbkeys}
use noblechat.Router.{MailboxStore, Mixnet, subscribe}
use noblechat.Net.Serialize.{Base64}
use noblechat.Gateway.Fields.{Value, text_of, is_b64, as_token}
use noblechat.Gateway.State.{Settings, session_user}
use noblechat.Gateway.Sockets.{
  Connection, Hub, closed, run_unsub, subscribe_as, subscribe_client, subscribe_message,
}

module _ {S : Type 0} (store : MailboxStore S) (codec : Base64) (ready : ℕ → Bool) where
  abbrev pub Kept : Hub S → Hub S → Type 0
  Kept hub next = next.net ≡ hub.net

  -- The router after the socket left its old mailbox and entered the one that the two texts are read as
  abbrev pub entered : JsString → JsString → ℕ → Connection → Mixnet S → Mixnet S
  entered provider mailbox ws c net =
      subscribe store codec.to_b64 ready (codec.from_b64 provider) (codec.from_b64 mailbox) ws
        (run_unsub c.unsub ws store codec.to_b64 ready net)

  subscribe_as-owned :
      (provider mailbox : JsString) (ws : ℕ) (client : Option Connection) (user : Option JsString)
      (hub : Hub S)
      → Kept hub (subscribe_as store codec ready provider mailbox ws client user hub)
        ⊎ ((username : JsString) × (c : Connection) × (user ≡ some username)
            × (client ≡ some c)
            × (includes (device_mbkeys username hub.gateway.db) (provider ++ (58 ∷ mailbox)) ≡ true)
            × (ready ws ≡ true)
            × ((subscribe_as store codec ready provider mailbox ws client user hub).net
                ≡ entered provider mailbox ws c hub.net))
  unfolding subscribe_as subscribe_client
  subscribe_as-owned provider mailbox ws c none hub = inl refl
  subscribe_as-owned provider mailbox ws none (some u) hub = inl refl
  subscribe_as-owned provider mailbox ws (some c) (some u) hub =
      elim (Bool-cases (includes (device_mbkeys u hub.gateway.db) (provider ++ (58 ∷ mailbox)))) [
        | inr foreign ↦ inl (rw (subscribe_as, foreign) refl)
        | inl owned ↦ elim (Bool-cases (ready ws)) [
          | inl open_now ↦
              inr (u, c, refl, refl, owned, open_now, rw (subscribe_as, owned, open_now) refl)
          | inr closed ↦ inl (rw (subscribe_as, owned, closed) refl)
        ]
      ]

  -- The message `subscribe` leaves the router and its queues as they are; or the text that joins its two fields
  -- is not banned and is the mailbox of a device of the account whose session the token has, the socket is
  -- open, and the router is the one in which this socket has left its mailbox before and has subscribed to
  -- the mailbox of the bytes that the two fields decode to, under the key of these bytes. The check is on the
  -- text and the subscription on the bytes: where a text is not the one that its bytes are written as, the
  -- key that is touched can be another one than the key that was checked.
  pub subscribe_message-owned :
      (s : Settings) (now : ℕ) (provider mailbox token : Value) (ws : ℕ) (hub : Hub S)
      → let mbkey = text_of provider ++ (58 ∷ text_of mailbox) in
        let next = subscribe_message store codec ready s now provider mailbox token ws hub in
        (next.net ≡ hub.net)
        ⊎ ((username : JsString) × (c : Connection) × ((session_user s now
                (as_token token)
                hub.gateway.db).0
              ≡ some username)
            × (get ws hub.clients ≡ some c)
            × (includes
                  (device_mbkeys username (session_user s now (as_token token) hub.gateway.db).1)
                  mbkey
                ≡ true)
            × (ready ws ≡ true)
            × (includes hub.gateway.banned_mbkeys mbkey ≡ false)
            × (next.net ≡ entered (text_of provider) (text_of mailbox) ws c hub.net))
  unfolding subscribe_message
  subscribe_message-owned s now provider mailbox token ws hub =
      let r = session_user s now (as_token token) hub.gateway.db in
      let asked : Hub S = record hub { gateway = record hub.gateway { db = r.1 } } in
      elim (Bool-cases (is_b64 provider && is_b64 mailbox)) [
        | inr odd ↦ inl (rw (subscribe_message, odd) refl)
        | inl shaped ↦
            elim (Bool-cases
              (includes hub.gateway.banned_mbkeys (text_of provider ++ (58 ∷ text_of mailbox)))) [
                | inl banned ↦ inl (rw (subscribe_message, shaped, banned) refl)
                | inr allowed ↦
                    elim (subscribe_as-owned (text_of provider) (text_of mailbox) ws
                      (get ws hub.clients) r.0 asked) [
                        | inl kept ↦ inl (rw (subscribe_message, shaped, allowed) kept)
                        | inr (u, c, found, known, owned, open_now, after) ↦ inr (
                          u,
                          c,
                          found,
                          known,
                          owned,
                          open_now,
                          allowed,
                          rw (subscribe_message, shaped, allowed) after,
                        )
                      ]
              ]
      ]
