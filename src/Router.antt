-- ===== src/Router.antt =====
-- packages/net/src/router.js: mailboxes with live subscribers over a durable queue, and the in-process mix
-- network.
pub mod Delivery
pub mod Listeners
use noblechat.Prelude.{
  ℕ, zero, suc, ◌+◌, ◌==◌, if◌then◌else◌, List, [], ◌∷◌, ◌++◌, Option, none, some, Bool, true,
  false, not, any, keep, map, add, includes, ℕ_eq, JsString, text_eq, Bytes, get, put, Result, ok,
  err, ◌===◌,
}
use noblechat.Sphinx.Primitives.{Primitives}
use noblechat.Sphinx.Scalar.{SphinxError}
use noblechat.Sphinx.Packet.{Packet, Processed, process_packet, final, forward}
use noblechat.Envelope.Hybrid.{EnvelopeError}
use noblechat.Envelope.Seal.{unpack_inner}

-- The interface of a mailbox store: `push(key, env)` and `drain(key)`
pub record MailboxStore (S : Type 0) : Type 0 where
  pub push : JsString → Bytes → S → S
  pub drain : JsString → S → List Bytes × S

-- `memMailboxStore`
abbrev pub MemStore : Type 0
MemStore = List (JsString × List Bytes)

abbrev pub queued : Option (List Bytes) → List Bytes
queued none = []
queued (some envs) = envs

abbrev pub drained : JsString → MemStore → Option (List Bytes) → List Bytes × MemStore
drained k m none = ([], m)
drained k m (some []) = ([], m)
drained k m (some (env ∷ envs)) = (env ∷ envs, put k [] m)

abbrev pub mem_mailbox_store : MailboxStore MemStore
mem_mailbox_store = record {
  push = λ k env m. put k (queued (get k m) ++ env ∷ []) m;
  drain = λ k m. drained k m (get k m);
}

-- An entry of the directory, as far as the router reads it
pub record NodeEntry : Type 0 where
  pub id : Bytes
  pub secret : ℕ
  pub label : JsString

-- The state of a `Mixnet`. A callback is the number of its socket; `sent` lists what callbacks took.
pub record Mixnet (S : Type 0) : Type 0 where
  pub store : S
  pub subs : List (JsString × List ℕ)
  pub forwarded : ℕ
  pub delivered : ℕ
  pub sent : List (ℕ × Bytes)
  pub hops : List JsString

-- `_key`
abbrev pub mailbox_key : (Bytes → JsString) → Bytes → Bytes → JsString
mailbox_key to_b64 provider_id mailbox = to_b64 provider_id ++ (58 ∷ to_b64 mailbox)

module _ {S : Type 0} (store : MailboxStore S) (to_b64 : Bytes → JsString) (ready : ℕ → Bool) where
  abbrev pub callbacks : JsString → Mixnet S → List ℕ
  callbacks k net = elim (get k net.subs) [ none ↦ [] | some cbs ↦ cbs ]

  -- The callbacks of a set, each on one envelope: those that are ready take it.
  abbrev pub take_live : List ℕ → Bytes → Mixnet S → Mixnet S
  take_live cbs env net = record net { sent = net.sent ++ map (λ cb. (cb, env)) (keep ready cbs) }

  -- One callback, on the envelopes that were queued
  unfoldable pub flush : ℕ → List Bytes → Mixnet S → Mixnet S
  flush cb [] net = net
  flush cb (env ∷ envs) net = flush cb envs (take_live (cb ∷ []) env net)

  -- `subscribe`
  unfoldable pub subscribe : Bytes → Bytes → ℕ → Mixnet S → Mixnet S
  subscribe provider_id mailbox cb net =
      let k = mailbox_key to_b64 provider_id mailbox in
      let out = store.drain k net.store in
      flush cb out.0 record net { subs = put k (add cb (callbacks k net)) net.subs; store = out.1 }

  -- The function that `subscribe` returns
  unfoldable pub unsubscribe : JsString → ℕ → Mixnet S → Mixnet S
  unsubscribe k cb net = record net {
    subs = put k (keep (λ c. not (c == cb)) (callbacks k net)) net.subs;
  }

  -- `_deliver`, behind the parse
  unfoldable pub deliver_to : JsString → Bytes → Mixnet S → Mixnet S
  deliver_to k env net =
      let cbs = callbacks k net in
      let counted = take_live cbs env record net { delivered = net.delivered + 1 } in
      if any ready cbs then counted else record counted { store = store.push k env net.store }

  abbrev pub parsed : Bytes → Mixnet S → Result EnvelopeError (Bytes × Bytes) → Mixnet S
  parsed provider_id net (err e) = net
  parsed provider_id net (ok (mailbox, env)) =
      deliver_to (mailbox_key to_b64 provider_id mailbox) env net

  -- `_deliver`
  unfoldable pub deliver : Bytes → Bytes → Mixnet S → Mixnet S
  deliver provider_id payload net = parsed provider_id net (unpack_inner payload)

  module _ {Point : Type 0} (p : Primitives Point) (lookup : Bytes → Option NodeEntry) where
    abbrev pub seen_by : NodeEntry → Mixnet S → Mixnet S
    seen_by node net = record net {
      hops = net.hops ++ node.label ∷ [];
      forwarded = net.forwarded + 1;
    }

    -- The hops of a packet, one after the other, up to a number of hops; the waits are left out.
    unfoldable pub inject : ℕ → Bytes → Packet → Mixnet S → Mixnet S
    inject zero node_id packet net = net
    inject (suc hops) node_id packet net = elim (lookup node_id) [
      | none ↦ net
      | some node ↦ elim (process_packet p node.secret packet) [
        | err e ↦ net
        | ok (final payload) ↦ deliver node.id payload (seen_by node net)
        | ok (forward next_id next) ↦ inject hops next_id next (seen_by node net)
      ]
    ]
