-- ===== src/Router/Delivery.antt =====
-- An envelope that is delivered is taken live or queued, and what a sender injects reaches its mailbox.
use noblechat.Prelude.{
  ℕ, zero, suc, ◌-◌, ◌≤◌, ltb, if◌then◌else◌, List, [], ◌∷◌, ◌++◌, Option, some, Bool, true, false,
  map, length, zeros, JsString, text_eq, Bytes, put, Result, ok, ◌≡◌, ◌∙◌, arith, refl, ap, sym,
  subst, append-nil, append_assoc, branch, All, add, ℕ_eq,
}
use noblechat.Sphinx.Primitives.{Primitives}
use noblechat.Sphinx.Packet.{Packet, create_packet, pad, payload_len}
use noblechat.Sphinx.Travel.{MixNode, path_of}
use noblechat.Sphinx.Delivery.{Travels, IsPath, create_packet-Travels}
use noblechat.Wire.RoundTrip.{unpack-pack}
use noblechat.Envelope.Hybrid.{EnvelopeError}
use noblechat.Envelope.Seal.{pack_inner, unpack_inner}
use noblechat.Router.{
  MailboxStore, Mixnet, NodeEntry, mailbox_key, callbacks, take_live, flush, subscribe, deliver_to,
  deliver, parsed, inject, seen_by,
}

module _ (mailbox env inner : Bytes) (packed : pack_inner mailbox env ≡ ok inner) where
  unpack_inner-padded : (rest : Bytes) → unpack_inner (inner ++ rest) ≡ ok (mailbox, env)
  unfolding unpack_inner pack_inner
  unpack_inner-padded rest =
      rw (unpack_inner, unpack-pack (mailbox ∷ env ∷ []) inner rest packed) refl

  unpack_inner-pad :
      {Point : Type 0} (p : Primitives Point) → unpack_inner (pad p inner) ≡ ok (mailbox, env)
  unfolding pad
  unpack_inner-pad p =
      branch (λ (b : Bytes). unpack_inner b ≡ ok (mailbox, env)) (ltb (length inner) payload_len)
        (unpack_inner-padded (zeros (payload_len - length inner)))
        (subst (λ (b : Bytes). unpack_inner b ≡ ok (mailbox, env)) (append-nil inner)
          (unpack_inner-padded []))

module _ {S : Type 0} (store : MailboxStore S) (to_b64 : Bytes → JsString) (ready : ℕ → Bool) where
  flush-sent :
      (cb : ℕ) (envs : List Bytes) (net : Mixnet S)
      → ((flush store to_b64 ready cb envs net).sent
          ≡ net.sent ++ (if ready cb then map (λ env. (cb, env)) envs else []))
        × ((flush store to_b64 ready cb envs net).store ≡ net.store)
  unfolding flush
  flush-sent cb [] net = (
    branch (λ (xs : List (ℕ × Bytes)). net.sent ≡ net.sent ++ xs) (ready cb)
        (sym (append-nil net.sent)) (sym (append-nil net.sent)),
    refl,
  )
  flush-sent cb (env ∷ envs) net =
      let next = take_live store to_b64 ready (cb ∷ []) env net in
      let (rest, same) = flush-sent cb envs next in (rest ∙ one_more (ready cb), same)
    where
      one_more :
          (b : Bool)
          → (net.sent ++ map (λ c. (c, env)) (if b then cb ∷ [] else []))
              ++ (if b then map (λ e. (cb, e)) envs else [])
            ≡ net.sent ++ (if b then (cb, env) ∷ map (λ e. (cb, e)) envs else [])
      one_more true = append_assoc net.sent ((cb, env) ∷ []) (map (λ e. (cb, e)) envs)
      one_more false = append-nil (net.sent ++ [])

  -- What a new subscription does with the queue of its mailbox: it empties the queue as far as the store
  -- drains it, and hands what comes out, in its order, to the subscriber if its socket is ready at that
  -- moment. If it is not, nothing is sent, and nothing goes back to the queue.
  pub subscribe-flush :
      (provider_id mailbox : Bytes) (cb : ℕ) (net : Mixnet S)
      → let out = store.drain (mailbox_key to_b64 provider_id mailbox) net.store in
        ((subscribe store to_b64 ready provider_id mailbox cb net).sent
          ≡ net.sent ++ (if ready cb then map (λ env. (cb, env)) out.0 else []))
        × ((subscribe store to_b64 ready provider_id mailbox cb net).store ≡ out.1)
  unfolding subscribe
  subscribe-flush provider_id mailbox cb net =
      let k = mailbox_key to_b64 provider_id mailbox in
      let out = store.drain k net.store in
      flush-sent cb out.0 record net {
        subs = put k (add cb (callbacks store to_b64 ready k net)) net.subs;
        store = out.1;
      }

  module _ {Point : Type 0} (p : Primitives Point) (lookup : Bytes → Option NodeEntry)
      (label : MixNode → JsString) where
    abbrev pub entry_of : MixNode → NodeEntry
    entry_of n = record { id = n.id; secret = n.secret; label = label n }

    -- The nodes of a path are in the directory.
    abbrev pub Known : List MixNode → Type 0
    Known nodes = All (λ n. lookup n.id ≡ some (entry_of n)) nodes

    -- The counters after every node of a path has seen the packet, and the last node
    abbrev pub seen_all : List MixNode → Mixnet S → Mixnet S
    seen_all [] net = net
    seen_all (n ∷ nodes) net = seen_all nodes (seen_by store to_b64 ready p lookup (entry_of n) net)

    abbrev pub exit_of : MixNode → List MixNode → MixNode
    exit_of n [] = n
    exit_of n (n' ∷ nodes) = exit_of n' nodes

    inject-Travels :
        (hops : ℕ) (n : MixNode) (nodes : List MixNode) (packet : Packet) (out : Bytes)
        (net : Mixnet S)
        → length (n ∷ nodes) ≤ hops
        → Known (n ∷ nodes)
        → Travels p (n ∷ nodes) packet out
        → inject store to_b64 ready p lookup hops n.id packet net
          ≡ deliver store to_b64 ready (exit_of n nodes).id out (seen_all (n ∷ nodes) net)
    unfolding inject
    inject-Travels zero n nodes packet out net few known travels = absurd (omega (arith, few))
    inject-Travels (suc hops) n [] packet out net few (found, known) (size, processed) =
        rw (inject, found, processed) refl
    inject-Travels (suc hops) n (n' ∷ nodes) packet out net few (found, known)
          (next, size, processed, travels) =
        rw (inject, found, processed)
          (inject-Travels hops n' nodes next out
            (seen_by store to_b64 ready p lookup (entry_of n) net) (omega (arith, few)) known
            travels)

    -- An envelope for a mailbox that fits into a packet, sent over one to five known nodes with well-formed
    -- ids: the packet is made, and injecting it at the first node delivers the envelope to that mailbox
    -- at the last node, after each node of the path has counted one packet.
    pub inject-create_packet :
        (random mailbox env inner : Bytes) (n : MixNode) (nodes : List MixNode) (net : Mixnet S)
        → pack_inner mailbox env ≡ ok inner
        → length inner ≤ payload_len
        → IsPath p (n ∷ nodes)
        → length (n ∷ nodes) ≤ 5
        → Known (n ∷ nodes)
        → (packet : Packet) × (create_packet p random (path_of p (n ∷ nodes)) inner ≡ ok packet)
          × (inject store to_b64 ready p lookup 5 n.id packet net
              ≡ deliver_to store to_b64 ready
                  (mailbox_key to_b64 (exit_of n nodes).id mailbox)
                  env
                  (seen_all (n ∷ nodes) net))
    unfolding deliver
    inject-create_packet random mailbox env inner n nodes net packed fits path few known =
        let (packet, made, travels) = create_packet-Travels p random inner n nodes path few fits in
        let arrives = inject-Travels 5 n nodes packet (pad p inner) net few known travels in
        (
          packet,
          made,
          arrives
              ∙ ap
                  (λ (r : Result EnvelopeError (Bytes × Bytes)).
                    parsed store to_b64 ready (exit_of n nodes).id (seen_all (n ∷ nodes) net) r)
                  (unpack_inner-pad mailbox env inner packed p),
        )
