-- ===== src/Tests/Sending.antt =====
-- Messages between clients over the mix network, sockets, and the helpers below them.
use noblechat.Prelude.{
  ℕ, ◌+◌, ◌*◌, ◌/◌, ◌^◌, ◌≤◌, ◌<◌, List, [], ◌∷◌, ◌++◌, none, some, true, false, Bool, JsString,
  Bytes, text, text_eq, ℕ_eq, ◌≡◌, ◌↔◌, ◌⊎◌, refl, arith, ok, err, get, put, includes, map,
}
use noblechat.Sphinx.Packet.{Packet}
use noblechat.Sphinx.Travel.{MixNode}
use noblechat.Envelope.Hybrid.{generate_sign_keypair, sign_public_bundle}
use noblechat.Net.Serialize.{
  Card, Identity, RawPair, deserialize_packet, serialize_packet, deserialize_card, serialize_card,
  deserialize_identity, serialize_identity, deserialize-serialize,
}
use noblechat.Net.Directory.{
  PathError, DirNode, Testnet, lookup, pick_path, OfEach, node_view, testnet_of, pick_path-OfEach,
  pick_rows, index_row, index_rows,
}
use noblechat.Net.Client.{
  Codec, Outgoing, Incoming, generate_identity, build_outgoing, open_incoming,
}
use noblechat.Net.Client.Delivery.{directory, open_incoming-inject}
use noblechat.Router.{
  MemStore, mem_mailbox_store, Mixnet, mailbox_key, subscribe, deliver_to, inject,
}
use noblechat.Router.Delivery.{seen_all, subscribe-flush}
use noblechat.Gateway.Fields.{Value, as_token}
use noblechat.Gateway.State.{session_user}
use noblechat.Gateway.Sockets.{Hub, Connection, subscribe_message, accept, close_client}
use noblechat.Gateway.Sockets.Owned.{entered, subscribe_message-owned}
use noblechat.Gateway.Sockets.Lifetime.{Life, Event, Life-Tracked, Tracked, listens}
use noblechat.Gateway.Body.{read_body, read_body_lem}
use noblechat.Store.Devices.{device_mbkeys}
use noblechat.Helpers.{word_of, index_limit, random_index}
use noblechat.Helpers.Uniform.{random_index-accepted_iff}
use noblechat.Tests.Toy.{toy, node_a, node_b}
use noblechat.Tests.Mix.{codec}
use noblechat.Tests.Envelope.{schemes, drawn}
use noblechat.Tests.Handlers.{started, settings}

abbrev all_ready : ℕ → Bool
all_ready ws = true

-- A directory with one layer of one node, and one provider
abbrev as_entry : MixNode → DirNode
as_entry n = record {
  id = n.id;
  key = record { secret = n.secret; public = n.secret ∷ [] };
  label = text "node";
  url = [];
}

abbrev layers : List (List DirNode)
layers = (as_entry node_a ∷ []) ∷ []

abbrev providers : List DirNode
providers = as_entry node_b ∷ []

abbrev small_net : Testnet
small_net = testnet_of codec.to_b64 layers providers

abbrev quiet : Mixnet MemStore
quiet = record { store = []; subs = []; forwarded = 0; delivered = 0; sent = []; hops = [] }

abbrev json : Codec Bytes
json = record { encode_content = λ b. b; decode_content = λ b. some b; decode-encode = λ b. refl }

abbrev label_of : MixNode → JsString
label_of n = text "node"

open_incoming-inject_example :
    let recipient = generate_identity schemes (text "ann") node_b.id 11 12 15 16 in
    let signer = generate_sign_keypair schemes 13 14 in
    (out : Outgoing) × (env : Bytes) × (opened : Incoming Bytes) × (build_outgoing schemes json toy
        (pick_path codec.to_b64 small_net (λ k n. 0))
        (4 ∷ [])
        drawn
        recipient.card
        (text "hello")
        (some signer)
      ≡ ok out)
    × (inject mem_mailbox_store codec.to_b64 all_ready toy
          (directory codec.to_b64 small_net)
          5
          out.first_node_id
          out.packet
          quiet
        ≡ deliver_to mem_mailbox_store codec.to_b64 all_ready
            (mailbox_key codec.to_b64 node_b.id recipient.mailbox)
            env
            (seen_all mem_mailbox_store codec.to_b64 all_ready toy
              (directory codec.to_b64 small_net)
              label_of
              (node_a ∷ node_b ∷ [])
              quiet))
    × (open_incoming schemes json recipient env ≡ ok opened)
    × (opened.content ≡ text "hello")
    × (opened.verify_with (sign_public_bundle signer) ≡ true)
unfolding lookup pick_path pick_rows testnet_of index_row index_rows get put
open_incoming-inject_example =
    open_incoming-inject schemes json mem_mailbox_store codec.to_b64 all_ready toy label_of layers
      providers (λ k n. 0) (text "ann") node_b.id (4 ∷ []) 11 12 15 16 13 14 drawn (text "hello")
      node_a (node_b ∷ []) quiet (omega arith) refl refl
      ((refl, λ e. ground arith), ((refl, λ e. ground arith), tt)) (omega arith) (refl, (refl, tt))

abbrev box_key : JsString
box_key = mailbox_key codec.to_b64 (1 ∷ []) (2 ∷ [])

abbrev waiting : Mixnet MemStore
waiting = record quiet { store = (box_key, text "m1" ∷ text "m2" ∷ []) ∷ [] }

subscribe-flush_example :
    ((subscribe mem_mailbox_store codec.to_b64 all_ready (1 ∷ []) (2 ∷ []) 7 waiting).sent
      ≡ (7, text "m1") ∷ (7, text "m2") ∷ [])
    × ((subscribe mem_mailbox_store codec.to_b64 all_ready (1 ∷ []) (2 ∷ []) 7 waiting).store
        ≡ (box_key, []) ∷ [])
unfolding get put
subscribe-flush_example =
    subscribe-flush mem_mailbox_store codec.to_b64 all_ready (1 ∷ []) (2 ∷ []) 7 waiting

abbrev packet : Packet
packet = record {
  header = record { alpha = 1 ∷ []; beta = 2 ∷ []; gamma = 3 ∷ [] };
  payload = 4 ∷ [];
}

abbrev card : Card
card = record {
  handle = text "ann";
  provider_id = 1 ∷ [];
  mailbox = 2 ∷ [];
  kem = record { x = 3 ∷ []; kem = 4 ∷ [] };
  sign = record { ed = 5 ∷ []; dsa = 6 ∷ [] };
}

abbrev pair : RawPair
pair = record { public_key = 7 ∷ []; secret_key = 8 ∷ [] }

abbrev identity : Identity
identity = record {
  handle = text "ann";
  provider_id = 1 ∷ [];
  mailbox = 2 ∷ [];
  kem_x = pair;
  kem_kem = pair;
  sign_ed = pair;
  sign_dsa = pair;
  card = card;
}

deserialize-serialize_example :
    (deserialize_packet codec (serialize_packet codec packet) ≡ some packet)
    × (deserialize_card codec (serialize_card codec card) ≡ card)
    × (deserialize_identity codec (serialize_identity codec identity) ≡ identity)
deserialize-serialize_example = deserialize-serialize codec packet card identity

abbrev dir_node : ℕ → DirNode
dir_node n = record {
  id = n ∷ [];
  key = record { secret = n; public = n ∷ [] };
  label = [];
  url = [];
}

abbrev testnet : Testnet
testnet =
    testnet_of codec.to_b64 ((dir_node 1 ∷ dir_node 2 ∷ []) ∷ (dir_node 3 ∷ []) ∷ [])
      (dir_node 4 ∷ [])

first_node : (k n : ℕ) → 0 < n → 0 < n
first_node k n h = h

pick_path-OfEach_example :
    ((lookup codec.to_b64 testnet (4 ∷ []) ≡ none)
      × (pick_path codec.to_b64 testnet (λ k n. 0) (4 ∷ []) ≡ err PathError.unknown_provider))
    ⊎ ((provider : DirNode) × (nodes : List DirNode) × (lookup codec.to_b64 testnet (4 ∷ [])
          ≡ some provider)
        × OfEach codec.to_b64 testnet nodes testnet.layers
        × (pick_path codec.to_b64 testnet (λ k n. 0) (4 ∷ [])
            ≡ ok (map (node_view codec.to_b64 testnet) (nodes ++ provider ∷ []))))
unfolding testnet_of
pick_path-OfEach_example =
    pick_path-OfEach codec.to_b64 testnet (λ k n. 0) (4 ∷ []) first_node
      (omega arith, (omega arith, tt))

random_index-accepted_iff_example :
    (((word_of (0 ∷ 0 ∷ 0 ∷ 7 ∷ []) < index_limit 3)
        × (random_index 3 ((0 ∷ 0 ∷ 0 ∷ 7 ∷ []) ∷ []) ≡ some 1))
      ↔ ((q : ℕ) × (q < (2 ^ 32) / 3) × (word_of (0 ∷ 0 ∷ 0 ∷ 7 ∷ []) ≡ 1 + q * 3)))
    × (index_limit 3 ≤ word_of (0 ∷ 0 ∷ 0 ∷ 7 ∷ [])
        → random_index 3 ((0 ∷ 0 ∷ 0 ∷ 7 ∷ []) ∷ []) ≡ random_index 3 [])
    × ((i : ℕ) → random_index 3 [] ≡ some i → i < 3)
random_index-accepted_iff_example =
    random_index-accepted_iff 3 1 (0 ∷ 0 ∷ 0 ∷ 7 ∷ []) [] (omega arith) (omega arith)

read_body_lem_example : read_body (some 3) ((1 ∷ 2 ∷ []) ∷ (3 ∷ []) ∷ []) 4 ≡ ok (1 ∷ 2 ∷ 3 ∷ [])
read_body_lem_example = read_body_lem (some 3) ((1 ∷ 2 ∷ []) ∷ (3 ∷ []) ∷ []) 4

abbrev hub : Hub MemStore
hub = record {
  gateway = started;
  net = waiting;
  conns = [];
  clients = [];
  submit_buckets = [];
  submitted = 0;
  forwards = [];
  pings = [];
  terminated = [];
}

-- A signed-in account with the mailbox `AA:BB`, on the open socket 7
abbrev owning : Hub MemStore
owning = record hub {
  gateway = record started {
    db = record started.db {
      devices =
          record {
            device_id = text "d1";
            username = text "ann";
            card = text "card";
            mbkey = some (text "AA:BB");
            created_at = 2;
          }
          ∷ [];
      sessions =
          record { token = 35 ∷ text "t"; username = text "ann"; created_at = 2; expires_at = 60 }
          ∷ [];
    };
  };
  clients =
      (7, record { ip = text "1.2.3.4"; is_alive = true; unsub = none; my_mbkey = none }) ∷ [];
}

subscribe_message-owned_example :
    let next =
      subscribe_message mem_mailbox_store codec all_ready settings 10
        (Value.string (text "AA"))
        (Value.string (text "BB"))
        (Value.string (text "t"))
        7
        owning in
    let asked = session_user settings 10 (as_token (Value.string (text "t"))) owning.gateway.db in
    (next.net ≡ waiting)
    ⊎ ((username : JsString) × (c : Connection) × (asked.0 ≡ some username)
        × (get 7 owning.clients ≡ some c)
        × (includes (device_mbkeys username asked.1) (text "AA:BB") ≡ true)
        × (all_ready 7 ≡ true)
        × (includes started.banned_mbkeys (text "AA:BB") ≡ false)
        × (next.net
            ≡ entered mem_mailbox_store codec all_ready (text "AA") (text "BB") 7 c waiting))
subscribe_message-owned_example =
    subscribe_message-owned mem_mailbox_store codec all_ready settings 10 (Value.string (text "AA"))
      (Value.string (text "BB")) (Value.string (text "t")) 7 owning

abbrev joined : Hub MemStore
joined = accept 3 (text "1.2.3.4") 7 hub

Life-Tracked_example :
    Tracked mem_mailbox_store codec all_ready joined
    × ((ws : ℕ) (c : Connection) (k : JsString)
        → get ws joined.clients ≡ some c
        → listens mem_mailbox_store codec all_ready ws k
            (close_client mem_mailbox_store codec all_ready ws joined).net
          ≡ false)
unfolding get
Life-Tracked_example =
    Life-Tracked mem_mailbox_store codec all_ready (λ ws k. refl)
      (Life.happens Life.starts (Event.opens 3 (text "1.2.3.4") 7 hub refl))
