-- ===== src/Tests/Mix.antt =====
-- A mix node over the toy primitives, and a codec that reads more texts than it writes.
use noblechat.Prelude.{[], ◌∷◌, none, JsString, Bytes, text, text_eq, ◌≡◌, arith, refl}
use noblechat.Replay.{Options, Guard, fresh_guard, seen}
use noblechat.Net.Serialize.{Base64, PacketObj, words}
use noblechat.Node.{Self, handle_packet, handle_fresh, handle_all}
use noblechat.Node.Replays.{tags, handle_packet-replay, handle_packet-reencoded}
use noblechat.Tests.Toy.{toy}

abbrev pub behind_first : JsString → Bytes
behind_first [] = []
behind_first (u ∷ s) = s

abbrev pub codec : Base64
codec = record { to_b64 = λ b. 0 ∷ b; from_b64 = behind_first; from_b64-to_b64 = λ b. refl }

abbrev self : Self
self = record { id = 1 ∷ []; label = text "mix-L0-0"; secret = 3; url_of = λ id. none }

abbrev options : Options
options = record { epoch_ms = 100; max_per_epoch = 3 }

abbrev start : Guard JsString
start = fresh_guard

abbrev packet_obj : PacketObj
packet_obj = record {
  a = words (0 ∷ 2 ∷ []);
  b = words (0 ∷ []);
  g = words (0 ∷ []);
  p = words (0 ∷ []);
}

abbrev other_obj : PacketObj
other_obj = record packet_obj { a = words (0 ∷ 4 ∷ []) }

handle_packet-replay_example :
    (handle_packet codec toy self options packet_obj 90 (
      handle_all codec toy self options
        ((other_obj, 50) ∷ [])
        (handle_packet codec toy self options packet_obj 10 start).1)).0
    ≡ []
unfolding seen tags
handle_packet-replay_example =
    handle_packet-replay codec toy self options packet_obj packet_obj (0 ∷ 2 ∷ []) 10 90
      ((other_obj, 50) ∷ []) start refl refl refl ((omega arith, omega arith), tt)
      (omega arith, omega arith) (omega arith)

handle_packet-reencoded_example :
    let first =
      handle_packet codec toy self options packet_obj 10
        (handle_all codec toy self options ((other_obj, 5) ∷ []) start) in
    let again =
      handle_packet codec toy self options
        record packet_obj { a = words (1 ∷ 2 ∷ []) }
        30
        (handle_all codec toy self options ((other_obj, 20) ∷ []) first.1) in
    (first.0 ≡ handle_fresh codec toy self packet_obj)
    × (again.0 ≡ handle_fresh codec toy self packet_obj)
unfolding tags
handle_packet-reencoded_example =
    handle_packet-reencoded codec toy self options packet_obj (0 ∷ 2 ∷ []) (1 ∷ 2 ∷ []) 10 30
      ((other_obj, 5) ∷ []) ((other_obj, 20) ∷ []) refl refl refl refl
