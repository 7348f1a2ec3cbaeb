-- ===== src/Node.antt =====
-- apps/node/node.js: what a mix node does with a packet object that arrives.
pub mod Replays
use noblechat.Prelude.{
  ℕ, List, [], ◌∷◌, Option, none, some, Bool, true, false, JsString, text_eq, Bytes, Result, ok,
  err, ◌≡◌, if◌then◌else◌,
}
use noblechat.Sphinx.Primitives.{Primitives}
use noblechat.Sphinx.Packet.{Packet, Processed, process_packet, final, forward}
use noblechat.Sphinx.Scalar.{SphinxError}
use noblechat.Net.Serialize.{
  Base64, PacketObj, Field, words, bytes, refused, serialize_packet, deserialize_packet,
}
use noblechat.Replay.{Options, Guard, seen}

-- The node itself, and the directory's `urlOf`
pub record Self : Type 0 where
  pub id : Bytes
  pub label : JsString
  pub secret : ℕ
  pub url_of : Bytes → Option JsString

-- What a node posts. The packet to the next hop waits for a random delay first.
pub data Post : Type 0 where
  hop : JsString → Post
  deliver : JsString → JsString → Post
  mix : JsString → PacketObj → Post

module _ (codec : Base64) where
  module _ {Point : Type 0} (prims : Primitives Point) (self : Self) where
    -- The end of `handlePacket`, on what `processPacket` returned
    unfoldable pub pass_on : Processed → List Post
    pass_on (final payload) =
        hop self.label ∷ deliver (codec.to_b64 self.id) (codec.to_b64 payload) ∷ []
    pass_on (forward next_id packet) = elim (self.url_of next_id) [
      | none ↦ hop self.label ∷ []
      | some url ↦ hop self.label ∷ mix url (serialize_packet codec packet) ∷ []
    ]

    abbrev processed : Result SphinxError Processed → List Post
    processed (err e) = []
    processed (ok r) = pass_on r

    abbrev pub handle_parsed : Option Packet → List Post
    handle_parsed none = []
    handle_parsed (some pkt) = processed (process_packet prims self.secret pkt)

    -- A packet object that is no replay
    unfoldable pub handle_fresh : PacketObj → List Post
    handle_fresh o = handle_parsed (deserialize_packet codec o)

    -- The test of the guard, on `pktObj.a`, which has to be a string
    abbrev pub guarded :
        Options → PacketObj → ℕ → Guard JsString → Field → List Post × Guard JsString
    guarded options o now guard (words a) =
        let r = seen options a now guard in (if r.0 then [] else handle_fresh o, r.1)
    guarded options o now guard (bytes b) = ([], guard)
    guarded options o now guard refused = ([], guard)

    -- `handlePacket`, with the guard's state and the time of `seen`
    unfoldable pub handle_packet :
        Options → PacketObj → ℕ → Guard JsString → List Post × Guard JsString
    handle_packet options o now guard = guarded options o now guard o.a

    -- A list of packet objects, each with its time
    unfoldable pub handle_all : Options → List (PacketObj × ℕ) → Guard JsString → Guard JsString
    handle_all options [] guard = guard
    handle_all options ((o, now) ∷ calls) guard =
        handle_all options calls (handle_packet options o now guard).1
