-- ===== src/Tests/Network.antt =====
-- Frames, packets and replays.
use noblechat.Prelude.{
  ℕ, ◌*◌, ◌≤◌, List, [], ◌∷◌, ◌++◌, replicate, length, Bytes, ok, true, false, ◌≡◌, refl, arith,
  ℕ_eq,
}
use noblechat.Wire.{pack, unpack}
use noblechat.Wire.RoundTrip.{unpack-pack}
use noblechat.Wire.Reframe.{frame_size, pack-unpack}
use noblechat.Sphinx.Cipher.{lioness_encrypt, lioness_decrypt}
use noblechat.Sphinx.Cipher.Inverse.{lioness_inverse}
use noblechat.Sphinx.Packet.{Packet, create_packet, pad}
use noblechat.Sphinx.Travel.{path_of}
use noblechat.Sphinx.Delivery.{Travels, create_packet-Travels}
use noblechat.Replay.{Options, Guard, fresh_guard, seen, size, run}
use noblechat.Replay.Window.{seen-replay}
use noblechat.Replay.Sound.{seen_fresh}
use noblechat.Replay.Bound.{size-run-le}
use noblechat.Tests.Toy.{toy, node_a, node_b}

abbrev two_fields : List Bytes
two_fields = (1 ∷ 2 ∷ 3 ∷ []) ∷ (9 ∷ []) ∷ []

abbrev framed : Bytes
framed = 0 ∷ 3 ∷ 1 ∷ 2 ∷ 3 ∷ 0 ∷ 1 ∷ 9 ∷ []

pack_two : pack two_fields ≡ ok framed
unfolding pack
pack_two = refl

unpack_two : unpack (framed ++ 7 ∷ []) 2 ≡ ok two_fields
unfolding unpack
unpack_two = refl

unpack-pack_example : unpack (framed ++ 7 ∷ 7 ∷ []) 2 ≡ ok two_fields
unpack-pack_example = unpack-pack two_fields framed (7 ∷ 7 ∷ []) pack_two

pack-unpack_example :
    (pack two_fields ≡ ok framed) × (frame_size two_fields ≤ 9) × (length two_fields ≡ 2)
pack-unpack_example = pack-unpack (framed ++ 7 ∷ []) 2 two_fields (omega arith) unpack_two

-- A block whose right half is two bytes
abbrev block : Bytes
block = replicate 32 1 ++ (8 ∷ 9 ∷ [])

lioness_inverse_example :
    (lioness_decrypt toy (5 ∷ []) (lioness_encrypt toy (5 ∷ []) block) ≡ block)
    × (lioness_encrypt toy (5 ∷ []) (lioness_decrypt toy (5 ∷ []) block) ≡ block)
    × (length (lioness_encrypt toy (5 ∷ []) block) ≡ 34)
    × (length (lioness_decrypt toy (5 ∷ []) block) ≡ 34)
lioness_inverse_example = lioness_inverse toy (5 ∷ []) block (omega arith)

create_packet-Travels_example :
    (packet : Packet) × (create_packet toy
        (4 ∷ [])
        (path_of toy (node_a ∷ node_b ∷ []))
        (8 ∷ 9 ∷ [])
      ≡ ok packet)
    × Travels toy (node_a ∷ node_b ∷ []) packet (pad toy (8 ∷ 9 ∷ []))
create_packet-Travels_example =
    create_packet-Travels toy (4 ∷ []) (8 ∷ 9 ∷ []) node_a (node_b ∷ [])
      ((refl, λ e. ground arith), ((refl, λ e. ground arith), tt)) (omega arith) (omega arith)

abbrev start_guard : Guard ℕ
start_guard = fresh_guard

abbrev small_guard : Options
small_guard = record { epoch_ms = 100; max_per_epoch = 3 }

seen-replay_example :
    (seen small_guard 8 150
      (run small_guard ((4, 70) ∷ (5, 120) ∷ []) (seen small_guard 8 60 start_guard).1)).0
    ≡ true
unfolding seen
seen-replay_example =
    seen-replay small_guard start_guard 8 60 150 ((4, 70) ∷ (5, 120) ∷ []) refl (omega arith)
      (omega arith) (omega arith)

seen_fresh_example : (seen small_guard 8 150 (run small_guard ((4, 70) ∷ []) start_guard)).0 ≡ false
seen_fresh_example = seen_fresh small_guard 8 ((4, 70) ∷ []) 150 refl

size-run-le_example : size (run small_guard ((4, 70) ∷ (5, 71) ∷ []) start_guard) ≤ 2 * 3
size-run-le_example = size-run-le small_guard (omega arith) ((4, 70) ∷ (5, 71) ∷ [])
