-- ===== src/Examples/PacketState.antt =====
-- Concrete builders and readers of packet_state.rs.
use snowpack.Prelude.{List, ◌∷◌, [], Bytes, IsBytes, true, false, some, ok, ◌≡◌, refl, drop, arith}
use snowpack.PacketState.Header.{to_be_bytes, pack_header}
use snowpack.PacketState.Builder.{PacketBuilder, prepare, pack, packet_kind, abort}
use snowpack.PacketState.Builder
use snowpack.PacketState.Reader.{PacketReader, read}
use snowpack.PacketState.Reader
use snowpack.PacketState.Wire.{Told, read-Told}
use snowpack.PacketState.Sync.{Synced, Synced-new, next_header, pack-Synced}
use snowpack.PacketState.Feed.{
  Operation, prepares, packs, aborts, converse, all_expected, converse-Synced,
}

abbrev body : Bytes
body = 1 ∷ 2 ∷ 3 ∷ []

abbrev mid_message : PacketReader
mid_message = record { in_progress = true; msg_type = 7 }

-- A message of type 7 whose first packet is still to come, and one whose first packet has gone out.
abbrev prepared : PacketBuilder
prepared = record { in_progress = true; is_first = true; msg_type = 7; buf = [] }

abbrev opened : PacketBuilder
opened = record { in_progress = true; is_first = false; msg_type = 7; buf = [] }

opened-Synced : Synced opened mid_message
opened-Synced = record { opened = refl; same_type = λ e. refl; small = omega arith }

abbrev mid_packet : Bytes
mid_packet = 32 ∷ 7 ∷ body

abbrev abort_packet : Bytes
abort_packet = 64 ∷ 7 ∷ []

pack_mid : (pack opened body false).0 ≡ ok mid_packet
unfolding pack to_be_bytes pack_header packet_kind
pack_mid = refl

abort-opened : (abort opened).0 ≡ some abort_packet
unfolding abort to_be_bytes pack_header
abort-opened = refl

abort-prepared : (abort prepared).0 ≡ some abort_packet
unfolding abort to_be_bytes pack_header
abort-prepared = refl

body-IsBytes : IsBytes (48 ∷ 7 ∷ body)
body-IsBytes = (omega arith, (omega arith, (omega arith, (omega arith, (omega arith, tt)))))

-- A last packet inside a message of its type.
read-Told_example : Told mid_message (48 ∷ 7 ∷ body)
read-Told_example = read-Told mid_message (48 ∷ 7 ∷ body) body-IsBytes

-- A refused call, a message of two packets, one that is aborted, and one that is aborted early.
abbrev operations : List Operation
operations =
    packs body true
    ∷ prepares 7
    ∷ packs body false
    ∷ packs [] true
    ∷ prepares 9
    ∷ packs body false
    ∷ aborts
    ∷ prepares 5
    ∷ aborts
    ∷ []

converse-Synced_example :
    let (said, b, r) = converse operations Builder.new Reader.new in
    (said ≡ all_expected operations Builder.new) × Synced b r
converse-Synced_example = converse-Synced operations Builder.new Reader.new Synced-new

pack-Synced_example :
    ((read mid_message mid_packet).0 ≡ ok (next_header opened false))
    × (drop 2 mid_packet ≡ body)
    × Synced (pack opened body false).1 (read mid_message mid_packet).1
pack-Synced_example = pack-Synced opened mid_message body false mid_packet opened-Synced pack_mid
