-- ===== src/Examples/Streams.antt =====
-- Streamed and abandoned messages over a concrete connection, and receivers of concrete streams.
use snowpack.Prelude.{
  ℕ, ◌∷◌, [], Bytes, true, false, ok, err, some, ◌≡◌, refl, ap, ◌<◌, ◌≤◌, ◌++◌, ◌+◌, length,
  replicate, length-replicate, arith,
}
use snowpack.PacketState.Header.{
  PacketKind, max_packet_size, from_u8, from_be_bytes, header_kind, header_type,
}
use snowpack.PacketState.Builder
use snowpack.PacketState.Builder.{message_already_in_progress}
use snowpack.PacketState.Reader
use snowpack.PacketState.Protocol.{packet}
use snowpack.Packets.Error.{packet_builder}
use snowpack.Packets.Exec.{◌>>◌}
use snowpack.Packets.Frame.{Writer, read_frame, read_body}
use snowpack.Packets.Tx.{PacketTx, prepare_message, send_slice, chunks, chunks_loop}
use snowpack.Packets.Rx.{read_packet, decrypt, decode}
use snowpack.Packets.Chunks.{payloads}
use snowpack.Packets.Rounds.{closes, payloads_short}
use snowpack.Packets.Sending.{Sent, message_packets, frames}
use snowpack.Packets.Receiving.{open_at}
use snowpack.Messages.{
  MessageRx, Message, panicked, send_message, send_reader, abort_message, opened, read_message,
  read_bytes,
}
use snowpack.Messages.Delivery.{At, Delivers}
use snowpack.Messages.Conversation.{Connected}
use snowpack.Messages.Streaming.{Delivers-send_reader, send_reader_unfinished}
use snowpack.Messages.Abort.{SeesAbort, SeesAbort-abort_message}
use snowpack.Messages.Safety.{Safe, read_bytes-Safe}
use snowpack.Messages.Unconsumed.{read_bytes-panicked}
use snowpack.Examples.Link.{plain_net, plain_net-IsHealthy}

abbrev pub writer : Writer plain_net
writer = record { cipher = 10; write = []; write_buf = [] }

abbrev pub sender : PacketTx plain_net
sender = record { builder = Builder.new; writer = writer }

abbrev pub source : Bytes
source = 1 ∷ 2 ∷ 3 ∷ []

source-room : length (payloads (plain_net-IsHealthy.content source)) ≤ plain_net-IsHealthy.left 10
unfolding payloads chunks chunks_loop plain_net-IsHealthy
source-room = omega arith

source_packets : length (payloads (plain_net-IsHealthy.content source)) ≤ 1
unfolding payloads chunks chunks_loop plain_net-IsHealthy
source_packets = omega arith

source-closes : closes (plain_net-IsHealthy.content source) ≡ true
unfolding closes plain_net-IsHealthy
source-closes = refl

source-rounds : length (plain_net-IsHealthy.content source) < 4
unfolding plain_net-IsHealthy
source-rounds = omega arith

Delivers-send_reader_example :
    (tx' : PacketTx plain_net) × (wire : Bytes) × (send_reader plain_net 4 5 source sender
      ≡ some (ok tt, tx'))
    × (plain_net-IsHealthy.written tx'.writer.write ≡ plain_net-IsHealthy.written [] ++ wire)
    × ((rx : MessageRx plain_net) (rest : Bytes)
        → Connected plain_net plain_net-IsHealthy sender (wire ++ rest) rx
        → (rx' : MessageRx plain_net) × Delivers plain_net plain_net-IsHealthy 1 5
            (plain_net-IsHealthy.content source)
            rx
            rx'
          × Connected plain_net plain_net-IsHealthy tx' rest rx')
Delivers-send_reader_example =
    Delivers-send_reader plain_net plain_net-IsHealthy 4 1 5 source sender (omega arith) refl
      source-room source-rounds source_packets source-closes

-- Data that fill one packet.
unfoldable full : Bytes
full = replicate max_packet_size 7

length-full : length (plain_net-IsHealthy.content full) ≡ max_packet_size
unfolding full plain_net-IsHealthy
length-full = length-replicate {A = ℕ} max_packet_size 7

full-room : length (payloads (plain_net-IsHealthy.content full)) ≤ plain_net-IsHealthy.left 10
unfolding plain_net-IsHealthy
full-room = omega (
  arith,
  length-full,
  ap length (payloads_short full (omega (arith, length-full)) (omega (arith, length-full))),
)

send_reader_unfinished_example :
    (tx' : PacketTx plain_net) × (send_reader plain_net 65518 5 full sender ≡ some (ok tt, tx'))
    × Sent plain_net plain_net-IsHealthy
        (message_packets true false 5 (payloads (plain_net-IsHealthy.content full)))
        writer
        tx'.writer
    × (send_message plain_net 6 source tx'
        ≡ (err (packet_builder message_already_in_progress), tx'))
send_reader_unfinished_example =
    send_reader_unfinished plain_net plain_net-IsHealthy 65518 5 6 source full sender (omega arith)
      (omega arith) refl full-room (omega (arith, length-full)) (omega (arith, length-full))
      (omega (arith, length-full))

part_room : length (payloads source) + 1 ≤ plain_net-IsHealthy.left 10
unfolding payloads chunks chunks_loop plain_net-IsHealthy
part_room = omega arith

part_packets : length (payloads source) ≤ 1
unfolding payloads chunks chunks_loop
part_packets = omega arith

SeesAbort-abort_message_example :
    (tx' : PacketTx plain_net) × (wire : Bytes) × ((do
      prepare_message plain_net 5
      send_slice plain_net source false
      abort_message plain_net)
        sender
      ≡ (ok tt, tx'))
    × (plain_net-IsHealthy.written tx'.writer.write ≡ plain_net-IsHealthy.written [] ++ wire)
    × ((rx : MessageRx plain_net) (rest : Bytes)
        → Connected plain_net plain_net-IsHealthy sender (wire ++ rest) rx
        → (rx' : MessageRx plain_net) × SeesAbort plain_net plain_net-IsHealthy 1 rx rx'
          × Connected plain_net plain_net-IsHealthy tx' rest rx')
SeesAbort-abort_message_example =
    SeesAbort-abort_message plain_net plain_net-IsHealthy 1 sender 5 source (omega arith) refl
      part_room part_packets

-- The last packet of a message and a message of one packet.
abbrev stream : Bytes
stream =
    frames plain_net plain_net-IsHealthy 10
      (packet PacketKind.last 5 source ∷ packet PacketKind.sole 6 [] ∷ [])

abbrev dropped : MessageRx plain_net
dropped = record {
  packets = record {
    cipher = 10;
    packet_reader = open_at 5;
    input = stream ++ [];
    ciphertext_buf = [];
    plaintext_buf = [];
    payload_end = 0;
  };
  read_buf = [];
}

dropped-At : At plain_net plain_net-IsHealthy 10 (stream ++ []) (open_at 5) dropped
unfolding plain_net-IsHealthy
dropped-At = record { facing = record { paired = refl; stream_is = refl }; reader = refl }

two_left : 2 ≤ plain_net-IsHealthy.left 10
unfolding plain_net-IsHealthy
two_left = omega arith

read_bytes-panicked_example :
    (m : Message plain_net) × (rx' : MessageRx plain_net) × (read_message plain_net dropped
      ≡ (ok m, rx'))
    × (read_bytes plain_net 1 m rx' ≡ panicked)
read_bytes-panicked_example =
    read_bytes-panicked plain_net plain_net-IsHealthy 0 10 5 6 source [] [] dropped (omega arith)
      (omega arith) two_left (omega arith) (omega arith) dropped-At

-- A receiver with one frame to read: a message of type 6 with no body.
abbrev pub tag : Bytes
tag = replicate 16 10

abbrev pub waiting : MessageRx plain_net
waiting = record {
  packets = record {
    cipher = 10;
    packet_reader = Reader.new;
    input = 0 ∷ 18 ∷ 0 ∷ 6 ∷ tag;
    ciphertext_buf = [];
    plaintext_buf = [];
    payload_end = 0;
  };
  read_buf = [];
}

abbrev pub has_read : MessageRx plain_net
has_read = record {
  packets = record {
    cipher = 9;
    packet_reader = Reader.new;
    input = [];
    ciphertext_buf = 0 ∷ 6 ∷ tag;
    plaintext_buf = 0 ∷ 6 ∷ replicate 16 0;
    payload_end = 2;
  };
  read_buf = [];
}

abbrev pub handle : Message plain_net
handle = record { first_header = record { kind = PacketKind.sole; msg_type = 6 } }

pub read_message-waiting : read_message plain_net waiting ≡ (ok handle, has_read)
unfolding read_message opened read_packet decrypt decode read_frame read_body Reader.read
    Reader.read_kind Reader.read_start Reader.is_first_kind from_u8 from_be_bytes header_kind
    header_type
read_message-waiting = refl

read_bytes-Safe_example : Safe plain_net (read_bytes plain_net 3 handle has_read)
read_bytes-Safe_example =
    read_bytes-Safe plain_net 3 waiting has_read handle refl read_message-waiting
