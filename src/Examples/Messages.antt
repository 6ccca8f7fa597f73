-- ===== src/Examples/Messages.antt =====
-- Concrete messages over a concrete connection.
use snowpack.Prelude.{◌∷◌, [], Bytes, List, true, ok, ◌≡◌, refl, ◌++◌, ◌≤◌, arith}
use snowpack.PacketState.Builder
use snowpack.PacketState.Builder.{
  PacketBuilder, message_type_too_large, message_already_in_progress,
}
use snowpack.Packets.Frame.{Writer}
use snowpack.Packets.Tx.{PacketTx, chunks, chunks_loop}
use snowpack.Packets.Chunks.{payloads}
use snowpack.Messages.{MessageRx}
use snowpack.Messages.Conversation.{
  Letter, AllReadable, total_packets, send_all, Connected, ReadsAll, ReadsAll-send_all,
}
use snowpack.Examples.Link.{plain_net, plain_net-IsHealthy}

abbrev writer : Writer plain_net
writer = record { cipher = 10; write = []; write_buf = [] }

abbrev sender : PacketTx plain_net
sender = record { builder = Builder.new; writer = writer }

-- A sender inside a message.
abbrev busy : PacketTx plain_net
busy = record {
  builder = record { in_progress = true; is_first = true; msg_type = 5; buf = [] };
  writer = writer;
}

abbrev pub body : Bytes
body = 1 ∷ 2 ∷ 3 ∷ []

abbrev pub letters : List Letter
letters = (5, body) ∷ (6, []) ∷ []

pub letters-AllReadable : AllReadable 2 letters
unfolding payloads chunks chunks_loop
letters-AllReadable = (omega arith, omega arith, (omega arith, omega arith, tt))

enough : total_packets letters ≤ plain_net-IsHealthy.left sender.writer.cipher
unfolding payloads chunks chunks_loop plain_net-IsHealthy
enough = omega arith

ReadsAll-send_all_example :
    (tx' : PacketTx plain_net) × (wire : Bytes) × (send_all plain_net letters sender ≡ (ok tt, tx'))
    × (plain_net-IsHealthy.written tx'.writer.write
        ≡ plain_net-IsHealthy.written sender.writer.write ++ wire)
    × ((rx : MessageRx plain_net) (rest : Bytes)
        → Connected plain_net plain_net-IsHealthy sender (wire ++ rest) rx
        → (rx' : MessageRx plain_net) × ReadsAll plain_net plain_net-IsHealthy 2 letters rx rx'
          × Connected plain_net plain_net-IsHealthy tx' rest rx')
ReadsAll-send_all_example =
    ReadsAll-send_all plain_net plain_net-IsHealthy 2 letters sender letters-AllReadable enough refl
