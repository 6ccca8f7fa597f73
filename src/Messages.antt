-- ===== src/Messages.antt =====
-- messages.rs: messages over the packet halves of packets.rs. `MessageTx` is its packet half, and
-- `MessageRx` has the buffer of `read_bytes` beside its own.
pub mod Sending
pub mod Delivery
pub mod Conversation
pub mod Safety
pub mod Unconsumed
pub mod Streaming
pub mod Abandoning
pub mod Aborted
pub mod Abort
pub mod Packetwise
pub mod Ends
pub mod Checked
use snowpack.Prelude.{
  ℕ, zero, suc, ◌++◌, [], Bytes, Bool, true, false, Option, none, some, Result, ok, err,
}
use snowpack.External.Net.{Net}
use snowpack.PacketState.Header.{PacketKind, PacketHeader}
use snowpack.Packets.Exec.{◌>>=◌, ◌>>◌}
use snowpack.Packets.Error.{Error, message_aborted}
use snowpack.Packets.Tx
use snowpack.Packets.Tx.{PacketTx, Send, Out, prepare_message, send_slice}
use snowpack.Packets.Rx
use snowpack.Packets.Rx.{PacketRx, read_packet, payload}

module _ (x : Net) where
  unfoldable pub send_message : ℕ → Bytes → Send x
  send_message msg_type slice = do prepare_message x msg_type; send_slice x slice true

  unfoldable pub then_reader : ℕ → x.Source → Result (Unit {0}) (Error x) × PacketTx x → Out x
  then_reader fuel reader (err e, tx) = some (err e, tx)
  then_reader fuel reader (ok done, tx) = Tx.send_reader x fuel reader tx

  -- `none` means that the rounds of the packet half's loop ran out.
  unfoldable pub send_reader : ℕ → ℕ → x.Source → PacketTx x → Out x
  unfolding then_reader
  send_reader fuel msg_type reader tx = then_reader fuel reader (prepare_message x msg_type tx)

  unfoldable pub abort_message : Send x
  abort_message = Tx.abort_message x

  pub record MessageRx : Type 0 where
    pub packets : PacketRx x
    pub read_buf : Bytes

  -- A message handle: the header of its first packet. It borrows the receiver, which each of its
  -- methods takes.
  pub record Message : Type 0 where
    pub first_header : PacketHeader

  abbrev pub msg_type : Message → ℕ
  msg_type m = m.first_header.msg_type

  unfoldable pub opened : Result PacketHeader (Error x) → Result Message (Error x)
  opened (ok h) = ok (record { first_header = h })
  opened (err e) = err e

  unfoldable pub read_message : MessageRx → Result Message (Error x) × MessageRx
  unfolding opened
  read_message rx =
      let (r, packets') = read_packet x rx.packets in (opened r, record rx { packets = packets' })

  -- How a call ends: with a result and the receiver, by `unreachable!`, or, with the rounds used up,
  -- not within them.
  pub data Outcome (A S : Type 0) : Type 0 where
    returned : Result A (Error x) → S → Outcome A S
    panicked : Outcome A S
    unfinished : Outcome A S

  abbrev pub Received : Type 0
  Received = Outcome Bytes MessageRx

  -- `self.rx.read_buf.extend_from_slice(self.rx.packets.payload())`
  abbrev pub extended : MessageRx → MessageRx
  extended rx = record rx { read_buf = rx.read_buf ++ payload x rx.packets }

  unfoldable pub by_kind : (MessageRx → Received) → PacketKind → MessageRx → Received
  by_kind again PacketKind.abort rx = returned (err message_aborted) rx
  by_kind again PacketKind.last rx = returned (ok (extended rx).read_buf) (extended rx)
  by_kind again PacketKind.mid rx = again (extended rx)
  by_kind again PacketKind.sole rx = panicked
  by_kind again PacketKind.first rx = panicked

  unfoldable pub on_packet :
      (MessageRx → Received) → Result PacketHeader (Error x) → MessageRx → Received
  on_packet again (err e) rx = returned (err e) rx
  on_packet again (ok header) rx = by_kind again header.kind rx

  -- The loop of `read_bytes`: a round for each packet.
  unfoldable pub collect : ℕ → MessageRx → Received
  collect zero rx = unfinished
  collect (suc fuel) rx =
      let (r, packets') = read_packet x rx.packets in
      on_packet (collect fuel) r (record rx { packets = packets' })

  -- `self.first_header.kind == PacketKind::Sole`
  unfoldable pub is_sole : PacketKind → Bool
  is_sole PacketKind.sole = true
  is_sole _ = false

  unfoldable pub read_bytes : ℕ → Message → MessageRx → Received
  unfolding is_sole
  read_bytes fuel m rx =
      let rx' : MessageRx = record rx { read_buf = payload x rx.packets } in
      elim (is_sole m.first_header.kind) [
        | true ↦ returned (ok rx'.read_buf) rx'
        | false ↦ collect fuel rx'
      ]

  pub record MessagePackets : Type 0 where
    pub done : Bool
    pub first_kind : Option PacketKind
    pub rx : MessageRx

  unfoldable pub into_packets : Message → MessageRx → MessagePackets
  into_packets m rx = record { done = false; first_kind = some m.first_header.kind; rx = rx }

  abbrev pub Next : Type 0
  Next = Outcome (Option Bytes) MessagePackets

  unfoldable pub next_kind : PacketKind → MessagePackets → Next
  next_kind PacketKind.abort p = returned (err message_aborted) (record p { done = true })
  next_kind PacketKind.last p =
      returned (ok (some (payload x p.rx.packets))) (record p { done = true })
  next_kind PacketKind.mid p = returned (ok (some (payload x p.rx.packets))) p
  next_kind PacketKind.sole p = panicked
  next_kind PacketKind.first p = panicked

  unfoldable pub next_packet : Result PacketHeader (Error x) → MessagePackets → Next
  unfolding next_kind
  next_packet (err e) p = returned (err e) p
  next_packet (ok header) p = next_kind header.kind p

  unfoldable pub next_continuation : MessagePackets → Next
  unfolding next_packet
  next_continuation p =
      let (r, packets') = read_packet x p.rx.packets in
      next_packet r (record p { rx = record p.rx { packets = packets' } })

  -- The first call delivers the opening packet; `take` leaves `None` behind.
  unfoldable pub next_first : Option PacketKind → MessagePackets → Next
  unfolding next_continuation is_sole
  next_first none p = next_continuation p
  next_first (some kind) p =
      returned (ok (some (payload x p.rx.packets))) (record p {
        first_kind = none;
        done = elim (is_sole kind) [ true ↦ true | false ↦ p.done ];
      })

  unfoldable pub next : MessagePackets → Next
  unfolding next_first
  next p = elim p.done [ true ↦ returned (ok none) p | false ↦ next_first p.first_kind p ]
