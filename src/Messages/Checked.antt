-- ===== src/Messages/Checked.antt =====
-- The receiving methods of messages.rs with every slice checked: `none` is a panic of `&buf[..n]` or
-- `&buf[n..]`.
pub mod Slices
use snowpack.Prelude.{
  ℕ, zero, suc, ◌++◌, List, [], ◌∷◌, Bytes, true, false, Option, none, some, Result, ok, err,
}
use snowpack.External.Net.{Net}
use snowpack.PacketState.Header.{PacketKind, PacketHeader}
use snowpack.Packets.Error.{Error, message_aborted}
use snowpack.Packets.Checked.{◌>>=◌, checked_read_packet, checked_payload}
use snowpack.Messages.{
  Message, MessageRx, MessagePackets, Received, Next, Outcome, returned, panicked, unfinished,
  opened, is_sole, next,
}

module _ (x : Net) where
  unfoldable pub checked_read_message :
      MessageRx x → Option (Result (Message x) (Error x) × MessageRx x)
  checked_read_message rx = do
    q ← checked_read_packet x rx.packets
    some (opened x q.0, record rx { packets = q.1 })

  unfoldable pub checked_extended : MessageRx x → Option (MessageRx x)
  checked_extended rx = do
    bytes ← checked_payload x rx.packets
    some (record rx { read_buf = rx.read_buf ++ bytes })

  unfoldable pub checked_by_kind :
      (MessageRx x → Option (Received x)) → PacketKind → MessageRx x → Option (Received x)
  unfolding checked_extended
  checked_by_kind again PacketKind.abort rx = some (returned (err message_aborted) rx)
  checked_by_kind again PacketKind.last rx = do
    rx' ← checked_extended rx
    some (returned (ok rx'.read_buf) rx')
  checked_by_kind again PacketKind.mid rx = do rx' ← checked_extended rx; again rx'
  checked_by_kind again PacketKind.sole rx = some panicked
  checked_by_kind again PacketKind.first rx = some panicked

  unfoldable pub checked_on_packet :
      (MessageRx x → Option (Received x))
      → Result PacketHeader (Error x)
      → MessageRx x
      → Option (Received x)
  unfolding checked_by_kind
  checked_on_packet again (err e) rx = some (returned (err e) rx)
  checked_on_packet again (ok header) rx = checked_by_kind again header.kind rx

  unfoldable pub checked_collect : ℕ → MessageRx x → Option (Received x)
  unfolding checked_on_packet
  checked_collect zero rx = some unfinished
  checked_collect (suc fuel) rx = do
    q ← checked_read_packet x rx.packets
    checked_on_packet (checked_collect fuel) q.0 (record rx { packets = q.1 })

  unfoldable pub checked_read_bytes : ℕ → Message x → MessageRx x → Option (Received x)
  unfolding checked_collect
  checked_read_bytes fuel m rx = do
    bytes ← checked_payload x rx.packets
    let rx' : MessageRx x = record rx { read_buf = bytes }
    elim (is_sole x m.first_header.kind) [
      | true ↦ some (returned (ok rx'.read_buf) rx')
      | false ↦ checked_collect fuel rx'
    ]

  abbrev pub CheckedNext : Type 0
  CheckedNext = Option (Next x)

  unfoldable pub checked_next_kind : PacketKind → MessagePackets x → CheckedNext
  checked_next_kind PacketKind.abort p =
      some (returned (err message_aborted) (record p { done = true }))
  checked_next_kind PacketKind.last p = do
    bytes ← checked_payload x p.rx.packets
    some (returned (ok (some bytes)) (record p { done = true }))
  checked_next_kind PacketKind.mid p = do
    bytes ← checked_payload x p.rx.packets
    some (returned (ok (some bytes)) p)
  checked_next_kind PacketKind.sole p = some panicked
  checked_next_kind PacketKind.first p = some panicked

  unfoldable pub checked_next_packet :
      Result PacketHeader (Error x) → MessagePackets x → CheckedNext
  unfolding checked_next_kind
  checked_next_packet (err e) p = some (returned (err e) p)
  checked_next_packet (ok header) p = checked_next_kind header.kind p

  unfoldable pub checked_next_continuation : MessagePackets x → CheckedNext
  unfolding checked_next_packet
  checked_next_continuation p = do
    q ← checked_read_packet x p.rx.packets
    checked_next_packet q.0 (record p { rx = record p.rx { packets = q.1 } })

  unfoldable pub checked_next_first : Option PacketKind → MessagePackets x → CheckedNext
  unfolding checked_next_continuation
  checked_next_first none p = checked_next_continuation p
  checked_next_first (some kind) p = do
    bytes ← checked_payload x p.rx.packets
    some (
        returned (ok (some bytes)) (record p {
          first_kind = none;
          done = elim (is_sole x kind) [ true ↦ true | false ↦ p.done ];
        }))

  unfoldable pub checked_next : MessagePackets x → CheckedNext
  unfolding checked_next_first
  checked_next p = elim p.done [
    | true ↦ some (returned (ok none) p)
    | false ↦ checked_next_first p.first_kind p
  ]

  -- A number of calls of `next`, whatever they return.
  unfoldable pub go_on : (MessagePackets x → List (Next x)) → Next x → List (Next x)
  go_on again (returned r p) = again p
  go_on again panicked = []
  go_on again unfinished = []

  unfoldable pub nexts : ℕ → MessagePackets x → List (Next x)
  unfolding go_on
  nexts zero p = []
  nexts (suc calls) p = let o = next x p in o ∷ go_on (nexts calls) o

  unfoldable pub checked_go_on :
      (MessagePackets x → Option (List (Next x))) → Next x → Option (List (Next x))
  checked_go_on again (returned r p) = again p
  checked_go_on again panicked = some []
  checked_go_on again unfinished = some []

  unfoldable pub checked_nexts : ℕ → MessagePackets x → Option (List (Next x))
  unfolding checked_go_on
  checked_nexts zero p = some []
  checked_nexts (suc calls) p = do
    o ← checked_next p
    rest ← checked_go_on (checked_nexts calls) o
    some (o ∷ rest)
