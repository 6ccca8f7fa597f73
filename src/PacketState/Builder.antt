-- ===== src/PacketState/Builder.antt =====
-- `PacketBuilder` of packet_state.rs. A method returns its result and the new builder.
use snowpack.Prelude.{
  ℕ, [], ◌++◌, Bytes, Bool, true, false, not, Option, none, some, Result, ok, err, ltb,
  if◌then◌else◌,
}
use snowpack.PacketState.Header.{PacketKind, pack_header, to_be_bytes, type_mask}

pub data PacketBuildError : Type 0 where
  message_already_in_progress : PacketBuildError
  no_message_in_progress : PacketBuildError
  message_type_too_large : ℕ → PacketBuildError

pub record PacketBuilder : Type 0 where
  pub in_progress : Bool
  pub is_first : Bool
  pub msg_type : ℕ
  pub buf : Bytes

abbrev pub new : PacketBuilder
new = record { in_progress = false; is_first = false; msg_type = 0; buf = [] }

unfoldable pub prepare : PacketBuilder → ℕ → Result (Unit {0}) PacketBuildError × PacketBuilder
prepare b msg_type =
    if ltb type_mask msg_type
    then (err (message_type_too_large msg_type), b)
    else if b.in_progress
    then (err message_already_in_progress, b)
    else (ok tt, record b { in_progress = true; is_first = true; msg_type = msg_type })

-- The kind of a packet, by `(is_first, last)`.
unfoldable pub packet_kind : (is_first is_last : Bool) → PacketKind
packet_kind true true = PacketKind.sole
packet_kind true false = PacketKind.first
packet_kind false false = PacketKind.mid
packet_kind false true = PacketKind.last

unfoldable pub pack : PacketBuilder → Bytes → Bool → Result Bytes PacketBuildError × PacketBuilder
pack b payload is_last =
    let header = pack_header (packet_kind b.is_first is_last) b.msg_type in
    let packet = to_be_bytes header ++ payload in
    if not b.in_progress
    then (err no_message_in_progress, b)
    else (ok packet, record b { buf = packet; is_first = false; in_progress = not is_last })

unfoldable pub abort : PacketBuilder → Option Bytes × PacketBuilder
abort b =
    let packet = to_be_bytes (pack_header PacketKind.abort b.msg_type) in
    if not b.in_progress
    then (none, b)
    else (some packet, record b { buf = packet; in_progress = false; is_first = true })
