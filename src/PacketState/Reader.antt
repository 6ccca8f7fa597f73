-- ===== src/PacketState/Reader.antt =====
-- `PacketReader` of packet_state.rs. `read` returns its result and the new reader.
use snowpack.Prelude.{
  ℕ, [], ◌∷◌, Bytes, Bool, true, false, not, Result, ok, err, ◌==◌, if◌then◌else◌,
}
use snowpack.PacketState.Header.{
  PacketKind, PacketHeader, PacketReadError, packet_too_short, unexpected_message_start,
  missing_message_start, message_type_change, from_u8, from_be_bytes, header_kind, header_type,
}

pub record PacketReader : Type 0 where
  pub in_progress : Bool
  pub msg_type : ℕ

abbrev pub new : PacketReader
new = record { in_progress = false; msg_type = 0 }

-- `matches!(kind, PacketKind::First)` and `matches!(kind, PacketKind::Last | PacketKind::Abort)`.
unfoldable pub is_first_kind : PacketKind → Bool
is_first_kind PacketKind.first = true
is_first_kind _ = false

unfoldable pub is_closing_kind : PacketKind → Bool
is_closing_kind PacketKind.last = true
is_closing_kind PacketKind.abort = true
is_closing_kind _ = false

abbrev pub Read : Type 0
Read = Result PacketHeader PacketReadError × PacketReader

-- `Sole | First`.
unfoldable pub read_start : PacketReader → PacketKind → ℕ → Read
unfolding is_first_kind
read_start r kind msg_type =
    if r.in_progress
    then (err (unexpected_message_start r.msg_type msg_type), r)
    else if is_first_kind kind
    then (
      ok (record { kind = kind; msg_type = msg_type }),
      record { in_progress = true; msg_type = msg_type },
    )
    else (ok (record { kind = kind; msg_type = msg_type }), r)

-- `Mid | Last | Abort`.
unfoldable pub read_continuation : PacketReader → PacketKind → ℕ → Read
unfolding is_closing_kind
read_continuation r kind msg_type =
    if not r.in_progress
    then (err (missing_message_start msg_type), r)
    else if not (r.msg_type == msg_type)
    then (err (message_type_change r.msg_type msg_type), r)
    else if is_closing_kind kind
    then (
      ok (record { kind = kind; msg_type = msg_type }),
      record { in_progress = false; msg_type = 0 },
    )
    else (ok (record { kind = kind; msg_type = msg_type }), r)

unfoldable pub read_kind : PacketReader → Result PacketKind PacketReadError → ℕ → Read
unfolding read_start read_continuation
read_kind r (err e) msg_type = (err e, r)
read_kind r (ok PacketKind.sole) msg_type = read_start r PacketKind.sole msg_type
read_kind r (ok PacketKind.first) msg_type = read_start r PacketKind.first msg_type
read_kind r (ok kind) msg_type = read_continuation r kind msg_type

unfoldable pub read : PacketReader → Bytes → Read
unfolding read_kind
read r [] = (err packet_too_short, r)
read r (b0 ∷ []) = (err packet_too_short, r)
read r (b0 ∷ b1 ∷ payload) =
    let header = from_be_bytes b0 b1 in
    read_kind r (from_u8 (header_kind header)) (header_type header)
