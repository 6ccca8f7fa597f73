-- ===== src/PacketState/Header.antt =====
-- The packet kinds, the two-byte packet header and the size constants of packet_state.rs.
use snowpack.Prelude.{
  ℕ, ◌+◌, ◌-◌, ◌*◌, ◌/◌, ◌%◌, ◌^◌, bit_and, bit_or, [], ◌∷◌, Bytes, Result, ok, err, ◌==◌,
  if◌then◌else◌,
}

abbrev pub kind_shift : ℕ
kind_shift = 12

abbrev pub kind_mask : ℕ
kind_mask = 0xF000

abbrev pub type_mask : ℕ
type_mask = 0x0FFF

pub data PacketKind : Type 0 where
  sole first mid last abort : PacketKind

-- `kind as u16`.
unfoldable pub discriminant : PacketKind → ℕ
discriminant sole = 0
discriminant first = 1
discriminant mid = 2
discriminant last = 3
discriminant abort = 4

pub data PacketReadError : Type 0 where
  packet_too_short : PacketReadError
  unknown_kind : ℕ → PacketReadError
  unexpected_message_start : (from to : ℕ) → PacketReadError
  missing_message_start : (msg_type : ℕ) → PacketReadError
  message_type_change : (from to : ℕ) → PacketReadError

unfoldable pub from_u8 : ℕ → Result PacketKind PacketReadError
from_u8 v =
    if v == 0
    then ok sole
    else if v == 1
    then ok first
    else if v == 2
    then ok mid
    else if v == 3
    then ok last
    else if v == 4
    then ok abort
    else err (unknown_kind v)

-- `u16::to_be_bytes` and `u16::from_be_bytes`.
unfoldable pub to_be_bytes : ℕ → Bytes
to_be_bytes n = (n / 256 % 256) ∷ (n % 256) ∷ []

unfoldable pub from_be_bytes : ℕ → ℕ → ℕ
from_be_bytes hi lo = hi * 256 + lo

-- `((kind as u16) << KIND_SHIFT) | msg_type`, in 16 bits.
unfoldable pub pack_header : PacketKind → ℕ → ℕ
unfolding discriminant
pack_header kind msg_type = bit_or (discriminant kind * 2 ^ kind_shift % 2 ^ 16) msg_type

-- `((header & KIND_MASK) >> KIND_SHIFT) as u8`.
unfoldable pub header_kind : ℕ → ℕ
header_kind header = bit_and header kind_mask / 2 ^ kind_shift % 256

-- `header & TYPE_MASK`.
unfoldable pub header_type : ℕ → ℕ
header_type header = bit_and header type_mask

pub record PacketHeader : Type 0 where
  pub kind : PacketKind
  pub msg_type : ℕ

-- The size constants.
abbrev pub frame_header_size : ℕ
frame_header_size = 2

abbrev pub max_ciphertext_size : ℕ
max_ciphertext_size = 0xFFFF

abbrev pub cipher_overhead_size : ℕ
cipher_overhead_size = 16

abbrev pub max_raw_packet_size : ℕ
max_raw_packet_size = max_ciphertext_size - cipher_overhead_size

abbrev pub max_packet_size : ℕ
max_packet_size = max_raw_packet_size - 2
