-- ===== src/NodeId.antt =====
-- node_id.rs.
pub mod Laws
use snowpack.Prelude.{
  ℕ, zero, suc, ◌/◌, ◌%◌, ◌^◌, ◌*◌, [], ◌∷◌, Bytes, Result, ok, err, length, ltb, if◌then◌else◌,
}

abbrev pub max_node_id_len : ℕ
max_node_id_len = 512

pub data NodeIdTooLong : Type 0 where
  too_long : ℕ → NodeIdTooLong

pub record NodeId : Type 0 where
  pub bytes : Bytes

unfoldable pub try_from_bytes : Bytes → Result NodeId NodeIdTooLong
try_from_bytes bytes =
    if ltb max_node_id_len (length bytes)
    then err (too_long (length bytes))
    else ok (record { bytes = bytes })

abbrev pub as_bytes : NodeId → Bytes
as_bytes id = id.bytes

-- `to_be_bytes` of an integer of `n` bytes.
unfoldable pub be_bytes : ℕ → ℕ → Bytes
be_bytes zero v = []
be_bytes (suc n) v = (v / 256 ^ n % 256) ∷ be_bytes n v

unfoldable pub from_u64 : ℕ → NodeId
from_u64 value = record { bytes = be_bytes 8 value }

unfoldable pub from_u32 : ℕ → NodeId
from_u32 value = record { bytes = be_bytes 4 value }
