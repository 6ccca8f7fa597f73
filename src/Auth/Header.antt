-- ===== src/Auth/Header.antt =====
-- Auth headers as frames (auth.rs): the round trip, and which frames are headers.
use snowpack.Prelude.{◌≤◌, ◌<◌, ◌≡◌, Bytes, ok, err, length, arith}
use snowpack.External.Yatlv
use snowpack.External.Yatlv.{Yatlv, Fits}
use snowpack.NodeId.{max_node_id_len}
use snowpack.Auth.{
  AuthHeader, malformed_auth_header, to_yatlv, from_yatlv, fields, tag_node_id, tag_public_key,
  tag_role,
}

-- A header that its readers take: a node id within bounds and a key of 32 bytes.
pub record IsValid (h : AuthHeader) : Type 0 where
  pub short : length h.node_id.bytes ≤ max_node_id_len
  pub key_length : length h.public_key.bytes ≡ 32

module _ (y : Yatlv) (law : Yatlv.IsLawful y) (h : AuthHeader) (fits : Fits y (fields h)) where
  -- A valid header is read back from its frame.
  pub from_yatlv-to_yatlv : IsValid h → from_yatlv y (to_yatlv y h) ≡ ok h
  unfolding from_yatlv to_yatlv fields
  from_yatlv-to_yatlv v = ground (
    arith,
    law.parse-frame (fields h) fits,
    law.get_data-field (fields h) tag_node_id,
    law.get_data-field (fields h) tag_public_key,
    law.get_optional_data-field (fields h) tag_role,
  )

  -- A header with a longer node id, which serde can make, does not read back.
  pub from_yatlv-too_long :
      max_node_id_len < length h.node_id.bytes
      → from_yatlv y (to_yatlv y h) ≡ err malformed_auth_header
  unfolding from_yatlv to_yatlv fields
  from_yatlv-too_long v = ground (
    arith,
    law.parse-frame (fields h) fits,
    law.get_data-field (fields h) tag_node_id,
    law.get_data-field (fields h) tag_public_key,
    law.get_optional_data-field (fields h) tag_role,
  )

-- What is read from any frame is a valid header.
pub from_yatlv-IsValid :
    (y : Yatlv) (raw : Bytes) (h : AuthHeader) → from_yatlv y raw ≡ ok h → IsValid h
unfolding from_yatlv
from_yatlv-IsValid y raw h e = ground arith
