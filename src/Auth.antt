-- ===== src/Auth.antt =====
-- auth.rs: auth headers, their signed form, and the checks on an authenticated peer.
pub mod Header
pub mod Credential
use Prim.Native.String.{String}
use snowpack.Prelude.{
  ℕ, ◌++◌, List, [], ◌∷◌, Bytes, Bool, Option, none, some, Result, ok, err, ◌>>=◌, map_err, length,
  ◌==◌, if◌then◌else◌, bytes_eq,
}
use snowpack.External.Text.{Text}
use snowpack.External.Ed25519.{Ed25519}
use snowpack.External.Yatlv.{Yatlv}
use snowpack.Keys.{ok_or, try_into}
use snowpack.NodeId.{NodeId, try_from_bytes}
use snowpack.Noise.{TransportPublicKey}
use snowpack.Sign
use snowpack.Sign.{
  SignatureValidationErr, SignatureVerificationKey, SignatureSigningKey, verify_payload,
  malformed_record,
}

abbrev pub tag_node_id : ℕ
tag_node_id = 1

abbrev pub tag_public_key : ℕ
tag_public_key = 2

abbrev pub tag_role : ℕ
tag_role = 3

pub data BadAuth : Type 0 where
  signature : SignatureValidationErr → BadAuth
  public_key_mismatch : (expected actual : TransportPublicKey) → BadAuth
  node_id_mismatch : (expected actual : NodeId) → BadAuth

pub data MalformedAuthHeader : Type 0 where
  malformed_auth_header : MalformedAuthHeader

pub record AuthDetails : Type 0 where
  pub node_id : NodeId
  pub role : Option Bytes

unfoldable pub check_node_id : AuthDetails → NodeId → Result (Unit {0}) BadAuth
check_node_id details expected =
    if bytes_eq details.node_id.bytes expected.bytes
    then ok tt
    else err (node_id_mismatch expected details.node_id)

pub record AuthHeader : Type 0 where
  pub node_id : NodeId
  pub role : Option Bytes
  pub public_key : TransportPublicKey

-- `From<AuthHeader> for AuthDetails`.
unfoldable pub into_details : AuthHeader → AuthDetails
into_details value = record { node_id = value.node_id; role = value.role }

unfoldable pub validate_public_key : AuthHeader → TransportPublicKey → Result (Unit {0}) BadAuth
validate_public_key h key =
    if bytes_eq h.public_key.bytes key.bytes
    then ok tt
    else err (public_key_mismatch h.public_key key)

-- `if let Some(role) = &self.role`.
abbrev role_field : Option Bytes → List (ℕ × Bytes)
role_field none = []
role_field (some role) = (tag_role, role) ∷ []

-- The fields that `to_yatlv` adds to the frame.
unfoldable pub fields : AuthHeader → List (ℕ × Bytes)
fields h = (tag_node_id, h.node_id.bytes) ∷ (tag_public_key, h.public_key.bytes) ∷ role_field h.role

module _ (y : Yatlv) where
  unfoldable pub to_yatlv : AuthHeader → Bytes
  to_yatlv h = y.frame (fields h)

  unfoldable pub from_yatlv : Bytes → Result AuthHeader MalformedAuthHeader
  unfolding try_into try_from_bytes
  from_yatlv raw = do
    parser ← ok_or (y.parse raw) malformed_auth_header
    node_id_bytes ← ok_or (y.get_data parser tag_node_id) malformed_auth_header
    public_key_bytes ← ok_or (y.get_data parser tag_public_key) malformed_auth_header
    let role = y.get_optional_data parser tag_role
    node_id ← map_err (λ _. malformed_auth_header) (try_from_bytes node_id_bytes)
    public_key_arr ← ok_or (try_into 32 public_key_bytes) malformed_auth_header
    ok (record { node_id = node_id; role = role; public_key = record { bytes = public_key_arr } })

-- The signed bytes, behind `Arc<SecretVec<u8>>`.
pub record SignedAuthHeader : Type 0 where
  pub bytes : Bytes

module _ (c : Ed25519) (y : Yatlv) where
  unfoldable pub sign : AuthHeader → SignatureSigningKey → SignedAuthHeader
  unfolding to_yatlv
  sign h signing_key = record { bytes = Sign.sign c signing_key (to_yatlv y h) }

  unfoldable pub verify_raw : SignatureVerificationKey c → Bytes → Result AuthHeader BadAuth
  verify_raw key raw = do
    payload ← map_err signature (verify_payload c key raw)
    map_err (λ _. signature malformed_record) (from_yatlv y payload)

  unfoldable pub verify : SignedAuthHeader → SignatureVerificationKey c → Result AuthHeader BadAuth
  unfolding verify_raw
  verify signed key = verify_raw key signed.bytes

-- `Debug` of a signed header.
unfoldable pub debug_signed : SignedAuthHeader → String
debug_signed signed = "SignedAuthHeader([redacted])"

-- `expose_to_human_string`, `TryFrom<&str>` and serde of a signed header.
module _ (x : Text) where
  unfoldable pub expose_to_human_string : SignedAuthHeader → String
  expose_to_human_string signed = x.encode signed.bytes

  unfoldable pub signed_from_str : String → Result SignedAuthHeader MalformedAuthHeader
  signed_from_str value = do
    bytes ← ok_or (x.decode value) malformed_auth_header
    ok (record { bytes = bytes })

  unfoldable pub serialize_signed : Bool → SignedAuthHeader → x.Value
  serialize_signed human_readable signed =
      if human_readable then x.from_string (x.encode signed.bytes) else x.from_vec signed.bytes

  unfoldable pub deserialize_signed : Bool → x.Value → Result SignedAuthHeader x.Error
  deserialize_signed human_readable value =
      if human_readable
      then (do
        s ← x.to_string value
        bytes ← ok_or (x.decode s) x.custom
        ok (record { bytes = bytes }))
      else (do bytes ← x.to_vec value; ok (record { bytes = bytes }))
