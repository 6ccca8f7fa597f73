-- ===== src/Sign.antt =====
-- sign.rs: the Ed25519 cluster keys, and records that carry their signature at the end.
pub mod Payload
pub mod RoundTrip
pub mod Debug
use Prim.Native.String.{String}
use snowpack.Prelude.{
  ℕ, ◌-◌, ◌++◌, Bytes, Bool, Option, Result, ok, err, ◌>>=◌, length, take, drop, ltb, if◌then◌else◌,
}
use snowpack.External.Text.{Text}
use snowpack.External.Ed25519.{Ed25519}
use snowpack.Keys.{
  MalformedKeyError, KeyGenError, key_gen, ok_or, try_into, decode_key, malformed_key,
}

pub data SignatureValidationErr : Type 0 where
  malformed_record bad_signature : SignatureValidationErr

abbrev pub signature_len : ℕ
signature_len = 64

pub record SignatureSigningKey : Type 0 where
  pub bytes : Bytes

-- `sign`: the payload, then the signature.
unfoldable pub sign : Ed25519 → SignatureSigningKey → Bytes → Bytes
sign c key payload = payload ++ c.sign key.bytes payload

-- `From<[u8; 32]>` and the text forms of the signing key.
module _ (x : Text) where
  unfoldable pub signing_from_str : String → Result SignatureSigningKey MalformedKeyError
  unfolding decode_key
  signing_from_str value = do arr ← decode_key x value; ok (record { bytes = arr })

  unfoldable pub expose_to_human_string : SignatureSigningKey → String
  expose_to_human_string key = x.encode key.bytes

  unfoldable pub serialize_signing : Bool → SignatureSigningKey → x.Value
  serialize_signing human_readable key =
      if human_readable then x.from_string (x.encode key.bytes) else x.from_array key.bytes

  unfoldable pub deserialize_array : Bool → x.Value → Result Bytes x.Error
  unfolding try_into
  deserialize_array human_readable value =
      if human_readable
      then (do
        s ← x.to_string value
        bytes ← ok_or (x.decode s) x.custom
        ok_or (try_into 32 bytes) x.custom)
      else x.to_array 32 value

  unfoldable pub deserialize_signing : Bool → x.Value → Result SignatureSigningKey x.Error
  unfolding deserialize_array
  deserialize_signing human_readable value = do
    arr ← deserialize_array human_readable value
    ok (record { bytes = arr })

module _ (c : Ed25519) where
  pub record SignatureVerificationKey : Type 0 where
    pub key : c.VerifyingKey

  unfoldable pub verify_payload :
      SignatureVerificationKey → Bytes → Result Bytes SignatureValidationErr
  verify_payload k raw = if ltb (length raw) signature_len then err malformed_record else (do
    let payload_len = length raw - signature_len
    let payload = take payload_len raw
    signature ← ok_or (c.from_slice (drop payload_len raw)) malformed_record
    if c.verify_strict k.key payload signature then ok payload else err bad_signature)

  -- `TryFrom<[u8; 32]>`.
  unfoldable pub verification_from_bytes : Bytes → Result SignatureVerificationKey MalformedKeyError
  verification_from_bytes bytes = do
    key ← ok_or (c.from_bytes bytes) malformed_key
    ok (record { key = key })

module _ (c : Ed25519) (x : Text) where
  unfoldable pub verification_from_str :
      String → Result (SignatureVerificationKey c) MalformedKeyError
  unfolding decode_key verification_from_bytes
  verification_from_str value = do arr ← decode_key x value; verification_from_bytes c arr

  unfoldable pub display : SignatureVerificationKey c → String
  display k = x.encode (c.as_bytes k.key)

  unfoldable pub serialize_verification : Bool → SignatureVerificationKey c → x.Value
  serialize_verification human_readable k =
      if human_readable
      then x.from_string (x.encode (c.as_bytes k.key))
      else x.from_array (c.as_bytes k.key)

  unfoldable pub deserialize_verification :
      Bool → x.Value → Result (SignatureVerificationKey c) x.Error
  unfolding deserialize_array verification_from_bytes
  deserialize_verification human_readable value = do
    arr ← deserialize_array x human_readable value
    elim (verification_from_bytes c arr) [ ok k ↦ ok k | err e ↦ err x.custom ]

module _ (c : Ed25519) where
  pub record SignatureKeypair : Type 0 where
    pub public : SignatureVerificationKey c
    pub private : SignatureSigningKey

  -- `SignatureKeypair::generate`, over the secret that the random source gave.
  unfoldable pub generate : Bytes → Result SignatureKeypair KeyGenError
  unfolding verification_from_bytes
  generate secret = elim (verification_from_bytes c (c.public_bytes secret)) [
    | ok public ↦ ok (record { public = public; private = record { bytes = secret } })
    | err e ↦ err (key_gen "malformed key")
  ]
