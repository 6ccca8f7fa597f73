-- ===== src/External/Ed25519.antt =====
-- The crate `ed25519_dalek`. A signing key and a signature are their bytes.
use snowpack.Prelude.{◌≡◌, Bytes, Bool, true, Option, some, length}

pub record Ed25519 : Type 1 where
  pub VerifyingKey : Type 0
  pub Signature : Type 0
  -- `VerifyingKey::from_bytes`, which fails unless the bytes are a curve point.
  pub from_bytes : Bytes → Option VerifyingKey
  pub as_bytes : VerifyingKey → Bytes
  pub default_key : VerifyingKey
  -- `Signature::from_slice`.
  pub from_slice : Bytes → Option Signature
  pub verify_strict : VerifyingKey → Bytes → Signature → Bool
  -- `SigningKey::from_bytes(secret).sign(payload).to_bytes()`.
  pub sign : (secret payload : Bytes) → Bytes
  -- `SigningKey::verifying_key().to_bytes()`.
  pub public_bytes : (secret : Bytes) → Bytes

-- A secret's public bytes are a key, a signature has 64 bytes and parses, and the key accepts what
-- the secret signed.
pub record IsLawful (x : Ed25519) : Type 0 where
  pub public_key : (secret : Bytes) → x.VerifyingKey
  pub from_bytes-public_bytes :
      (secret : Bytes) → x.from_bytes (x.public_bytes secret) ≡ some (public_key secret)
  pub as_bytes-public_key :
      (secret : Bytes) → x.as_bytes (public_key secret) ≡ x.public_bytes secret
  pub length-public_bytes : (secret : Bytes) → length (x.public_bytes secret) ≡ 32
  pub length-sign : (secret payload : Bytes) → length (x.sign secret payload) ≡ 64
  pub signature : (secret payload : Bytes) → x.Signature
  pub from_slice-sign :
      (secret payload : Bytes)
      → x.from_slice (x.sign secret payload) ≡ some (signature secret payload)
  pub verify_strict-sign :
      (secret payload : Bytes)
      → x.verify_strict (public_key secret) payload (signature secret payload) ≡ true
