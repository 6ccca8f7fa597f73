-- ===== src/Examples/Crypto.antt =====
-- A concrete `Ed25519`: a key is the first 32 bytes of its secret, and a signature holds the first 64
-- bytes of the key and the payload.
use snowpack.Prelude.{
  ℕ, ◌≡◌, refl, ◌++◌, [], Bytes, Option, none, some, length, resize, length-resize, bytes_eq,
  bytes_eq_refl, ◌==◌, if◌then◌else◌, arith,
}
use snowpack.External.Ed25519.{Ed25519}
use snowpack.External.Ed25519

abbrev exactly : ℕ → Bytes → Option Bytes
exactly n bs = if length bs == n then some bs else none

abbrev toy_signature : (key payload : Bytes) → Bytes
toy_signature key payload = resize 64 (key ++ payload)

abbrev pub toy_ed25519 : Ed25519
toy_ed25519 = record {
  VerifyingKey = Bytes;
  Signature = Bytes;
  from_bytes = exactly 32;
  as_bytes = λ key. key;
  default_key = resize 32 [];
  from_slice = exactly 64;
  verify_strict = λ key payload signature. bytes_eq signature (toy_signature key payload);
  sign = λ secret payload. toy_signature (resize 32 secret) payload;
  public_bytes = resize 32;
}

exactly-resize : (n : ℕ) (bs : Bytes) → exactly n (resize n bs) ≡ some (resize n bs)
exactly-resize n bs = ground (arith, length-resize n bs)

pub toy_ed25519-IsLawful : Ed25519.IsLawful toy_ed25519
toy_ed25519-IsLawful = record {
  public_key = resize 32;
  from_bytes-public_bytes = exactly-resize 32;
  as_bytes-public_key = λ secret. refl;
  length-public_bytes = length-resize 32;
  length-sign = λ secret payload. length-resize 64 (resize 32 secret ++ payload);
  signature = λ secret payload. toy_signature (resize 32 secret) payload;
  from_slice-sign = λ secret payload. exactly-resize 64 (resize 32 secret ++ payload);
  verify_strict-sign = λ secret payload. bytes_eq_refl (toy_signature (resize 32 secret) payload);
}
