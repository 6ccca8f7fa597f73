-- ===== src/Sign/Debug.antt =====
-- `Debug` of the keys of sign.rs.
use Prim.Native.String.{String, ◌++◌}
use snowpack.External.Text.{Text}
use snowpack.External.Ed25519.{Ed25519}
use snowpack.Sign.{SignatureVerificationKey, SignatureSigningKey}

unfoldable pub debug_signing : SignatureSigningKey → String
debug_signing key = "SignatureSigningKey([redacted])"

unfoldable pub debug_verification : (c : Ed25519) → Text → SignatureVerificationKey c → String
debug_verification c x k = "SignatureVerificationKey(" ++ x.encode (c.as_bytes k.key) ++ ")"
