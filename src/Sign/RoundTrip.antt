-- ===== src/Sign/RoundTrip.antt =====
-- A generated cluster key pair as text and as serde values (sign.rs).
use snowpack.Prelude.{◌≡◌, Bytes, IsBytes, Bool, true, false, ok, length, arith, some, subst}
use snowpack.External.Text.{Text}
use snowpack.External.Text
use snowpack.External.Ed25519.{Ed25519}
use snowpack.External.Ed25519
use snowpack.Sign.Payload.{honest, generate-ok}
use snowpack.Sign.{
  generate, SignatureVerificationKey, SignatureSigningKey, SignatureKeypair, signing_from_str,
  expose_to_human_string, serialize_signing, deserialize_signing, verification_from_str, display,
  serialize_verification, deserialize_verification,
}

module _ (x : Text) (law : Text.IsLawful x) (bytes : Bytes) (isb : IsBytes bytes)
    (len : length bytes ≡ 32) where
  signing_key_round_trip :
      (human_readable : Bool)
      → let key : SignatureSigningKey = record { bytes = bytes } in
        (signing_from_str x (expose_to_human_string x key) ≡ ok key)
        × (deserialize_signing x human_readable (serialize_signing x human_readable key) ≡ ok key)
  unfolding signing_from_str expose_to_human_string deserialize_signing serialize_signing
  signing_key_round_trip true =
      ground (arith, law.decode-encode bytes isb, law.to_string-from_string (x.encode bytes))
  signing_key_round_trip false =
      ground (arith, law.decode-encode bytes isb, law.to_array-from_array 32 bytes len)

verification_key_round_trip :
    (c : Ed25519) (x : Text) (law : Text.IsLawful x) (k : SignatureVerificationKey c)
    → IsBytes (c.as_bytes k.key)
    → length (c.as_bytes k.key) ≡ 32
    → c.from_bytes (c.as_bytes k.key) ≡ some k.key
    → (human_readable : Bool)
    → (verification_from_str c x (display c x k) ≡ ok k)
      × (deserialize_verification c x human_readable (serialize_verification c x human_readable k)
          ≡ ok k)
unfolding verification_from_str display deserialize_verification serialize_verification
verification_key_round_trip c x law k isb len point true = ground (
  arith,
  law.decode-encode (c.as_bytes k.key) isb,
  law.to_string-from_string (x.encode (c.as_bytes k.key)),
)
verification_key_round_trip c x law k isb len point false = ground (
  arith,
  law.decode-encode (c.as_bytes k.key) isb,
  law.to_array-from_array 32 (c.as_bytes k.key) len,
)

module _ (c : Ed25519) (lawful : Ed25519.IsLawful c) (x : Text) (law : Text.IsLawful x)
    (secret : Bytes) (isb : IsBytes secret) (len : length secret ≡ 32)
    (public_isb : IsBytes (c.public_bytes secret)) where
  abbrev RoundTrips : SignatureKeypair c → Bool → Type 0
  RoundTrips k human_readable =
      ((signing_from_str x (expose_to_human_string x k.private) ≡ ok k.private)
        × (deserialize_signing x human_readable (serialize_signing x human_readable k.private)
            ≡ ok k.private))
      × (verification_from_str c x (display c x k.public) ≡ ok k.public)
      × (deserialize_verification c x human_readable
            (serialize_verification c x human_readable k.public)
          ≡ ok k.public)

  honest_round_trip : (human_readable : Bool) → RoundTrips (honest c lawful secret) human_readable
  unfolding honest
  honest_round_trip human_readable =
      let same = lawful.as_bytes-public_key secret in
      let public =
        verification_key_round_trip c x law (record { key = lawful.public_key secret })
          (rw same public_isb) (rw same (lawful.length-public_bytes secret))
          (rw same (lawful.from_bytes-public_bytes secret)) human_readable in
      (signing_key_round_trip x law secret isb len human_readable, public.0, public.1)

  -- Both keys of a cluster key pair that generate made of a secret of 32 bytes, under a lawful
  -- signature scheme, are read back from their hex strings and from their serde values in both
  -- formats, when encoding and decoding are lawful and all bytes of the secret and of the public
  -- key are below 256.
  pub generate-RoundTrips :
      (k : SignatureKeypair c)
      → generate c secret ≡ ok k
      → (human_readable : Bool) → RoundTrips k human_readable
  generate-RoundTrips k e human_readable =
      let same : honest c lawful secret ≡ k = cc (e, generate-ok c lawful secret) in
      subst (λ q. RoundTrips q human_readable) same (honest_round_trip human_readable)
