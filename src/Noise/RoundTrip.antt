-- ===== src/Noise/RoundTrip.antt =====
-- Transport keys as text and as serde values (noise.rs).
use Prim.Native.String.{String}
use snowpack.Prelude.{◌≡◌, Bytes, IsBytes, Bool, true, false, Result, ok, length, arith}
use snowpack.External.Text.{Text}
use snowpack.External.Text
use snowpack.Noise.{
  TransportPublicKey, TransportPrivateKey, TransportKeypair, RawKeypair, generate, public_from_str,
  display, serialize_public, deserialize_public, private_from_str, expose_to_human_string,
  serialize_private, deserialize_private,
}

module _ (x : Text) (law : Text.IsLawful x) (bytes : Bytes) (isb : IsBytes bytes)
    (len : length bytes ≡ 32) where
  public_key_round_trip :
      (human_readable : Bool)
      → let key : TransportPublicKey = record { bytes = bytes } in
        (public_from_str x (display x key) ≡ ok key)
        × (deserialize_public x human_readable (serialize_public x human_readable key) ≡ ok key)
  unfolding public_from_str display deserialize_public serialize_public
  public_key_round_trip true =
      ground (arith, law.decode-encode bytes isb, law.to_string-from_string (x.encode bytes))
  public_key_round_trip false =
      ground (arith, law.decode-encode bytes isb, law.to_array-from_array 32 bytes len)

  private_key_round_trip :
      (human_readable : Bool)
      → let key : TransportPrivateKey = record { bytes = bytes } in
        (private_from_str x (expose_to_human_string x key) ≡ ok key)
        × (deserialize_private x human_readable (serialize_private x human_readable key) ≡ ok key)
  unfolding private_from_str expose_to_human_string deserialize_private serialize_private
  private_key_round_trip true =
      ground (arith, law.decode-encode bytes isb, law.to_string-from_string (x.encode bytes))
  private_key_round_trip false =
      ground (arith, law.decode-encode bytes isb, law.to_array-from_array 32 bytes len)

-- A key pair that generate returns is the one that snow made, and both its keys have 32 bytes.
generate-length :
    (made : Result RawKeypair String) (k : TransportKeypair)
    → generate made ≡ ok k
    → (length k.public.bytes ≡ 32)
      × (length k.private.bytes ≡ 32)
      × (made ≡ ok (record { public = k.public.bytes; private = k.private.bytes }))
unfolding generate
generate-length made k e = ground arith

-- A transport key pair that generate returns is the one that snow made, and each of its keys,
-- whose bytes are below 256, is read back from its hex string and from its serde value in both
-- formats, when encoding and decoding are lawful.
pub generate_round_trip :
    (x : Text) (law : Text.IsLawful x) (made : Result RawKeypair String) (k : TransportKeypair)
    → generate made ≡ ok k
    → IsBytes k.public.bytes
    → IsBytes k.private.bytes
    → (human_readable : Bool)
    → (made ≡ ok (record { public = k.public.bytes; private = k.private.bytes }))
      × ((public_from_str x (display x k.public) ≡ ok k.public)
          × (deserialize_public x human_readable (serialize_public x human_readable k.public)
              ≡ ok k.public))
      × (private_from_str x (expose_to_human_string x k.private) ≡ ok k.private)
      × (deserialize_private x human_readable (serialize_private x human_readable k.private)
          ≡ ok k.private)
generate_round_trip x law made k e pub_bytes priv_bytes human_readable =
    let (public_len, private_len, same) = generate-length made k e in
    let private =
      private_key_round_trip x law k.private.bytes priv_bytes private_len human_readable in
    (
      same,
      public_key_round_trip x law k.public.bytes pub_bytes public_len human_readable,
      private.0,
      private.1,
    )
