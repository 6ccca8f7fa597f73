-- ===== src/Examples/Keys.antt =====
-- Concrete node ids and keys.
use Prim.Native.String.{String}
use snowpack.Prelude.{
  ℕ, zero, suc, ◌∷◌, [], Bytes, IsBytes, replicate, true, false, ok, ◌≡◌, ◌++◌, ◌<◌, refl, length,
  Result, arith, some, ◌+◌,
}
use snowpack.NodeId.{try_from_bytes, as_bytes}
use snowpack.NodeId.Laws.{u32, u64, into, into-injective}
use snowpack.Noise.{
  TransportPublicKey, TransportPrivateKey, TransportKeypair, RawKeypair, generate, public_from_str,
  display, deserialize_public, serialize_public, private_from_str, expose_to_human_string,
  deserialize_private, serialize_private,
}
use snowpack.Noise.RoundTrip.{generate_round_trip}
use snowpack.Sign
use snowpack.Sign.{SignatureSigningKey, SignatureVerificationKey, SignatureKeypair}
use snowpack.Sign.Payload.{verify_payload-sign, verify_payload_sound}
use snowpack.Sign.RoundTrip.{generate-RoundTrips}
use snowpack.Examples.Hex.{hex_text, hex_text-IsLawful}
use snowpack.Examples.Crypto.{toy_ed25519, toy_ed25519-IsLawful}

abbrev key_bytes : Bytes
key_bytes = replicate 32 171

replicate-IsBytes : (n b : ℕ) → b < 256 → IsBytes (replicate n b)
replicate-IsBytes zero b h = tt
replicate-IsBytes (suc n) b h = (h, replicate-IsBytes n b h)

key_bytes-IsBytes : IsBytes key_bytes
key_bytes-IsBytes = replicate-IsBytes 32 171 (omega arith)

into-injective_example :
    (into (u32 7) ≡ into (u64 7) → u32 7 ≡ u64 7)
    × (try_from_bytes (as_bytes (into (u32 7))) ≡ ok (into (u32 7)))
into-injective_example = into-injective (u32 7) (u64 7) (omega arith) (omega arith)

abbrev public_key : TransportPublicKey
public_key = record { bytes = key_bytes }

abbrev private_key : TransportPrivateKey
private_key = record { bytes = key_bytes }

abbrev keypair : TransportKeypair
keypair = record { public = public_key; private = private_key }

abbrev raw_keypair : RawKeypair
raw_keypair = record { public = key_bytes; private = key_bytes }

abbrev made : Result RawKeypair String
made = ok raw_keypair

generate-raw : generate made ≡ ok keypair
unfolding generate
generate-raw = refl

generate_round_trip_example :
    (made ≡ ok raw_keypair)
    × ((public_from_str hex_text (display hex_text public_key) ≡ ok public_key)
        × (deserialize_public hex_text true (serialize_public hex_text true public_key)
            ≡ ok public_key))
    × (private_from_str hex_text (expose_to_human_string hex_text private_key) ≡ ok private_key)
    × (deserialize_private hex_text true (serialize_private hex_text true private_key)
        ≡ ok private_key)
generate_round_trip_example =
    generate_round_trip hex_text hex_text-IsLawful made keypair generate-raw key_bytes-IsBytes
      key_bytes-IsBytes true

abbrev payload : Bytes
payload = 5 ∷ 6 ∷ []

verify_payload-sign_example :
    (k : SignatureKeypair toy_ed25519) × (Sign.generate toy_ed25519 key_bytes ≡ ok k)
    × (Sign.verify_payload toy_ed25519 k.public (Sign.sign toy_ed25519 k.private payload)
        ≡ ok payload)
    × (length (Sign.sign toy_ed25519 k.private payload) ≡ length payload + 64)
verify_payload-sign_example = verify_payload-sign toy_ed25519 toy_ed25519-IsLawful key_bytes payload

abbrev verification_key : SignatureVerificationKey toy_ed25519
verification_key = record { key = key_bytes }

-- The payload and a signature of it.
abbrev signed : Bytes
signed = payload ++ (key_bytes ++ payload ++ replicate 30 0)

verify_signed : Sign.verify_payload toy_ed25519 verification_key signed ≡ ok payload
unfolding Sign.verify_payload
verify_signed = refl

verify_payload_sound_example :
    (sig : Bytes) × (signature : Bytes) × (signed ≡ payload ++ sig)
    × (length sig ≡ 64)
    × (toy_ed25519.from_slice sig ≡ some signature)
    × (toy_ed25519.verify_strict key_bytes payload signature ≡ true)
verify_payload_sound_example =
    verify_payload_sound toy_ed25519 verification_key signed payload verify_signed

abbrev signing_key : SignatureSigningKey
signing_key = record { bytes = key_bytes }

abbrev cluster_keypair : SignatureKeypair toy_ed25519
cluster_keypair = record { public = verification_key; private = signing_key }

generate-cluster : Sign.generate toy_ed25519 key_bytes ≡ ok cluster_keypair
unfolding Sign.generate Sign.verification_from_bytes
generate-cluster = refl

generate-RoundTrips_example :
    ((Sign.signing_from_str hex_text (Sign.expose_to_human_string hex_text signing_key)
        ≡ ok signing_key)
      × (Sign.deserialize_signing hex_text false (Sign.serialize_signing hex_text false signing_key)
          ≡ ok signing_key))
    × (Sign.verification_from_str toy_ed25519 hex_text
          (Sign.display toy_ed25519 hex_text verification_key)
        ≡ ok verification_key)
    × (Sign.deserialize_verification toy_ed25519 hex_text false
          (Sign.serialize_verification toy_ed25519 hex_text false verification_key)
        ≡ ok verification_key)
generate-RoundTrips_example =
    generate-RoundTrips toy_ed25519 toy_ed25519-IsLawful hex_text hex_text-IsLawful key_bytes
      key_bytes-IsBytes refl key_bytes-IsBytes cluster_keypair generate-cluster false
