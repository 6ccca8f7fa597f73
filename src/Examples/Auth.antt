-- ===== src/Examples/Auth.antt =====
-- A concrete auth header, its signed form, and the checks on it.
use snowpack.Prelude.{
  ◌∷◌, [], Bytes, replicate, true, some, ok, err, ◌≡◌, ◌++◌, refl, length, arith,
}
use snowpack.External.Yatlv.{Fits}
use snowpack.NodeId.{NodeId}
use snowpack.Noise.{TransportPublicKey}
use snowpack.Sign.{SignatureKeypair, malformed_record, generate, verification_from_bytes}
use snowpack.Auth.{
  AuthHeader, SignedAuthHeader, sign, verify, verify_raw, from_yatlv, fields, signature,
  signed_from_str, expose_to_human_string, serialize_signed, deserialize_signed,
}
use snowpack.Auth.Header.{IsValid}
use snowpack.Auth.Credential.{
  verify-sign, verify-sign_too_long, verify_raw_sound, signed_round_trip,
}
use snowpack.Examples.Hex.{hex_text, hex_text-IsLawful}
use snowpack.Examples.Crypto.{toy_ed25519, toy_ed25519-IsLawful}
use snowpack.Examples.Frames.{toy_yatlv, toy_yatlv-IsLawful}

abbrev pub secret : Bytes
secret = replicate 32 9

abbrev pub cluster_keys : SignatureKeypair toy_ed25519
cluster_keys = record { public = record { key = secret }; private = record { bytes = secret } }

pub generate_cluster : generate toy_ed25519 secret ≡ ok cluster_keys
unfolding generate verification_from_bytes
generate_cluster = refl

abbrev pub node : NodeId
node = record { bytes = 1 ∷ 2 ∷ [] }

abbrev long_node : NodeId
long_node = record { bytes = replicate 513 1 }

abbrev pub transport_key : TransportPublicKey
transport_key = record { bytes = replicate 32 3 }

abbrev pub header : AuthHeader
header = record { node_id = node; role = some (4 ∷ []); public_key = transport_key }

abbrev long_header : AuthHeader
long_header = record { node_id = long_node; role = some (4 ∷ []); public_key = transport_key }

header-IsValid : IsValid header
header-IsValid = record { short = omega arith; key_length = refl }

header-Fits : Fits toy_yatlv (fields header)
unfolding fields
header-Fits = (omega arith, (omega arith, (omega arith, tt)))

long_header-Fits : Fits toy_yatlv (fields long_header)
unfolding fields
long_header-Fits = (omega arith, (omega arith, (omega arith, tt)))

verify-sign_example :
    verify toy_ed25519 toy_yatlv
      (sign toy_ed25519 toy_yatlv header cluster_keys.private)
      cluster_keys.public
    ≡ ok header
verify-sign_example =
    verify-sign toy_ed25519 toy_ed25519-IsLawful toy_yatlv toy_yatlv-IsLawful secret header
      cluster_keys generate_cluster header-Fits header-IsValid

verify-sign_too_long_example :
    verify toy_ed25519 toy_yatlv
      (sign toy_ed25519 toy_yatlv long_header cluster_keys.private)
      cluster_keys.public
    ≡ err (signature malformed_record)
verify-sign_too_long_example =
    verify-sign_too_long toy_ed25519 toy_ed25519-IsLawful toy_yatlv toy_yatlv-IsLawful secret
      long_header cluster_keys generate_cluster long_header-Fits (omega arith)

abbrev pub raw : Bytes
raw = (sign toy_ed25519 toy_yatlv header cluster_keys.private).bytes

pub verify_raw_ok : verify_raw toy_ed25519 toy_yatlv cluster_keys.public raw ≡ ok header
unfolding verify
verify_raw_ok =
    verify-sign toy_ed25519 toy_ed25519-IsLawful toy_yatlv toy_yatlv-IsLawful secret header
      cluster_keys generate_cluster header-Fits header-IsValid

verify_raw_sound_example :
    IsValid header
    × (payload : Bytes) × (sig : Bytes) × (s : Bytes) × (raw ≡ payload ++ sig)
    × (length sig ≡ 64)
    × (toy_ed25519.from_slice sig ≡ some s)
    × (toy_ed25519.verify_strict cluster_keys.public.key payload s ≡ true)
    × (from_yatlv toy_yatlv payload ≡ ok header)
verify_raw_sound_example =
    verify_raw_sound toy_ed25519 toy_yatlv cluster_keys.public raw header verify_raw_ok

abbrev short_signed : SignedAuthHeader
short_signed = record { bytes = 1 ∷ 255 ∷ [] }

signed_round_trip_example :
    (signed_from_str hex_text (expose_to_human_string hex_text short_signed) ≡ ok short_signed)
    × (deserialize_signed hex_text true (serialize_signed hex_text true short_signed)
        ≡ ok short_signed)
signed_round_trip_example =
    signed_round_trip hex_text hex_text-IsLawful short_signed (omega arith, (omega arith, tt)) true
