-- ===== src/Noise.antt =====
-- noise.rs: the X25519 transport keys. A `[u8; 32]` is a list of bytes; that it has 32 of them is
-- proved where a key is made from other data.
pub mod RoundTrip
use Prim.Native.String.{String, ◌++◌}
use snowpack.Prelude.{ℕ, Bytes, Bool, Option, Result, ok, err, ◌>>=◌, map_err, if◌then◌else◌}
use snowpack.External.Text.{Text}
use snowpack.Keys.{MalformedKeyError, KeyGenError, key_gen, ok_or, try_into, decode_key}

pub record TransportPublicKey : Type 0 where
  pub bytes : Bytes

pub record TransportPrivateKey : Type 0 where
  pub bytes : Bytes

-- What `snow::Builder::generate_keypair` returns.
pub record RawKeypair : Type 0 where
  pub public : Bytes
  pub private : Bytes

pub record TransportKeypair : Type 0 where
  pub public : TransportPublicKey
  pub private : TransportPrivateKey

-- `TransportKeypair::generate`, over the key pair that snow made, or its message.
unfoldable pub generate : Result RawKeypair String → Result TransportKeypair KeyGenError
unfolding try_into
generate made = do
  keypair ← map_err key_gen made
  public_bytes ← ok_or (try_into 32 keypair.public) (key_gen "unexpected public key length")
  private_bytes ← ok_or (try_into 32 keypair.private) (key_gen "unexpected private key length")
  ok (record {
    public = record { bytes = public_bytes };
    private = record { bytes = private_bytes };
  })

-- `Debug` of the private key.
unfoldable pub debug_private : TransportPrivateKey → String
debug_private key = "TransportPrivateKey([redacted])"

module _ (x : Text) where
  -- `TryFrom<&str>`, `Display` and serde of the public key.
  unfoldable pub public_from_str : String → Result TransportPublicKey MalformedKeyError
  unfolding decode_key
  public_from_str value = do arr ← decode_key x value; ok (record { bytes = arr })

  unfoldable pub display : TransportPublicKey → String
  display key = x.encode key.bytes

  -- `Debug` of the public key.
  unfoldable pub debug_public : TransportPublicKey → String
  debug_public key = "TransportPublicKey(" ++ x.encode key.bytes ++ ")"

  unfoldable pub serialize_public : Bool → TransportPublicKey → x.Value
  serialize_public human_readable key =
      if human_readable then x.from_string (x.encode key.bytes) else x.from_array key.bytes

  unfoldable pub deserialize_array : Bool → x.Value → Result Bytes x.Error
  unfolding try_into
  deserialize_array human_readable value =
      if human_readable
      then (do
        s ← x.to_string value
        bytes ← ok_or (x.decode s) x.custom
        ok_or (try_into 32 bytes) x.custom)
      else x.to_array 32 value

  unfoldable pub deserialize_public : Bool → x.Value → Result TransportPublicKey x.Error
  unfolding deserialize_array
  deserialize_public human_readable value = do
    arr ← deserialize_array human_readable value
    ok (record { bytes = arr })

  -- `TryFrom<&str>`, `expose_to_human_string` and serde of the private key.
  unfoldable pub private_from_str : String → Result TransportPrivateKey MalformedKeyError
  unfolding decode_key
  private_from_str value = do arr ← decode_key x value; ok (record { bytes = arr })

  unfoldable pub expose_to_human_string : TransportPrivateKey → String
  expose_to_human_string key = x.encode key.bytes

  unfoldable pub serialize_private : Bool → TransportPrivateKey → x.Value
  serialize_private human_readable key =
      if human_readable then x.from_string (x.encode key.bytes) else x.from_array key.bytes

  unfoldable pub deserialize_private : Bool → x.Value → Result TransportPrivateKey x.Error
  unfolding deserialize_array
  deserialize_private human_readable value = do
    arr ← deserialize_array human_readable value
    ok (record { bytes = arr })
