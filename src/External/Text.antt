-- ===== src/External/Text.antt =====
-- The crates `hex` and `serde`.
use Prim.Native.String.{String}
use snowpack.Prelude.{ℕ, ◌≡◌, Bytes, IsBytes, Option, some, Result, ok, length}

-- `hex::encode` and `hex::decode`, and the part of serde's data model that the key types use: a
-- string, a byte array of fixed size and a byte vector, each with the call that reads it back.
pub record Text : Type 1 where
  pub encode : Bytes → String
  pub decode : String → Option Bytes
  pub Value : Type 0
  pub Error : Type 0
  pub custom : Error
  pub from_string : String → Value
  pub to_string : Value → Result String Error
  pub from_array : Bytes → Value
  pub to_array : ℕ → Value → Result Bytes Error
  pub from_vec : Bytes → Value
  pub to_vec : Value → Result Bytes Error

-- Decoding undoes encoding, and a value is read back as what was written.
pub record IsLawful (x : Text) : Type 0 where
  pub decode-encode : (bs : Bytes) → IsBytes bs → x.decode (x.encode bs) ≡ some bs
  pub to_string-from_string : (s : String) → x.to_string (x.from_string s) ≡ ok s
  pub to_array-from_array :
      (n : ℕ) (bs : Bytes) → length bs ≡ n → x.to_array n (x.from_array bs) ≡ ok bs
  pub to_vec-from_vec : (bs : Bytes) → x.to_vec (x.from_vec bs) ≡ ok bs
