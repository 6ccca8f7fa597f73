-- ===== src/Keys.antt =====
-- The key errors of lib.rs, and what the key types of noise.rs and sign.rs share.
use Prim.Native.String.{String}
use snowpack.Prelude.{
  ℕ, Bytes, Option, none, some, Result, ok, err, ◌>>=◌, length, ◌==◌, if◌then◌else◌,
}
use snowpack.External.Text.{Text}

-- lib.rs: `MalformedKeyError` and `KeyGenError`.
pub data MalformedKeyError : Type 0 where
  malformed_key : MalformedKeyError

pub data KeyGenError : Type 0 where
  key_gen : String → KeyGenError

-- `Option::ok_or`, and `map_err(|_| e)` on a call that is modelled by an option.
abbrev pub ok_or {ℓ} : {A E : Type ℓ} → Option A → E → Result A E
ok_or none e = err e
ok_or (some a) e = ok a

-- `<[u8; n]>::try_from` of a vector or a slice.
unfoldable pub try_into : ℕ → Bytes → Option Bytes
try_into n bs = if length bs == n then some bs else none

-- The hex string of a 32-byte key.
unfoldable pub decode_key : Text → String → Result Bytes MalformedKeyError
unfolding try_into
decode_key x value = do
  bytes ← ok_or (x.decode value) malformed_key
  ok_or (try_into 32 bytes) malformed_key
