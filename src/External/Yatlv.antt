-- ===== src/External/Yatlv.antt =====
-- The crate `yatlv`: frames of tagged fields.
use snowpack.Prelude.{
  ℕ, ◌<◌, ◌≡◌, Bytes, List, [], ◌∷◌, Option, none, some, length, ◌==◌, if◌then◌else◌,
}

pub record Yatlv : Type 1 where
  -- The buffer of a `FrameBuilder` after `add_data` of each of these fields.
  pub frame : List (ℕ × Bytes) → Bytes
  pub Parser : Type 0
  -- `FrameParser::new`, `get_data` and `get_optional_data`.
  pub parse : Bytes → Option Parser
  pub get_data : Parser → ℕ → Option Bytes
  pub get_optional_data : Parser → ℕ → Option Bytes
  -- A bound on the length of a field that a frame can hold.
  pub max_field : ℕ

abbrev pub field : List (ℕ × Bytes) → ℕ → Option Bytes
field [] t = none
field ((s, bs) ∷ fs) t = if s == t then some bs else field fs t

abbrev pub Fits : Yatlv → List (ℕ × Bytes) → Type 0
Fits x [] = Unit {0}
Fits x ((s, bs) ∷ fs) = (length bs < x.max_field) × Fits x fs

-- A frame of fields that fit parses, and a field is found under its tag.
pub record IsLawful (x : Yatlv) : Type 0 where
  pub parser : List (ℕ × Bytes) → x.Parser
  pub parse-frame : (fs : List (ℕ × Bytes)) → Fits x fs → x.parse (x.frame fs) ≡ some (parser fs)
  pub get_data-field : (fs : List (ℕ × Bytes)) (t : ℕ) → x.get_data (parser fs) t ≡ field fs t
  pub get_optional_data-field :
      (fs : List (ℕ × Bytes)) (t : ℕ) → x.get_optional_data (parser fs) t ≡ field fs t
