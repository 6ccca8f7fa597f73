-- ===== src/Examples/Frames.antt =====
-- A concrete `Yatlv`: a field is its tag, its length in two bytes, and its data.
use snowpack.Prelude.{
  ℕ, zero, suc, ◌+◌, ◌*◌, ◌/◌, ◌%◌, ◌≤◌, ◌≡◌, refl, ◌++◌, List, [], ◌∷◌, Bytes, Option, none, some,
  length, take, drop, ltb, if◌then◌else◌, take-append_of_length, drop-append_of_length,
  length-append, arith,
}
use snowpack.External.Yatlv.{Yatlv, Fits, field}
use snowpack.External.Yatlv

abbrev pub Fields : Type 0
Fields = List (ℕ × Bytes)

abbrev frame : Fields → Bytes
frame [] = []
frame ((t, bs) ∷ fs) = t ∷ (length bs / 256) ∷ (length bs % 256) ∷ bs ++ frame fs

abbrev cons : ℕ × Bytes → Option Fields → Option Fields
cons f none = none
cons f (some fs) = some (f ∷ fs)

-- Each field takes three bytes at least, so a round for each byte is enough.
abbrev parse_loop : ℕ → Bytes → Option Fields
parse_loop zero [] = some []
parse_loop zero (b ∷ bs) = none
parse_loop (suc fuel) [] = some []
parse_loop (suc fuel) (t ∷ hi ∷ lo ∷ bs) =
    let n = hi * 256 + lo in
    let rest = parse_loop fuel (drop n bs) in
    if ltb (length bs) n then none else cons (t, take n bs) rest
parse_loop (suc fuel) _ = none

abbrev pub toy_yatlv : Yatlv
toy_yatlv = record {
  frame = frame;
  Parser = Fields;
  parse = λ raw. parse_loop (length raw) raw;
  get_data = field;
  get_optional_data = field;
  max_field = 65536;
}

parse_loop-frame :
    (fuel : ℕ) (fs : Fields)
    → Fits toy_yatlv fs
    → length (frame fs) ≤ fuel
    → parse_loop fuel (frame fs) ≡ some fs
parse_loop-frame zero [] h f = refl
parse_loop-frame zero ((t, bs) ∷ fs) h f = absurd (omega arith)
parse_loop-frame (suc fuel) [] h f = refl
parse_loop-frame (suc fuel) ((t, bs) ∷ fs) h f =
    let whole : length bs / 256 * 256 + length bs % 256 ≡ length bs = omega arith in
    let sizes = length-append bs (frame fs) in
    rw
      (
        whole,
        drop-append_of_length (length bs) bs (frame fs) refl,
        take-append_of_length (length bs) bs (frame fs) refl,
        parse_loop-frame fuel fs h.1 (omega (arith, sizes)),
      )
      (ground (arith, sizes))

pub toy_yatlv-IsLawful : Yatlv.IsLawful toy_yatlv
toy_yatlv-IsLawful = record {
  parser = λ fs. fs;
  parse-frame = λ fs h. parse_loop-frame (length (frame fs)) fs h (omega arith);
  get_data-field = λ fs t. refl;
  get_optional_data-field = λ fs t. refl;
}
