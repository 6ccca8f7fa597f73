-- ===== src/Examples/Hex.antt =====
-- A concrete `Text`: hex strings, and values that say which form they are in.
use Prim.Native.Char.{Char, code}
use Prim.Native.String.{String}
use text.Mathlib.TextBridge.{to_list, of_list, to_list-of_list}
use snowpack.Prelude.{
  ℕ, ◌+◌, ◌-◌, ◌*◌, ◌/◌, ◌%◌, ◌<◌, ◌≡◌, refl, Bytes, IsBytes, Bool, true, false, Option, none, some,
  Result, ok, err, List, [], ◌∷◌, length, ltb, ◌==◌, if◌then◌else◌, full_table, full_table-entry,
  arith,
}
use snowpack.External.Text.{Text}
use snowpack.External.Text

abbrev digit : ℕ → Char
digit n =
    if n == 0
    then "0"
    else if n == 1
    then "1"
    else if n == 2
    then "2"
    else if n == 3
    then "3"
    else if n == 4
    then "4"
    else if n == 5
    then "5"
    else if n == 6
    then "6"
    else if n == 7
    then "7"
    else if n == 8
    then "8"
    else if n == 9
    then "9"
    else if n == 10
    then "a"
    else if n == 11
    then "b"
    else if n == 12
    then "c"
    else if n == 13
    then "d"
    else if n == 14
    then "e"
    else "f"

abbrev value : Char → Option ℕ
value c =
    if ltb (code c) 48
    then none
    else if ltb (code c) 58
    then some (code c - 48)
    else if ltb (code c) 97
    then none
    else if ltb (code c) 103
    then some (code c - 87)
    else none

abbrev is_value : ℕ → Option ℕ → Bool
is_value n none = false
is_value n (some v) = v == n

abbrev digits : Bytes → List Char
digits [] = []
digits (b ∷ bs) = digit (b / 16) ∷ digit (b % 16) ∷ digits bs

abbrev pair : Option ℕ → Option ℕ → Option Bytes → Option Bytes
pair (some h) (some l) (some bs) = some ((h * 16 + l) ∷ bs)
pair _ _ _ = none

abbrev values : List Char → Option Bytes
values [] = some []
values (h ∷ []) = none
values (h ∷ l ∷ cs) = pair (value h) (value l) (values cs)

is_value-eq : (n : ℕ) (o : Option ℕ) → is_value n o ≡ true → o ≡ some n
is_value-eq n none e = cc
is_value-eq n (some v) e = ground arith

digit_table : full_table (λ m. is_value m (value (digit m))) 16 ≡ true
unfolding full_table
digit_table = refl

value-digit : (n : ℕ) → n < 16 → value (digit n) ≡ some n
value-digit n h =
    is_value-eq n (value (digit n))
      (full_table-entry (λ m. is_value m (value (digit m))) 16 n h digit_table)

values-digits : (bs : Bytes) → IsBytes bs → values (digits bs) ≡ some bs
values-digits [] h = refl
values-digits (b ∷ bs) h =
    let whole : b / 16 * 16 + b % 16 ≡ b = omega arith in
    rw (
      value-digit (b / 16) (omega (arith, h.0)),
      value-digit (b % 16) (omega arith),
      values-digits bs h.1,
      whole,
    )

pub data Value : Type 0 where
  string : String → Value
  array vec : Bytes → Value

pub data Error : Type 0 where
  custom invalid_type : Error

abbrev to_string : Value → Result String Error
to_string (string s) = ok s
to_string _ = err invalid_type

abbrev to_array : ℕ → Value → Result Bytes Error
to_array n (array bs) = if length bs == n then ok bs else err invalid_type
to_array n _ = err invalid_type

abbrev to_vec : Value → Result Bytes Error
to_vec (vec bs) = ok bs
to_vec _ = err invalid_type

abbrev pub hex_text : Text
hex_text = record {
  encode = λ bs. of_list (digits bs);
  decode = λ s. values (to_list s);
  Value = Value;
  Error = Error;
  custom = custom;
  from_string = string;
  to_string = to_string;
  from_array = array;
  to_array = to_array;
  from_vec = vec;
  to_vec = to_vec;
}

pub hex_text-IsLawful : Text.IsLawful hex_text
hex_text-IsLawful = record {
  decode-encode = λ bs h. rw (to_list-of_list (digits bs)) (values-digits bs h);
  to_string-from_string = λ s. refl;
  to_array-from_array = λ n bs h. ground arith;
  to_vec-from_vec = λ bs. refl;
}
