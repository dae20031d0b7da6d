-- ===== src/Js.antt =====
-- What the client's code uses of JavaScript's numbers and of `parseInt`.
-- Numbers are the integers that a double holds exactly, and `NaN`.
use Prim.Native.Char.{code}
use mathlib.Core.Option
use mxzz_bi.Prelude.{
  ℕ, zero, suc, ◌+◌, ◌-◌, ◌*◌, String, Bool, true, false, ◌&&◌, ◌||◌, Option, none, some, List, [],
  ◌∷◌, leb, ◌==◌, if◌then◌else◌, ℤ, pos, negsuc, neg,
}

-- The values that the code passes where it wants a number.
pub data Arg : Type 0 where
  undefined null nan : Arg
  bool : Bool → Arg
  int : ℤ → Arg
  str : String → Arg

abbrev pub codes : String → List ℕ
codes String.[] = []
codes (String.◌∷◌ c s) = code c ∷ codes s

unfoldable pub is_digit : ℕ → Bool
is_digit c = leb b'0' c && leb c b'9'

-- White space that `parseInt` skips: tab to carriage return, space, no-break space.
unfoldable pub is_space : ℕ → Bool
is_space c = (leb 9 c && leb c 13) || c == 32 || c == 160

-- The digits in front, `none` (NaN) if there is none.
unfoldable pub digits : ℕ → Bool → List ℕ → Option ℕ
unfolding is_digit
digits acc seen [] = if seen then some acc else none
digits acc seen (c ∷ cs) =
    if is_digit c then digits (acc * 10 + (c - b'0')) true cs else if seen then some acc else none

unfoldable pub signed : List ℕ → Option ℤ
unfolding digits
signed [] = none
signed (c ∷ cs) =
    if c == b'-'
    then Option.map neg (digits 0 false cs)
    else if c == b'+'
    then Option.map pos (digits 0 false cs)
    else Option.map pos (digits 0 false (c ∷ cs))

unfoldable pub parse_codes : List ℕ → Option ℤ
unfolding signed is_space
parse_codes [] = none
parse_codes (c ∷ cs) = if is_space c then parse_codes cs else signed (c ∷ cs)

-- `parseInt(value, 10)`, with `none` for NaN.
unfoldable pub parse_int : Arg → Option ℤ
unfolding parse_codes
parse_int (int z) = some z
parse_int (str s) = parse_codes (codes s)
parse_int undefined = none
parse_int null = none
parse_int nan = none
parse_int (bool b) = none

-- `n || d`: NaN and 0 are falsy.
abbrev pub or_default : Option ℤ → ℕ → ℤ
or_default none d = pos d
or_default (some (pos zero)) d = pos d
or_default (some (pos (suc n))) d = pos (suc n)
or_default (some (negsuc n)) d = negsuc n

-- `!!value`
unfoldable pub truthy : Arg → Bool
truthy (bool b) = b
truthy (int (pos zero)) = false
truthy (int z) = true
truthy (str String.[]) = false
truthy (str s) = true
truthy undefined = false
truthy null = false
truthy nan = false

-- `isString(value) && value !== "" ? value : null`
unfoldable pub text_or_null : Arg → Option String
text_or_null (str String.[]) = none
text_or_null (str s) = some s
text_or_null (int z) = none
text_or_null (bool b) = none
text_or_null undefined = none
text_or_null null = none
text_or_null nan = none
