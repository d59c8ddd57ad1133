-- ===== src/Go/Strconv.antt =====
-- `strconv.Atoi` of a 64-bit system. The loop of `ParseUint` stops at the first character that is no
-- digit, and at the first digit with which the number leaves 64 bits.
pub mod RoundTrip
use Prim.Native.Char.{Char, code}
use Prim.Native.String
use pdf_generator.Prelude.{
  ℕ, suc, ◌+◌, ◌-◌, ◌*◌, ◌^◌, String, Bool, true, false, ◌&&◌, if◌then◌else◌, leb, ltb, ◌==◌,
}
use pdf_generator.Prelude.Int.{ℤ, pos, negsuc}

pub data Parsed : Type 0 where
  no_number too_large : Parsed
  number : ℕ → Parsed

abbrev pub is_digit : ℕ → Bool
is_digit c = leb b'0' c && leb c b'9'

unfoldable pub parse_digits : ℕ → String → Parsed
parse_digits n String.[] = number n
parse_digits n (String.◌∷◌ c s) =
    let m = n * 10 + (code c - b'0') in
    let rest = parse_digits m s in
    if is_digit (code c) then if ltb m (2 ^ 64) then rest else too_large else no_number

-- What is behind the sign: at least one character.
unfoldable pub parse_uint : String → Parsed
parse_uint String.[] = no_number
parse_uint (String.◌∷◌ c s) = parse_digits 0 (String.◌∷◌ c s)

-- -n
abbrev pub minus : ℕ → ℤ
minus n = if n == 0 then pos 0 else negsuc (n - 1)

-- The value, and whether there is no error. A number out of range gives the nearest `int` with an
-- error.
abbrev pub signed : Bool → Parsed → ℤ × Bool
signed is_minus no_number = (pos 0, false)
signed false too_large = (pos (2 ^ 63 - 1), false)
signed true too_large = (minus (2 ^ 63), false)
signed false (number n) = if ltb n (2 ^ 63) then (pos n, true) else (pos (2 ^ 63 - 1), false)
signed true (number n) = if leb n (2 ^ 63) then (minus n, true) else (minus (2 ^ 63), false)

unfoldable pub atoi : String → ℤ × Bool
unfolding parse_uint
atoi String.[] = (pos 0, false)
atoi (String.◌∷◌ c s) =
    if code c == b'-'
    then signed true (parse_uint s)
    else if code c == b'+'
    then signed false (parse_uint s)
    else signed false (parse_uint (String.◌∷◌ c s))
