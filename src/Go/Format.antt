-- ===== src/Go/Format.antt =====
-- `%d` of fmt: decimal digits of an `int`.
use Prim.Native.String.{◌++◌}
use pdf_generator.Prelude.{ℕ, zero, suc, ◌+◌, ◌/◌, ◌%◌, String, if◌then◌else◌, ltb, ◌==◌}
use pdf_generator.Prelude.Int.{ℤ, pos, negsuc}

abbrev pub digit : ℕ → String
digit n =
    if n == 0
    then "0"
    else if n == 1
    then "1"
    else if n == 2
    then "2"
    else if n == 3
    then "3"
    else if n == 4
    then "4"
    else if n == 5
    then "5"
    else if n == 6
    then "6"
    else if n == 7
    then "7"
    else if n == 8
    then "8"
    else "9"

unfoldable pub digits : ℕ → ℕ → String
digits zero n = ""
digits (suc fuel) n =
    let rest = digits fuel (n / 10) in if ltb n 10 then digit n else rest ++ digit (n % 10)

-- A number n has at most n + 1 digits, so the fuel is enough.
unfoldable pub show_nat : ℕ → String
unfolding digits
show_nat n = digits (n + 1) n

unfoldable pub show_int : ℤ → String
unfolding show_nat
show_int (pos n) = show_nat n
show_int (negsuc n) = "-" ++ show_nat (suc n)
