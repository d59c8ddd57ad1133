-- ===== src/Go/Strconv/RoundTrip.antt =====
-- `Atoi` of the digits that `%d` writes.
use Prim.Native.Char.{Char, code}
use Prim.Native.String.{◌++◌}
use text.Mathlib.TextLemmas.{nil-append, cons-append, append_assoc, append-nil}
use pdf_generator.Prelude.{
  ℕ, zero, suc, ◌+◌, ◌-◌, ◌*◌, ◌/◌, ◌%◌, ◌^◌, ◌≤◌, ◌<◌, ◌≡◌, refl, sym, ap, ◌∙◌, String, true,
  false, if◌then◌else◌, ltb, ◌==◌, Bool-cases, inl, inr, arith, ltb→lt,
}
use pdf_generator.Prelude.Int.{ℤ, pos, negsuc, IsInt64}
use pdf_generator.Go.{digit, digits, show_nat, show_int}
use pdf_generator.Go.Strconv.{
  Parsed, no_number, too_large, number, is_digit, parse_digits, parse_uint, signed, atoi,
}

digit-char :
    (d : ℕ) → d < 10 → (c : Char) × (digit d ≡ String.◌∷◌ c String.[]) × (code c ≡ b'0' + d)
digit-char zero h = ("0", refl, refl)
digit-char (suc zero) h = ("1", refl, refl)
digit-char (suc (suc zero)) h = ("2", refl, refl)
digit-char (suc (suc (suc zero))) h = ("3", refl, refl)
digit-char (suc (suc (suc (suc zero)))) h = ("4", refl, refl)
digit-char (suc (suc (suc (suc (suc zero))))) h = ("5", refl, refl)
digit-char (suc (suc (suc (suc (suc (suc zero)))))) h = ("6", refl, refl)
digit-char (suc (suc (suc (suc (suc (suc (suc zero))))))) h = ("7", refl, refl)
digit-char (suc (suc (suc (suc (suc (suc (suc (suc zero)))))))) h = ("8", refl, refl)
digit-char (suc (suc (suc (suc (suc (suc (suc (suc (suc zero))))))))) h = ("9", refl, refl)
digit-char (suc (suc (suc (suc (suc (suc (suc (suc (suc (suc n)))))))))) h = absurd (omega arith)

parse-char :
    (n d x : ℕ) (rest : Parsed)
    → d < 10
    → n * 10 + d < 2 ^ 64
    → x ≡ b'0' + d
    → (if is_digit x
        then if ltb (n * 10 + (x - b'0')) (2 ^ 64) then rest else too_large
        else no_number)
      ≡ rest
parse-char n d x rest h k e = ground arith

parse-digit :
    (n d : ℕ) (t : String)
    → d < 10
    → n * 10 + d < 2 ^ 64
    → parse_digits n (digit d ++ t) ≡ parse_digits (n * 10 + d) t
unfolding parse_digits
parse-digit n d t h k =
    let (c, is_c, is_code) = digit-char d h in
    ap (λ s. parse_digits n (s ++ t)) is_c
    ∙ ap (parse_digits n) (cons-append c String.[] t ∙ ap (String.◌∷◌ c) (nil-append t))
    ∙ parse-char n d (code c) _ h k is_code
    ∙ ap (λ m. parse_digits m t) (is_value (code c) is_code)
  where
    is_value : (x : ℕ) → x ≡ b'0' + d → n * 10 + (x - b'0') ≡ n * 10 + d
    is_value x e = omega arith

tenth : (n fuel : ℕ) → 10 ≤ n → n < suc fuel → n / 10 < fuel
tenth n fuel h k = omega arith

-- The digits of n, read from 0 on, give n.
parse-digits :
    (fuel n : ℕ) (t : String)
    → n < fuel
    → n < 2 ^ 64
    → parse_digits 0 (digits fuel n ++ t) ≡ parse_digits n t
unfolding digits
parse-digits zero n t h k = absurd (omega arith)
parse-digits (suc fuel) n t h k = elim (Bool-cases (ltb n 10)) [
  | inl one ↦
      rw one
        (parse-digit 0 n t (ltb→lt n 10 one) (omega arith) ∙ ap (λ m. parse_digits m t) (plain n))
  | inr more ↦ rw more (
      ap (parse_digits 0) (append_assoc (digits fuel (n / 10)) (digit (n % 10)) t)
      ∙ parse-digits fuel (n / 10) (digit (n % 10) ++ t) (smaller more) (omega arith)
      ∙ parse-digit (n / 10) (n % 10) t (omega arith) (omega arith)
      ∙ ap (λ m. parse_digits m t) (whole n))
]
  where
    smaller : ltb n 10 ≡ false → n / 10 < fuel
    smaller m = tenth n fuel (ground arith) h

    plain : (n : ℕ) → 0 * 10 + n ≡ n
    plain n = omega arith

    whole : (n : ℕ) → n / 10 * 10 + n % 10 ≡ n
    whole n = omega arith

-- A text that begins with a digit, and so has no sign.
BeginsWithDigit : String → Type 0
BeginsWithDigit s =
    (c : Char) × (rest : String) × (s ≡ String.◌∷◌ c rest) × (is_digit (code c) ≡ true)

digit-BeginsWithDigit : (d : ℕ) (t : String) → d < 10 → BeginsWithDigit (digit d ++ t)
unfolding BeginsWithDigit
digit-BeginsWithDigit d t h =
    let (c, is_c, is_code) = digit-char d h in
    (
      c,
      t,
      ap (λ s. s ++ t) is_c ∙ cons-append c String.[] t ∙ ap (String.◌∷◌ c) (nil-append t),
      in_range (code c) is_code,
    )
  where
    in_range : (x : ℕ) → x ≡ b'0' + d → is_digit x ≡ true
    in_range x e = ground arith

digits-BeginsWithDigit : (fuel n : ℕ) (t : String) → n < fuel → BeginsWithDigit (digits fuel n ++ t)
unfolding digits
digits-BeginsWithDigit zero n t h = absurd (omega arith)
digits-BeginsWithDigit (suc fuel) n t h = elim (Bool-cases (ltb n 10)) [
  | inl one ↦ rw one (digit-BeginsWithDigit n t (ltb→lt n 10 one))
  | inr more ↦ rw more (
      rw (append_assoc (digits fuel (n / 10)) (digit (n % 10)) t)
        (digits-BeginsWithDigit fuel (n / 10) (digit (n % 10) ++ t) (smaller more)))
]
  where
    smaller : ltb n 10 ≡ false → n / 10 < fuel
    smaller m = tenth n fuel (ground arith) h

parse_uint-digits : (fuel n : ℕ) → n < fuel → n < 2 ^ 64 → parse_uint (digits fuel n) ≡ number n
unfolding parse_uint parse_digits BeginsWithDigit
parse_uint-digits fuel n h k =
    let (c, rest, begins, _) = digits-BeginsWithDigit fuel n "" h in
    let whole = sym (append-nil (digits fuel n)) in
    ap parse_uint (whole ∙ begins) ∙ ap (parse_digits 0) (sym begins) ∙ parse-digits fuel n "" h k

unsigned :
    (c : Char) (s : String)
    → is_digit (code c) ≡ true
    → atoi (String.◌∷◌ c s) ≡ signed false (parse_uint (String.◌∷◌ c s))
unfolding atoi
unsigned c s h = by_code (code c) h
  where
    by_code :
        (x : ℕ)
        → is_digit x ≡ true
        → (if x == b'-'
            then signed true (parse_uint s)
            else if x == b'+'
            then signed false (parse_uint s)
            else signed false (parse_uint (String.◌∷◌ c s)))
          ≡ signed false (parse_uint (String.◌∷◌ c s))
    by_code x d = ground arith

atoi-show_nat : (n : ℕ) → n < 2 ^ 63 → atoi (show_nat n) ≡ (pos n, true)
unfolding show_nat BeginsWithDigit
atoi-show_nat n h =
    let (c, rest, begins, is_first) = digits-BeginsWithDigit (n + 1) n "" (omega arith) in
    let same = sym (append-nil (digits (n + 1) n)) ∙ begins in
    ap atoi same
    ∙ unsigned c rest is_first
    ∙ ap (λ s. signed false (parse_uint s)) (sym same)
    ∙ ap (signed false) (parse_uint-digits (n + 1) n (omega arith) (omega arith))
    ∙ in_range
  where
    in_range : signed false (number n) ≡ (pos n, true)
    in_range = ground arith

-- `Atoi` reads back what `%d` writes of any `int`.
pub atoi-show_int : (i : ℤ) → IsInt64 i → atoi (show_int i) ≡ (i, true)
unfolding show_int show_nat atoi
atoi-show_int (pos n) h = atoi-show_nat n (omega arith)
atoi-show_int (negsuc n) h =
    ap atoi (
      cons-append "-" String.[] (show_nat (suc n))
      ∙ ap (String.◌∷◌ "-") (nil-append (show_nat (suc n))))
    ∙ ap (signed true) (parse_uint-digits (suc n + 1) (suc n) (omega arith) (omega arith))
    ∙ in_range
  where
    in_range : signed true (number (suc n)) ≡ (negsuc n, true)
    in_range = ground arith
