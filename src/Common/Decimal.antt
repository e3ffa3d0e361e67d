-- ===== src/Common/Decimal.antt =====
-- Numerals: `str(n)`, and `int(text, 10)` and `int(text, 16)` of texts of digits.
use Prim.Native.Nat.{ℕ, zero, suc, ◌+◌, ◌-◌, ◌*◌, ◌/◌, ◌%◌, ◌^◌, ◌≤◌, ◌<◌}
use mathlib.Core.Path.{◌≡◌, refl, subst}
use mathlib.Core.Logic.{inl, inr}
use mathlib.Core.Bool.{true, false, ◌&&◌}
use mathlib.Core.List.{[], ◌∷◌}
use native.Mathlib.Omega.{arith}
use native.Mathlib.Nat.{pow-suc, pow-zero}
use private_onyx_app.Common.Tests.{ltb, leb, if◌then◌else◌, Bool-cases}
use private_onyx_app.Common.Lists.{All, length}
use private_onyx_app.Common.Errors.{Result, ok, raise, value_error}
use private_onyx_app.Common.Strings.{codes, Text, is_digit, is_empty}

-- int(text, 10) after the digits that make `acc`
unfoldable pub of_digits : ℕ → Text → ℕ
of_digits acc [] = acc
of_digits acc (c ∷ t) = of_digits (acc * 10 + (c - b'0')) t

unfoldable pub hex_value : ℕ → ℕ
hex_value c =
    if leb b'0' c && leb c b'9'
    then c - b'0'
    else if leb b'A' c && leb c b'F'
    then c - b'A' + 10
    else c - b'a' + 10

-- int(text, 16)
unfoldable pub of_hex : ℕ → Text → ℕ
unfolding hex_value
of_hex acc [] = acc
of_hex acc (c ∷ t) = of_hex (acc * 16 + hex_value c) t

-- The digits of `n` before `out`; `suc n` rounds are enough, since each divides by ten.
digits_before : ℕ → ℕ → Text → Text
digits_before zero n out = out
digits_before (suc fuel) n out =
    let rest = digits_before fuel (n / 10) ((n % 10 + b'0') ∷ out) in
    if ltb n 10 then (n + b'0') ∷ out else rest

-- str(n)
unfoldable pub decimal : ℕ → Text
unfolding digits_before
decimal n = digits_before (suc n) n []

of_digits-digits_before :
    (fuel n : ℕ) (out : Text) → n < fuel → of_digits 0 (digits_before fuel n out) ≡ of_digits n out
unfolding of_digits digits_before
of_digits-digits_before zero n out h = absurd (omega arith)
of_digits-digits_before (suc fuel) n out h = elim (Bool-cases (ltb n 10)) [
  | inl e ↦ rw e (ground arith)
  | inr e ↦ rw e (ground (arith, of_digits-digits_before fuel (n / 10) ((n % 10 + b'0') ∷ out)))
]

-- Reading a printed number gives the number.
pub of_digits-decimal : (n : ℕ) → of_digits 0 (decimal n) ≡ n
unfolding decimal of_digits
of_digits-decimal n = of_digits-digits_before (suc n) n [] (omega arith)

abbrev pub AllDigits : Text → Type 0
AllDigits = All (λ c. is_digit c ≡ true)

digits_before-AllDigits :
    (fuel n : ℕ) (out : Text) → n < fuel → AllDigits out → AllDigits (digits_before fuel n out)
unfolding digits_before is_digit
digits_before-AllDigits zero n out h d = d
digits_before-AllDigits (suc fuel) n out h d = elim (Bool-cases (ltb n 10)) [
  | inl e ↦ rw e (ground arith)
  | inr e ↦ rw e (
      digits_before-AllDigits fuel (n / 10) ((n % 10 + b'0') ∷ out) (ground arith)
        (ground arith, d))
]

-- A printed number is made of digits, and there is one at least.
pub decimal-AllDigits : (n : ℕ) → AllDigits (decimal n)
unfolding decimal
decimal-AllDigits n = digits_before-AllDigits (suc n) n [] (omega arith) tt

digits_before-ne_empty :
    (fuel n c : ℕ) (out : Text) → is_empty (digits_before fuel n (c ∷ out)) ≡ false
unfolding digits_before is_empty
digits_before-ne_empty zero n c out = refl
digits_before-ne_empty (suc fuel) n c out =
    ground (arith, digits_before-ne_empty fuel (n / 10) (n % 10 + b'0') (c ∷ out))

pub decimal-ne_empty : (n : ℕ) → is_empty (decimal n) ≡ false
unfolding decimal is_empty
decimal-ne_empty n = ground (arith, digits_before-ne_empty n (n / 10) (n % 10 + b'0') [])

-- Python's limit on the digits of `int(text, 10)`, beyond which it raises ValueError.
abbrev pub max_str_digits : ℕ
max_str_digits = 4300

length-digits_before :
    (fuel n k : ℕ) (out : Text)
    → n < fuel
    → n < 10 ^ suc k
    → length (digits_before fuel n out) ≤ suc k + length out
unfolding digits_before
length-digits_before zero n k out h b = absurd (omega arith)
length-digits_before (suc fuel) n zero out h b = ground arith
length-digits_before (suc fuel) n (suc k) out h b = elim (Bool-cases (ltb n 10)) [
  | inl e ↦ rw e (omega arith)
  | inr e ↦ rw e (
      omega (
        arith,
        length-digits_before fuel (n / 10) k ((n % 10 + b'0') ∷ out) (ground arith)
            (omega (arith, pow-suc 10 (suc k))),
      ))
]

-- A number below 10 ^ k has at most k digits.
pub length-decimal : (n k : ℕ) → n < 10 ^ suc k → length (decimal n) ≤ suc k
unfolding decimal
length-decimal n k b = omega (arith, length-digits_before (suc n) n k [] (omega arith) b)

of_digits-lt : (t : Text) (acc b : ℕ) → AllDigits t → acc < b → of_digits acc t < b * 10 ^ length t
unfolding of_digits is_digit
of_digits-lt [] acc b d h = omega (arith, pow-zero 10)
of_digits-lt (c ∷ t) acc b d h =
    rw (pow-suc 10 (length t))
      (omega (arith, of_digits-lt t (acc * 10 + (c - b'0')) (b * 10) d.1 (ground arith)))

-- A number read from k digits is below 10 ^ k.
pub of_digits-lt_pow : (t : Text) → AllDigits t → of_digits 0 t < 10 ^ length t
of_digits-lt_pow t d = omega (arith, of_digits-lt t 0 1 d (omega arith))

-- int(text, 10) of a text of digits, or the ValueError of a text over Python's limit.
unfoldable pub parse_int : Text → Result ℕ
parse_int t =
    if ltb max_str_digits (length t)
    then raise value_error (codes "Exceeds the limit (4300 digits) for integer string conversion")
    else ok (of_digits 0 t)

-- A number of up to 4300 digits is read back from its print.
pub parse_int-decimal : (n : ℕ) → length (decimal n) ≤ max_str_digits → parse_int (decimal n) ≡ ok n
unfolding parse_int
parse_int-decimal n h = rw of_digits-decimal (ground arith)

digits_fit :
    (t : Text) (n k : ℕ) → n < 10 ^ length t → length t ≤ suc k → length (decimal n) ≤ suc k
digits_fit [] n k b h = omega (arith, length-decimal n 0 (omega arith))
digits_fit (c ∷ t) n k b h = omega (arith, length-decimal n (length t) b)

parse_int_inv :
    (t : Text) (n : ℕ) → parse_int t ≡ ok n → (of_digits 0 t ≡ n) × (length t ≤ max_str_digits)
unfolding parse_int
parse_int_inv t n h = ground arith

-- What `int` accepts has a print that `int` accepts: leading zeros only make the text longer.
pub parse_int-print :
    (t : Text) (n : ℕ) → AllDigits t → parse_int t ≡ ok n → parse_int (decimal n) ≡ ok n
parse_int-print t n d h =
    let (e, fits) = parse_int_inv t n h in
    parse_int-decimal n
      (digits_fit t n 4299 (subst (λ m. m < 10 ^ length t) e (of_digits-lt_pow t d)) fits)
