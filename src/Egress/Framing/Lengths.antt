-- ===== src/Egress/Framing/Lengths.antt =====
-- About the values of Content-Length, read and printed.
use private_onyx_app.Common.{
  ℕ, ◌≡◌, refl, true, List, [], ◌∷◌, some, arith, ◌==◌, all, Text, is_digit, is_space, AllDigits,
  decimal, decimal-AllDigits, decimal-ne_empty, parse_int, parse_int-print, ok,
}
use private_onyx_app.Common.Strings.Splitting.{Avoids, split_on-plain, strip-Avoids}
use private_onyx_app.Egress.Framing.{is_decimal, length_items, single_length, content_length_of}

pub AllDigits-of_all : (t : Text) → all is_digit t ≡ true → AllDigits t
unfolding all
AllDigits-of_all [] h = tt
AllDigits-of_all (c ∷ t) h = (ground arith, AllDigits-of_all t (ground arith))

pub all-AllDigits : (t : Text) → AllDigits t → all is_digit t ≡ true
unfolding all
all-AllDigits [] d = refl
all-AllDigits (c ∷ t) d = ground (arith, all-AllDigits t d.1)

digits-no_comma : (t : Text) → AllDigits t → Avoids (λ c. c == b',') t
unfolding is_digit
digits-no_comma [] d = tt
digits-no_comma (c ∷ t) d = (ground arith, digits-no_comma t d.1)

digits-no_space : (t : Text) → AllDigits t → Avoids is_space t
unfolding is_digit is_space
digits-no_space [] d = tt
digits-no_space (c ∷ t) d = (ground arith, digits-no_space t d.1)

-- The printed number is one item of a Content-Length value.
pub length_items-decimal : (n : ℕ) → length_items (decimal n ∷ []) ≡ decimal n ∷ []
unfolding length_items
length_items-decimal n =
    let d = decimal-AllDigits n in
    rw (
      split_on-plain b',' (decimal n) (digits-no_comma (decimal n) d),
      strip-Avoids is_space (decimal n) (digits-no_space (decimal n) d),
    )

single_length-head : (n m : ℕ) (ns : List ℕ) → single_length (n ∷ ns) ≡ ok m → n ≡ m
unfolding single_length
single_length-head n m ns h = ground arith

is_decimal-all : (t : Text) → is_decimal t ≡ true → all is_digit t ≡ true
unfolding is_decimal
is_decimal-all t h = ground arith

is_decimal-decimal : (n : ℕ) → is_decimal (decimal n) ≡ true
unfolding is_decimal
is_decimal-decimal n = rw (decimal-ne_empty n, all-AllDigits (decimal n) (decimal-AllDigits n))

content_length_of-single :
    (t : Text) (n : ℕ)
    → is_decimal t ≡ true
    → parse_int t ≡ ok n
    → content_length_of (t ∷ []) ≡ ok (some n)
unfolding content_length_of all
content_length_of-single t n d e = rw (d, e)

-- A length that several items agreed on is the number in the first of them.
content_length_first :
    (item : Text) (items : List Text) (n : ℕ)
    → content_length_of (item ∷ items) ≡ ok (some n)
    → (is_decimal item ≡ true) × (parse_int item ≡ ok n)
unfolding content_length_of
content_length_first item items n h = ground arith

pub content_length-print :
    (items : List Text) (n : ℕ)
    → content_length_of items ≡ ok (some n)
    → content_length_of (decimal n ∷ []) ≡ ok (some n)
content_length-print [] n h = unfold content_length_of in cc h
content_length-print (item ∷ items) n h =
    let (d, e) = content_length_first item items n h in
    content_length_of-single (decimal n) n (is_decimal-decimal n)
      (parse_int-print item n (AllDigits-of_all item (is_decimal-all item d)) e)
