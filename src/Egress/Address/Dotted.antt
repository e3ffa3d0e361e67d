-- ===== src/Egress/Address/Dotted.antt =====
-- The dotted form of IPv4 addresses: reading what was printed, and which texts are read at all.
use private_onyx_app.Common.{
  ℕ, zero, suc, ◌/◌, ◌%◌, ◌^◌, ◌<◌, ◌≡◌, refl, ap, Bool, true, false, ◌&&◌, [], ◌∷◌, ◌++◌, Option,
  none, some, arith, ◌==◌, AllDigits, decimal, decimal-AllDigits, Text, split_on, is_digit,
}
use private_onyx_app.Common.Strings.Splitting.{split_on-plain, split_on-append, Avoids}
use private_onyx_app.Egress.Address.{parse_octet, octets, four_parts, parse_v4, print_v4}

-- A check of every number below a bound, by evaluation.
passes_up_to : (ℕ → Bool) → ℕ → Bool
passes_up_to test zero = true
passes_up_to test (suc bound) = let smaller = passes_up_to test bound in smaller && test bound

below_passes :
    (test : ℕ → Bool) (bound k : ℕ) → k < bound → passes_up_to test bound ≡ true → test k ≡ true
unfolding passes_up_to
below_passes test zero k small passed = absurd (omega arith)
below_passes test (suc bound) k small passed = ground (arith, below_passes test bound k)

octet_test : ℕ → Bool
unfolding parse_octet decimal
octet_test n = elim (parse_octet (decimal n)) [ none ↦ false | some m ↦ m == n ]

octet_table : passes_up_to octet_test 256 ≡ true
unfolding passes_up_to octet_test
octet_table = refl

octet_of_test :
    (n : ℕ) (o : Option ℕ) → elim o [ none ↦ false | some m ↦ m == n ] ≡ true → o ≡ some n
octet_of_test n none h = cc
octet_of_test n (some m) h = ground arith

pub parse_octet-decimal : (n : ℕ) → n < 256 → parse_octet (decimal n) ≡ some n
parse_octet-decimal n h =
    octet_of_test n (parse_octet (decimal n))
      (unfold octet_test in below_passes octet_test 256 n h octet_table)

digits-no_dot : (t : Text) → AllDigits t → Avoids (λ c. c == b'.') t
unfolding is_digit
digits-no_dot [] h = tt
digits-no_dot (c ∷ t) h = (ground arith, digits-no_dot t h.1)

decimal-no_dot : (n : ℕ) → Avoids (λ c. c == b'.') (decimal n)
decimal-no_dot n = digits-no_dot (decimal n) (decimal-AllDigits n)

split_dotted :
    (a b c d : ℕ)
    → split_on b'.'
        (decimal a ++ (b'.' ∷ (decimal b ++ (b'.' ∷ (decimal c ++ (b'.' ∷ decimal d))))))
      ≡ decimal a ∷ decimal b ∷ decimal c ∷ decimal d ∷ []
split_dotted a b c d = rw (
  split_on-append b'.' (decimal a) _ (decimal-no_dot a),
  split_on-append b'.' (decimal b) _ (decimal-no_dot b),
  split_on-append b'.' (decimal c) _ (decimal-no_dot c),
  split_on-plain b'.' (decimal d) (decimal-no_dot d),
)

-- A printed address is read back, for every 32-bit value.
pub parse_v4-print_v4 : (n : ℕ) → n < 2 ^ 32 → parse_v4 (print_v4 n) ≡ some n
unfolding parse_v4 print_v4 four_parts octets
parse_v4-print_v4 n h =
    rw
      (
        split_dotted,
        parse_octet-decimal (n / 2 ^ 24) (omega arith),
        parse_octet-decimal (n / 2 ^ 16 % 256) (omega arith),
        parse_octet-decimal (n / 2 ^ 8 % 256) (omega arith),
        parse_octet-decimal (n % 256) (omega arith),
      )
      (ap some (omega arith))
