-- ===== src/Egress/Ports/RoundTrip.antt =====
-- About `_parse_allowed_host_ports` and the printer of its policy.
use private_onyx_app.Common.{
  ℕ, ◌≤◌, ◌<◌, ◌≡◌, refl, ap, sym, ◌∙◌, Bool, true, false, ◌||◌, List, [], ◌∷◌, ◌++◌, arith, ltb,
  ◌==◌, map, if◌then◌else◌, all, All, Text, codes, text_eq, is_empty, is_digit, strip, split_on,
  join, AllDigits, decimal, decimal-AllDigits, decimal-ne_empty, length-decimal, parse_int-decimal,
  Result, ok, ◌>>=◌, >>=-eq-ok, ok-injective, subst, lt→ltb, Bool-cases, inl, inr, append_assoc,
  append-nil,
}
use private_onyx_app.Common.Strings.Splitting.{
  Avoids, split_on-plain, split_on-append, strip-Avoids, Avoids-append,
}
use private_onyx_app.Egress.Ports.{
  parse_port_list, add_port, is_port_blank, parse_port_item, parse_port_items,
  parse_allowed_host_ports, format_host_port_policy,
}

parse_port_items-nil : (ports : List ℕ) → parse_port_items ports [] ≡ ok ports
unfolding parse_port_items
parse_port_items-nil ports = refl

parse_port_items-cons :
    (ports : List ℕ) (item : Text) (items : List Text)
    → parse_port_items ports (item ∷ items) ≡ (
        parse_port_item (strip is_port_blank item) >>= λ port.
        parse_port_items (add_port port ports) items)
unfolding parse_port_items
parse_port_items-cons ports item items = refl

abbrev policy : Bool → List ℕ → Result (Bool × List ℕ)
policy everything ports = ok (everything, ports)

-- Ascending ports, all of them above `low` and at most 65535.
abbrev pub ValidAbove : ℕ → List ℕ → Type 0
ValidAbove low [] = Unit
ValidAbove low (p ∷ ports) = (low < p) × (p ≤ 65535) × ValidAbove p ports

add_port-ValidAbove :
    (low port : ℕ) (ports : List ℕ)
    → low < port
    → port ≤ 65535
    → ValidAbove low ports
    → ValidAbove low (add_port port ports)
unfolding add_port
add_port-ValidAbove low port [] l h v = (l, h, tt)
add_port-ValidAbove low port (p ∷ ports) l h v = elim (Bool-cases (ltb port p)) [
  | inl before ↦ rw before (l, h, (ground arith, v.1, v.2))
  | inr after ↦ elim (Bool-cases (port == p)) [
    | inl same ↦ rw (after, same) v
    | inr other ↦
        rw (after, other) (v.0, v.1, add_port-ValidAbove p port ports (ground arith) h v.2)
  ]
]

parse_port_item_range :
    (t : Text) (port : ℕ) → parse_port_item t ≡ ok port → (0 < port) × (port ≤ 65535)
unfolding parse_port_item
parse_port_item_range t port h = ground arith

parse_port_items-ValidAbove :
    (ports : List ℕ) (items : List Text) (result : List ℕ)
    → ValidAbove 0 ports
    → parse_port_items ports items ≡ ok result
    → ValidAbove 0 result
unfolding parse_port_items
parse_port_items-ValidAbove ports [] result v h = subst (ValidAbove 0) (ok-injective h) v
parse_port_items-ValidAbove ports (item ∷ items) result v h =
    let (port, e, rest) =
      >>=-eq-ok (parse_port_item (strip is_port_blank item))
        (λ port. parse_port_items (add_port port ports) items) h in
    let (low, high) = parse_port_item_range (strip is_port_blank item) port e in
    parse_port_items-ValidAbove (add_port port ports) items result
      (add_port-ValidAbove 0 port ports low high v) rest

-- What the theorem below says of a policy.
abbrev pub IsPortPolicy : Bool → List ℕ → Type 0
IsPortPolicy everything ports = ValidAbove 0 ports × (everything ≡ true → ports ≡ [])

IsPortPolicy-no_ports :
    (b everything : Bool) (ports : List ℕ)
    → policy b [] ≡ ok (everything, ports)
    → IsPortPolicy everything ports
IsPortPolicy-no_ports b everything ports h =
    let e : [] ≡ ports = cc h in (subst (ValidAbove 0) e tt, λ _. sym e)

parse_port_list-valid :
    (value : Text) (everything : Bool) (ports : List ℕ)
    → parse_port_list value ≡ ok (everything, ports)
    → IsPortPolicy everything ports
unfolding parse_port_list
parse_port_list-valid value everything ports h =
    let (found, e, same) =
      >>=-eq-ok (parse_port_items [] (split_on b',' value)) (λ (r : List ℕ). policy false r) h in
    let eq : found ≡ ports = cc same in
    (
      subst (ValidAbove 0) eq (parse_port_items-ValidAbove [] (split_on b',' value) found tt e),
      λ on. cc (same, on),
    )

-- Whatever the text, a policy that is accepted lists ports between 1 and 65535 only, each once and
-- in ascending order, and no port beside "all".
pub parse_allowed_host_ports-valid :
    (raw : Text) (everything : Bool) (ports : List ℕ)
    → parse_allowed_host_ports raw ≡ ok (everything, ports)
    → ValidAbove 0 ports × (everything ≡ true → ports ≡ [])
unfolding parse_allowed_host_ports
parse_allowed_host_ports-valid raw everything ports =
    by_tests (is_empty value || text_eq value (codes "none")) (text_eq value (codes "all"))
  where
    value : Text
    value = strip is_port_blank raw

    by_tests :
        (unset every : Bool)
        → (if unset then ok (false, []) else if every then ok (true, []) else parse_port_list value)
          ≡ ok (everything, ports)
        → IsPortPolicy everything ports
    by_tests true every h = IsPortPolicy-no_ports false everything ports h
    by_tests false true h = IsPortPolicy-no_ports true everything ports h
    by_tests false false h = parse_port_list-valid value everything ports h

no_blank : (t : Text) → AllDigits t → Avoids is_port_blank t
unfolding is_digit is_port_blank
no_blank [] d = tt
no_blank (c ∷ t) d = (ground arith, no_blank t d.1)

no_comma : (t : Text) → AllDigits t → Avoids (λ c. c == b',') t
unfolding is_digit
no_comma [] d = tt
no_comma (c ∷ t) d = (ground arith, no_comma t d.1)

all-is_digit : (t : Text) → AllDigits t → all is_digit t ≡ true
unfolding all
all-is_digit [] d = refl
all-is_digit (c ∷ t) d = rw (d.0, all-is_digit t d.1)

parse_port_item-decimal : (p : ℕ) → 0 < p → p ≤ 65535 → parse_port_item (decimal p) ≡ ok p
unfolding parse_port_item
parse_port_item-decimal p l h =
    rw
      (
        decimal-ne_empty p,
        all-is_digit (decimal p) (decimal-AllDigits p),
        parse_int-decimal p (omega (arith, length-decimal p 4 (omega arith))),
        lt→ltb 0 p l,
      )
      (ground arith)

add_port-last :
    (ports : List ℕ) (p : ℕ) → All (λ q. q < p) ports → add_port p ports ≡ ports ++ (p ∷ [])
unfolding add_port
add_port-last [] p h = refl
add_port-last (q ∷ ports) p h = ground (arith, add_port-last ports p h.1)

All-lt_append :
    (ports : List ℕ) (p q : ℕ)
    → All (λ r. r < p) ports
    → p < q
    → All (λ r. r < q) (ports ++ (p ∷ []))
All-lt_append [] p q h l = (l, tt)
All-lt_append (r ∷ ports) p q h l = (omega arith, All-lt_append ports p q h.1 l)

parse_port_items-step :
    (before : List ℕ) (p : ℕ) (items : List Text)
    → All (λ q. q < p) before
    → 0 < p
    → p ≤ 65535
    → parse_port_items before (decimal p ∷ items) ≡ parse_port_items (before ++ (p ∷ [])) items
parse_port_items-step before p items b l h = rw (
  parse_port_items-cons,
  strip-Avoids is_port_blank (decimal p) (no_blank (decimal p) (decimal-AllDigits p)),
  parse_port_item-decimal p l h,
  add_port-last before p b,
)

-- The items of a printed list are added behind the ports that are there.
parse_port_items-print :
    (before : List ℕ) (p : ℕ) (ports : List ℕ)
    → All (λ q. q < p) before
    → 0 < p
    → p ≤ 65535
    → ValidAbove p ports
    → parse_port_items before (map decimal (p ∷ ports)) ≡ ok (before ++ (p ∷ ports))
parse_port_items-print before p [] b l h v =
    parse_port_items-step before p [] b l h ∙ parse_port_items-nil (before ++ (p ∷ []))
parse_port_items-print before p (q ∷ ports) b l h v =
    parse_port_items-step before p (map decimal (q ∷ ports)) b l h
    ∙ parse_port_items-print (before ++ (p ∷ [])) q ports (All-lt_append before p q b v.0)
        (omega arith) v.1 v.2
    ∙ ap ok (append_assoc before (p ∷ []) (q ∷ ports))

split-print :
    (p : ℕ) (ports : List ℕ)
    → split_on b',' (join (codes ",") (map decimal (p ∷ ports))) ≡ map decimal (p ∷ ports)
unfolding join
split-print p [] = split_on-plain b',' (decimal p) (no_comma (decimal p) (decimal-AllDigits p))
split-print p (q ∷ ports) =
    split_on-append b',' (decimal p) _ (no_comma (decimal p) (decimal-AllDigits p))
    ∙ ap (λ r. decimal p ∷ r) (split-print q ports)

print-no_blank :
    (p : ℕ) (ports : List ℕ) → Avoids is_port_blank (join (codes ",") (map decimal (p ∷ ports)))
unfolding join is_port_blank
print-no_blank p [] = no_blank (decimal p) (decimal-AllDigits p)
print-no_blank p (q ∷ ports) =
    Avoids-append is_port_blank (decimal p) _ (no_blank (decimal p) (decimal-AllDigits p))
      (refl, print-no_blank q ports)

-- A text that begins with a digit is no keyword.
no_keyword :
    (t rest : Text) (c : ℕ) (w : Text)
    → is_empty t ≡ false
    → AllDigits t
    → is_digit c ≡ false
    → text_eq (t ++ rest) (c ∷ w) ≡ false
unfolding is_empty is_digit text_eq
no_keyword [] rest c w e d k = cc
no_keyword (a ∷ t) rest c w e d k = ground arith

letter_n : is_digit b'n' ≡ false
unfolding is_digit
letter_n = refl

letter_a : is_digit b'a' ≡ false
unfolding is_digit
letter_a = refl

is_empty-append : (s t : Text) → is_empty s ≡ false → is_empty (s ++ t) ≡ false
unfolding is_empty
is_empty-append [] t h = cc
is_empty-append (c ∷ s) t h = refl

all_keyword : parse_allowed_host_ports (codes "all") ≡ ok (true, [])
unfolding parse_allowed_host_ports strip is_port_blank is_empty text_eq
all_keyword = refl

none_keyword : parse_allowed_host_ports (codes "none") ≡ ok (false, [])
unfolding parse_allowed_host_ports strip is_port_blank is_empty text_eq
none_keyword = refl

print-begins :
    (p : ℕ) (ports : List ℕ)
    → (rest : Text) × (join (codes ",") (map decimal (p ∷ ports)) ≡ decimal p ++ rest)
unfolding join
print-begins p [] = ([], sym (append-nil (decimal p)))
print-begins p (q ∷ ports) = (b',' ∷ join (codes ",") (map decimal (q ∷ ports)), refl)

keyword_tests :
    (p : ℕ) (ports : List ℕ) (text : Text)
    → text ≡ join (codes ",") (map decimal (p ∷ ports))
    → (is_empty text ≡ false)
      × (text_eq text (codes "none") ≡ false)
      × (text_eq text (codes "all") ≡ false)
keyword_tests p ports text e =
    let (rest, begins) = print-begins p ports in
    rw (e, begins)
      (
        is_empty-append (decimal p) rest (decimal-ne_empty p),
        no_keyword (decimal p) rest b'n' (codes "one") (decimal-ne_empty p) (decimal-AllDigits p)
            letter_n,
        no_keyword (decimal p) rest b'a' (codes "ll") (decimal-ne_empty p) (decimal-AllDigits p)
            letter_a,
      )

parse_port_list-print :
    (p : ℕ) (ports : List ℕ)
    → ValidAbove 0 (p ∷ ports)
    → parse_port_list (join (codes ",") (map decimal (p ∷ ports))) ≡ ok (false, p ∷ ports)
unfolding parse_port_list
parse_port_list-print p ports v =
    rw (split-print p ports, parse_port_items-print [] p ports tt v.0 v.1 v.2)

parse-print :
    (p : ℕ) (ports : List ℕ)
    → ValidAbove 0 (p ∷ ports)
    → parse_allowed_host_ports (join (codes ",") (map decimal (p ∷ ports))) ≡ ok (false, p ∷ ports)
unfolding parse_allowed_host_ports
parse-print p ports v =
    let text = join (codes ",") (map decimal (p ∷ ports)) in
    let clean = strip-Avoids is_port_blank text (print-no_blank p ports) in
    let (some_text, not_none, not_all) = keyword_tests p ports text refl in
    rw (clean, some_text, not_none, not_all) (parse_port_list-print p ports v)

-- The printed policy of any valid one is parsed to it: the log line shows what is enforced.
pub parse-format :
    (everything : Bool) (ports : List ℕ)
    → ValidAbove 0 ports
    → (everything ≡ true → ports ≡ [])
    → parse_allowed_host_ports (format_host_port_policy everything ports) ≡ ok (everything, ports)
unfolding parse_allowed_host_ports format_host_port_policy
parse-format true ports v only = all_keyword ∙ ap (policy true) (sym (only refl))
parse-format false [] v only = none_keyword
parse-format false (p ∷ ports) v only = parse-print p ports v
