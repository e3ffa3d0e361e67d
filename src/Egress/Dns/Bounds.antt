-- ===== src/Egress/Dns/Bounds.antt =====
-- About the DNS parser: the offsets behind the names that it skips, and the addresses of a response.
use private_onyx_app.Common.{
  ℕ, zero, suc, ◌+◌, ◌/◌, ◌%◌, ◌^◌, ◌≤◌, ◌<◌, ◌≡◌, refl, sym, subst, Bool, true, false, List, [],
  ◌∷◌, ◌++◌, some, arith, leb, ◌==◌, if◌then◌else◌, length, All, Text, codes, member, Result, ok,
  require_inv, not, ◌&&◌, value_error, os_error, >>=-eq-ok, ◌⊎◌, raise, ok-injective, err-ne-ok, ap,
  Bool-cases, inl, inr, leb→le,
}
use private_onyx_app.Egress.Address.{quad, parse_v4}
use private_onyx_app.Egress.Address.Dotted.{parse_v4-print_v4}
use private_onyx_app.Egress.Dns.{
  Label, after_label, name_end, next_label, byte_at, word_at, read_label, skip_labels,
  skip_dns_name, skip_questions, add_address, address_at, read_record, read_answers, read_sections,
  parse_dns_a_response,
}

read_label-name_end :
    (message : List ℕ) (offset next : ℕ)
    → read_label message offset ≡ name_end next
    → (offset < next) × (next ≤ length message)
unfolding read_label
read_label-name_end message offset next h = ground arith

read_label-next_label :
    (message : List ℕ) (offset next : ℕ)
    → read_label message offset ≡ next_label next
    → (offset < next) × (next ≤ length message)
unfolding read_label
read_label-next_label message offset next h = ground arith

after_label_inv :
    (label : Label) (go_on : ℕ → Result ℕ) (next : ℕ)
    → after_label label go_on ≡ ok next
    → (label ≡ name_end next) ⊎ ((n : ℕ) × (label ≡ next_label n) × (go_on n ≡ ok next))
unfolding after_label
after_label_inv (name_end n) go_on next h = inl (ap name_end (ok-injective h))
after_label_inv (next_label n) go_on next h = inr (n, refl, h)
after_label_inv _ go_on next h = absurd (err-ne-ok h)

skip_labels-zero :
    (message : List ℕ) (offset : ℕ)
    → skip_labels 0 message offset
      ≡ after_label
          (read_label message offset)
          (λ next. raise value_error (codes "invalid DNS name"))
unfolding skip_labels
skip_labels-zero message offset = refl

skip_labels-suc :
    (left : ℕ) (message : List ℕ) (offset : ℕ)
    → skip_labels (suc left) message offset
      ≡ after_label (read_label message offset) (λ next. skip_labels left message next)
unfolding skip_labels
skip_labels-suc left message offset = refl

skip_labels_bounds :
    (left : ℕ) (message : List ℕ) (offset next : ℕ)
    → skip_labels left message offset ≡ ok next
    → (offset < next) × (next ≤ length message)
skip_labels_bounds zero message offset next h =
    elim (after_label_inv (read_label message offset) _ next (rw skip_labels-zero at h)) [
      | inl e ↦ read_label-name_end message offset next e
      | inr r ↦ absurd (err-ne-ok (r.2))
    ]
skip_labels_bounds (suc left) message offset next h =
    elim (after_label_inv (read_label message offset) _ next (rw skip_labels-suc at h)) [
      | inl e ↦ read_label-name_end message offset next e
      | inr r ↦
          let (low, high) = read_label-next_label message offset r.0 r.1 in
          let (up, end) = skip_labels_bounds left message r.0 next r.2 in (omega arith, end)
    ]

-- A name that is skipped ends behind its start, and at the end of the message at the latest.
pub skip_dns_name_bounds :
    (message : List ℕ) (offset next : ℕ)
    → skip_dns_name message offset ≡ ok next
    → (offset < next) × (next ≤ length message)
unfolding skip_dns_name
skip_dns_name_bounds = skip_labels_bounds 127

-- The answers that were collected are addresses that `ipaddress` accepts.
abbrev pub IsAddress : Text → Type 0
IsAddress t = (n : ℕ) × (n < 2 ^ 32) × (parse_v4 t ≡ some n)

byte_at-lt : (message : List ℕ) (i : ℕ) → All (λ b. b < 256) message → byte_at message i < 256
unfolding byte_at
byte_at-lt [] i h = omega arith
byte_at-lt (b ∷ bytes) zero h = h.0
byte_at-lt (b ∷ bytes) (suc i) h = byte_at-lt bytes i h.1

address_at-IsAddress :
    (message : List ℕ) (offset : ℕ)
    → All (λ b. b < 256) message
    → IsAddress (address_at message offset)
unfolding address_at
address_at-IsAddress message offset h =
    let n =
      quad (byte_at message offset) (byte_at message (offset + 1)) (byte_at message (offset + 2))
        (byte_at message (offset + 3)) in
    let fits : n < 2 ^ 32 = omega (
      arith,
      byte_at-lt message offset h,
      byte_at-lt message (offset + 1) h,
      byte_at-lt message (offset + 2) h,
      byte_at-lt message (offset + 3) h,
    ) in
    (n, fits, parse_v4-print_v4 n fits)

All-snoc : (P : Text → Type 0) (ts : List Text) (t : Text) → All P ts → P t → All P (ts ++ (t ∷ []))
All-snoc P [] t h k = (k, tt)
All-snoc P (x ∷ ts) t h k = (h.0, All-snoc P ts t h.1 k)

if_All :
    (P : List Text → Type 0) (b : Bool) (xs ys : List Text) → P xs → P ys → P (if b then xs else ys)
if_All P true xs ys h k = h
if_All P false xs ys h k = k

add_address-All :
    (P : Text → Type 0) (t : Text) (ts : List Text) → All P ts → P t → All P (add_address t ts)
unfolding add_address
add_address-All P t ts h k = elim (Bool-cases (member t ts)) [
  | inl e ↦ rw e h
  | inr e ↦ rw e (All-snoc P ts t h k)
]

read_record-IsAddress :
    (message : List ℕ) (offset : ℕ) (addresses : List Text)
    → All (λ b. b < 256) message
    → All IsAddress addresses
    → All IsAddress (read_record message offset addresses)
unfolding read_record
read_record-IsAddress message offset addresses b h =
    if_All (All IsAddress) _ (add_address (address_at message (offset + 10)) addresses) addresses
      (add_address-All IsAddress (address_at message (offset + 10)) addresses h
        (address_at-IsAddress message (offset + 10) b))
      h

read_answers-IsAddress :
    (count : ℕ) (message : List ℕ) (offset : ℕ) (addresses found : List Text)
    → All (λ b. b < 256) message
    → All IsAddress addresses
    → read_answers count message offset addresses ≡ ok found
    → All IsAddress found
unfolding read_answers
read_answers-IsAddress zero message offset addresses found b h e =
    subst (All IsAddress) (ok-injective e) h
read_answers-IsAddress (suc count) message offset addresses found b h e =
    let (behind, skipped, rest) = >>=-eq-ok (skip_dns_name message offset) _ e in
    let (head, more) =
      require_inv (leb (behind + 10) (length message)) value_error (codes "truncated DNS answer") _
        rest in
    let data_end = behind + 10 + word_at message (behind + 8) in
    let (room, others) =
      require_inv (leb data_end (length message)) value_error (codes "truncated DNS answer data") _
        more in
    read_answers-IsAddress count message data_end (read_record message behind addresses) found b
      (read_record-IsAddress message behind addresses b h) others

abbrev answered : List Text → Bool → Result (List Text × Bool)
answered addresses truncated = ok (addresses, truncated)

read_sections-IsAddress :
    (message : List ℕ) (addresses : List Text) (truncated : Bool)
    → All (λ b. b < 256) message
    → read_sections message ≡ ok (addresses, truncated)
    → All IsAddress addresses × (truncated ≡ true → addresses ≡ [])
unfolding read_sections
read_sections-IsAddress message addresses truncated b h =
    let (offset, skipped, rest) = >>=-eq-ok (skip_questions (word_at message 4) message 12) _ h in
    let (found, read, same) =
      >>=-eq-ok (read_answers (word_at message 6) message offset [])
        (λ (r : List Text). answered r false) rest in
    let eq : found ≡ addresses = cc same in
    (
      subst (All IsAddress) eq
          (read_answers-IsAddress (word_at message 6) message offset [] found b tt read),
      λ on. cc (same, on),
    )

truncated_or_read :
    (message : List ℕ) (flag : Bool) (addresses : List Text) (truncated : Bool)
    → All (λ b. b < 256) message
    → (if flag then answered [] true else read_sections message) ≡ ok (addresses, truncated)
    → All IsAddress addresses × (truncated ≡ true → addresses ≡ [])
truncated_or_read message true addresses truncated b h =
    let e : [] ≡ addresses = cc h in (subst (All IsAddress) e tt, λ _. sym e)
truncated_or_read message false addresses truncated b h =
    read_sections-IsAddress message addresses truncated b h

-- A response is accepted only if it answers the query: its id is the query's, it is a response, and
-- its code says success. All addresses that it yields are IPv4 addresses that `ipaddress` accepts.
pub parse_dns_a_response-ok :
    (message : List ℕ) (query_id : ℕ) (addresses : List Text) (truncated : Bool)
    → All (λ b. b < 256) message
    → parse_dns_a_response message query_id ≡ ok (addresses, truncated)
    → (12 ≤ length message)
      × (word_at message 0 ≡ query_id)
      × (2 ^ 15 ≤ word_at message 2)
      × (word_at message 2 % 16 ≡ 0)
      × All IsAddress addresses
      × (truncated ≡ true → addresses ≡ [])
unfolding parse_dns_a_response
parse_dns_a_response-ok message query_id addresses truncated b h =
    let (size, h1) =
      require_inv (leb 12 (length message)) value_error (codes "truncated DNS response") _ h in
    let (same, h2) =
      require_inv (word_at message 0 == query_id && word_at message 2 / 2 ^ 15 % 2 == 1) value_error
        (codes "mismatched DNS response") _ h1 in
    let (known, h3) =
      require_inv (not (word_at message 2 % 16 == 3)) os_error (codes "DNS name does not exist") _
        h2 in
    let (success, h4) =
      require_inv (word_at message 2 % 16 == 0) os_error (codes "DNS resolver returned rcode") _
        h3 in
    let (found, only) =
      truncated_or_read message (word_at message 2 / 2 ^ 9 % 2 == 1) addresses truncated b h4 in
    (leb→le _ _ size, ground arith, ground arith, ground arith, found, only)
