-- ===== src/Egress/Dns.antt =====
-- egress/final_hop_proxy.py: the DNS wire format, `_encode_dns_name`, `_skip_dns_name` and
-- `_parse_dns_a_response`, over lists of bytes. Addresses are collected in a list without
-- duplicates, in the order of the answers.
pub mod Bounds
use private_onyx_app.Common.{
  ℕ, zero, suc, ◌+◌, ◌-◌, ◌*◌, ◌/◌, ◌%◌, ◌^◌, Bool, true, false, not, ◌&&◌, ◌||◌, List, [], ◌∷◌,
  ◌++◌, Option, none, some, ltb, leb, ◌==◌, if◌then◌else◌, any, length, Text, codes, member,
  is_empty, split_on, Result, ok, err, raise, require, value_error, os_error, ◌>>=◌, ◌>>◌,
}
use private_onyx_app.Egress.Address.{quad, print_v4}
use private_onyx_app.Egress.Platform.{Python, normalize_host}

-- b"".join(bytes([len(label)]) + label for label in labels)
unfoldable pub encode_labels : List Text → List ℕ
encode_labels [] = []
encode_labels (label ∷ labels) = length label ∷ (label ++ encode_labels labels)

unfoldable pub is_bad_label : Text → Bool
unfolding is_empty
is_bad_label label = is_empty label || ltb 63 (length label)

unfoldable pub encode_name : Text → Result (List ℕ)
unfolding encode_labels is_bad_label any
encode_name ascii_host = do
  let labels = split_on b'.' ascii_host
  require (not (any is_bad_label labels)) os_error (codes "invalid DNS hostname")
  require (leb (length (encode_labels labels) + 1) 255) os_error (codes "DNS hostname is too long")
  ok (encode_labels labels ++ (0 ∷ []))

unfoldable pub encode_dns_name : Python → Text → Result (List ℕ)
unfolding encode_name
encode_dns_name py host = elim (py.idna (normalize_host py host)) [
  | none ↦ raise os_error (codes "invalid IDNA hostname")
  | some ascii_host ↦ encode_name ascii_host
]

-- message[i], inside the message
unfoldable pub byte_at : List ℕ → ℕ → ℕ
byte_at [] i = 0
byte_at (b ∷ bytes) zero = b
byte_at (b ∷ bytes) (suc i) = byte_at bytes i

-- A big-endian 16-bit field.
unfoldable pub word_at : List ℕ → ℕ → ℕ
unfolding byte_at
word_at message i = byte_at message i * 256 + byte_at message (i + 1)

-- What the length byte at an offset asks for.
pub data Label : Type 0 where
  truncated_name truncated_pointer invalid_type too_long : Label
  name_end : ℕ → Label
  next_label : ℕ → Label

-- One round of the loop, before the limit on labels.
unfoldable pub read_label : List ℕ → ℕ → Label
unfolding byte_at
read_label message offset =
    let size = byte_at message offset in
    if leb (length message) offset
    then truncated_name
    else if size / 64 % 4 == 3
    then (if leb (length message) (offset + 1) then truncated_pointer else name_end (offset + 2))
    else if not (size / 64 % 4 == 0)
    then invalid_type
    else if size == 0
    then name_end (offset + 1)
    else if ltb (length message) (offset + 1 + size)
    then too_long
    else next_label (offset + 1 + size)

-- What a label leads to, where `go_on` is the code behind it.
unfoldable pub after_label : Label → (ℕ → Result ℕ) → Result ℕ
after_label truncated_name go_on = raise value_error (codes "truncated DNS name")
after_label truncated_pointer go_on = raise value_error (codes "truncated DNS compression pointer")
after_label invalid_type go_on = raise value_error (codes "invalid DNS label type")
after_label too_long go_on = raise value_error (codes "invalid DNS name")
after_label (name_end next) go_on = ok next
after_label (next_label next) go_on = go_on next

-- The loop of `_skip_dns_name`, with `left` labels still allowed: `127 - labels_seen`.
unfoldable pub skip_labels : ℕ → List ℕ → ℕ → Result ℕ
unfolding after_label read_label
skip_labels zero message offset =
    after_label (read_label message offset) (λ next. raise value_error (codes "invalid DNS name"))
skip_labels (suc left) message offset =
    after_label (read_label message offset) (λ next. skip_labels left message next)

unfoldable pub skip_dns_name : List ℕ → ℕ → Result ℕ
unfolding skip_labels
skip_dns_name message offset = skip_labels 127 message offset

unfoldable pub skip_questions : ℕ → List ℕ → ℕ → Result ℕ
unfolding skip_dns_name
skip_questions zero message offset = ok offset
skip_questions (suc count) message offset = do
  next ← skip_dns_name message offset
  require (leb (next + 4) (length message)) value_error (codes "truncated DNS question")
  skip_questions count message (next + 4)

unfoldable pub add_address : Text → List Text → List Text
unfolding member
add_address address addresses =
    if member address addresses then addresses else addresses ++ (address ∷ [])

-- The address of the four bytes at an offset.
unfoldable pub address_at : List ℕ → ℕ → Text
unfolding byte_at
address_at message offset = print_v4 (
    quad (byte_at message offset) (byte_at message (offset + 1)) (byte_at message (offset + 2))
      (byte_at message (offset + 3)))

-- The record behind a name: type, class, time to live and length take ten bytes.
unfoldable pub read_record : List ℕ → ℕ → List Text → List Text
unfolding word_at add_address address_at
read_record message offset addresses =
    if word_at message offset == 1
      && word_at message (offset + 2) == 1
      && word_at message (offset + 8) == 4
    then add_address (address_at message (offset + 10)) addresses
    else addresses

unfoldable pub read_answers : ℕ → List ℕ → ℕ → List Text → Result (List Text)
unfolding skip_dns_name read_record word_at
read_answers zero message offset addresses = ok addresses
read_answers (suc count) message offset addresses = do
  next ← skip_dns_name message offset
  require (leb (next + 10) (length message)) value_error (codes "truncated DNS answer")
  let data_end = next + 10 + word_at message (next + 8)
  require (leb data_end (length message)) value_error (codes "truncated DNS answer data")
  read_answers count message data_end (read_record message next addresses)

-- The sections of a response that is not truncated.
unfoldable pub read_sections : List ℕ → Result (List Text × Bool)
unfolding skip_questions read_answers word_at
read_sections message = do
  offset ← skip_questions (word_at message 4) message 12
  addresses ← read_answers (word_at message 6) message offset []
  ok (addresses, false)

unfoldable pub parse_dns_a_response : List ℕ → ℕ → Result (List Text × Bool)
unfolding read_sections word_at
parse_dns_a_response message query_id = do
  require (leb 12 (length message)) value_error (codes "truncated DNS response")
  let flags = word_at message 2
  require (word_at message 0 == query_id && flags / 2 ^ 15 % 2 == 1) value_error
      (codes "mismatched DNS response")
  require (not (flags % 16 == 3)) os_error (codes "DNS name does not exist")
  require (flags % 16 == 0) os_error (codes "DNS resolver returned rcode")
  if flags / 2 ^ 9 % 2 == 1 then ok ([], true) else read_sections message
