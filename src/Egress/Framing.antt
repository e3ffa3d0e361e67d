-- ===== src/Egress/Framing.antt =====
-- egress/final_hop_proxy.py, "Proxy server": header lines and the framing of a request.
pub mod Lengths
pub mod Codings
use private_onyx_app.Common.{
  ℕ, ◌+◌, ◌-◌, Bool, true, false, not, ◌&&◌, ◌||◌, List, [], ◌∷◌, ◌++◌, Option, none, some, ltb,
  leb, ◌==◌, map, if◌then◌else◌, any, all, length, take, Text, codes, text_eq, is_empty, is_digit,
  is_space, is_ascii, strip, split_on, ends_with, contains_char, parse_int, Result, ok, err, raise,
  require, value_error, ◌>>=◌, ◌>>◌,
}
use private_onyx_app.Egress.Platform.{Python, lower}

abbrev pub Header : Type 0
Header = Text × Text

abbrev pub crlf : Text
crlf = 13 ∷ 10 ∷ []

-- [!#$%&'*+.^_`|~0-9A-Za-z-]
unfoldable pub is_token_char : ℕ → Bool
is_token_char c =
    (leb b'0' c && leb c b'9')
    || (leb b'A' c && leb c b'Z')
    || (leb b'^' c && leb c b'z')
    || c == b'!'
    || (leb b'#' c && leb c 39)
    || c == b'*'
    || c == b'+'
    || c == b'-'
    || c == b'.'
    || c == b'|'
    || c == b'~'

-- _TOKEN_RE.fullmatch(t)
unfoldable pub is_token : Text → Bool
unfolding is_token_char all is_empty
is_token t = not (is_empty t) && all is_token_char t

-- field.split(b":", 1), for a field with a colon in it
unfoldable pub split_first : ℕ → Text → Text × Text
split_first sep [] = ([], [])
split_first sep (c ∷ t) =
    let (before, after) = split_first sep t in if c == sep then ([], t) else (c ∷ before, after)

unfoldable pub is_forbidden_control : ℕ → Bool
is_forbidden_control b = (ltb b 0x20 && not (b == 9)) || b == 0x7f

unfoldable pub is_header_blank : ℕ → Bool
is_header_blank c = c == 32 || c == 9

starts_blank : Text → Bool
unfolding is_header_blank
starts_blank [] = false
starts_blank (c ∷ t) = is_header_blank c

unfoldable pub header_values : List Header → Text → List Text
header_values [] name = []
header_values ((header_name, value) ∷ headers) name =
    let rest = header_values headers name in if text_eq header_name name then value ∷ rest else rest

-- An item of Content-Length: `value and value.isascii() and value.isdecimal()`
unfoldable pub is_decimal : Text → Bool
unfolding is_empty all
is_decimal value = not (is_empty value) && all is_digit value

unfoldable pub length_items : List Text → List Text
length_items [] = []
length_items (value ∷ values) = map (strip is_space) (split_on b',' value) ++ length_items values

unfoldable pub parse_ints : List Text → Result (List ℕ)
parse_ints [] = ok []
parse_ints (t ∷ ts) = do n ← parse_int t; ns ← parse_ints ts; ok (n ∷ ns)

-- The one member of the set of lengths, if it has one only.
unfoldable pub single_length : List ℕ → Result ℕ
unfolding all
single_length [] = raise value_error (codes "conflicting Content-Length values")
single_length (n ∷ ns) =
    if all (λ m. m == n) ns
    then ok n
    else raise value_error (codes "conflicting Content-Length values")

unfoldable pub content_length_of : List Text → Result (Option ℕ)
unfolding is_decimal parse_ints single_length
content_length_of [] = ok none
content_length_of (item ∷ items) = do
  require (all is_decimal (item ∷ items)) value_error (codes "invalid Content-Length")
  lengths ← parse_ints (item ∷ items)
  length ← single_length lengths
  ok (some length)

unfoldable pub count_text : Text → List Text → ℕ
count_text t [] = 0
count_text t (s ∷ ss) = let rest = count_text t ss in if text_eq s t then rest + 1 else rest

unfoldable pub last_is : Text → List Text → Bool
last_is t [] = false
last_is t (s ∷ []) = text_eq s t
last_is t (s ∷ (r ∷ ss)) = last_is t (r ∷ ss)

-- The checks on the transfer codings, beside the length that was found.
unfoldable pub check_codings : List Text → Option ℕ → Result (Unit {0})
unfolding is_token all last_is count_text
check_codings [] content_length = ok tt
check_codings (coding ∷ codings) content_length = do
  require (all is_token (coding ∷ codings)) value_error (codes "invalid Transfer-Encoding")
  require
      (last_is (codes "chunked") (coding ∷ codings)
        && count_text (codes "chunked") (coding ∷ codings) == 1)
      value_error (codes "Transfer-Encoding must end in exactly one chunked coding")
  require (elim content_length [ none ↦ true | some n ↦ false ]) value_error
      (codes "Content-Length and Transfer-Encoding must not be combined")

module _ (py : Python) where
  -- The checks on a field, once its line is known to end with CRLF.
  parse_field : Text → Result Header
  unfolding starts_blank is_token split_first is_forbidden_control any
  parse_field field = do
    require (not (starts_blank field)) value_error
        (codes "obsolete folded headers are not accepted")
    require (contains_char b':' field) value_error (codes "malformed HTTP request header")
    let raw_name = (split_first b':' field).0
    let raw_value = (split_first b':' field).1
    require (is_ascii raw_name && is_token (lower py raw_name)) value_error
        (codes "invalid HTTP header name")
    require (not (any is_forbidden_control raw_value)) value_error
        (codes "HTTP header value contains a forbidden control character")
    ok (lower py raw_name, strip is_header_blank (py.utf8_decode raw_value))

  unfoldable pub parse_header_line : List ℕ → Result Header
  unfolding parse_field
  parse_header_line line =
      if ends_with crlf line
      then parse_field (take (length line - 2) line)
      else raise value_error (codes "HTTP header line must end with CRLF")

  unfoldable pub coding_items : List Text → List Text
  coding_items [] = []
  coding_items (value ∷ values) =
      map (λ part. lower py (strip is_space part)) (split_on b',' value) ++ coding_items values

  -- The length and the transfer codings of a request, or the ValueError of a bad framing.
  unfoldable pub parse_request_framing : List Header → Result (Option ℕ × List Text)
  unfolding header_values length_items coding_items content_length_of check_codings
  parse_request_framing headers = do
    content_length ←
        content_length_of (length_items (header_values headers (codes "content-length")))
    let codings = coding_items (header_values headers (codes "transfer-encoding"))
    check_codings codings content_length
    ok (content_length, codings)
