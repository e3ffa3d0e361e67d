-- ===== src/Egress/Body.antt =====
-- egress/final_hop_proxy.py, `_forward_request_body`: the body of a request is sent on while it is
-- checked. The client's stream is the list of the bytes that it still yields before its end, the
-- upstream stream the list of the bytes that were written to it.
pub mod Fixed
pub mod Chunked
use private_onyx_app.Common.{
  ℕ, zero, suc, ◌+◌, ◌-◌, min, Bool, true, false, not, ◌&&◌, ◌||◌, List, [], ◌∷◌, ◌++◌, Option,
  none, some, ltb, leb, ◌==◌, if◌then◌else◌, length, take, drop, Text, codes, text_eq, member,
  is_digit, of_hex, Result, ok, err, Raised, value_error,
}
use private_onyx_app.Common.Actions.{Action, pure, throw, lift, modify, continue, bind}
use private_onyx_app.Egress.Platform.{Python}
use private_onyx_app.Egress.Framing.{crlf, is_token_char, is_header_blank, parse_header_line}

pub record Streams : Type 0 where
  pub inbox : List ℕ
  pub outbox : List ℕ

infixl 5 ◌>>=◌ ◌>>◌
abbrev pub ◌>>=◌ : {A B : Type 0} → Action Streams A → (A → Action Streams B) → Action Streams B
◌>>=◌ = bind

abbrev pub ◌>>◌ : {A B : Type 0} → Action Streams A → Action Streams B → Action Streams B
m >> k = bind m (λ _. k)

abbrev pub tunnel_buffer : ℕ
tunnel_buffer = 65536

-- upstream_writer.write(data), and the drain that follows every write
unfoldable pub write : List ℕ → Action Streams Unit
write bytes s = (ok tt, record s { outbox = s.outbox ++ bytes })

-- `_read_body_bytes`: what the stream still had is lost where it ends too early.
unfoldable pub read_body_bytes : ℕ → Action Streams (List ℕ)
read_body_bytes size s =
    if leb size (length s.inbox)
    then (ok (take size s.inbox), record s { inbox = drop size s.inbox })
    else throw value_error (codes "request body ended before its declared framing")
        (record s { inbox = [] })

-- The line that a text begins with, with its line feed, and the rest.
unfoldable pub split_line : List ℕ → List ℕ × List ℕ
split_line [] = ([], [])
split_line (c ∷ t) =
    let (line, rest) = split_line t in if c == 10 then (10 ∷ [], t) else (c ∷ line, rest)

-- StreamReader.readline, with its default limit of 64 KiB
unfoldable pub read_line : Action Streams (List ℕ)
unfolding split_line
read_line s =
    let (line, rest) = split_line s.inbox in
    if ltb 65537 (length line)
    then throw value_error (codes "Separator is found, but chunk is longer than limit")
        (record s { inbox = rest })
    else (ok line, record s { inbox = rest })

-- The automaton of `_CHUNK_SIZE_LINE_RE`.
pub data Mode : Type 0 where
  size_start size_digits after ext_start ext_name after_name value_start value_token quoted escaped
        cr done bad :
      Mode

unfoldable pub is_hex : ℕ → Bool
is_hex c = (leb b'0' c && leb c b'9') || (leb b'A' c && leb c b'F') || (leb b'a' c && leb c b'f')

-- [\t !#-\[\]-~\x80-\xff]
unfoldable pub is_quoted_char : ℕ → Bool
is_quoted_char c =
    c == 9 || c == 32 || c == 33 || (leb 35 c && leb c 91) || (leb 93 c && leb c 126) || leb 128 c

-- [\t !-~\x80-\xff]
unfoldable pub is_escapable : ℕ → Bool
is_escapable c = c == 9 || (leb 32 c && leb c 126) || leb 128 c

-- Behind the size, a name or a value: a new extension, or the end of the line.
line_goes_on : ℕ → Mode → Mode
line_goes_on c other = if c == b';' then ext_start else if c == 13 then cr else other

unfoldable pub next_mode : Mode → ℕ → Mode
unfolding is_hex is_quoted_char is_escapable line_goes_on
next_mode size_start c = if is_hex c then size_digits else bad
next_mode size_digits c =
    if is_hex c then size_digits else if is_header_blank c then after else line_goes_on c bad
next_mode after c = if is_header_blank c then after else line_goes_on c bad
next_mode ext_start c =
    if is_header_blank c then ext_start else if is_token_char c then ext_name else bad
next_mode ext_name c =
    if is_token_char c
    then ext_name
    else if is_header_blank c
    then after_name
    else if c == b'='
    then value_start
    else line_goes_on c bad
next_mode after_name c =
    if is_header_blank c then after_name else if c == b'=' then value_start else line_goes_on c bad
next_mode value_start c =
    if is_header_blank c
    then value_start
    else if is_token_char c
    then value_token
    else if c == 34
    then quoted
    else bad
next_mode value_token c =
    if is_token_char c then value_token else if is_header_blank c then after else line_goes_on c bad
next_mode quoted c =
    if c == 34 then after else if c == 92 then escaped else if is_quoted_char c then quoted else bad
next_mode escaped c = if is_escapable c then quoted else bad
next_mode cr c = if c == 10 then done else bad
next_mode done c = bad
next_mode bad c = bad

unfoldable pub run_modes : Mode → List ℕ → Mode
unfolding next_mode
run_modes mode [] = mode
run_modes mode (c ∷ line) = run_modes (next_mode mode c) line

unfoldable pub hex_prefix : List ℕ → List ℕ
hex_prefix [] = []
hex_prefix (c ∷ line) = if is_hex c then c ∷ hex_prefix line else []

-- _CHUNK_SIZE_LINE_RE.fullmatch(line), and int(match.group(1), 16)
unfoldable pub parse_chunk_size : List ℕ → Option ℕ
unfolding run_modes hex_prefix of_hex
parse_chunk_size line = elim (run_modes size_start line) [
  | done ↦ some (of_hex 0 (hex_prefix line))
  | _ ↦ none
]

-- while remaining: ...; every round sends a byte at least, so `remaining` rounds are enough
unfoldable pub send_exactly : ℕ → ℕ → Action Streams Unit
unfolding read_body_bytes write
send_exactly zero remaining = pure tt
send_exactly (suc fuel) remaining =
    if remaining == 0
    then pure tt
    else read_body_bytes (min remaining tunnel_buffer) >>= λ bytes.
        write bytes >> send_exactly fuel (remaining - length bytes)

abbrev pub forbidden_trailers : List Text
forbidden_trailers =
    codes "connection"
    ∷ codes "content-length"
    ∷ codes "host"
    ∷ codes "trailer"
    ∷ codes "transfer-encoding"
    ∷ []

module _ (py : Python) where
  -- The name that a trailer line states, if the line is accepted.
  unfoldable pub check_trailer : Result (Text × Text) → Action Streams Unit
  unfolding member
  check_trailer (err e) = throw value_error (codes "invalid chunk trailer: " ++ e.message)
  check_trailer (ok (name, value)) =
      if member name forbidden_trailers
      then throw value_error (codes "chunk trailer contains a forbidden field")
      else pure tt

  -- The trailer lines up to the empty line. Each consumes a byte at least.
  unfoldable pub send_trailers : ℕ → Action Streams Unit
  unfolding read_line write check_trailer text_eq
  send_trailers zero = throw value_error []
  send_trailers (suc fuel) = read_line >>= λ line.
      if text_eq line crlf
      then write line
      else check_trailer (parse_header_line py line) >> (write line >> send_trailers fuel)

  -- The chunks up to the last one, and the trailers. Each consumes a byte at least.
  unfoldable pub send_chunks : ℕ → Action Streams Unit
  unfolding read_line write read_body_bytes send_exactly send_trailers
  send_chunks zero = throw value_error []
  send_chunks (suc fuel) = read_line >>= λ size_line. elim (parse_chunk_size size_line) [
    | none ↦ throw value_error (codes "invalid chunk-size line or extension")
    | some size ↦
        write size_line
        >> (if size == 0
            then send_trailers fuel
            else send_exactly size size
              >> (read_body_bytes 2 >>= λ terminator.
                  if text_eq terminator crlf
                  then write terminator >> send_chunks fuel
                  else throw value_error (codes "chunk data is not followed by CRLF")))
  ]

  unfoldable pub forward_request_body : Option ℕ → List Text → Action Streams Unit
  unfolding send_chunks
  forward_request_body (some n) codings s = send_exactly n n s
  forward_request_body none [] s = pure tt s
  forward_request_body none (coding ∷ codings) s = send_chunks (suc (length s.inbox)) s
