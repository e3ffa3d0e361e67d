-- ===== src/Egress/Body/Chunked.antt =====
-- About `_forward_request_body` on bodies of a fixed length and on chunked ones.
use private_onyx_app.Common.{
  ℕ, zero, suc, ◌≡◌, refl, ap, List, [], ◌∷◌, ◌++◌, Option, none, some, arith, ltb, leb, ◌==◌,
  if◌then◌else◌, length, take, drop, take-append-drop, Text, codes, text_eq, member, Result, ok,
  err, value_error, Bool-cases, inl, inr,
}
use private_onyx_app.Common.Actions.{Action, throw, bind}
use private_onyx_app.Egress.Platform.{Python}
use private_onyx_app.Egress.Framing.{crlf, parse_header_line}
use private_onyx_app.Egress.Body.{
  Streams, ◌>>=◌, ◌>>◌, write, read_body_bytes, split_line, read_line, parse_chunk_size,
  send_exactly, forbidden_trailers, check_trailer, send_trailers, send_chunks, forward_request_body,
}
use private_onyx_app.Egress.Body.Fixed.{
  Relayed, Relayed-refl, Broken-unsent, IsTransparent, IsTransparent-after, moved, Relayed-moved,
  send_exactly-IsTransparent,
}

pub split_line-append : (t : List ℕ) → (split_line t).0 ++ (split_line t).1 ≡ t
unfolding split_line
split_line-append [] = refl
split_line-append (c ∷ t) = elim (Bool-cases (c == 10)) [
  | inl e ↦ rw e (ground arith)
  | inr e ↦ rw e (ap (λ r. c ∷ r) (split_line-append t))
]

-- The state after `line` was read.
abbrev reading : Streams → List ℕ → Streams
reading s rest = record s { inbox = rest }

-- A line that was read is dealt with next.
read_line_rule :
    (s : Streams) (f : List ℕ → Action Streams Unit)
    → ((line rest : List ℕ) → line ++ rest ≡ s.inbox → IsTransparent s (f line (reading s rest)))
    → IsTransparent s ((read_line >>= f) s)
unfolding read_line
read_line_rule s f h = elim (Bool-cases (ltb 65537 (length (split_line s.inbox).0))) [
  | inl e ↦ rw e (Broken-unsent s (reading s (split_line s.inbox).1) refl)
  | inr e ↦ rw e (h (split_line s.inbox).0 (split_line s.inbox).1 (split_line-append s.inbox))
]

read_bytes_rule :
    (s : Streams) (size : ℕ) (f : List ℕ → Action Streams Unit)
    → ((bytes rest : List ℕ) → bytes ++ rest ≡ s.inbox → IsTransparent s (f bytes (reading s rest)))
    → IsTransparent s ((read_body_bytes size >>= f) s)
unfolding read_body_bytes
read_bytes_rule s size f h = elim (Bool-cases (leb size (length s.inbox))) [
  | inl e ↦ rw e (h (take size s.inbox) (drop size s.inbox) (take-append-drop size s.inbox))
  | inr e ↦ rw e (Broken-unsent s (reading s []) refl)
]

-- The bytes that were read are written, and the code goes on.
write_rule :
    (s : Streams) (bytes rest : List ℕ) (f : Action Streams Unit)
    → bytes ++ rest ≡ s.inbox
    → IsTransparent (moved s bytes rest) (f (moved s bytes rest))
    → IsTransparent s ((write bytes >> f) (reading s rest))
unfolding write
write_rule s bytes rest f e h =
    IsTransparent-after (f (moved s bytes rest)) (Relayed-moved s bytes rest e) h

bind_rule :
    (s : Streams) (m f : Action Streams Unit)
    → IsTransparent s (m s)
    → ((t : Streams) → Relayed s t → IsTransparent t (f t))
    → IsTransparent s ((m >> f) s)
bind_rule s m f = by_result (m s)
  where
    by_result :
        (r : Result (Unit {0}) × Streams)
        → IsTransparent s r
        → ((t : Streams) → Relayed s t → IsTransparent t (f t))
        → IsTransparent s (bind (λ _. r) (λ _. f) s)
    by_result (ok u, t) a h = IsTransparent-after (f t) a (h t a)
    by_result (err e, t) b h = b

module _ (py : Python) where
  check_rule :
      (s : Streams) (rest : List ℕ) (found : Result (Text × Text)) (f : Action Streams Unit)
      → IsTransparent s (f (reading s rest))
      → IsTransparent s ((check_trailer py found >> f) (reading s rest))
  unfolding check_trailer
  check_rule s rest (err e) f h = Broken-unsent s (reading s rest) refl
  check_rule s rest (ok (name, value)) f h = elim (Bool-cases (member name forbidden_trailers)) [
    | inl e ↦ rw e (Broken-unsent s (reading s rest) refl)
    | inr e ↦ rw e h
  ]

  trailer_step : (fuel : ℕ) → List ℕ → Action Streams Unit
  trailer_step fuel line =
      if text_eq line crlf
      then write line
      else check_trailer py (parse_header_line py line) >> (write line >> send_trailers py fuel)

  trailers_lem : (fuel : ℕ) → send_trailers py (suc fuel) ≡ (read_line >>= trailer_step fuel)
  unfolding send_trailers trailer_step
  trailers_lem fuel = refl

  trailer_step-IsTransparent :
      (fuel : ℕ) (s : Streams) (line rest : List ℕ)
      → ((t : Streams) → IsTransparent t (send_trailers py fuel t))
      → line ++ rest ≡ s.inbox
      → IsTransparent s (trailer_step fuel line (reading s rest))
  unfolding trailer_step
  trailer_step-IsTransparent fuel s line rest go e = elim (Bool-cases (text_eq line crlf)) [
    | inl end ↦ rw end (unfold write in Relayed-moved s line rest e)
    | inr more ↦ rw more (
        check_rule s rest (parse_header_line py line) (write line >> send_trailers py fuel)
          (write_rule s line rest (send_trailers py fuel) e (go (moved s line rest))))
  ]

  send_trailers-IsTransparent : (fuel : ℕ) (s : Streams) → IsTransparent s (send_trailers py fuel s)
  send_trailers-IsTransparent zero s = unfold send_trailers in Broken-unsent s s refl
  send_trailers-IsTransparent (suc fuel) s = rw (trailers_lem fuel) (
      read_line_rule s (trailer_step fuel) (λ line rest.
        trailer_step-IsTransparent fuel s line rest (λ t. send_trailers-IsTransparent fuel t)))

  -- What follows the data of a chunk.
  chunk_end : (fuel : ℕ) → List ℕ → Action Streams Unit
  chunk_end fuel terminator =
      if text_eq terminator crlf
      then write terminator >> send_chunks py fuel
      else throw value_error (codes "chunk data is not followed by CRLF")

  -- What follows the size line.
  chunk_body : (fuel size : ℕ) → Action Streams Unit
  unfolding chunk_end
  chunk_body fuel size =
      if size == 0
      then send_trailers py fuel
      else send_exactly size size >> (read_body_bytes 2 >>= chunk_end fuel)

  chunk_step : (fuel : ℕ) → List ℕ → Action Streams Unit
  unfolding chunk_body
  chunk_step fuel size_line = elim (parse_chunk_size size_line) [
    | none ↦ throw value_error (codes "invalid chunk-size line or extension")
    | some size ↦ write size_line >> chunk_body fuel size
  ]

  chunks_lem : (fuel : ℕ) → send_chunks py (suc fuel) ≡ (read_line >>= chunk_step fuel)
  unfolding send_chunks chunk_step
  chunks_lem fuel = refl

  module _ (fuel : ℕ) (go : (t : Streams) → IsTransparent t (send_chunks py fuel t)) where
    chunk_end-IsTransparent :
        (s : Streams) (bytes rest : List ℕ)
        → bytes ++ rest ≡ s.inbox
        → IsTransparent s (chunk_end fuel bytes (reading s rest))
    unfolding chunk_end
    chunk_end-IsTransparent s bytes rest e = elim (Bool-cases (text_eq bytes crlf)) [
      | inl end ↦ rw end (write_rule s bytes rest (send_chunks py fuel) e (go (moved s bytes rest)))
      | inr other ↦ rw other (Broken-unsent s (reading s rest) refl)
    ]

    chunk_body-IsTransparent : (size : ℕ) (s : Streams) → IsTransparent s (chunk_body fuel size s)
    unfolding chunk_body
    chunk_body-IsTransparent size s = elim (Bool-cases (size == 0)) [
      | inl last ↦ rw last (send_trailers-IsTransparent fuel s)
      | inr more ↦ rw more (
          bind_rule s (send_exactly size size) (read_body_bytes 2 >>= chunk_end fuel)
            (send_exactly-IsTransparent size size s)
            (λ t a. read_bytes_rule t 2 (chunk_end fuel) (chunk_end-IsTransparent t)))
    ]

    chunk_step-IsTransparent :
        (s : Streams) (line rest : List ℕ)
        → line ++ rest ≡ s.inbox
        → IsTransparent s (chunk_step fuel line (reading s rest))
    unfolding chunk_step
    chunk_step-IsTransparent s line rest e = by_size (parse_chunk_size line)
      where
        by_size :
            (found : Option ℕ)
            → IsTransparent s (
                (elim found as (λ o. Action Streams Unit) [
                  | none ↦ throw value_error (codes "invalid chunk-size line or extension")
                  | some size ↦ write line >> chunk_body fuel size
                ])
                  (reading s rest))
        by_size none = Broken-unsent s (reading s rest) refl
        by_size (some size) =
            write_rule s line rest (chunk_body fuel size) e
              (chunk_body-IsTransparent size (moved s line rest))

  send_chunks-IsTransparent : (fuel : ℕ) (s : Streams) → IsTransparent s (send_chunks py fuel s)
  send_chunks-IsTransparent zero s = unfold send_chunks in Broken-unsent s s refl
  send_chunks-IsTransparent (suc fuel) s = rw (chunks_lem fuel) (
      read_line_rule s (chunk_step fuel)
        (chunk_step-IsTransparent fuel (λ t. send_chunks-IsTransparent fuel t) s))

  -- Whatever the client sends and however the request is framed: where the body is accepted, the
  -- bytes that were taken from the client are the bytes that were written upstream, in order; where
  -- it is refused, what was written is a prefix of what the client sent.
  pub forward-IsTransparent :
      (content_length : Option ℕ) (codings : List Text) (s : Streams)
      → IsTransparent s (forward_request_body py content_length codings s)
  forward-IsTransparent (some n) codings s =
      unfold forward_request_body in send_exactly-IsTransparent n n s
  forward-IsTransparent none [] s = unfold forward_request_body in Relayed-refl s
  forward-IsTransparent none (c ∷ cs) s =
      unfold forward_request_body in send_chunks-IsTransparent (suc (length s.inbox)) s
