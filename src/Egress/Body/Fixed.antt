-- ===== src/Egress/Body/Fixed.antt =====
-- What sending bytes on does to the two streams, and bodies of a stated length.
use private_onyx_app.Common.{
  ℕ, zero, suc, ◌-◌, ◌≤◌, min, ◌≡◌, refl, sym, ap, ◌∙◌, true, false, List, [], ◌++◌, arith, leb,
  le→leb, leb→le, ◌==◌, length, take, drop, length-take, length-drop, take-append-drop, Result, ok,
  err, Raised, value_error, codes, take-take-drop, drop-drop, append-nil, append_assoc, Bool-cases,
  inl, inr,
}
use private_onyx_app.Egress.Body.{Streams, tunnel_buffer, send_exactly}

-- From `s` to `t` the bytes `sent` moved from the client's stream to the upstream one, unchanged
-- and in order, and no other byte of either stream was touched.
pub record Relayed (s t : Streams) : Type 0 where
  pub sent : List ℕ
  pub outbox : t.outbox ≡ s.outbox ++ sent
  pub inbox : s.inbox ≡ sent ++ t.inbox

-- What was written is a prefix of what the client sends; of the rest nothing is said.
pub record Broken (s t : Streams) : Type 0 where
  pub sent : List ℕ
  pub lost : List ℕ
  pub outbox : t.outbox ≡ s.outbox ++ sent
  pub inbox : s.inbox ≡ sent ++ lost

abbrev pub IsTransparent : Streams → Result (Unit {0}) × Streams → Type 0
IsTransparent s (ok u, t) = Relayed s t
IsTransparent s (err e, t) = Broken s t

pub Relayed-refl : (s : Streams) → Relayed s s
Relayed-refl s = record { sent = []; outbox = sym (append-nil s.outbox); inbox = refl }

-- Nothing was written before the failure.
pub Broken-unsent : (s t : Streams) → t.outbox ≡ s.outbox → Broken s t
Broken-unsent s t e = record {
  sent = [];
  lost = s.inbox;
  outbox = e ∙ sym (append-nil s.outbox);
  inbox = refl;
}

pub Relayed-trans : {s t u : Streams} → Relayed s t → Relayed t u → Relayed s u
Relayed-trans {s} {t} {u} a b = record {
  sent = a.sent ++ b.sent;
  outbox = b.outbox ∙ ap (λ r. r ++ b.sent) a.outbox ∙ append_assoc s.outbox a.sent b.sent;
  inbox = a.inbox ∙ ap (λ r. a.sent ++ r) b.inbox ∙ sym (append_assoc a.sent b.sent u.inbox);
}

pub Broken-after : {s t u : Streams} → Relayed s t → Broken t u → Broken s u
Broken-after {s} {t} {u} a b = record {
  sent = a.sent ++ b.sent;
  lost = b.lost;
  outbox = b.outbox ∙ ap (λ r. r ++ b.sent) a.outbox ∙ append_assoc s.outbox a.sent b.sent;
  inbox = a.inbox ∙ ap (λ r. a.sent ++ r) b.inbox ∙ sym (append_assoc a.sent b.sent b.lost);
}

pub IsTransparent-after :
    {s t : Streams} (r : Result (Unit {0}) × Streams)
    → Relayed s t
    → IsTransparent t r
    → IsTransparent s r
IsTransparent-after (ok u, v) a h = Relayed-trans a h
IsTransparent-after (err e, v) a h = Broken-after a h

-- The state after `bytes` were taken from the client and written upstream.
abbrev pub moved : Streams → List ℕ → List ℕ → Streams
moved s bytes rest = record { inbox = rest; outbox = s.outbox ++ bytes }

pub Relayed-moved :
    (s : Streams) (bytes rest : List ℕ) → bytes ++ rest ≡ s.inbox → Relayed s (moved s bytes rest)
Relayed-moved s bytes rest e = record { sent = bytes; outbox = refl; inbox = sym e }

send_exactly-step :
    (fuel remaining : ℕ) (s : Streams)
    → (remaining == 0) ≡ false
    → min remaining tunnel_buffer ≤ length s.inbox
    → send_exactly (suc fuel) remaining s
      ≡ send_exactly fuel (remaining - length (take (min remaining tunnel_buffer) s.inbox)) (
          moved s
            (take (min remaining tunnel_buffer) s.inbox)
            (drop (min remaining tunnel_buffer) s.inbox))
unfolding send_exactly
send_exactly-step fuel remaining s e h =
    rw (e, le→leb (min remaining tunnel_buffer) (length s.inbox) h)

-- The failure of a body that ends before its stated length.
abbrev pub ended_early : Raised
ended_early = record {
  kind = value_error;
  message = codes "request body ended before its declared framing";
}

send_exactly-short :
    (fuel remaining : ℕ) (s : Streams)
    → (remaining == 0) ≡ false
    → leb (min remaining tunnel_buffer) (length s.inbox) ≡ false
    → send_exactly (suc fuel) remaining s ≡ (err ended_early, record s { inbox = [] })
unfolding send_exactly
send_exactly-short fuel remaining s e h = rw (e, h)

send_exactly-none :
    (fuel remaining : ℕ) (s : Streams)
    → (remaining == 0) ≡ true
    → send_exactly (suc fuel) remaining s ≡ (ok tt, s)
unfolding send_exactly
send_exactly-none fuel remaining s e = rw e

abbrev chunk_size : ℕ → ℕ
chunk_size remaining = min remaining tunnel_buffer

length-first :
    (remaining : ℕ) (xs : List ℕ)
    → chunk_size remaining ≤ length xs
    → length (take (chunk_size remaining) xs) ≡ chunk_size remaining
length-first remaining xs h = omega (arith, length-take (chunk_size remaining) xs)

-- Whatever the stream yields, bytes are sent on unchanged.
pub send_exactly-IsTransparent :
    (fuel remaining : ℕ) (s : Streams) → IsTransparent s (send_exactly fuel remaining s)
send_exactly-IsTransparent zero remaining s = unfold send_exactly in Relayed-refl s
send_exactly-IsTransparent (suc fuel) remaining s = elim (Bool-cases (remaining == 0)) [
  | inl e ↦ rw (send_exactly-none fuel remaining s e) (Relayed-refl s)
  | inr e ↦ elim (Bool-cases (leb (chunk_size remaining) (length s.inbox))) [
    | inl h ↦
        let first = take (chunk_size remaining) s.inbox in
        let rest = drop (chunk_size remaining) s.inbox in
        rw (send_exactly-step fuel remaining s e (leb→le _ _ h)) (
          IsTransparent-after (send_exactly fuel (remaining - length first) (moved s first rest))
            (Relayed-moved s first rest (take-append-drop (chunk_size remaining) s.inbox))
            (send_exactly-IsTransparent fuel (remaining - length first) (moved s first rest)))
    | inr h ↦
        rw (send_exactly-short fuel remaining s e h)
          (Broken-unsent s (record s { inbox = [] }) refl)
  ]
]

-- The outcome of sending the next `n` bytes on.
abbrev pub relayed : Streams → ℕ → Result (Unit {0}) × Streams
relayed s n = (ok tt, moved s (take n s.inbox) (drop n s.inbox))

relayed_none :
    (s : Streams) (n : ℕ) → 0 ≡ n → ◌≡◌ {A = Result (Unit {0}) × Streams} (ok tt, s) (relayed s n)
relayed_none s n e =
    (λ i. (ok tt, record { inbox = s.inbox; outbox = sym (append-nil s.outbox) i }))
    ∙ ap (relayed s) e

relayed_twice :
    (s : Streams) (m n : ℕ)
    → m ≤ n
    → relayed (moved s (take m s.inbox) (drop m s.inbox)) (n - m) ≡ relayed s n
relayed_twice s m n h =
    let out =
      append_assoc s.outbox (take m s.inbox) (take (n - m) (drop m s.inbox))
      ∙ ap (λ r. s.outbox ++ r) (take-take-drop m n s.inbox h) in
    λ i. (ok tt, record { inbox = drop-drop m n s.inbox h i; outbox = out i })

-- With enough bytes in the stream exactly the stated number is sent on, and the rest stays.
-- Where the client sends at least the stated number of bytes, exactly these are sent on, across any
-- number of reads, and the loop comes to its end: as much fuel as bytes is enough.
pub send_exactly-full :
    (fuel remaining : ℕ) (s : Streams)
    → remaining ≤ fuel
    → remaining ≤ length s.inbox
    → send_exactly fuel remaining s
      ≡ (ok tt, moved s (take remaining s.inbox) (drop remaining s.inbox))
send_exactly-full zero remaining s f h =
    unfold send_exactly in relayed_none s remaining (omega arith)
send_exactly-full (suc fuel) remaining s f h = elim (Bool-cases (remaining == 0)) [
  | inl e ↦ rw (send_exactly-none fuel remaining s e) (relayed_none s remaining (ground arith))
  | inr e ↦
      let k = chunk_size remaining in
      let first = take k s.inbox in
      let rest = drop k s.inbox in
      let size = length-first remaining s.inbox (omega arith) in
      rw (send_exactly-step fuel remaining s e (omega arith), size)
        (send_exactly-full fuel (remaining - k) (moved s first rest) (ground arith)
            (omega (arith, length-drop k s.inbox))
          ∙ relayed_twice s k remaining (omega arith))
]
