-- ===== src/Embedding/Handler/Bounded.antt =====
-- What a handler does at most, and what holds of what it sends.
use private_onyx_app.Embedding.Handler.{
  or_default, sent_for, forward, refused, is_given, with_bound, with_length, exchange, finished,
  Outcome, ended_request, closed_connection, Answer, reported, relay, post, begun_request,
  max_response_bytes, max_request_bytes, request_path, is_local, Reply, Sent, report, reply, refuse,
  Effect, Backend, Request, do_post, Library,
}
use private_onyx_app.Common.Strings.Equality.{text_eq_sound}
use private_onyx_app.Common.{
  All-append, not_ltb→le, ◌==◌, text_eq, Text, is_value_error, subst, not, Option, ℤ, map-append,
  is_runtime_error, ◌||◌, is_os_error, length-append, append-nil, ◌∙◌, sym, ap, ◌+◌, ◌++◌, take,
  ltb, if-elim, Result, arith, map, ◌⊎◌, All, ◌≤◌, length, ◌<◌, ◌≡◌, Raised, ℕ, List, ◌∷◌, [], none,
  some, ok, err, true, false, refl, inl, inr, pos, negsuc,
}

-- A reply that is short enough, or reports an error.
abbrev pub IsBound : Library → Reply → Type 0
IsBound lib x = (length x.body ≤ max_response_bytes) ⊎ ((e : Raised) × (x ≡ report lib e))

-- The effects of a handler of the request: nothing, or one forward within a request of the lifecycle.
pub data Shape (lib : Library) (r : Request) : List Effect → Type 0 where
  -- the request is turned away, and the lifecycle is not reached
  nothing : Shape lib r []
  turned_away : (status : ℕ) → Shape lib r (refuse status ∷ [])
  -- the lifecycle refused: only an error is reported
  unavailable : (e : Raised) → Shape lib r (reply (report lib e) ∷ [])
  forwarded :
      (sent : Sent) (replies : List Reply)
      → is_local r.client ≡ true
      → r.path ≡ request_path
      → r.transfer_encoding ≡ none
      → (0 < length sent.body) × (length sent.body ≤ max_request_bytes)
      → All (IsBound lib) replies
      → length replies ≤ 2
      → Shape lib r (
          begun_request
          ∷ post sent
          ∷ (map reply replies ++ (closed_connection ∷ ended_request ∷ [])))

-- At most `n` replies, and nothing else.
record Replies (lib : Library) (n : ℕ) (effects : List Effect) : Type 0 where
  replies : List Reply
  are_effects : effects ≡ map reply replies
  are_bound : All (IsBound lib) replies
  are_few : length replies ≤ n

none-Replies : (lib : Library) (n : ℕ) → Replies lib n []
none-Replies lib n = record {
  replies = [];
  are_effects = refl;
  are_bound = tt;
  are_few = omega arith;
}

one-Replies : (lib : Library) (x : Reply) → IsBound lib x → Replies lib 1 (reply x ∷ [])
one-Replies lib x h = record {
  replies = x ∷ [];
  are_effects = refl;
  are_bound = (h, tt);
  are_few = omega arith;
}

Replies-append :
    (lib : Library) (m n : ℕ) (xs ys : List Effect)
    → Replies lib m xs
    → Replies lib n ys
    → Replies lib (m + n) (xs ++ ys)
Replies-append lib m n xs ys h h' = record {
  replies = h.replies ++ h'.replies;
  are_effects =
      ap (λ zs. zs ++ ys) h.are_effects
      ∙ ap (λ zs. map reply h.replies ++ zs) h'.are_effects
      ∙ sym (map-append reply h.replies h'.replies);
  are_bound = All-append (IsBound lib) h.replies h'.replies h.are_bound h'.are_bound;
  are_few = omega (arith, length-append h.replies h'.replies, h.are_few, h'.are_few);
}

relay-Replies : (lib : Library) (b : Backend) (a : Result Answer) → Replies lib 1 (relay b a).0
unfolding relay
relay-Replies lib b (err e) = none-Replies lib 1
relay-Replies lib b (ok a) =
    if-elim (λ (o : Outcome). Replies lib 1 o.0)
      (ltb max_response_bytes (length (take (max_response_bytes + 1) a.stream)))
      (λ e. none-Replies lib 1) (λ e. one-Replies lib _ (inl (not_ltb→le _ _ e)))

-- What the `except` clause adds.
report-Replies :
    (lib : Library) (b : Backend) (effects : List Effect) (r : Result (Unit {0}))
    → (added : List Effect) × ((reported lib b (effects, r)).0 ≡ effects ++ added)
      × Replies lib 1 added
unfolding reported
report-Replies lib b effects (ok u) = ([], sym (append-nil effects), none-Replies lib 1)
report-Replies lib b effects (err e) =
    if-elim
      (λ (o : Outcome). (added : List Effect) × (o.0 ≡ effects ++ added) × Replies lib 1 added)
      (is_os_error e.kind || is_runtime_error e.kind)
      (λ _. (reply (report lib e) ∷ [], refl, one-Replies lib (report lib e) (inr (e, refl))))
      (λ _. ([], sym (append-nil effects), none-Replies lib 1))

-- What a request is, once its guards are passed.
record Accepted (r : Request) : Type 0 where
  is_near : is_local r.client ≡ true
  is_served : r.path ≡ request_path
  is_plain : r.transfer_encoding ≡ none

tail : List Effect
tail = closed_connection ∷ ended_request ∷ []

begun-Shape :
    (lib : Library) (b : Backend) (r : Request) (sent : Sent) (begun : Result (Unit {0}))
    → Accepted r
    → (0 < length sent.body) × (length sent.body ≤ max_request_bytes)
    → Shape lib r (finished begun (reported lib b (forward b sent begun))).0
unfolding finished forward reported tail
begun-Shape lib b r sent (err e) h h' =
    if-elim (λ (o : Outcome). Shape lib r o.0) (is_os_error e.kind || is_runtime_error e.kind)
      (λ _. unavailable e) (λ _. nothing)
begun-Shape lib b r sent (ok u) h h' =
    let first = relay-Replies lib b (b.answer sent) in
    let effects = (relay b (b.answer sent)).0 in
    let (added, e, more) =
      report-Replies lib b (begun_request ∷ post sent ∷ effects) (relay b (b.answer sent)).1 in
    let all = Replies-append lib 1 1 effects added first more in
    subst (λ zs. Shape lib r zs)
      (sym (
        ap (λ zs. zs ++ tail) e
        ∙ ap (λ zs. begun_request ∷ post sent ∷ (zs ++ tail)) all.are_effects))
      (forwarded sent all.replies h.is_near h.is_served h.is_plain h' all.are_bound all.are_few)

exchange-Shape :
    (lib : Library) (b : Backend) (r : Request) (sent : Sent)
    → Accepted r
    → (0 < length sent.body) × (length sent.body ≤ max_request_bytes)
    → Shape lib r (exchange lib b sent).0
unfolding exchange
exchange-Shape lib b r sent h h' = begun-Shape lib b r sent b.begun h h'

with_length-Shape :
    (lib : Library) (b : Backend) (r : Request) (n : ℕ)
    → Accepted r
    → (0 < n) × (n ≤ max_request_bytes)
    → Shape lib r (with_length lib b r n).0
unfolding with_length refused sent_for
with_length-Shape lib b r n h h' =
    if-elim (λ (o : Outcome). Shape lib r o.0) (length (take n r.stream) == n)
      (λ e. exchange-Shape lib b r _ h (ground (arith, e, h'))) (λ _. turned_away 400)

with_bound-Shape :
    (lib : Library) (b : Backend) (r : Request) (length : Result ℤ)
    → Accepted r
    → Shape lib r (with_bound lib b r length).0
unfolding with_bound refused
with_bound-Shape lib b r (err e) h =
    if-elim (λ (o : Outcome). Shape lib r o.0) (is_value_error e.kind) (λ _. turned_away 411)
      (λ _. nothing)
with_bound-Shape lib b r (ok (negsuc n)) h = turned_away 413
with_bound-Shape lib b r (ok (pos n)) h =
    if-elim (λ (o : Outcome). Shape lib r o.0) (n == 0 || ltb max_request_bytes n)
      (λ _. turned_away 413) (λ e. with_length-Shape lib b r n h (ground (arith, e)))

is_given-false : (o : Option Text) → is_given o ≡ false → o ≡ none
unfolding is_given
is_given-false none h = refl
is_given-false (some t) h = ground (arith, h)

-- Whatever comes in and whatever the lifecycle and the bundled server do, `do_POST` either turns the
-- request away or makes at most one request of the lifecycle and one forward in it, which it always ends,
-- with its connection closed: the client is local, the path the one that is served, the body not empty and
-- at most 16 MiB long, and each reply is at most 64 MiB long or the report of an error.
pub do_post-Shape : (lib : Library) (b : Backend) (r : Request) → Shape lib r (do_post lib b r).0
unfolding do_post refused
do_post-Shape lib b r =
    if-elim (λ (o : Outcome). Shape lib r o.0) (not (is_local r.client)) (λ _. turned_away 403)
      (λ near.
        if-elim (λ (o : Outcome). Shape lib r o.0) (not (text_eq r.path request_path))
          (λ _. turned_away 404)
          (λ served.
            if-elim (λ (o : Outcome). Shape lib r o.0) (is_given r.transfer_encoding)
              (λ _. turned_away 400)
              (λ plain.
                with_bound-Shape lib b r (lib.int (or_default [] r.content_length)) (record {
                  is_near = ground (arith, near);
                  is_served = text_eq_sound r.path request_path (ground (arith, served));
                  is_plain = is_given-false r.transfer_encoding plain;
                }))))
