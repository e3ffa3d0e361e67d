-- ===== src/Searxng/Payment/Discovery.antt =====
-- The first request of an exchange, which asks for the terms, and what it comes to.
use private_onyx_app.Searxng.Payment.Steps.{
  keep_terms-Hoare, read_json-Hoare, check-Hoare, classify-Hoare, reason-Hoare,
}
use private_onyx_app.Common.{
  codes, value_error, not, inl, ◌==◌, ap, ◌++◌, ◌+◌, Result, ℕ, Text, Json, List, Bool, Option, [],
  ◌∷◌, none, some, true, false, refl, ok, err,
}
use private_onyx_app.Common.Triples.{Triple-pre, Triple-pure, Triple, Triple-bind, Triple-if, Holds}
use private_onyx_app.Searxng.Payment.{
  decode, discover, discovered, asked, payment_status_unknown, unknown, Response, Outcome, post,
  record_start, counted, Exchange, World, Post, Sdk, unsigned, signed, invalid_response,
}
use private_onyx_app.Searxng.Payment.Sound.{
  throw-Hoare, lift-Hoare, Tells-Ended, Ended, Read, Hoare, Tells, Here, Phase, fresh, begun,
  probed, paid,
}

-- What the answer to the unsigned request comes to.
abbrev pub Discovered : Option Json → Exchange → Type 0
Discovered (some j) = Here Read
Discovered none = Here (Tells probed)

-- The phase before a payment, with the terms at hand or asked for.
abbrev pub before : Bool → Phase
before true = probed
before false = fresh

abbrev pub ready : Bool → Phase
ready true = probed
ready false = begun

Tells-begun :
    (posts : List Post) (starts : ℕ) (o : Outcome)
    → Tells fresh posts starts o
    → Tells begun posts (starts + 1) o
Tells-begun posts starts o h = record {
  sent = h.sent;
  started = ap (λ n. n + 1) h.started;
  told = h.told;
  unpaid = h.unpaid;
  sends = h.sends;
  limited = h.limited;
}

Tells-probed :
    (posts : List Post) (starts : ℕ) (o : Outcome)
    → Tells begun posts starts o
    → Tells probed (posts ++ (unsigned ∷ [])) starts o
Tells-probed posts starts o h = record {
  sent = ap (λ ps. ps ++ (unsigned ∷ [])) h.sent;
  started = h.started;
  told = h.told;
  unpaid = h.unpaid;
  sends = h.sends;
  limited = h.limited;
}

pub Tells-paid :
    (cold : Bool) (signature : Text) (posts : List Post) (starts : ℕ) (o : Outcome)
    → Tells (ready cold) posts starts o
    → Tells
        (paid cold signature)
        (posts ++ (signed signature ∷ []))
        starts
        (record o { submitted = true; payment = unknown; reason = payment_status_unknown })
Tells-paid true signature posts starts o h = record {
  sent = ap (λ ps. ps ++ (signed signature ∷ [])) h.sent;
  started = h.started;
  told = refl;
  unpaid = λ e. absurd (cc e);
  sends = λ _ e. absurd (cc e);
  limited = h.limited;
}
Tells-paid false signature posts starts o h = record {
  sent = ap (λ ps. ps ++ (signed signature ∷ [])) h.sent;
  started = h.started;
  told = refl;
  unpaid = λ e. absurd (cc e);
  sends = λ _ e. absurd (cc e);
  limited = h.limited;
}

module _ (sdk : Sdk) (world : World) where
  counted-Hoare : (r : Result (Unit {0})) → Hoare (Tells fresh) (counted sdk world r) (Tells begun)
  unfolding counted
  counted-Hoare (ok u) = record { holds = λ s p. Tells-begun s.posts s.starts s.outcome p }
  counted-Hoare (err e) = record { holds = λ s p. (fresh, p) }

  pub record_start-Hoare : Hoare (Tells fresh) (record_start sdk world) (Tells begun)
  unfolding record_start
  record_start-Hoare = counted-Hoare world.start

  post-Hoare :
      (answer : Result Response)
      → Hoare (Tells begun) (post sdk world unsigned answer) (Tells probed)
  unfolding post
  post-Hoare answer = record {
    holds = λ s p. by_answer s (Tells-probed s.posts s.starts s.outcome p) answer;
  }
    where
      by_answer :
          (s : Exchange)
          → Tells probed (s.posts ++ (unsigned ∷ [])) s.starts s.outcome
          → (r : Result Response)
          → Holds
              (Here Ended)
              (λ _. Here (Tells probed))
              r
              (record s { posts = s.posts ++ (unsigned ∷ []) })
      by_answer s p (ok a) = p
      by_answer s p (err e) = (probed, p)

  terms-Hoare :
      (r : Response) → Triple (Here Ended) (Here (Tells probed)) (asked sdk world r) Discovered
  unfolding asked
  terms-Hoare r = Triple-bind (Here Ended) (reason-Hoare sdk world probed invalid_response) (λ _.
      Triple-bind (Here Ended) (check-Hoare sdk world (Tells probed) (Tells-Ended probed)) (λ _.
        Triple-bind (Here Ended)
          (lift-Hoare (Tells probed) (decode sdk r.payment_required) (Tells-Ended probed))
          (λ terms. Triple-bind (Here Ended) (keep_terms-Hoare sdk world (Tells probed) terms) (λ _.
            Triple-bind (Here Ended) (check-Hoare sdk world (Tells probed) (Tells-Ended probed))
              (λ _. Triple-pure (Here Ended) Discovered none)))))

  discovered-Hoare :
      (r : Response) → Triple (Here Ended) (Here (Tells probed)) (discovered sdk world r) Discovered
  unfolding discovered
  discovered-Hoare r = Triple-bind (Here Ended) (classify-Hoare sdk world probed r) (λ _.
      Triple-if (Here Ended) (r.status_code == 200)
        (λ _.
          Triple-bind (Here Ended)
            (Triple-pre (Here Ended) (λ s p. inl p) (read_json-Hoare sdk world r))
            (λ j. Triple-pure (Here Ended) Discovered (some j)))
        (λ _.
          Triple-if (Here Ended) (not (r.status_code == 402))
            (λ _.
              throw-Hoare (Tells probed) value_error (codes "discovery_failed") Discovered
                (Tells-Ended probed))
            (λ _. terms-Hoare r)))

  pub discover-Hoare : Triple (Here Ended) (Here (Tells fresh)) (discover sdk world) Discovered
  unfolding discover
  discover-Hoare =
      Triple-bind (Here Ended) (check-Hoare sdk world (Tells fresh) (Tells-Ended fresh)) (λ _.
        Triple-bind (Here Ended) record_start-Hoare
          (λ _. Triple-bind (Here Ended) (post-Hoare world.discovery) discovered-Hoare))
