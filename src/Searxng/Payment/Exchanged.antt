-- ===== src/Searxng/Payment/Exchanged.antt =====
-- About the second half of `exchange`, the paid request, and about the whole of it.
use private_onyx_app.Searxng.Payment.Discovery.{
  discover-Hoare, record_start-Hoare, Tells-paid, Discovered, before, ready,
}
use private_onyx_app.Searxng.Payment.Steps.{
  pure-Hoare, read_json-Hoare, rejected-Hoare, check-Hoare, classify-Hoare, reason-Hoare,
}
use private_onyx_app.Common.{
  codes, inr, value_error, not, ◌||◌, ◌==◌, Raised, arith, ◌++◌, ◌≡◌, Result, Text, Json, Bool,
  Option, [], ◌∷◌, none, some, true, false, refl, ok, err,
}
use private_onyx_app.Common.Triples.{
  Triple-pre, Triple-rescue, Triple, Triple-bind, Triple-if, Holds,
}
use private_onyx_app.Searxng.Payment.{
  new_outcome, gets, lift, sign, is_success, payment_rejected, Requirements, exchange, by_terms,
  after_discovery, pay, begin, settle, unreceipted, receipted, refused, set_payment, submit,
  payment_status_unknown, unknown, Response, post, Exchange, World, Sdk, signed, reported_success,
}
use private_onyx_app.Searxng.Payment.Sound.{
  Read-Ended, throw-Hoare, lift-Hoare, Tells-Ended, Ended, Read, Hoare, Tells, Here, Assertion,
  fresh, paid,
}

-- A payment whose receipt is known.
Receipted : Bool → Text → Bool → Assertion
Receipted cold signature success posts starts o =
    Tells (paid cold signature) posts starts o × (success ≡ true → o.payment ≡ reported_success)

module _ (sdk : Sdk) (world : World) where
  submit-Hoare :
      (cold : Bool) (signature : Text)
      → Hoare (Tells (ready cold)) (submit sdk world signature) (Tells (paid cold signature))
  unfolding submit post
  submit-Hoare cold signature = record {
    holds = λ s p.
        by_answer
          (record s {
            posts = s.posts ++ (signed signature ∷ []);
            outcome = record s.outcome {
              submitted = true;
              payment = unknown;
              reason = payment_status_unknown;
            };
          })
          (Tells-paid cold signature s.posts s.starts s.outcome p) (world.paid signature);
  }
    where
      by_answer :
          (s : Exchange)
          → Here (Tells (paid cold signature)) s
          → (r : Result Response) → Holds (Here Ended) (λ _. Here (Tells (paid cold signature))) r s
      by_answer s p (ok a) = p
      by_answer s p (err e) = (paid cold signature, p)

  module _ (cold : Bool) (signature : Text) where
    abbrev Sent : Assertion
    Sent = Tells (paid cold signature)

    set_payment-Hoare :
        (success : Bool) → Hoare Sent (set_payment success) (Receipted cold signature success)
    unfolding set_payment Receipted
    set_payment-Hoare success = record {
      holds = λ s p. (
        record {
          sent = p.sent;
          started = p.started;
          told = p.told;
          unpaid = λ e. absurd (cc e);
          sends = λ _ e. ground (arith, e);
          limited = p.limited;
        },
        λ e. ground (arith, e),
      );
    }

    refused-Hoare : (r : Response) → Hoare Sent (refused sdk world r) Read
    unfolding refused
    refused-Hoare r =
        Triple-bind (Here Ended) (rejected-Hoare sdk world Sent r.payment_required) (λ _.
          Triple-bind (Here Ended)
            (Triple-if (Here Ended)
              (r.status_code == 401 || r.status_code == 403 || r.status_code == 429)
              (λ _. pure-Hoare sdk world Sent tt)
              (λ _. reason-Hoare sdk world (paid cold signature) payment_rejected))
            (λ _.
              throw-Hoare Sent value_error (codes "payment_rejected") (λ _. Here Read)
                (Tells-Ended (paid cold signature))))

    receipted-Hoare :
        (r : Response) (success : Bool) → Hoare Sent (receipted sdk world r success) Read
    unfolding receipted Receipted
    receipted-Hoare r success = Triple-bind (Here Ended) (set_payment-Hoare success) (λ _.
        Triple-if (Here Ended) (r.status_code == 402 || not success)
          (λ _. Triple-pre (Here Ended) (λ s p. p.0) (refused-Hoare r))
          (λ e.
            Triple-if (Here Ended) (not (is_success sdk world r.status_code))
              (λ _.
                throw-Hoare (Receipted cold signature success) value_error
                  (codes "paid_response_failed") (λ _. Here Read)
                  (λ posts starts o p. (paid cold signature, p.0)))
              (λ _.
                Triple-pre (Here Ended) (λ s p. inr (cold, signature, p.0, p.1 (ground (arith, e))))
                  (read_json-Hoare sdk world r))))

    lift_err-Hoare : (e : Raised) → Hoare Sent (lift {S = Exchange} {A = Json} (err e)) Read
    lift_err-Hoare e = record { holds = λ s p. (paid cold signature, p) }

    unreceipted-Hoare : (r : Response) (e : Raised) → Hoare Sent (unreceipted sdk world r e) Read
    unfolding unreceipted
    unreceipted-Hoare r e =
        Triple-bind (Here Ended)
          (Triple-if (Here Ended) (r.status_code == 402)
            (λ _. rejected-Hoare sdk world Sent r.payment_required)
            (λ _. pure-Hoare sdk world Sent tt))
          (λ _. lift_err-Hoare e)

    settle-Hoare : (r : Response) → Hoare Sent (settle sdk world r) Read
    unfolding settle
    settle-Hoare r =
        Triple-bind (Here Ended) (classify-Hoare sdk world (paid cold signature) r) (λ _.
          Triple-rescue (Here Ended) (sdk.decode_payment_response r.payment_response)
            (receipted-Hoare r) (unreceipted-Hoare r))

  terms_here : (P : Assertion) → Hoare P (gets (λ (s : Exchange). s.requirements)) P
  terms_here P = record { holds = λ s p. p }

  begin-Hoare :
      (cold : Bool) → Hoare (Tells (before cold)) (begin sdk world cold) (Tells (ready cold))
  unfolding begin
  begin-Hoare true = record { holds = λ s p. p }
  begin-Hoare false = record { holds = λ s p. (record_start-Hoare sdk world).holds s p }

  pay-Hoare : (cold : Bool) → Hoare (Tells (before cold)) (pay sdk world cold) Read
  unfolding pay
  pay-Hoare cold =
      Triple-bind (Here Ended)
        (check-Hoare sdk world (Tells (before cold)) (Tells-Ended (before cold)))
        (λ _. Triple-bind (Here Ended) (terms_here (Tells (before cold))) (λ terms.
          Triple-bind (Here Ended)
            (lift-Hoare (Tells (before cold)) (sign sdk world terms) (Tells-Ended (before cold)))
            (λ signature.
              Triple-bind (Here Ended)
                (check-Hoare sdk world (Tells (before cold)) (Tells-Ended (before cold)))
                (λ _. Triple-bind (Here Ended) (begin-Hoare cold) (λ _.
                  Triple-bind (Here Ended)
                    (check-Hoare sdk world (Tells (ready cold)) (Tells-Ended (ready cold)))
                    (λ _.
                      Triple-bind (Here Ended) (submit-Hoare cold signature)
                        (settle-Hoare cold signature)))))))

  after-Hoare :
      (found : Option Json)
      → Triple (Here Ended) (Discovered found) (after_discovery sdk world found) (λ _. Here Read)
  unfolding after_discovery
  after-Hoare (some j) = record { holds = λ s p. p }
  after-Hoare none = record { holds = λ s p. (pay-Hoare true).holds s p }

  by_terms-Hoare :
      (terms : Option Requirements) → Hoare (Tells fresh) (by_terms sdk world terms) Read
  unfolding by_terms
  by_terms-Hoare none = Triple-bind (Here Ended) (discover-Hoare sdk world) after-Hoare
  by_terms-Hoare (some r) = record { holds = λ s p. (pay-Hoare false).holds s p }

  exchange-Hoare : Hoare (Tells fresh) (exchange sdk world) Read
  unfolding exchange
  exchange-Hoare =
      Triple-bind (Here Ended) (check-Hoare sdk world (Tells fresh) (Tells-Ended fresh))
        (λ _. Triple-bind (Here Ended) (terms_here (Tells fresh)) by_terms-Hoare)

-- A client that kept some terms or none, before an attempt.
unfoldable pub new_exchange : Option Requirements → Exchange
unfolding new_outcome
new_exchange terms = record {
  outcome = new_outcome;
  requirements = terms;
  posts = [];
  checks = 0;
  starts = 0;
}

new_exchange-Tells : (terms : Option Requirements) → Here (Tells fresh) (new_exchange terms)
unfolding new_exchange
new_exchange-Tells terms = record {
  sent = refl;
  started = refl;
  told = refl;
  unpaid = λ e. refl;
  sends = λ e. absurd (cc e);
  limited = tt;
}

Holds-Ended :
    (r : Result Json) (s : Exchange) → Holds (Here Ended) (λ _. Here Read) r s → Here Ended s
Holds-Ended (ok j) s h = Read-Ended s.posts s.starts s.outcome h
Holds-Ended (err e) s h = h

Holds-Read :
    (r : Result Json) (s : Exchange) (j : Json)
    → r ≡ ok j
    → Holds (Here Ended) (λ _. Here Read) r s
    → Here Read s
Holds-Read (ok j') s j e h = h
Holds-Read (err e') s j e h = absurd (cc e)

-- Whatever the provider answers, whatever the SDK and the clock do, and however the exchange ends, at most
-- one unsigned request and behind it at most one signed request were sent, each attempt recorded its start
-- once before its first request, the outcome says whether a payment was sent, and a suspension lasts from
-- one minute to an hour.
pub exchange-Tells :
    (sdk : Sdk) (world : World) (terms : Option Requirements)
    → Here Ended (exchange sdk world (new_exchange terms)).1
exchange-Tells sdk world terms =
    Holds-Ended _ _
      ((exchange-Hoare sdk world).holds (new_exchange terms) (new_exchange-Tells terms))

-- An exchange that returns a result had it for nothing, from the unsigned request alone, or for a payment
-- that the provider reported as successful.
pub exchange-Earned :
    (sdk : Sdk) (world : World) (terms : Option Requirements) (j : Json)
    → (exchange sdk world (new_exchange terms)).0 ≡ ok j
    → Here Read (exchange sdk world (new_exchange terms)).1
exchange-Earned sdk world terms j e =
    Holds-Read _ _ j e
      ((exchange-Hoare sdk world).holds (new_exchange terms) (new_exchange-Tells terms))
