-- ===== src/Searxng/Payment/Sound.antt =====
-- What an exchange does at most, and what its outcome tells of it.
use private_onyx_app.Common.{
  ◌&&◌, negsuc, ◌||◌, pos, ◌==◌, arith, if-elim, ℤ, clamp, Kind, inr, Result, inl, ◌⊎◌, ◌≢◌, Text,
  ◌≡◌, ◌≤◌, Option, ℕ, List, Bool, [], ◌∷◌, none, some, true, false, refl, ok, err,
}
use private_onyx_app.Common.Triples.{Triple}
use private_onyx_app.Searxng.Payment.{
  Response, throw, classify_status, retry_after, Reason, lift, Action, Outcome, Post, Exchange,
  unsigned, signed, not_submitted, reported_success, invalid_response,
}

-- How far an exchange is: nothing was done, the attempt was started, the terms were asked for, or a payment
-- was sent, with or without asking for the terms first.
pub data Phase : Type 0 where
  fresh begun probed : Phase
  paid : Bool → Text → Phase

abbrev pub posts_of : Phase → List Post
posts_of fresh = []
posts_of begun = []
posts_of probed = unsigned ∷ []
posts_of (paid true signature) = unsigned ∷ signed signature ∷ []
posts_of (paid false signature) = signed signature ∷ []

abbrev pub starts_of : Phase → ℕ
starts_of fresh = 0
starts_of _ = 1

abbrev pub is_paid : Phase → Bool
is_paid (paid cold signature) = true
is_paid _ = false

abbrev pub Bounded : Option ℕ → Type 0
Bounded none = Unit {0}
Bounded (some n) = (60 ≤ n) × (n ≤ 3600)

-- The requests and starts so far, and what the outcome says of them.
pub record Tells (phase : Phase) (posts : List Post) (starts : ℕ) (o : Outcome) : Type 0 where
  pub sent : posts ≡ posts_of phase
  pub started : starts ≡ starts_of phase
  pub told : o.submitted ≡ is_paid phase
  pub unpaid : is_paid phase ≡ false → o.payment ≡ not_submitted
  pub sends : is_paid phase ≡ true → o.payment ≢ not_submitted
  pub limited : Bounded o.suspension

-- What is asserted of the requests, the starts and the outcome.
abbrev pub Assertion : Type 1
Assertion = List Post → ℕ → Outcome → Type 0

abbrev pub Here : Assertion → Exchange → Type 0
Here P s = P s.posts s.starts s.outcome

abbrev pub Ended : Assertion
Ended posts starts o = (phase : Phase) × Tells phase posts starts o

-- A result for nothing, or for a payment that the provider reports as successful.
abbrev pub Earned : Assertion
Earned posts starts o =
    Tells probed posts starts o
    ⊎ ((cold : Bool) × (signature : Text) × Tells (paid cold signature) posts starts o
        × (o.payment ≡ reported_success))

abbrev pub Read : Assertion
Read posts starts o = Earned posts starts o × (o.reason ≡ invalid_response)

abbrev pub Hoare : {A : Type 0} → Assertion → Action Exchange A → Assertion → Type 0
Hoare P m Q = Triple (Here Ended) (Here P) m (λ _. Here Q)

abbrev pub Implies : Assertion → Assertion → Type 0
Implies P Q = (posts : List Post) (starts : ℕ) (o : Outcome) → P posts starts o → Q posts starts o

pub Earned-Ended : Implies Earned Ended
Earned-Ended posts starts o (inl h) = (probed, h)
Earned-Ended posts starts o (inr (cold, signature, h, e)) = (paid cold signature, h)

pub Read-Ended : Implies Read Ended
Read-Ended posts starts o (h, e) = Earned-Ended posts starts o h

pub Tells-Ended : (phase : Phase) → Implies (Tells phase) Ended
Tells-Ended phase posts starts o h = (phase, h)

pub lift-Hoare : {A : Type 0} (P : Assertion) (r : Result A) → Implies P Ended → Hoare P (lift r) P
lift-Hoare P (ok a) h = record { holds = λ s p. p }
lift-Hoare P (err e) h = record { holds = λ s p. h s.posts s.starts s.outcome p }

pub throw-Hoare :
    {A : Type 0} (P : Assertion) (k : Kind) (m : Text) (Q : A → Exchange → Type 0)
    → Implies P Ended
    → Triple (Here Ended) (Here P) (throw k m) Q
throw-Hoare P k m Q h = record { holds = λ s p. h s.posts s.starts s.outcome p }

pub Tells-reason :
    (phase : Phase) (posts : List Post) (starts : ℕ) (o : Outcome) (r : Reason)
    → Tells phase posts starts o
    → Tells phase posts starts (record o { reason = r })
Tells-reason phase posts starts o r h = record {
  sent = h.sent;
  started = h.started;
  told = h.told;
  unpaid = h.unpaid;
  sends = h.sends;
  limited = h.limited;
}

pub Earned-Read :
    (posts : List Post) (starts : ℕ) (o : Outcome)
    → Earned posts starts o
    → Read posts starts (record o { reason = invalid_response })
Earned-Read posts starts o (inl h) = (inl (Tells-reason probed posts starts o _ h), refl)
Earned-Read posts starts o (inr (cold, signature, h, e)) =
    (inr (cold, signature, Tells-reason (paid cold signature) posts starts o _ h, e), refl)

retry_after-Bounded : (delay : Option ℤ) → Bounded (some (retry_after delay))
unfolding retry_after clamp
retry_after-Bounded none = ground arith
retry_after-Bounded (some (pos n)) = ground arith
retry_after-Bounded (some (negsuc n)) = ground arith

Tells-suspended :
    (phase : Phase) (posts : List Post) (starts : ℕ) (o : Outcome) (r : Reason) (n : ℕ)
    → Bounded (some n)
    → Tells phase posts starts o
    → Tells phase posts starts (record o { reason = r; suspension = some n })
Tells-suspended phase posts starts o r n b h = record {
  sent = h.sent;
  started = h.started;
  told = h.told;
  unpaid = h.unpaid;
  sends = h.sends;
  limited = b;
}

pub classify_status-Tells :
    (phase : Phase) (posts : List Post) (starts : ℕ) (r : Response) (o : Outcome)
    → Tells phase posts starts o
    → Tells phase posts starts (classify_status r o)
unfolding classify_status
classify_status-Tells phase posts starts r o h =
    if-elim (Tells phase posts starts) (r.status_code == 429)
      (λ _. Tells-suspended phase posts starts o _ _ (retry_after-Bounded r.retry_after) h)
      (λ _.
        if-elim (Tells phase posts starts) (r.status_code == 401 || r.status_code == 403)
          (λ _. Tells-suspended phase posts starts o _ 3600 (omega arith, omega arith) h)
          (λ _.
            if-elim (Tells phase posts starts) (r.status_code == 402 && o.submitted)
              (λ _. Tells-reason phase posts starts o _ h) (λ _. h)))
