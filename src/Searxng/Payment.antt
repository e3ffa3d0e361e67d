-- ===== src/Searxng/Payment.antt =====
-- searxng/engines/_x402_payment.py: one exchange with the paid provider, of one unsigned and one signed
-- request at most. The x402 SDK, the signature, the peer and the clock are parameters: the records `Sdk` and
-- `World`. `int` and the parser of dates are Python's.
pub mod Policy
pub mod Sound
pub mod Steps
pub mod Discovery
pub mod Exchanged
pub mod Terms
pub mod Results
unfoldable pub use Policy.*
use private_onyx_app.Common.Actions.{gets, rescue, throw, lift, pure, ◌>>>=◌, Action}
use private_onyx_app.Common.{
  zero, suc, is_empty, null, ◌||◌, value_error, timeout_error, pos, not, [], err, text, ◌+◌, ◌==◌,
  ◌&&◌, raise, leb, true, ◌∷◌, text_eq, codes, ℤ, Json, Members, none, ok, some, ◌++◌, ◌>>=◌,
  if◌then◌else◌, Raised, clamp, Result, List, get, is_text, Option, ℕ, Text, false, Bool,
}

pub data Status : Type 0 where
  not_submitted unknown reported_success reported_rejection : Status

pub data Reason : Type 0 where
  provider_unavailable rate_limited payment_rejected invalid_response payment_status_unknown :
      Reason

pub record Outcome : Type 0 where
  pub submitted : Bool
  pub payment : Status
  pub reason : Reason
  pub suspension : Option ℕ

unfoldable pub new_outcome : Outcome
new_outcome = record {
  submitted = false;
  payment = not_submitted;
  reason = provider_unavailable;
  suspension = none;
}

pub record Response : Type 0 where
  pub status_code : ℕ
  -- the seconds that Retry-After asks for, once `int` or the date gave them
  pub retry_after : Option ℤ
  pub payment_required : Option Text
  pub payment_response : Option Text
  pub body : Result (Unit {0})
  pub json : Result Json

-- The clock at each check of the deadline, `record_start`, and the answers to the two requests.
pub record World : Type 0 where
  pub is_expired : ℕ → Bool
  pub start : Result (Unit {0})
  pub discovery : Result Response
  pub paid : Text → Result Response

pub data Post : Type 0 where
  unsigned : Post
  signed : Text → Post

-- The outcome, the terms that the client keeps, and what was done so far.
pub record Exchange : Type 0 where
  pub outcome : Outcome
  pub requirements : Option Requirements
  pub posts : List Post
  pub checks : ℕ
  pub starts : ℕ

unfoldable pub rejected : Sdk → Option Text → Action Exchange (Unit {0})
unfolding replacement
rejected sdk header s = (ok tt, record s { requirements = replacement sdk header })

-- The number of seconds, or a minute where the header gives none.
unfoldable pub retry_after : Option ℤ → ℕ
unfolding clamp
retry_after none = clamp 60 3600 (pos 60)
retry_after (some delay) = clamp 60 3600 delay

unfoldable pub classify_status : Response → Outcome → Outcome
unfolding retry_after
classify_status r o =
    if r.status_code == 429
    then record o { reason = rate_limited; suspension = some (retry_after r.retry_after) }
    else if r.status_code == 401 || r.status_code == 403
    then record o { reason = provider_unavailable; suspension = some 3600 }
    else if r.status_code == 402 && o.submitted
    then record o { reason = payment_rejected }
    else o

unfoldable pub classify : Response → Action Exchange (Unit {0})
unfolding classify_status
classify r s = (ok tt, record s { outcome = classify_status r s.outcome })

unfoldable pub set_reason : Reason → Action Exchange (Unit {0})
set_reason reason s = (ok tt, record s { outcome = record s.outcome { reason = reason } })

unfoldable pub set_payment : Bool → Action Exchange (Unit {0})
set_payment success s =
    let payment = if success then reported_success else reported_rejection in
    (ok tt, record s { outcome = record s.outcome { payment = payment } })

unfoldable pub keep_terms : Requirements → Action Exchange (Unit {0})
keep_terms r s = (ok tt, record s { requirements = some r })

module _ (sdk : Sdk) (world : World) where
  unfoldable pub check_deadline : Action Exchange (Unit {0})
  check_deadline s = (
    if world.is_expired s.checks then raise timeout_error (codes "engine_deadline") else ok tt,
    record s { checks = s.checks + 1 },
  )

  unfoldable pub counted : Result (Unit {0}) → Action Exchange (Unit {0})
  counted (ok u) s = (ok u, record s { starts = s.starts + 1 })
  counted (err e) s = (err e, s)

  unfoldable pub record_start : Action Exchange (Unit {0})
  unfolding counted
  record_start = counted world.start

  unfoldable pub post : Post → Result Response → Action Exchange Response
  post p answer s = (answer, record s { posts = s.posts ++ (p ∷ []) })

  -- The outcome as it is set before the signed request.
  unfoldable pub submit : Text → Action Exchange Response
  unfolding post
  submit signature s = post (signed signature) (world.paid signature) (record s {
    outcome = record s.outcome {
      submitted = true;
      payment = unknown;
      reason = payment_status_unknown;
    };
  })

  -- A body that is read, and its JSON.
  unfoldable pub read_json : Response → Action Exchange Json
  unfolding set_reason check_deadline
  read_json r = set_reason invalid_response >>>= λ _. lift r.body >>>= λ _.
      check_deadline >>>= λ _. lift r.json >>>= λ j. check_deadline >>>= λ _. pure j

  -- The terms of a payment, which the answer to the unsigned request asks for.
  unfoldable pub asked : Response → Action Exchange (Option Json)
  unfolding set_reason check_deadline decode keep_terms
  asked r = set_reason invalid_response >>>= λ _. check_deadline >>>= λ _.
      lift (decode sdk r.payment_required) >>>= λ terms.
      keep_terms terms >>>= λ _. check_deadline >>>= λ _. pure none

  -- The answer to the unsigned request: a result, or the terms of a payment.
  unfoldable pub discovered : Response → Action Exchange (Option Json)
  unfolding classify read_json asked
  discovered r = classify r >>>= λ _.
      if r.status_code == 200
      then (read_json r >>>= λ j. pure (some j))
      else if not (r.status_code == 402)
      then throw value_error (codes "discovery_failed")
      else asked r

  unfoldable pub discover : Action Exchange (Option Json)
  unfolding check_deadline record_start post discovered
  discover =
      check_deadline >>>= λ _. record_start >>>= λ _. post unsigned world.discovery >>>= discovered

  unfoldable pub is_success : ℕ → Bool
  is_success status = leb 200 status && leb status 299

  -- A payment that is not accepted.
  unfoldable pub refused : Response → Action Exchange Json
  unfolding rejected set_reason
  refused r = rejected sdk r.payment_required >>>= λ _.
      (if r.status_code == 401 || r.status_code == 403 || r.status_code == 429
        then pure tt
        else set_reason payment_rejected)
      >>>= λ _. throw value_error (codes "payment_rejected")

  unfoldable pub receipted : Response → Bool → Action Exchange Json
  unfolding set_payment refused read_json is_success
  receipted r success = set_payment success >>>= λ _.
      if r.status_code == 402 || not success
      then refused r
      else if not (is_success r.status_code)
      then throw value_error (codes "paid_response_failed")
      else read_json r

  -- A receipt that cannot be decoded: a rejection still takes the terms away.
  unfoldable pub unreceipted : Response → Raised → Action Exchange Json
  unfolding rejected
  unreceipted r e =
      (if r.status_code == 402 then rejected sdk r.payment_required else pure tt) >>>= λ _.
      lift (err e)

  unfoldable pub settle : Response → Action Exchange Json
  unfolding classify receipted unreceipted
  settle r = classify r >>>= λ _.
      rescue (sdk.decode_payment_response r.payment_response) (receipted r) (unreceipted r)

  unfoldable pub sign : Option Requirements → Result Text
  sign none = raise value_error (codes "no payment requirements")
  sign (some r) = sdk.sign r

  -- With the terms at hand, the attempt starts with the payment.
  unfoldable pub begin : Bool → Action Exchange (Unit {0})
  unfolding record_start
  begin true = pure tt
  begin false = record_start

  unfoldable pub pay : Bool → Action Exchange Json
  unfolding check_deadline sign begin submit settle
  pay cold = check_deadline >>>= λ _. gets (λ (s : Exchange). s.requirements) >>>= λ terms.
      lift (sign terms) >>>= λ signature. check_deadline >>>= λ _.
      begin cold >>>= λ _. check_deadline >>>= λ _. submit signature >>>= settle

  unfoldable pub after_discovery : Option Json → Action Exchange Json
  unfolding pay
  after_discovery (some j) = pure j
  after_discovery none = pay true

  unfoldable pub by_terms : Option Requirements → Action Exchange Json
  unfolding discover after_discovery pay
  by_terms none = discover >>>= after_discovery
  by_terms (some r) = pay false

  unfoldable pub exchange : Action Exchange Json
  unfolding check_deadline by_terms
  exchange = check_deadline >>>= λ _. gets (λ (s : Exchange). s.requirements) >>>= by_terms
