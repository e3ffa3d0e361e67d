-- ===== src/Searxng/Payment/Steps.antt =====
-- The assertions about an exchange under each of its steps.
use private_onyx_app.Common.{◌+◌, Result, if-elim, Text, Option}
use private_onyx_app.Common.Triples.{Holds, Triple-bind}
use private_onyx_app.Searxng.Payment.{
  pure, Reason, Response, Requirements, read_json, rejected, keep_terms, set_reason, classify,
  check_deadline, World, Sdk, invalid_response,
}
use private_onyx_app.Searxng.Payment.Sound.{
  Read-Ended, lift-Hoare, Here, Earned-Read, Read, Tells-reason, classify_status-Tells, Earned,
  Tells, Ended, Hoare, Phase, Implies, Assertion,
}

module _ (sdk : Sdk) (world : World) where
  pub check-Hoare : (P : Assertion) → Implies P Ended → Hoare P (check_deadline sdk world) P
  unfolding check_deadline
  check-Hoare P h = record {
    holds = λ s p.
        if-elim
          (λ (r : Result (Unit {0})).
            Holds (Here Ended) (λ _. Here P) r (record s { checks = s.checks + 1 }))
          (world.is_expired s.checks) (λ _. h s.posts s.starts s.outcome p) (λ _. p);
  }

  pub classify-Hoare :
      (phase : Phase) (r : Response) → Hoare (Tells phase) (classify r) (Tells phase)
  unfolding classify
  classify-Hoare phase r = record {
    holds = λ s p. classify_status-Tells phase s.posts s.starts r s.outcome p;
  }

  pub reason-Hoare : (phase : Phase) (r : Reason) → Hoare (Tells phase) (set_reason r) (Tells phase)
  unfolding set_reason
  reason-Hoare phase r = record { holds = λ s p. Tells-reason phase s.posts s.starts s.outcome r p }

  invalid-Hoare : Hoare Earned (set_reason invalid_response) Read
  unfolding set_reason
  invalid-Hoare = record { holds = λ s p. Earned-Read s.posts s.starts s.outcome p }

  pub keep_terms-Hoare : (P : Assertion) (r : Requirements) → Hoare P (keep_terms r) P
  unfolding keep_terms
  keep_terms-Hoare P r = record { holds = λ s p. p }

  pub rejected-Hoare : (P : Assertion) (header : Option Text) → Hoare P (rejected sdk header) P
  unfolding rejected
  rejected-Hoare P header = record { holds = λ s p. p }

  pub pure-Hoare : {A : Type 0} (P : Assertion) (a : A) → Hoare P (pure a) P
  pure-Hoare P a = record { holds = λ s p. p }

  pub read_json-Hoare : (r : Response) → Hoare Earned (read_json sdk world r) Read
  unfolding read_json
  read_json-Hoare r = Triple-bind (Here Ended) invalid-Hoare (λ _.
      Triple-bind (Here Ended) (lift-Hoare Read r.body Read-Ended) (λ _.
        Triple-bind (Here Ended) (check-Hoare Read Read-Ended) (λ _.
          Triple-bind (Here Ended) (lift-Hoare Read r.json Read-Ended) (λ j.
            Triple-bind (Here Ended) (check-Hoare Read Read-Ended) (λ _. pure-Hoare Read j)))))
