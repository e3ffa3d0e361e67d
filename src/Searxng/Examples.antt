-- ===== src/Searxng/Examples.antt =====
-- The theorems of the paid engine at concrete inputs.
use private_onyx_app.Searxng.RoundRobin.Search.Bounded.{search_standard-ends, IsTried}
use private_onyx_app.Searxng.RoundRobin.Search.{
  out_of_attempts, Search, Capacity, search_standard, Attempt,
}
use private_onyx_app.Searxng.RoundRobin.Priority.{select_round-active, active_tier}
use private_onyx_app.Searxng.RoundRobin.Turns.{reserve_round_robin_engine-Answered, Answered}
use private_onyx_app.Searxng.RoundRobin.{
  reserve_round_robin_engine, outcome_of, paid_engine, select_round, Engines,
}
use private_onyx_app.Searxng.Admission.Threads.{
  ask, enter, start, leave, give_back, holding, owning,
}
use private_onyx_app.Searxng.Payment.Results.Rows.{parse_results-IsRow, IsRow}
use private_onyx_app.Searxng.Payment.Terms.{decode-Supports, Supports}
use private_onyx_app.Searxng.Payment.Exchanged.{exchange-Earned, exchange-Tells, new_exchange}
use private_onyx_app.Searxng.Admission.Threads.Safety.{attempt-ok, attempt-IsAlone, starts-IsSpaced}
use private_onyx_app.Searxng.Admission.Waiting.{wait_round-bounded}
use private_onyx_app.Searxng.Payment.Results.{Row, Library}
use private_onyx_app.Searxng.Payment.Sound.{Read, Ended, Here}
use private_onyx_app.Searxng.Payment.{
  asset, network, other_resource, exchange, World, Response, Sdk, Requirements, Offer,
}
use private_onyx_app.Searxng.Admission.{record_start, own, Seen, Admission}
use private_onyx_app.Searxng.Admission.Threads.Invariant.{owns, holds, IsSpaced}
use private_onyx_app.Searxng.Admission.Threads.{
  owning, give_back, leave, holding, ask, new_system, Choice, run, Act,
}
use private_onyx_app.Common.{
  ◌≢◌, arith, if◌then◌else◌, Text, is_space, strip, is_empty, text_eq, Bool, All, value_error, ◌≤◌,
  length, Option, raise, get_elem?, total, ◌+◌, Result, codes, ◌<◌, Json, List, ◌≡◌, ℕ, refl, ◌∷◌,
  [], none, some, true, false, ok, null, text, array, object, element, no_elements, member_of,
  no_members,
}

abbrev at_once : ℕ → Act → Choice
at_once i a = record { elapsed = 0; position = i; does = a }

-- Thread 0 makes an attempt; thread 1 is refused at once and admitted four seconds later.
abbrev attempts : List Choice
attempts =
    at_once 0 (ask true)
    ∷ at_once 0 enter
    ∷ at_once 0 start
    ∷ at_once 1 (ask true)
    ∷ at_once 0 leave
    ∷ at_once 0 give_back
    ∷ record { elapsed = 4000000; position = 1; does = ask true }
    ∷ at_once 1 enter
    ∷ at_once 1 start
    ∷ []

starts-IsSpaced_example : IsSpaced (run attempts (new_system 7 2)).starts
starts-IsSpaced_example = starts-IsSpaced 7 2 attempts

attempt-IsAlone_example :
    let w = run attempts (new_system 7 2) in total holds w.threads + total owns w.threads ≤ 1
attempt-IsAlone_example = attempt-IsAlone 7 2 attempts

attempt-ok_example :
    let w = run attempts (new_system 7 2) in
    (get_elem? w.threads 1 ≡ some (holding 1)
      → own (some 1) w.admission ≡ ok (record w.admission { token = none; active = true }))
    × ((b : Bool)
        → get_elem? w.threads 1 ≡ some (owning 1 b)
        → record_start w.clock w.admission ≡ ok (record w.admission { last_start = some w.clock }))
attempt-ok_example = attempt-ok 7 2 attempts 1 1

abbrev cooling_admission : Admission
cooling_admission = record { token = none; active = false; last_start = some 5 }

abbrev seen : Seen
seen = record { available = true; still_available = true; entered = 7; reserved = 8; computed = 8 }

wait_round-bounded_example : (d : ℕ) × (some 3 ≡ some d) × (0 < d) × (7 + d ≤ 10)
unfolding private_onyx_app.Searxng.Admission.wait_round
wait_round-bounded_example =
    wait_round-bounded 10 0 seen cooling_admission cooling_admission (some 3) refl

abbrev offer : Offer
offer = record { scheme = codes "exact"; network = network; asset = asset; extra = no_members }

abbrev terms : Requirements
terms = record {
  x402_version = 2;
  resource_url = none;
  accepts = offer ∷ [];
  extensions = some null;
}

abbrev select : List Offer → Result (Unit {0})
select [] = raise value_error (codes "no offer")
select (o ∷ os) = ok tt

abbrev sdk : Sdk
sdk = record {
  lower = λ t. t;
  decode_payment_required = λ header. ok terms;
  select = select;
  sign = λ r. ok (codes "signature");
  decode_payment_response = λ header. ok true;
}

abbrev answer : ℕ → Response
answer status = record {
  status_code = status;
  retry_after = none;
  payment_required = some (codes "terms");
  payment_response = some (codes "receipt");
  body = ok tt;
  json = ok null;
}

abbrev world : World
world = record {
  is_expired = λ n. false;
  start = ok tt;
  discovery = ok (answer 402);
  paid = λ signature. ok (answer 200);
}

exchange-Tells_example : Here Ended (exchange sdk world (new_exchange none)).1
exchange-Tells_example = exchange-Tells sdk world none

exchange-Earned_example : Here Read (exchange sdk world (new_exchange none)).1
unfolding exchange new_exchange private_onyx_app.Searxng.Payment.supported_offer text_eq
exchange-Earned_example = exchange-Earned sdk world none null refl

decode-Supports_example :
    (◌≡◌ {A = ℕ} 2 2)
    × (other_resource none ≡ false)
    × (◌≡◌ {A = Option Json} none none)
    × Supports sdk (offer ∷ [])
unfolding private_onyx_app.Searxng.Payment.decode private_onyx_app.Searxng.Payment.supported_offer
    text_eq
decode-Supports_example =
    decode-Supports sdk (record { kind = value_error; message = codes "no offer" })
      (some (codes "terms")) (record terms { extensions = none }) refl refl

abbrev library : Library
library = record {
  plain_text = λ t. ok t;
  normalize_url = λ j. ok (codes "https://a.example/", []);
}

abbrev one_result : Json
one_result = object (
    member_of (codes "results")
      (array (
        element
          (object (
            member_of (codes "title") (text (codes "A")) (
              member_of (codes "highlights") (array (element (text (codes " b ")) no_elements))
                no_members)))
          (element null no_elements)))
      no_members)

parse_results-IsRow_example :
    let row : Row = record {
      url = codes "https://a.example/";
      title = codes "A";
      content = codes "b";
    } in
    (length (row ∷ []) ≤ 10) × All IsRow (row ∷ [])
unfolding private_onyx_app.Searxng.Payment.Results.parse_results text_eq is_empty strip is_space
parse_results-IsRow_example =
    parse_results-IsRow library one_result
      (record { url = codes "https://a.example/"; title = codes "A"; content = codes "b" } ∷ [])
      refl

-- Brave and Startpage are regular, Bing is the last resort; Startpage is busy.
abbrev engines : Engines
engines = record {
  is_last_resort = λ name. text_eq name (codes "bing2");
  is_available = λ name. true;
}

abbrev free : Text → Option Text
free name = if text_eq name (codes "startpage2") then none else some (codes "token")

abbrev pool : List Text
pool = codes "startpage2" ∷ codes "brave2" ∷ codes "bing2" ∷ paid_engine ∷ []

select_round-active_example :
    select_round engines free true pool 4
    ≡ outcome_of true
        (active_tier engines pool)
        (reserve_round_robin_engine free (active_tier engines pool) 4)
select_round-active_example = select_round-active engines free true pool 4

reserve_round_robin_engine-Answered_example :
    Answered free pool 4 (reserve_round_robin_engine free pool 4)
reserve_round_robin_engine-Answered_example = reserve_round_robin_engine-Answered free pool 4

-- A round in which every provider has capacity.
abbrev granting : Capacity
granting = record { engines = engines; reserve = λ name. some (codes "token"); paid_wait = none }

-- The first provider that is picked is found suspended, the next is tried without a result.
abbrev fruitless : Attempt
fruitless = record {
  drawn =
      record { rounds = granting ∷ []; is_suspended = ok true }
      ∷ record { rounds = granting ∷ []; is_suspended = ok false }
      ∷ [];
  has_results = ok false;
}

abbrev two : List Text
two = codes "brave2" ∷ codes "bing2" ∷ []

abbrev fresh_search : Search
fresh_search = record { cursor = 1; released = [] }

search_standard-ends_example :
    let searched =
      search_standard (fruitless ∷ fruitless ∷ fruitless ∷ []) two two [] fresh_search in
    (searched.verdict ≢ out_of_attempts) × IsTried two searched.tried
search_standard-ends_example =
    search_standard-ends (fruitless ∷ fruitless ∷ fruitless ∷ []) two two fresh_search (omega arith)
