-- ===== src/Searxng/RoundRobin/Search.antt =====
-- searxng/patches/sitecustomize.py, `_patched_get_requests` and `_patched_search_standard`: a search goes on to
-- another provider until one has a main result.
pub mod Picks
pub mod Bounded
use private_onyx_app.Common.{err, ok, Result, Raised, if◌then◌else◌, ◌||◌, ◌==◌, length}
use private_onyx_app.Common.{
  none, true, member, [], some, false, not, ℕ, ◌∷◌, Bool, List, Option, Text,
}
use private_onyx_app.Searxng.RoundRobin.{
  nothing, wait_for, paid_engine, chosen, select_round, Selection, select_names, is_paid, Engines,
}

-- What a round of the selection finds, and whether the wait for the paid engine alone gives a token.
pub record Capacity : Type 0 where
  pub engines : Engines
  pub reserve : Text → Option Text
  pub paid_wait : Option Text

-- How a selection ends: with a provider and its token, with none, by an exception behind it, or not within the
-- rounds that are given.
pub data Choice : Type 0 where
  picked : Text → Text → Choice
  no_provider : Choice
  failed : Raised → Choice
  waiting : Choice

-- `wait_names == ("x402exa",)`
unfoldable pub only_paid : List Text → Bool
unfolding is_paid
only_paid (name ∷ []) = is_paid name
only_paid _ = false

unfoldable pub paid_or : Option Text → Choice × ℕ → ℕ → Choice × ℕ
paid_or none later cursor = later
paid_or (some token) later cursor = (picked paid_engine token, cursor)

-- The round is over, or another follows; `later` is what it comes to with a cursor.
unfoldable pub after_round : Option Text → (ℕ → Choice × ℕ) → Selection × ℕ → Choice × ℕ
unfolding paid_or only_paid
after_round paid_wait later (chosen name token, cursor) = (picked name token, cursor)
after_round paid_wait later (nothing, cursor) = (no_provider, cursor)
after_round paid_wait later (wait_for names, cursor) =
    if only_paid names then paid_or paid_wait (later cursor) cursor else later cursor

unfoldable pub select_refs : List Capacity → List Text → ℕ → Choice × ℕ
unfolding after_round
select_refs [] names cursor = (waiting, cursor)
select_refs (seen ∷ rounds) names cursor =
    after_round seen.paid_wait (select_refs rounds names)
      (select_round seen.engines seen.reserve true names cursor)

-- What a search changes: the cursor of the round robin, and the reservations that it gave back, the last first.
pub record Search : Type 0 where
  pub cursor : ℕ
  pub released : List (Text × Text)

unfoldable pub release : Text → Text → Search → Search
release name token s = record s { released = (name, token) ∷ s.released }

-- A selection: its rounds, and whether the processor of the provider that it picks is found suspended, or
-- the requests cannot be made.
pub record Drawn : Type 0 where
  pub rounds : List Capacity
  pub is_suspended : Result Bool

-- The handler around the call of itself gives the reservation back once more where that call raises.
unfoldable pub again : Text → Text → Choice × Search → Choice × Search
unfolding release
again name token (failed e, s) = (failed e, release name token s)
again name token (picked other held, s) = (picked other held, s)
again name token (no_provider, s) = (no_provider, s)
again name token (waiting, s) = (waiting, s)

-- The reservation of a provider whose processor is suspended is given back, and the requests are selected anew.
unfoldable pub after_picked :
    Result Bool → Text → Text → (Search → Choice × Search) → Search → Choice × Search
unfolding again release
after_picked (ok false) name token later s = (picked name token, s)
after_picked (ok true) name token later s = again name token (later (release name token s))
after_picked (err e) name token later s = (failed e, release name token s)

unfoldable pub after_selection :
    Result Bool → (Search → Choice × Search) → Choice → Search → Choice × Search
unfolding after_picked
after_selection is_suspended later (picked name token) s =
    after_picked is_suspended name token later s
after_selection is_suspended later no_provider s = (no_provider, s)
after_selection is_suspended later (failed e) s = (failed e, s)
after_selection is_suspended later waiting s = (waiting, s)

-- The request of an attempt among these names, over the selections that are made for it.
unfoldable pub get_requests : List Drawn → List Text → Search → Choice × Search
unfolding after_selection
get_requests [] names s = (waiting, s)
get_requests (d ∷ drawn) names s =
    let (choice, behind) = select_refs d.rounds names s.cursor in
    after_selection d.is_suspended (get_requests drawn names) choice (record s { cursor = behind })

-- An attempt: the selections for it, and whether the search has a main result behind its requests, or they raise.
pub record Attempt : Type 0 where
  pub drawn : List Drawn
  pub has_results : Result Bool

unfoldable pub untried : List Text → List Text → List Text
unfolding select_names
untried names attempted = select_names (λ name. not (member name attempted)) names

-- How a search ends: it returns, it raises, or it is still in a selection, or has used up the attempts that
-- are given.
pub data Verdict : Type 0 where
  ended : Verdict
  raised : Raised → Verdict
  still_waiting : Verdict
  out_of_attempts : Verdict

-- The end of a search, with the providers that were tried, the last first.
pub record Searched : Type 0 where
  pub verdict : Verdict
  pub tried : List Text
  pub search : Search

abbrev pub searched : Verdict → List Text → Search → Searched
searched verdict tried s = record { verdict = verdict; tried = tried; search = s }

-- What follows the requests: the pool holds every provider of the search.
unfoldable pub after_requests :
    Result Bool
    → List Text
    → List Text
    → Text
    → Text
    → (List Text → Search → Searched)
    → Search
    → Searched
unfolding untried release
after_requests (err e) pool attempted name token later s =
    searched (raised e) attempted (release name token s)
after_requests (ok has_results) pool attempted name token later s =
    if has_results || (length (untried pool attempted) == 0)
    then searched ended attempted s
    else later attempted s

unfoldable pub after_choice :
    Result Bool
    → List Text
    → List Text
    → (List Text → Search → Searched)
    → Choice
    → Search
    → Searched
unfolding after_requests
after_choice has_results pool attempted later (picked name token) s =
    after_requests has_results pool (name ∷ attempted) name token later s
after_choice has_results pool attempted later no_provider s = searched ended attempted s
after_choice has_results pool attempted later (failed e) s = searched (raised e) attempted s
after_choice has_results pool attempted later waiting s = searched still_waiting attempted s

-- The names are those of the pool that can serve the search.
unfoldable pub search_standard :
    List Attempt → List Text → List Text → List Text → Search → Searched
unfolding after_choice
search_standard [] pool names attempted s = searched out_of_attempts attempted s
search_standard (a ∷ attempts) pool names attempted s =
    let (choice, behind) = get_requests a.drawn (untried names attempted) s in
    after_choice a.has_results pool attempted (search_standard attempts pool names) choice behind
