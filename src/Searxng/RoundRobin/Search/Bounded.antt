-- ===== src/Searxng/RoundRobin/Search/Bounded.antt =====
-- About the attempts of a search.
use private_onyx_app.Searxng.RoundRobin.Search.Picks.{
  get_requests-Picks, select_names-Among, Picks, Among,
}
use private_onyx_app.Common.Strings.Equality.{text_eq_self}
use private_onyx_app.Searxng.RoundRobin.Search.{
  failed, Searched, out_of_attempts, get_requests, Search, after_requests, Attempt, untried,
  search_standard, after_choice, waiting, no_provider, picked, Choice,
}
use private_onyx_app.Searxng.RoundRobin.{select_names}
use private_onyx_app.Common.{
  ok, err, Result, ◌+◌, if◌then◌else◌, total-lt, not, ◌≤◌, any, total, arith, ◌≢◌, ◌<◌, ◌==◌,
  length, ◌||◌, All, if-elim, Bool, ◌≡◌, Text, member, List, ℕ, [], ◌∷◌, true, false, refl,
}

-- No name stands twice.
unfoldable pub IsOnce : List Text → Type 0
unfolding member
IsOnce [] = Unit {0}
IsOnce (name ∷ names) = (member name names ≡ false) × IsOnce names

-- No provider was tried twice, and none that cannot serve the search.
unfoldable pub IsTried : List Text → List Text → Type 0
IsTried names attempted = IsOnce attempted × All (Among names) attempted

picked-IsTried :
    (names attempted : List Text) (name : Text)
    → Among (untried names attempted) name
    → IsTried names attempted
    → IsTried names (name ∷ attempted)
unfolding untried IsTried IsOnce
picked-IsTried names attempted name p (once, among) =
    let (m, fresh) = select_names-Among _ names name p in
    ((ground (arith, fresh), once), (m, among))

after_choice-IsTried :
    (has_results : Result Bool) (pool names attempted : List Text)
    (later : List Text → Search → Searched) (c : Choice) (s : Search)
    → Picks (untried names attempted) c
    → IsTried names attempted
    → ((more : List Text) (s' : Search) → IsTried names more → IsTried names (later more s').tried)
    → IsTried names (after_choice has_results pool attempted later c s).tried
unfolding after_choice after_requests Picks untried
after_choice-IsTried has_results pool names attempted later waiting s p h h' = h
after_choice-IsTried has_results pool names attempted later (failed e) s p h h' = h
after_choice-IsTried has_results pool names attempted later no_provider s p h h' = h
after_choice-IsTried (err e) pool names attempted later (picked name token) s p h h' =
    picked-IsTried names attempted name p h
after_choice-IsTried (ok found) pool names attempted later (picked name token) s p h h' =
    if-elim (λ (r : Searched). IsTried names r.tried)
      (found || (length (untried pool (name ∷ attempted)) == 0))
      (λ _. picked-IsTried names attempted name p h)
      (λ _. h' (name ∷ attempted) s (picked-IsTried names attempted name p h))

search-IsTried :
    (attempts : List Attempt) (pool names attempted : List Text) (s : Search)
    → IsTried names attempted
    → IsTried names (search_standard attempts pool names attempted s).tried
unfolding search_standard
search-IsTried [] pool names attempted s h = h
search-IsTried (a ∷ attempts) pool names attempted s h =
    after_choice-IsTried a.has_results pool names attempted (search_standard attempts pool names)
      (get_requests a.drawn (untried names attempted) s).0
      (get_requests a.drawn (untried names attempted) s).1
      (get_requests-Picks a.drawn (untried names attempted) s) h
      (search-IsTried attempts pool names)

-- Each provider that was not tried counts once.
open_count : List Text → Text → ℕ
open_count attempted name = if member name attempted then 0 else 1

length-kept :
    (b : Bool) (x : Text) (rest : List Text) (n : ℕ)
    → length rest ≡ n
    → length (if not b then x ∷ rest else rest) ≡ (if b then 0 else 1) + n
length-kept true x rest n h = omega (arith, h)
length-kept false x rest n h = omega (arith, h)

length-untried :
    (names attempted : List Text)
    → length (untried names attempted) ≡ total (open_count attempted) names
unfolding untried select_names total open_count
length-untried [] attempted = refl
length-untried (x ∷ xs) attempted =
    length-kept (member x attempted) x _ _ (length-untried xs attempted)

open_count-le :
    (name : Text) (attempted : List Text) (y : Text)
    → open_count (name ∷ attempted) y ≤ open_count attempted y
unfolding open_count member any
open_count-le name attempted y = ground arith

open_count-lt :
    (name : Text) (attempted : List Text)
    → not (member name attempted) ≡ true
    → open_count (name ∷ attempted) name < open_count attempted name
unfolding open_count member any
open_count-lt name attempted h = ground (arith, h, text_eq_self name)

untried-lt :
    (names attempted : List Text) (name : Text)
    → Among (untried names attempted) name
    → length (untried names (name ∷ attempted)) < length (untried names attempted)
unfolding untried
untried-lt names attempted name p =
    let ((i, e), fresh) = select_names-Among _ names name p in
    omega (
      arith,
      length-untried names attempted,
      length-untried names (name ∷ attempted),
      total-lt (open_count (name ∷ attempted)) (open_count attempted) names i name
          (open_count-le name attempted) e (open_count-lt name attempted fresh),
    )

after_choice-ends :
    (has_results : Result Bool) (pool names attempted : List Text)
    (later : List Text → Search → Searched) (c : Choice) (s : Search)
    → Picks (untried names attempted) c
    → ((name : Text)
        → Among (untried names attempted) name
        → (later (name ∷ attempted) s).verdict ≢ out_of_attempts)
    → (after_choice has_results pool attempted later c s).verdict ≢ out_of_attempts
unfolding after_choice after_requests Picks
after_choice-ends has_results pool names attempted later waiting s p h = λ e. absurd (cc e)
after_choice-ends has_results pool names attempted later (failed x) s p h = λ e. absurd (cc e)
after_choice-ends has_results pool names attempted later no_provider s p h = λ e. absurd (cc e)
after_choice-ends (err x) pool names attempted later (picked name token) s p h = λ e. absurd (cc e)
after_choice-ends (ok found) pool names attempted later (picked name token) s p h =
    if-elim (λ (r : Searched). r.verdict ≢ out_of_attempts)
      (found || (length (untried pool (name ∷ attempted)) == 0)) (λ _ e. absurd (cc e))
      (λ _. h name p)

search-ends :
    (attempts : List Attempt) (pool names attempted : List Text) (s : Search)
    → length (untried names attempted) < length attempts
    → (search_standard attempts pool names attempted s).verdict ≢ out_of_attempts
unfolding search_standard
search-ends [] pool names attempted s h = absurd (omega (arith, h))
search-ends (a ∷ attempts) pool names attempted s h =
    after_choice-ends a.has_results pool names attempted (search_standard attempts pool names)
      (get_requests a.drawn (untried names attempted) s).0
      (get_requests a.drawn (untried names attempted) s).1
      (get_requests-Picks a.drawn (untried names attempted) s)
      (λ name p.
        search-ends attempts pool names (name ∷ attempted)
          (get_requests a.drawn (untried names attempted) s).1
          (omega (arith, h, untried-lt names attempted name p)))

untried-le : (names : List Text) → length (untried names []) ≤ length names
unfolding untried select_names member any
untried-le [] = omega arith
untried-le (x ∷ xs) = omega (arith, untried-le xs)

-- A search makes no more attempts than there are providers that can serve it: over one attempt more it
-- returns, raises, or is still in a selection, and never wants another attempt. No provider was tried twice,
-- and none that cannot serve the search, whatever the selections find and the requests come to.
pub search_standard-ends :
    (attempts : List Attempt) (pool names : List Text) (s : Search)
    → length names < length attempts
    → let searched = search_standard attempts pool names [] s in
      (searched.verdict ≢ out_of_attempts) × IsTried names searched.tried
unfolding IsTried IsOnce
search_standard-ends attempts pool names s h = (
  search-ends attempts pool names [] s (omega (arith, h, untried-le names)),
  search-IsTried attempts pool names [] s (tt, tt),
)
