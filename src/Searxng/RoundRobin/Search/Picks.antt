-- ===== src/Searxng/RoundRobin/Search/Picks.antt =====
-- About the names that a selection picks.
use private_onyx_app.Common.Strings.Equality.{text_eq_sound}
use private_onyx_app.Searxng.RoundRobin.Turns.{
  reserve_round_robin_engine-Answered, all_refused, one_granted, Answered,
}
use private_onyx_app.Searxng.RoundRobin.Priority.{select_round-first_tier, first_tier}
use private_onyx_app.Searxng.RoundRobin.Search.{
  release, Drawn, after_picked, Search, get_requests, after_selection, again, failed, select_refs,
  paid_or, only_paid, waiting, Capacity, no_provider, after_round, picked, Choice,
}
use private_onyx_app.Searxng.RoundRobin.{
  paid_engine, is_paid, Grant, Engines, available_paid, available_last_resort, first_of, outcome_of,
  available_regular, select_names,
}
use private_onyx_app.Common.{
  false, err, ok, Result, sym, ap, Option, if-elim, some_inv, subst, Bool, get_elem?, ◌≡◌, Text,
  List, ℕ, [], ◌∷◌, none, some, true, refl, zero, suc,
}

abbrev pub Among : List Text → Text → Type 0
Among names name = (i : ℕ) × (get_elem? names i ≡ some name)

kept-Among :
    (keep : Text → Bool) (x : Text) (xs rest : List Text) (name : Text)
    → (Among rest name → Among xs name × (keep name ≡ true))
    → keep x ≡ true
    → Among (x ∷ rest) name
    → Among (x ∷ xs) name × (keep name ≡ true)
kept-Among keep x xs rest name later kept (zero, e) =
    ((zero, e), subst (λ y. keep y ≡ true) (some_inv e) kept)
kept-Among keep x xs rest name later kept (suc i, e) =
    let ((j, e'), kept') = later (i, e) in ((suc j, e'), kept')

pub select_names-Among :
    (keep : Text → Bool) (names : List Text) (name : Text)
    → Among (select_names keep names) name
    → Among names name × (keep name ≡ true)
unfolding select_names
select_names-Among keep [] name = λ h. absurd (cc h.1)
select_names-Among keep (x ∷ xs) name =
    if-elim (λ os. Among os name → Among (x ∷ xs) name × (keep name ≡ true)) (keep x)
      (λ kept h.
        kept-Among keep x xs (select_names keep xs) name (select_names-Among keep xs name) kept h)
      (λ _ h. let ((j, e), kept) = select_names-Among keep xs name h in ((suc j, e), kept))

first_of-Among :
    (names later : List Text) (name : Text) (P : Type 0)
    → (Among names name → P)
    → (Among later name → P)
    → Among (first_of names later) name
    → P
unfolding first_of
first_of-Among [] later name P h h' m = h' m
first_of-Among (x ∷ xs) later name P h h' m = h m

first_tier-Among :
    (e : Engines) (names : List Text) (name : Text)
    → Among (first_tier e names) name
    → Among names name
unfolding available_regular available_last_resort available_paid
first_tier-Among e names name =
    first_of-Among (available_regular e names) _ name (Among names name)
      (λ m. (select_names-Among _ names name m).0)
      (first_of-Among (available_last_resort e names) (available_paid e names) name
        (Among names name) (λ m. (select_names-Among _ names name m).0)
        (λ m. (select_names-Among _ names name m).0))

-- What a choice names is among these.
unfoldable pub Picks : List Text → Choice → Type 0
Picks names (picked name token) = Among names name
Picks names no_provider = Unit {0}
Picks names (failed e) = Unit {0}
Picks names waiting = Unit {0}

only_paid-head : (x : Text) (rest : List Text) → only_paid (x ∷ rest) ≡ true → x ≡ paid_engine
unfolding only_paid is_paid
only_paid-head x [] e = text_eq_sound x paid_engine e
only_paid-head x (y ∷ rest) e = absurd (cc e)

granted-Picks :
    (seen : Capacity) (names tier : List Text) (g : Grant) (cursor : ℕ) (later : ℕ → Choice × ℕ)
    → ((name : Text) → Among tier name → Among names name)
    → ((c : ℕ) → Picks names (later c).0)
    → Answered seen.reserve tier cursor g
    → Picks names (after_round seen.paid_wait later (outcome_of true tier g)).0
unfolding outcome_of after_round Picks
granted-Picks seen names tier _ cursor later h h' (one_granted j name token e e') = h name (j, e)
granted-Picks seen names [] _ cursor later h h' (all_refused f) = tt
granted-Picks seen names (x ∷ tier) _ cursor later h h' (all_refused f) =
    if-elim (λ (r : Choice × ℕ). Picks names r.0) (only_paid (x ∷ tier))
      (λ e. by_wait tier e seen.paid_wait) (λ _. h' cursor)
  where
    by_wait :
        (tier' : List Text)
        → only_paid (x ∷ tier') ≡ true
        → (token : Option Text) → Picks names (paid_or token (later cursor) cursor).0
    by_wait tier' e none = h' cursor
    by_wait tier' e (some token) = h paid_engine (0, ap some (only_paid-head x tier' e))

pub select_refs-Picks :
    (rounds : List Capacity) (names : List Text) (cursor : ℕ)
    → Picks names (select_refs rounds names cursor).0
unfolding select_refs Picks
select_refs-Picks [] names cursor = tt
select_refs-Picks (seen ∷ rounds) names cursor =
    subst (λ r. Picks names (after_round seen.paid_wait (select_refs rounds names) r).0)
      (sym (select_round-first_tier seen.engines seen.reserve true names cursor))
      (granted-Picks seen names (first_tier seen.engines names) _ cursor (select_refs rounds names)
        (first_tier-Among seen.engines names) (select_refs-Picks rounds names)
        (reserve_round_robin_engine-Answered seen.reserve (first_tier seen.engines names) cursor))

again-same : (name token : Text) (r : Choice × Search) → (again name token r).0 ≡ r.0
unfolding again
again-same name token (failed e, s) = refl
again-same name token (picked other held, s) = refl
again-same name token (no_provider, s) = refl
again-same name token (waiting, s) = refl

after_selection-Picks :
    (is_suspended : Result Bool) (names : List Text) (later : Search → Choice × Search) (c : Choice)
    (s : Search)
    → Picks names c
    → ((s' : Search) → Picks names (later s').0)
    → Picks names (after_selection is_suspended later c s).0
unfolding after_selection after_picked Picks
after_selection-Picks (ok false) names later (picked name token) s p h = p
after_selection-Picks (ok true) names later (picked name token) s p h =
    subst (Picks names) (sym (again-same name token (later (release name token s)))) (h _)
after_selection-Picks (err e) names later (picked name token) s p h = tt
after_selection-Picks is_suspended names later no_provider s p h = tt
after_selection-Picks is_suspended names later (failed e) s p h = tt
after_selection-Picks is_suspended names later waiting s p h = tt

pub get_requests-Picks :
    (drawn : List Drawn) (names : List Text) (s : Search)
    → Picks names (get_requests drawn names s).0
unfolding get_requests Picks
get_requests-Picks [] names s = tt
get_requests-Picks (d ∷ drawn) names s =
    after_selection-Picks d.is_suspended names (get_requests drawn names)
      (select_refs d.rounds names s.cursor).0 _ (select_refs-Picks d.rounds names s.cursor)
      (get_requests-Picks drawn names)
