-- ===== src/Searxng/RoundRobin/Priority.antt =====
-- About the providers that a round of the selection asks.
use private_onyx_app.Searxng.RoundRobin.{
  first_of, reserve_round_robin_engine, outcome_of, available_paid, available_last_resort,
  available_regular, select_round, falls_to, Engines, select_names, is_paid,
}
use private_onyx_app.Common.{
  if-elim, zero, min, ◌∙◌, ◌≢◌, if◌then◌else◌, inr, inl, Bool-cases, suc, arith, true, false, ◌==◌,
  ◌&&◌, All, ◌<◌, ◌≤◌, ap, ◌≡◌, Bool, Option, Text, List, ℕ, [], ◌∷◌, refl,
}

-- The tier that the code comes to: the first of its three lists that has a provider.
abbrev pub first_tier : Engines → List Text → List Text
first_tier e names =
    first_of (available_regular e names)
      (first_of (available_last_resort e names) (available_paid e names))

tiers-fall :
    (reserve : Text → Option Text) (regular last_resort paid : List Text) (cursor : ℕ)
    → let first = reserve_round_robin_engine reserve regular cursor in
      let second =
        falls_to regular first (reserve_round_robin_engine reserve last_resort first.1) in
      falls_to
        (first_of regular last_resort)
        second
        (reserve_round_robin_engine reserve paid second.1)
      ≡ reserve_round_robin_engine reserve (first_of regular (first_of last_resort paid)) cursor
unfolding falls_to first_of reserve_round_robin_engine
tiers-fall reserve (name ∷ regular) last_resort paid cursor = refl
tiers-fall reserve [] (name ∷ last_resort) paid cursor = refl
tiers-fall reserve [] [] paid cursor = refl

pub select_round-first_tier :
    (e : Engines) (reserve : Text → Option Text) (wait_for_capacity : Bool) (names : List Text)
    (cursor : ℕ)
    → select_round e reserve wait_for_capacity names cursor
      ≡ outcome_of wait_for_capacity
          (first_tier e names)
          (reserve_round_robin_engine reserve (first_tier e names) cursor)
unfolding select_round
select_round-first_tier e reserve wait_for_capacity names cursor =
    ap (outcome_of wait_for_capacity (first_tier e names)) (
      tiers-fall reserve (available_regular e names) (available_last_resort e names)
        (available_paid e names) cursor)

-- How late a provider may be asked: a last resort behind the regular ones, the paid engine behind both.
unfoldable pub rank : Engines → Text → ℕ
unfolding is_paid
rank e name = if e.is_last_resort name then 1 else if is_paid name then 2 else 0

-- The lowest rank of a provider that is available, 2 where none is.
unfoldable pub lowest : Engines → List Text → ℕ
unfolding rank
lowest e [] = 2
lowest e (name ∷ names) =
    let rest = lowest e names in if e.is_available name then min (rank e name) rest else rest

unfoldable pub of_rank : Engines → ℕ → List Text → List Text
unfolding rank select_names
of_rank e k names = select_names (λ name. e.is_available name && (rank e name == k)) names

-- The available providers of the lowest rank that any available provider has, in their order.
unfoldable pub active_tier : Engines → List Text → List Text
unfolding of_rank lowest
active_tier e names = of_rank e (lowest e names) names

select_names-agree :
    (keep other : Text → Bool) (names : List Text)
    → All (λ name. keep name ≡ other name) names
    → select_names keep names ≡ select_names other names
unfolding select_names
select_names-agree keep other [] h = refl
select_names-agree keep other (name ∷ names) h =
    rw (h.0, select_names-agree keep other names h.1) refl

select_names-none :
    (keep : Text → Bool) (names : List Text)
    → All (λ name. keep name ≡ false) names
    → select_names keep names ≡ []
unfolding select_names
select_names-none keep [] h = refl
select_names-none keep (name ∷ names) h = rw (h.0, select_names-none keep names h.1) refl

module _ (e : Engines) where
  every : (P : Text → Type 0) (names : List Text) → ((name : Text) → P name) → All P names
  every P [] h = tt
  every P (name ∷ names) h = (h name, every P names h)

  lowest-bounds :
      (k : ℕ) (names : List Text)
      → k ≤ lowest e names
      → All (λ name. e.is_available name ≡ true → k ≤ rank e name) names
  unfolding lowest
  lowest-bounds k [] h = tt
  lowest-bounds k (name ∷ names) h =
      (λ on. ground (arith, h, on), lowest-bounds k names (ground (arith, h)))

  lowest-le : (names : List Text) → lowest e names ≤ 2
  unfolding lowest
  lowest-le [] = omega arith
  lowest-le (name ∷ names) = ground (arith, lowest-le names)

  below_lowest : (k : ℕ) (names : List Text) → k < lowest e names → of_rank e k names ≡ []
  unfolding of_rank
  below_lowest k names h =
      select_names-none _ names (by_bounds names (lowest-bounds (suc k) names h))
    where
      by_bounds :
          (xs : List Text)
          → All (λ name. e.is_available name ≡ true → suc k ≤ rank e name) xs
          → All (λ name. (e.is_available name && (rank e name == k)) ≡ false) xs
      by_bounds [] b = tt
      by_bounds (x ∷ xs) b = (
        elim (Bool-cases (e.is_available x)) [
          | inl on ↦ ground (arith, on, b.0 on)
          | inr off ↦ ground (arith, off)
        ],
        by_bounds xs b.1,
      )

  not_empty : (k : ℕ) (names : List Text) → lowest e names ≡ k → k < 2 → of_rank e k names ≢ []
  unfolding lowest of_rank select_names
  not_empty k [] l small = λ h. absurd (omega (arith, l, small))
  not_empty k (name ∷ names) l small =
      if-elim (λ (r : List Text). r ≢ []) (e.is_available name && (rank e name == k))
        (λ _ h. absurd (cc h))
        (λ dropped. not_empty k names (ground (arith, l, small, dropped)) small)

  regular_of_rank : (names : List Text) → available_regular e names ≡ of_rank e 0 names
  unfolding available_regular of_rank rank
  regular_of_rank names = select_names-agree _ _ names (every _ names (λ name. ground arith))

  last_resort_of_rank : (names : List Text) → available_last_resort e names ≡ of_rank e 1 names
  unfolding available_last_resort of_rank rank
  last_resort_of_rank names = select_names-agree _ _ names (every _ names (λ name. ground arith))

  paid_kept :
      (name : Text)
      → (e.is_available name ≡ true → 2 ≤ rank e name)
      → (is_paid name && e.is_available name) ≡ (e.is_available name && (rank e name == 2))
  unfolding rank
  paid_kept name h = elim (Bool-cases (e.is_available name)) [
    | inl on ↦ ground (arith, on, h on)
    | inr off ↦ ground (arith, off)
  ]

  paid_of_rank :
      (names : List Text) → 2 ≤ lowest e names → available_paid e names ≡ of_rank e 2 names
  unfolding available_paid of_rank
  paid_of_rank names h = select_names-agree _ _ names (by_bounds names (lowest-bounds 2 names h))
    where
      by_bounds :
          (xs : List Text)
          → All (λ name. e.is_available name ≡ true → 2 ≤ rank e name) xs
          → All
              (λ name.
                (is_paid name && e.is_available name) ≡ (e.is_available name && (rank e name == 2)))
              xs
      by_bounds [] b = tt
      by_bounds (x ∷ xs) b = (paid_kept x b.0, by_bounds xs b.1)

first_of-left : (names later : List Text) → names ≢ [] → first_of names later ≡ names
unfolding first_of
first_of-left [] later h = absurd (h refl)
first_of-left (name ∷ names) later h = refl

first_of-right : (names later : List Text) → names ≡ [] → first_of names later ≡ later
unfolding first_of
first_of-right names later h = rw h refl

first_tier-active : (e : Engines) (names : List Text) → first_tier e names ≡ active_tier e names
unfolding active_tier
first_tier-active e names =
    rw (regular_of_rank e names, last_resort_of_rank e names)
      (by_lowest (lowest e names) refl (lowest-le e names))
  where
    by_lowest :
        (k : ℕ)
        → lowest e names ≡ k
        → k ≤ 2
        → first_of (of_rank e 0 names) (first_of (of_rank e 1 names) (available_paid e names))
          ≡ of_rank e k names
    by_lowest zero l h = first_of-left _ _ (not_empty e 0 names l (omega arith))
    by_lowest (suc zero) l h =
        first_of-right _ _ (below_lowest e 0 names (omega (arith, l)))
        ∙ first_of-left _ _ (not_empty e 1 names l (omega arith))
    by_lowest (suc (suc zero)) l h =
        first_of-right _ _ (below_lowest e 0 names (omega (arith, l)))
        ∙ first_of-right _ _ (below_lowest e 1 names (omega (arith, l)))
        ∙ paid_of_rank e names (omega (arith, l))
    by_lowest (suc (suc (suc k))) l h = absurd (omega (arith, h))

-- A round asks by round robin exactly the available providers of the lowest rank among those available, in
-- their order: a last resort (rank 1) only where no regular provider (rank 0) is available, and the paid
-- engine (rank 2, unless it is a last resort) only where neither is.
pub select_round-active :
    (e : Engines) (reserve : Text → Option Text) (wait_for_capacity : Bool) (names : List Text)
    (cursor : ℕ)
    → select_round e reserve wait_for_capacity names cursor
      ≡ outcome_of wait_for_capacity
          (active_tier e names)
          (reserve_round_robin_engine reserve (active_tier e names) cursor)
select_round-active e reserve wait_for_capacity names cursor =
    select_round-first_tier e reserve wait_for_capacity names cursor
    ∙ ap
        (λ tier. outcome_of wait_for_capacity tier (reserve_round_robin_engine reserve tier cursor))
        (first_tier-active e names)
