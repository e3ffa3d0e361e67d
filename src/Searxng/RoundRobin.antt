-- ===== src/Searxng/RoundRobin.antt =====
-- searxng/patches/sitecustomize.py: which provider a search is sent to. The processors' suspensions, and
-- the reservations of the engines, are parameters that stay as they are within a round.
pub mod Priority
pub mod Turns
pub mod Search
use private_onyx_app.Common.{
  zero, get_elem?, ◌%◌, length, suc, if◌then◌else◌, ◌+◌, not, text_eq, member, ◌∷◌, none, codes, [],
  some, ◌&&◌, Bool, List, ℕ, Option, Text,
}

-- What the scheduler reads of the engines: which are a last resort, and whether a processor is available.
pub record Engines : Type 0 where
  pub is_last_resort : Text → Bool
  pub is_available : Text → Bool

abbrev pub paid_engine : Text
paid_engine = codes "x402exa"

abbrev pub Grant : Type 0
Grant = Option (Text × Text) × ℕ

unfoldable pub granted : ℕ → Text → Option Text → Grant → Grant
granted index name none later = later
granted index name (some token) later = (some (name, token), index + 1)

unfoldable pub asked : (Text → Option Text) → ℕ → Option Text → Grant → Grant
unfolding granted
asked reserve index none later = later
asked reserve index (some name) later = granted index name (reserve name) later

-- The name that a reservation was granted for, with its token, and the cursor behind it. `reserve` is what
-- the engines grant while the lock is held; `rounds` names are left to ask.
unfoldable pub try_from : (Text → Option Text) → List Text → ℕ → ℕ → ℕ → Grant
unfolding asked
try_from reserve names cursor offset zero = (none, cursor)
try_from reserve names cursor offset (suc rounds) =
    let index = (cursor + offset) % length names in
    asked reserve index (get_elem? names index) (try_from reserve names cursor (offset + 1) rounds)

unfoldable pub reserve_round_robin_engine : (Text → Option Text) → List Text → ℕ → Grant
unfolding try_from
reserve_round_robin_engine reserve [] cursor = (none, cursor)
reserve_round_robin_engine reserve (name ∷ names) cursor =
    try_from reserve (name ∷ names) cursor 0 (length (name ∷ names))

unfoldable pub select_names : (Text → Bool) → List Text → List Text
select_names keep [] = []
select_names keep (name ∷ names) =
    let rest = select_names keep names in if keep name then name ∷ rest else rest

-- The providers among the engines of a search, in the order of the providers, less those excluded.
unfoldable pub candidates : List Text → List Text → List Text → List Text
unfolding select_names
candidates providers refs excluded =
    select_names (λ name. member name refs && not (member name excluded)) providers

unfoldable pub is_paid : Text → Bool
is_paid name = text_eq name paid_engine

unfoldable pub available_regular : Engines → List Text → List Text
unfolding select_names is_paid
available_regular e names =
    select_names (λ name. not (is_paid name) && not (e.is_last_resort name) && e.is_available name)
      names

unfoldable pub available_last_resort : Engines → List Text → List Text
unfolding select_names
available_last_resort e names =
    select_names (λ name. e.is_last_resort name && e.is_available name) names

unfoldable pub available_paid : Engines → List Text → List Text
unfolding select_names is_paid
available_paid e names = select_names (λ name. is_paid name && e.is_available name) names

-- What a round of the selection comes to.
pub data Selection : Type 0 where
  chosen : Text → Text → Selection
  nothing : Selection
  wait_for : List Text → Selection

unfoldable pub or_wait : Bool → List Text → Selection
or_wait wait_for_capacity [] = nothing
or_wait wait_for_capacity (name ∷ names) =
    if wait_for_capacity then wait_for (name ∷ names) else nothing

-- next, where nothing was granted and this tier is empty
unfoldable pub falls_to : List Text → Grant → Grant → Grant
falls_to [] (none, cursor) next = next
falls_to tier grant next = grant

-- `available_regular or available_last_resort or available_paid`
unfoldable pub first_of : List Text → List Text → List Text
first_of [] later = later
first_of (name ∷ names) later = name ∷ names

unfoldable pub outcome_of : Bool → List Text → Grant → Selection × ℕ
unfolding or_wait
outcome_of wait_for_capacity tier (none, cursor) = (or_wait wait_for_capacity tier, cursor)
outcome_of wait_for_capacity tier (some (name, token), cursor) = (chosen name token, cursor)

-- A round of the selection. The later tiers are asked where all before them are empty.
unfoldable pub select_round : Engines → (Text → Option Text) → Bool → List Text → ℕ → Selection × ℕ
unfolding reserve_round_robin_engine available_regular available_last_resort available_paid falls_to
    first_of outcome_of
select_round e reserve wait_for_capacity names cursor =
    let regular = available_regular e names in
    let last_resort = available_last_resort e names in
    let paid = available_paid e names in
    let first = reserve_round_robin_engine reserve regular cursor in
    let second = falls_to regular first (reserve_round_robin_engine reserve last_resort first.1) in
    let third =
      falls_to (first_of regular last_resort) second
        (reserve_round_robin_engine reserve paid second.1) in
    outcome_of wait_for_capacity (first_of regular (first_of last_resort paid)) third

-- A round for a search. Its pool is not empty: a search without one is not patched.
unfoldable pub selected_refs :
    Engines → (Text → Option Text) → Bool → List Text → List Text → List Text → ℕ → Selection × ℕ
unfolding select_round candidates
selected_refs e reserve wait_for_capacity providers refs excluded cursor =
    select_round e reserve wait_for_capacity (candidates providers refs excluded) cursor
