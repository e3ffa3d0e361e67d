-- ===== src/Searxng/RoundRobin/Turns.antt =====
-- About `_reserve_round_robin_engine`.
use native.Mathlib.Nat.{mod-lt, mod-add-mod, add-mod-mod, add-mod_right, mod-eq_of_lt}
use private_onyx_app.Searxng.RoundRobin.{
  reserve_round_robin_engine, granted, try_from, asked, Grant,
}
use private_onyx_app.Common.{
  ap, ◌-◌, Bool-cases, ◌∙◌, sym, inr, some_inv, inl, subst, ◌⊎◌, ◌==◌, length, ◌<◌, ◌≡◌, ◌%◌, arith,
  get_elem?, ◌≤◌, ◌+◌, List, Option, Text, ℕ, [], ◌∷◌, none, some, true, false, refl, zero, suc,
}

-- Either every name was asked and refused, and the cursor stays, or the name at a position was granted a
-- token, and the cursor is behind it.
pub data Answered (reserve : Text → Option Text) (names : List Text) (cursor : ℕ)
    : Grant → Type 0 where
  all_refused :
      ((j : ℕ) (name : Text) → get_elem? names j ≡ some name → reserve name ≡ none)
      → Answered reserve names cursor (none, cursor)
  one_granted :
      (j : ℕ) (name token : Text)
      → get_elem? names j ≡ some name
      → reserve name ≡ some token
      → Answered reserve names cursor (some (name, token), j + 1)

module _ (reserve : Text → Option Text) (names : List Text) (cursor : ℕ) where
  index : ℕ → ℕ
  index o = (cursor + o) % length names

  -- The same, of the offsets from one on.
  data Tried (offset rounds : ℕ) : Grant → Type 0 where
    none_left :
        ((o : ℕ) (name : Text)
          → offset ≤ o
          → o < offset + rounds
          → get_elem? names (index o) ≡ some name
          → reserve name ≡ none)
        → Tried offset rounds (none, cursor)
    found :
        (j : ℕ) (name token : Text)
        → get_elem? names j ≡ some name
        → reserve name ≡ some token
        → Tried offset rounds (some (name, token), j + 1)

  refused-Tried :
      (offset rounds : ℕ) (later : Grant)
      → ((name : Text) → get_elem? names (index offset) ≡ some name → reserve name ≡ none)
      → Tried (offset + 1) rounds later
      → Tried offset (suc rounds) later
  refused-Tried offset rounds later h (none_left f) =
      none_left (λ o name low high e. by_offset o name low high e (Bool-cases (o == offset)))
    where
      by_offset :
          (o : ℕ) (name : Text)
          → offset ≤ o
          → o < offset + suc rounds
          → get_elem? names (index o) ≡ some name
          → ((o == offset) ≡ true) ⊎ ((o == offset) ≡ false)
          → reserve name ≡ none
      by_offset o name low high e (inl same) =
          h name (subst (λ x. get_elem? names (index x) ≡ some name) (ground (arith, same)) e)
      by_offset o name low high e (inr other) =
          f o name (ground (arith, low, other)) (omega (arith, high)) e
  refused-Tried offset rounds later h (found j name token e e') = found j name token e e'

  asked-Tried :
      (offset rounds : ℕ) (seen : Option Text) (later : Grant)
      → get_elem? names (index offset) ≡ seen
      → Tried (offset + 1) rounds later
      → Tried offset (suc rounds) (asked reserve (index offset) seen later)
  unfolding asked
  asked-Tried offset rounds none later e h =
      refused-Tried offset rounds later (λ name e'. absurd (cc (e, e'))) h
  asked-Tried offset rounds (some name) later e h = by_answer (reserve name) refl
    where
      by_answer :
          (answer : Option Text)
          → reserve name ≡ answer
          → Tried offset (suc rounds) (granted (index offset) name answer later)
      by_answer none e' =
          refused-Tried offset rounds later
            (λ other e''. subst (λ x. reserve x ≡ none) (some_inv (sym e ∙ e'')) e') h
      by_answer (some token) e' = found (index offset) name token e e'

  try_from-Tried :
      (offset rounds : ℕ) → Tried offset rounds (try_from reserve names cursor offset rounds)
  unfolding try_from index
  try_from-Tried offset zero = none_left (λ o name low high e. absurd (omega (arith, low, high)))
  try_from-Tried offset (suc rounds) =
      asked-Tried offset rounds (get_elem? names (index offset)) _ refl
        (try_from-Tried (offset + 1) rounds)

-- Some offset reaches each position.
reaching : (cursor j n : ℕ) → j < n → (o : ℕ) × (o < n) × ((cursor + o) % n ≡ j)
reaching cursor j n h =
    let r = cursor % n in
    let small : r < n = mod-lt cursor (omega (arith, h)) in
    (
      (j + (n - r)) % n,
      mod-lt (j + (n - r)) (omega (arith, h)),
      add-mod-mod cursor (j + (n - r)) n
          ∙ sym (mod-add-mod cursor n (j + (n - r)))
          ∙ ap (λ x. x % n) (omega (arith, small))
          ∙ add-mod_right j n
          ∙ mod-eq_of_lt h,
    )

get_elem?-lt {ℓ} :
    {A : Type ℓ} (xs : List A) (j : ℕ) (a : A) → get_elem? xs j ≡ some a → j < length xs
get_elem?-lt [] j a e = absurd (cc e)
get_elem?-lt (x ∷ xs) zero a e = omega arith
get_elem?-lt (x ∷ xs) (suc j) a e = omega (arith, get_elem?-lt xs j a e)

Tried-Answered :
    (reserve : Text → Option Text) (names : List Text) (cursor : ℕ) (g : Grant)
    → Tried reserve names cursor 0 (length names) g
    → Answered reserve names cursor g
unfolding index
Tried-Answered reserve names cursor g (none_left f) = all_refused (λ j name e.
    let (o, low, reached) = reaching cursor j (length names) (get_elem?-lt names j name e) in
    f o name (omega arith) (omega (arith, low))
      (subst (λ x. get_elem? names x ≡ some name) (sym reached) e))
Tried-Answered reserve names cursor g (found j name token e e') = one_granted j name token e e'

-- A turn of the round robin either asks every one of the names, all of which refuse, and leaves the cursor as
-- it is, or reserves one of them with the token that it granted, and puts the cursor behind it.
pub reserve_round_robin_engine-Answered :
    (reserve : Text → Option Text) (names : List Text) (cursor : ℕ)
    → Answered reserve names cursor (reserve_round_robin_engine reserve names cursor)
unfolding reserve_round_robin_engine
reserve_round_robin_engine-Answered reserve [] cursor = all_refused (λ j name e. absurd (cc e))
reserve_round_robin_engine-Answered reserve (name ∷ names) cursor =
    Tried-Answered reserve (name ∷ names) cursor _
      (try_from-Tried reserve (name ∷ names) cursor 0 (length (name ∷ names)))
