-- ===== src/Searxng/Admission/Threads/Invariant.antt =====
-- What holds in every state that a schedule leads to.
use private_onyx_app.Searxng.Admission.{Admission, is_cooling, is_set, spacing, is_token}
use private_onyx_app.Common.{
  not_ltb→le, refl, suc, total-set, arith, set, ◌<◌, ◌≤◌, get_elem?, ◌≡◌, ◌+◌, total, leb, not,
  List, ℕ, Option, Bool, [], ◌∷◌, none, some, true, false,
}
use private_onyx_app.Searxng.Admission.Threads.{System, Thread, outside, holding, owning, finishing}

abbrev pub one_if : Bool → ℕ
one_if true = 1
one_if false = 0

abbrev pub holds : Thread → ℕ
holds (holding t) = 1
holds _ = 0

abbrev pub owns : Thread → ℕ
owns (owning t b) = 1
owns _ = 0

-- Threads that may still start their attempt.
abbrev pub awaits : Thread → ℕ
awaits (holding t) = 1
awaits (owning t false) = 1
awaits _ = 0

-- Threads that hold another token than the one that is reserved.
abbrev pub strays : Option ℕ → Thread → ℕ
strays token (holding t) = one_if (not (is_token (some t) token))
strays token _ = 0

-- Threads that will release the token of another.
abbrev pub clashes : Option ℕ → Thread → ℕ
clashes token (finishing t) = one_if (is_token (some t) token)
clashes token (owning t b) = one_if (is_token (some t) token)
clashes token _ = 0

-- Threads whose token is yet to be drawn.
abbrev pub undrawn : ℕ → Thread → ℕ
undrawn issued outside = 0
undrawn issued (holding t) = one_if (leb issued t)
undrawn issued (owning t b) = one_if (leb issued t)
undrawn issued (finishing t) = one_if (leb issued t)

-- Each start comes `spacing` or more behind the one before it.
unfoldable pub IsSpaced : List ℕ → Type 0
IsSpaced [] = Unit {0}
IsSpaced (t ∷ []) = Unit {0}
IsSpaced (t ∷ (u ∷ rest)) = (u + spacing ≤ t) × IsSpaced (u ∷ rest)

abbrev pub latest : List ℕ → Option ℕ
latest [] = none
latest (t ∷ rest) = some t

pub record Inv (w : System) : Type 0 where
  pub held : total holds w.threads ≡ one_if (is_set w.admission.token)
  pub owned : total owns w.threads ≡ one_if w.admission.active
  pub apart : w.admission.active ≡ true → w.admission.token ≡ none
  pub matched : total (strays w.admission.token) w.threads ≡ 0
  pub distinct : total (clashes w.admission.token) w.threads ≡ 0
  pub drawn : total (undrawn w.issued) w.threads ≡ 0
  pub cooled : 0 < total awaits w.threads → is_cooling w.clock w.admission.last_start ≡ false
  pub recorded : w.admission.last_start ≡ latest w.starts
  pub spaced : IsSpaced w.starts

-- What the counts, the admission and the starts must satisfy for a thread to move from `t` to `u`.
pub record Moves (w : System) (t u : Thread) (s : Admission) (issued : ℕ) (starts : List ℕ)
    : Type 0 where
  pub held : one_if (is_set s.token) + holds t ≡ one_if (is_set w.admission.token) + holds u
  pub owned : one_if s.active + owns t ≡ one_if w.admission.active + owns u
  pub apart : s.active ≡ true → s.token ≡ none
  pub matched : total (strays s.token) w.threads + strays s.token u ≡ strays s.token t
  pub distinct : total (clashes s.token) w.threads + clashes s.token u ≡ clashes s.token t
  pub drawn : total (undrawn issued) w.threads + undrawn issued u ≡ undrawn issued t
  pub cooled :
      (n : ℕ)
      → n + awaits t ≡ total awaits w.threads + awaits u
      → 0 < n
      → is_cooling w.clock s.last_start ≡ false
  pub recorded : s.last_start ≡ latest starts
  pub spaced : IsSpaced starts

pub Moves-Inv :
    (w : System) (i : ℕ) (t u : Thread) (s : Admission) (issued : ℕ) (starts : List ℕ)
    → get_elem? w.threads i ≡ some t
    → Inv w
    → Moves w t u s issued starts
    → Inv
        (record w { admission = s; threads = set w.threads i u; issued = issued; starts = starts })
Moves-Inv w i t u s issued starts e h m = record {
  held = omega (arith, total-set holds w.threads i t u e, h.held, m.held);
  owned = omega (arith, total-set owns w.threads i t u e, h.owned, m.owned);
  apart = m.apart;
  matched = omega (arith, total-set (strays s.token) w.threads i t u e, m.matched);
  distinct = omega (arith, total-set (clashes s.token) w.threads i t u e, m.distinct);
  drawn = omega (arith, total-set (undrawn issued) w.threads i t u e, m.drawn);
  cooled = λ e'. m.cooled _ (total-set awaits w.threads i t u e) e';
  recorded = m.recorded;
  spaced = m.spaced;
}

pub strays-le : (token : Option ℕ) (t : Thread) → strays token t ≤ holds t
strays-le token (holding t) = ground arith
strays-le token _ = omega arith

pub clashes-le : (issued : ℕ) (t : Thread) → clashes (some issued) t ≤ undrawn issued t
unfolding is_token
clashes-le issued (finishing t) = ground arith
clashes-le issued (owning t b) = ground arith
clashes-le issued _ = omega arith

pub clashes-none : (t : Thread) → clashes none t ≤ 0
unfolding is_token
clashes-none outside = omega arith
clashes-none (holding t) = omega arith
clashes-none (owning t b) = omega arith
clashes-none (finishing t) = omega arith

pub holds-le : (t : Thread) → holds t ≤ strays none t
unfolding is_token
holds-le (holding t) = omega arith
holds-le _ = omega arith

pub awaits-le : (t : Thread) → awaits t ≤ holds t + owns t
awaits-le (holding t) = omega arith
awaits-le (owning t false) = omega arith
awaits-le _ = omega arith

pub is_token-set :
    (t : ℕ) (token : Option ℕ) → is_token (some t) token ≡ true → one_if (is_set token) ≡ 1
unfolding is_token
is_token-set t none e = ground (arith, e)
is_token-set t (some u) e = refl

pub start-IsSpaced :
    (now : ℕ) (starts : List ℕ)
    → is_cooling now (latest starts) ≡ false
    → IsSpaced starts
    → IsSpaced (now ∷ starts)
unfolding is_cooling IsSpaced
start-IsSpaced now [] e h = tt
start-IsSpaced now (t ∷ rest) e h = (not_ltb→le now (t + spacing) e, h)

pub undrawn-le : (issued : ℕ) (t : Thread) → undrawn (suc issued) t ≤ undrawn issued t
undrawn-le issued outside = omega arith
undrawn-le issued (holding t) = ground arith
undrawn-le issued (owning t b) = ground arith
undrawn-le issued (finishing t) = ground arith

pub total-zero : (ts : List Thread) → total (λ _. 0) ts ≡ 0
unfolding total
total-zero [] = refl
total-zero (t ∷ ts) = omega (arith, total-zero ts)
