-- ===== src/Searxng/Admission/Threads/Acts.antt =====
-- The invariant of the admission under each act of a thread.
use private_onyx_app.Searxng.Admission.Threads.Reserving.{
  finishing-Inv, clashes-free, give_back-Inv, strays-none, ask-Inv, holder-is_token,
}
use private_onyx_app.Searxng.Admission.{disown, record_start, own, Admission, is_cooling, is_token}
use private_onyx_app.Common.{
  total-sum, sym, Result, subst, ok, total-at, refl, total-le, arith, set, ◌≤◌, get_elem?, ◌≡◌, ◌+◌,
  total, ℕ, Bool, ◌∷◌, none, some, true, false,
}
use private_onyx_app.Searxng.Admission.Threads.{
  started, owned, Act, act, System, Thread, outside, holding, owning, finishing, ask, give_back,
  enter, start, leave,
}
use private_onyx_app.Searxng.Admission.Threads.Invariant.{
  awaits-le, holds, start-IsSpaced, awaits, owns, is_token-set, Moves-Inv, Inv, Moves,
}

module _ (w : System) (i : ℕ) (h : Inv w) where
  holder-free : (t : ℕ) → get_elem? w.threads i ≡ some (holding t) → w.admission.active ≡ false
  holder-free t e =
      ground (arith, h.apart, is_token-set t w.admission.token (holder-is_token w i h t e))

  enter-Moves :
      (t : ℕ)
      → get_elem? w.threads i ≡ some (holding t)
      → Moves w
          (holding t)
          (owning t false)
          (record w.admission { token = none; active = true })
          w.issued
          w.starts
  unfolding is_token
  enter-Moves t e =
      let one = is_token-set t w.admission.token (holder-is_token w i h t e) in
      record {
        held = omega (arith, one);
        owned = ground (arith, holder-free t e);
        apart = λ _. refl;
        matched = omega (arith, strays-none w i h one);
        distinct = omega (arith, clashes-free w i h);
        drawn = omega (arith, h.drawn);
        cooled = λ n e' e''. h.cooled (omega (arith, e', e''));
        recorded = h.recorded;
        spaced = h.spaced;
      }

  -- A thread that holds a reservation becomes the owner.
  pub enter-ok :
      (t : ℕ)
      → get_elem? w.threads i ≡ some (holding t)
      → own (some t) w.admission ≡ ok (record w.admission { token = none; active = true })
  unfolding own
  enter-ok t e = ground (arith, holder-is_token w i h t e, holder-free t e)

  enter-Inv : (t : ℕ) → get_elem? w.threads i ≡ some (holding t) → Inv (act enter w i (holding t))
  unfolding act owned
  enter-Inv t e =
      subst
        (λ (r : Result Admission). Inv (
          let (s, u) = owned t w.admission r in
          record w { admission = s; threads = set w.threads i u }))
        (sym (enter-ok t e))
        (Moves-Inv w i (holding t) (owning t false) _ w.issued w.starts e h (enter-Moves t e))

  owner-active :
      (t : ℕ) (b : Bool) → get_elem? w.threads i ≡ some (owning t b) → w.admission.active ≡ true
  owner-active t b e = ground (arith, total-at owns w.threads i (owning t b) e, h.owned)

  -- A thread that owns the attempt records its start.
  pub start-ok :
      (t : ℕ) (b : Bool)
      → get_elem? w.threads i ≡ some (owning t b)
      → record_start w.clock w.admission ≡ ok (record w.admission { last_start = some w.clock })
  unfolding record_start
  start-ok t b e = ground (arith, owner-active t b e)

  awaits-bound : w.admission.active ≡ true → total awaits w.threads ≤ 1
  awaits-bound e = ground (
    arith,
    total-le awaits (λ t. holds t + owns t) w.threads awaits-le,
    total-sum holds owns w.threads,
    h.held,
    h.owned,
    h.apart e,
    e,
  )

  start-Moves :
      (t : ℕ)
      → get_elem? w.threads i ≡ some (owning t false)
      → Moves w
          (owning t false)
          (owning t true)
          (record w.admission { last_start = some w.clock })
          w.issued
          (w.clock ∷ w.starts)
  start-Moves t e = record {
    held = refl;
    owned = refl;
    apart = h.apart;
    matched = omega (arith, h.matched);
    distinct = omega (arith, h.distinct);
    drawn = omega (arith, h.drawn);
    cooled = λ n e' e''. absurd (omega (arith, e', e'', awaits-bound (owner-active t false e)));
    recorded = refl;
    spaced =
        start-IsSpaced w.clock w.starts
          (subst (λ last. is_cooling w.clock last ≡ false) h.recorded
            (h.cooled (total-at awaits w.threads i (owning t false) e)))
          h.spaced;
  }

  start-Inv :
      (t : ℕ) → get_elem? w.threads i ≡ some (owning t false) → Inv (act start w i (owning t false))
  unfolding act started
  start-Inv t e =
      subst
        (λ (r : Result Admission). Inv (
          let (s, u, starts) = started w.clock t w.admission w.starts r in
          record w { admission = s; threads = set w.threads i u; starts = starts }))
        (sym (start-ok t false e))
        (Moves-Inv w i (owning t false) (owning t true) _ w.issued (w.clock ∷ w.starts) e h
          (start-Moves t e))

  leave-Inv :
      (t : ℕ) (b : Bool)
      → get_elem? w.threads i ≡ some (owning t b)
      → Inv (act leave w i (owning t b))
  unfolding act disown
  leave-Inv t b e =
      Moves-Inv w i (owning t b) (finishing t) (disown w.admission) w.issued w.starts e h (record {
        held = refl;
        owned = ground (arith, owner-active t b e);
        apart = λ e'. absurd (cc e');
        matched = omega (arith, h.matched);
        distinct = omega (arith, h.distinct);
        drawn = omega (arith, h.drawn);
        cooled = λ n e' e''. h.cooled (omega (arith, e', e''));
        recorded = h.recorded;
        spaced = h.spaced;
      })

pub act-Inv :
    (a : Act) (w : System) (i : ℕ) (t : Thread)
    → get_elem? w.threads i ≡ some t
    → Inv w
    → Inv (act a w i t)
unfolding act
act-Inv (ask available) w i outside e h = ask-Inv w i h available e
act-Inv give_back w i (holding t) e h = give_back-Inv w i h t e
act-Inv give_back w i (finishing t) e h = finishing-Inv w i h t e
act-Inv enter w i (holding t) e h = enter-Inv w i h t e
act-Inv start w i (owning t false) e h = start-Inv w i h t e
act-Inv leave w i (owning t b) e h = leave-Inv w i h t b e
act-Inv _ w i t e h = h
