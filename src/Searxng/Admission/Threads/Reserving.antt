-- ===== src/Searxng/Admission/Threads/Reserving.antt =====
-- The invariant of the admission under a reservation and its release.
use private_onyx_app.Searxng.Admission.{release, reserve, Admission, is_cooling, is_set, is_token}
use private_onyx_app.Common.{
  total-at, ◌||◌, if-elim, refl, ◌&&◌, total-le, suc, arith, set, ◌≤◌, get_elem?, ◌≡◌, total, not,
  ℕ, Option, Bool, none, some, true, false,
}
use private_onyx_app.Searxng.Admission.Threads.{
  reserved, act, System, Thread, outside, holding, finishing, ask, give_back,
}
use private_onyx_app.Searxng.Admission.Threads.Invariant.{
  holds-le, undrawn-le, total-zero, strays-le, clashes-le, clashes-none, holds, is_token-set,
  undrawn, one_if, Moves-Inv, clashes, strays, Inv, Moves,
}

module _ (w : System) (i : ℕ) (h : Inv w) where
  pub strays-total :
      (token : Option ℕ) → total (strays token) w.threads ≤ one_if (is_set w.admission.token)
  strays-total token =
      omega (arith, total-le (strays token) holds w.threads (strays-le token), h.held)

  pub clashes-free : total (clashes none) w.threads ≡ 0
  clashes-free =
      omega (arith, total-le (clashes none) (λ _. 0) w.threads clashes-none, total-zero w.threads)

  pub same-Moves : (t : Thread) → Moves w t t w.admission w.issued w.starts
  same-Moves t = record {
    held = refl;
    owned = refl;
    apart = h.apart;
    matched = omega (arith, h.matched);
    distinct = omega (arith, h.distinct);
    drawn = omega (arith, h.drawn);
    cooled = λ n e e'. h.cooled (omega (arith, e, e'));
    recorded = h.recorded;
    spaced = h.spaced;
  }

  ask-Moves :
      (not w.admission.active && not (is_set w.admission.token)) ≡ true
      → is_cooling w.clock w.admission.last_start ≡ false
      → Moves w outside
          (holding w.issued)
          (record w.admission { token = some w.issued })
          (suc w.issued)
          w.starts
  unfolding is_token
  ask-Moves free cooled = record {
    held = ground (arith, free);
    owned = refl;
    apart = λ e. ground (arith, e, free);
    matched = ground (arith, free, strays-total (some w.issued));
    distinct = omega (
      arith,
      total-le (clashes (some w.issued)) (undrawn w.issued) w.threads (clashes-le w.issued),
      h.drawn,
    );
    drawn = ground (
      arith,
      total-le (undrawn (suc w.issued)) (undrawn w.issued) w.threads (undrawn-le w.issued),
      h.drawn,
    );
    cooled = λ n e e'. cooled;
    recorded = h.recorded;
    spaced = h.spaced;
  }

  pub ask-Inv :
      (available : Bool)
      → get_elem? w.threads i ≡ some outside
      → Inv (act (ask available) w i outside)
  unfolding act reserve reserved
  ask-Inv available e =
      if-elim
        (λ (r : Option ℕ × Admission). Inv (
          let (s, t, n) = reserved w.clock w.issued r in
          record w { admission = s; threads = set w.threads i t; issued = n }))
        (not available
          || w.admission.active
          || is_set w.admission.token
          || is_cooling w.clock w.admission.last_start)
        (λ _. Moves-Inv w i outside outside w.admission w.issued w.starts e h (same-Moves outside))
        (λ e'.
          Moves-Inv w i outside (holding w.issued) _ _ w.starts e h
            (ask-Moves (ground (arith, e')) (ground (arith, e'))))

  pub holder-is_token :
      (t : ℕ)
      → get_elem? w.threads i ≡ some (holding t)
      → is_token (some t) w.admission.token ≡ true
  holder-is_token t e =
      ground (arith, total-at (strays w.admission.token) w.threads i (holding t) e, h.matched)

  pub strays-none : one_if (is_set w.admission.token) ≡ 1 → total (strays none) w.threads ≡ 1
  strays-none e =
      omega (arith, e, strays-total none, total-le holds (strays none) w.threads holds-le, h.held)

  pub undrawn-none : (t : Thread) → get_elem? w.threads i ≡ some t → undrawn w.issued t ≡ 0
  undrawn-none t e = omega (arith, total-at (undrawn w.issued) w.threads i t e, h.drawn)

  give_back-Moves :
      (t : ℕ)
      → get_elem? w.threads i ≡ some (holding t)
      → Moves w (holding t) outside (record w.admission { token = none }) w.issued w.starts
  unfolding is_token
  give_back-Moves t e =
      let one = is_token-set t w.admission.token (holder-is_token t e) in
      record {
        held = omega (arith, one);
        owned = refl;
        apart = λ _. refl;
        matched = omega (arith, strays-none one);
        distinct = omega (arith, clashes-free);
        drawn = omega (arith, h.drawn, undrawn-none (holding t) e);
        cooled = λ n e' e''. h.cooled (omega (arith, e', e''));
        recorded = h.recorded;
        spaced = h.spaced;
      }

  pub give_back-Inv :
      (t : ℕ) → get_elem? w.threads i ≡ some (holding t) → Inv (act give_back w i (holding t))
  unfolding act release
  give_back-Inv t e =
      if-elim
        (λ (r : Admission × Bool).
          Inv (record w { admission = r.0; threads = set w.threads i outside }))
        (is_token (some t) w.admission.token)
        (λ _. Moves-Inv w i (holding t) outside _ w.issued w.starts e h (give_back-Moves t e))
        (λ e'. absurd (cc (e', holder-is_token t e)))

  pub finishing-Inv :
      (t : ℕ) → get_elem? w.threads i ≡ some (finishing t) → Inv (act give_back w i (finishing t))
  unfolding act release
  finishing-Inv t e =
      if-elim
        (λ (r : Admission × Bool).
          Inv (record w { admission = r.0; threads = set w.threads i outside }))
        (is_token (some t) w.admission.token)
        (λ e'. absurd (
          ground (
            arith,
            e',
            h.distinct,
            total-at (clashes w.admission.token) w.threads i (finishing t) e,
          )))
        (λ e'. Moves-Inv w i (finishing t) outside _ w.issued w.starts e h (record {
          held = refl;
          owned = refl;
          apart = h.apart;
          matched = omega (arith, h.matched);
          distinct = ground (arith, h.distinct, e');
          drawn = omega (arith, h.drawn, undrawn-none (finishing t) e);
          cooled = λ n e1 e2. h.cooled (omega (arith, e1, e2));
          recorded = h.recorded;
          spaced = h.spaced;
        }))
