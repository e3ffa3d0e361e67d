-- ===== src/Searxng/Admission/Threads/Safety.antt =====
-- The invariant of the admission along schedules, and what follows from it.
use private_onyx_app.Searxng.Admission.Threads.Acts.{start-ok, enter-ok, act-Inv}
use private_onyx_app.Searxng.Admission.Threads.Invariant.{
  awaits, undrawn, clashes, strays, owns, holds, IsSpaced, Inv,
}
use private_onyx_app.Searxng.Admission.{record_start, is_cooling, own, new_admission}
use private_onyx_app.Common.{
  Bool, ok, ◌≤◌, total, total-replicate, get_elem?, arith, ◌+◌, ◌≡◌, List, Option, ℕ, [], ◌∷◌, none,
  some, true, false, refl,
}
use private_onyx_app.Searxng.Admission.Threads.{
  holding, owning, outside, System, Thread, Act, Choice, step, run, turn, new_system,
}

is_cooling-later :
    (now d : ℕ) (start : Option ℕ)
    → is_cooling now start ≡ false
    → is_cooling (now + d) start ≡ false
unfolding is_cooling
is_cooling-later now d none e = refl
is_cooling-later now d (some t) e = ground (arith, e)

elapsed-Inv : (w : System) (d : ℕ) → Inv w → Inv (record w { clock = w.clock + d })
elapsed-Inv w d h = record {
  held = h.held;
  owned = h.owned;
  apart = h.apart;
  matched = h.matched;
  distinct = h.distinct;
  drawn = h.drawn;
  cooled = λ e. is_cooling-later w.clock d w.admission.last_start (h.cooled e);
  recorded = h.recorded;
  spaced = h.spaced;
}

turn-Inv :
    (a : Act) (w : System) (i : ℕ) (found : Option Thread)
    → get_elem? w.threads i ≡ found
    → Inv w
    → Inv (turn a w i found)
unfolding turn
turn-Inv a w i none e h = h
turn-Inv a w i (some t) e h = act-Inv a w i t e h

run-Inv : (schedule : List Choice) (w : System) → Inv w → Inv (run schedule w)
unfolding run step
run-Inv [] w h = h
run-Inv (c ∷ schedule) w h =
    run-Inv schedule (step c w) (
      turn-Inv c.does _ c.position (get_elem? w.threads c.position) refl
        (elapsed-Inv w c.elapsed h))

new-Inv : (now count : ℕ) → Inv (new_system now count)
unfolding new_system new_admission IsSpaced
new-Inv now count = record {
  held = total-replicate holds count outside refl;
  owned = total-replicate owns count outside refl;
  apart = λ e. refl;
  matched = total-replicate (strays none) count outside refl;
  distinct = total-replicate (clashes none) count outside refl;
  drawn = total-replicate (undrawn 0) count outside refl;
  cooled = λ e. absurd (omega (arith, e, total-replicate awaits count outside refl));
  recorded = refl;
  spaced = tt;
}

module _ (now count : ℕ) (schedule : List Choice) where
  abbrev pub w : System
  w = run schedule (new_system now count)

  holds_here : Inv w
  holds_here = run-Inv schedule (new_system now count) (new-Inv now count)

  -- Whatever the threads do, the starts of paid attempts are three seconds or more apart.
  pub starts-IsSpaced : IsSpaced w.starts
  starts-IsSpaced = holds_here.spaced

  -- In every state that a schedule leads to, at most one thread holds a reservation or owns the attempt.
  pub attempt-IsAlone : total holds w.threads + total owns w.threads ≤ 1
  attempt-IsAlone = ground (arith, holds_here)

  -- In every state that a schedule leads to, a thread that holds a reservation can enter `ownership` with
  -- it, and the thread in it can record its start: neither of the two errors is raised.
  pub attempt-ok :
      (i t : ℕ)
      → (get_elem? w.threads i ≡ some (holding t)
          → own (some t) w.admission ≡ ok (record w.admission { token = none; active = true }))
        × ((b : Bool)
            → get_elem? w.threads i ≡ some (owning t b)
            → record_start w.clock w.admission
              ≡ ok (record w.admission { last_start = some w.clock }))
  attempt-ok i t = (λ e. enter-ok w i holds_here t e, λ b e. start-ok w i holds_here t b e)
