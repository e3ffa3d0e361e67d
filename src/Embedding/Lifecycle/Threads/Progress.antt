-- ===== src/Embedding/Lifecycle/Threads/Progress.antt =====
-- About the threads that wait for a startup or for the end of a child.
use private_onyx_app.Embedding.Lifecycle.Threads.Invariant.{reachable-Inv}
use private_onyx_app.Embedding.Lifecycle.Threads.Counts.{sleeps, reaps, starts}
use private_onyx_app.Embedding.Lifecycle.Threads.{
  new_system, run, proceed, wake, reaping, asleep, outside, started, act, starting, acted, turn,
  Act, step, System, Thread,
}
use private_onyx_app.Common.{
  total-at, total-sum, total-Found, ◌∙◌, [], zero, suc, ◌∷◌, none, ◌+◌, sym, subst, ◌<◌, some_inv,
  ap, set, arith, ◌≢◌, map, some, Option, ◌≡◌, get_elem?, List, ℕ,
}

-- The acts that end the section of a thread which launches or stops a child.
pub data Ends : Thread → Act → Type 0 where
  launch : (child : Option ℕ) → Ends starting (started child)
  stop : (p : ℕ) → Ends (reaping p) proceed

-- A thread that is at work, and each end of whose work wakes thread `i`.
pub record Awaited (w : System) (i : ℕ) : Type 0 where
  pub position : ℕ
  pub thread : Thread
  pub is_there : get_elem? w.threads position ≡ some thread
  pub can_end : (a : Act) × Ends thread a
  pub wakes : (a : Act) → Ends thread a → get_elem? (step (position, a) w).threads i ≡ some outside

pub get_elem?-wake :
    (ts : List Thread) (i : ℕ) (t : Thread)
    → get_elem? ts i ≡ some t
    → get_elem? (map wake ts) i ≡ some (wake t)
get_elem?-wake [] i t h = ground arith
get_elem?-wake (x ∷ ts) zero t h = ap (λ y. some (wake y)) (some_inv h)
get_elem?-wake (x ∷ ts) (suc i) t h = get_elem?-wake ts i t h

get_elem?-woken :
    (ts : List Thread) (i j : ℕ) (t u : Thread)
    → get_elem? ts i ≡ some asleep
    → get_elem? ts j ≡ some t
    → t ≢ asleep
    → get_elem? (map wake (set ts j u)) i ≡ some outside
get_elem?-woken [] i j t u h h' h'' = ground arith
get_elem?-woken (x ∷ ts) zero zero t u h h' h'' = absurd (h'' (some_inv (sym h' ∙ h)))
get_elem?-woken (x ∷ ts) zero (suc j) t u h h' h'' = ap (λ y. some (wake y)) (some_inv h)
get_elem?-woken (x ∷ ts) (suc i) zero t u h h' h'' = get_elem?-wake ts i asleep h
get_elem?-woken (x ∷ ts) (suc i) (suc j) t u h h' h'' = get_elem?-woken ts i j t u h h' h''

step-wakes :
    (w : System) (i j : ℕ) (t : Thread) (a : Act)
    → get_elem? w.threads i ≡ some asleep
    → get_elem? w.threads j ≡ some t
    → Ends t a
    → get_elem? (step (j, a) w).threads i ≡ some outside
unfolding step turn acted act
step-wakes w i j _ _ h h' (launch child) =
    subst (λ found. get_elem? (turn (started child) w j found).threads i ≡ some outside) (sym h')
      (get_elem?-woken w.threads i j starting _ h h' (λ e. ground (arith, e)))
step-wakes w i j _ _ h h' (stop p) =
    subst (λ found. get_elem? (turn proceed w j found).threads i ≡ some outside) (sym h')
      (get_elem?-woken w.threads i j (reaping p) _ h h' (λ e. ground (arith, e)))

working-Awaited :
    (w : System) (i j : ℕ) (t : Thread)
    → get_elem? w.threads i ≡ some asleep
    → get_elem? w.threads j ≡ some t
    → 0 < starts t + reaps t
    → Awaited w i
working-Awaited w i j starting h h' h'' = record {
  position = j;
  thread = starting;
  is_there = h';
  can_end = (started none, launch none);
  wakes = λ a e. step-wakes w i j starting a h h' e;
}
working-Awaited w i j (reaping p) h h' h'' = record {
  position = j;
  thread = reaping p;
  is_there = h';
  can_end = (proceed, stop p);
  wakes = λ a e. step-wakes w i j (reaping p) a h h' e;
}
working-Awaited w i j _ h h' h'' = absurd (omega (arith, h''))

module _ (idle_seconds now count : ℕ) (schedule : List (ℕ × Act)) where
  abbrev pub w : System
  w = run schedule (new_system idle_seconds now count)

  -- In every state that a schedule leads to, a thread that waits in `begin_request` is not lost: there is
  -- a thread that launches or stops a child, its work can end, and each way in which it ends wakes the one
  -- that waits.
  pub asleep-Awaited : (i : ℕ) → get_elem? w.threads i ≡ some asleep → Awaited w i
  asleep-Awaited i h =
      let found =
        total-Found (λ t. starts t + reaps t) w.threads
          (omega (
            arith,
            total-sum starts reaps w.threads,
            total-at sleeps w.threads i asleep h,
            (reachable-Inv idle_seconds now count schedule).awaited,
          )) in
      working-Awaited w i found.position found.found h found.is_there found.weighs
