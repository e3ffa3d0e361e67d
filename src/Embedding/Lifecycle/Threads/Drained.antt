-- ===== src/Embedding/Lifecycle/Threads/Drained.antt =====
-- About the schedules behind a shutdown that took the child.
use private_onyx_app.Embedding.Lifecycle.Threads.Invariant.{reachable-Inv}
use private_onyx_app.Embedding.Lifecycle.Threads.Counts.{
  starts, serves, terminates, Moved-set, census, Moved, Census,
}
use private_onyx_app.Common.{
  total-at, arith, ◌≢◌, ◌+◌, get_elem?, true, Option, ◌≡◌, List, ℕ, [], ◌∷◌, none, some, refl,
}
use private_onyx_app.Embedding.Lifecycle.Threads.{
  new_system, System, Thread, step, acted, Act, run, turn, act, Lifecycle, outside, starting,
  serving, reaping, terminating, begin, started, finish, reap, proceed,
}

-- The lifecycle is closed and without a child, and no thread serves or starts one.
record Over (s : Lifecycle) (n : Census) : Type 0 where
  closed : s.closed ≡ true
  childless : s.child ≡ none
  idle : n.serving + n.starting ≡ 0

act-Over :
    (a : Act) (s : Lifecycle) (t : Thread) (n n' : Census)
    → Moved t (act a s t).0.1 (act a s t).1 n n'
    → Over s n
    → Over (act a s t).0.0 n'
unfolding act
act-Over (begin exited) s outside n n' m h = ground arith
act-Over (started child) s starting n n' m h = ground arith
act-Over (finish now) s serving n n' m h = ground arith
act-Over (reap now) s outside n n' m h = ground arith
act-Over proceed s (reaping p) n n' m h = ground arith
act-Over _ s t n n' m h = ground arith

turn-Over :
    (a : Act) (w : System) (i : ℕ) (found : Option Thread)
    → get_elem? w.threads i ≡ found
    → Over w.lifecycle (census w.threads)
    → Over (turn a w i found).lifecycle (census (turn a w i found).threads)
unfolding turn acted
turn-Over a w i none e h = h
turn-Over a w i (some t) e h =
    act-Over a w.lifecycle t (census w.threads) _ (Moved-set w.threads i t _ _ e) h

run-Over :
    (schedule : List (ℕ × Act)) (w : System)
    → Over w.lifecycle (census w.threads)
    → Over (run schedule w).lifecycle (census (run schedule w).threads)
unfolding run step
run-Over [] w h = h
run-Over ((i, a) ∷ schedule) w h =
    run-Over schedule (step (i, a) w) (turn-Over a w i (get_elem? w.threads i) refl h)

module _ (idle_seconds now count : ℕ) (schedule : List (ℕ × Act)) where
  abbrev pub w : System
  w = run schedule (new_system idle_seconds now count)

  -- From a state that a schedule leads to in which `shutdown` is past its wait, no schedule leads to a
  -- state in which a thread has a request in flight or starts a child.
  pub terminating-IsFinal :
      (i j : ℕ) (child : Option ℕ) (more : List (ℕ × Act))
      → get_elem? w.threads i ≡ some (terminating child)
      → (get_elem? (run more w).threads j ≢ some serving)
        × (get_elem? (run more w).threads j ≢ some starting)
  terminating-IsFinal i j child more h =
      let sound = reachable-Inv idle_seconds now count schedule in
      let one = total-at terminates w.threads i (terminating child) h in
      let over = run-Over more w (record {
        closed = sound.over one;
        childless = sound.over_childless one;
        idle = omega (arith, sound.over_quiet one);
      }) in
      (
        λ e. omega (arith, over.idle, total-at serves (run more w).threads j serving e),
        λ e. omega (arith, over.idle, total-at starts (run more w).threads j starting e),
      )
