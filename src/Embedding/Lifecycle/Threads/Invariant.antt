-- ===== src/Embedding/Lifecycle/Threads/Invariant.antt =====
-- What holds in every state that a schedule leads to.
use private_onyx_app.Common.{
  total-replicate, ℕ, ◌+◌, ◌<◌, ◌≡◌, refl, Bool, true, false, List, [], ◌∷◌, Option, none, some,
  arith, get_elem?,
}
use private_onyx_app.Embedding.Lifecycle.{Lifecycle, new_lifecycle}
use private_onyx_app.Embedding.Lifecycle.Threads.{
  acted, turn, new_system, Thread, outside, starting, discarding, serving, reaping, closing,
  terminating, Act, begin, started, finish, reap, ask_shutdown, shut_down, proceed, act, System,
  step, run,
}
use private_onyx_app.Embedding.Lifecycle.Threads.Counts.{
  terminates, closes, sleeps, reaps, starts, serves, Census, census, Moved, Moved-set,
}

abbrev pub one_if : Bool → ℕ
one_if true = 1
one_if false = 0

-- The counters and flags of the lifecycle agree with where the threads are.
pub record Inv (s : Lifecycle) (n : Census) : Type 0 where
  pub counted : s.active ≡ n.serving
  pub one_starts : one_if s.starting ≡ n.starting
  pub one_reaps : one_if s.stopping ≡ n.reaping
  pub quiet : s.stopping ≡ true → s.active ≡ 0
  pub apart : s.starting ≡ true → s.stopping ≡ false
  pub childless : s.starting ≡ true → s.child ≡ none
  pub awaited : 0 < n.asleep → 0 < n.starting + n.reaping
  pub shut : 0 < n.closing → s.closed ≡ true
  pub over : 0 < n.terminating → s.closed ≡ true
  pub over_quiet : 0 < n.terminating → n.serving + n.starting + n.reaping ≡ 0
  pub over_childless : 0 < n.terminating → s.child ≡ none

-- One act of a thread keeps it.
act-Inv :
    (a : Act) (s : Lifecycle) (t : Thread) (n n' : Census)
    → Moved t (act a s t).0.1 (act a s t).1 n n'
    → Inv s n
    → Inv (act a s t).0.0 n'
unfolding act
act-Inv (begin exited) s outside n n' m h = ground arith
act-Inv (started none) s starting n n' m h = ground arith
act-Inv (started (some p)) s starting n n' m h = ground arith
act-Inv (finish now) s serving n n' m h = ground arith
act-Inv (reap now) s outside n n' m h = ground arith
act-Inv ask_shutdown s outside n n' m h = ground arith
act-Inv shut_down s outside n n' m h = ground arith
act-Inv proceed s discarding n n' m h = ground arith
act-Inv proceed s (reaping p) n n' m h = ground arith
act-Inv proceed s closing n n' m h = ground arith
act-Inv proceed s (terminating child) n n' m h = ground arith
act-Inv _ s t n n' m h = ground arith

new-Inv :
    (idle_seconds now count : ℕ)
    → let w = new_system idle_seconds now count in Inv w.lifecycle (census w.threads)
unfolding new_system new_lifecycle
new-Inv idle_seconds now count = ground (
  arith,
  total-replicate serves count outside refl,
  total-replicate starts count outside refl,
  total-replicate reaps count outside refl,
  total-replicate sleeps count outside refl,
  total-replicate closes count outside refl,
  total-replicate terminates count outside refl,
)

turn-Inv :
    (a : Act) (w : System) (i : ℕ) (found : Option Thread)
    → get_elem? w.threads i ≡ found
    → Inv w.lifecycle (census w.threads)
    → Inv (turn a w i found).lifecycle (census (turn a w i found).threads)
unfolding turn acted
turn-Inv a w i none e h = h
turn-Inv a w i (some t) e h =
    act-Inv a w.lifecycle t (census w.threads) _ (Moved-set w.threads i t _ _ e) h

pub run-Inv :
    (schedule : List (ℕ × Act)) (w : System)
    → Inv w.lifecycle (census w.threads)
    → Inv (run schedule w).lifecycle (census (run schedule w).threads)
unfolding run step
run-Inv [] w h = h
run-Inv ((i, a) ∷ schedule) w h =
    run-Inv schedule (step (i, a) w) (turn-Inv a w i (get_elem? w.threads i) refl h)

-- In every state that a schedule leads to from a new lifecycle, with any number of threads, the
-- counters and flags of the lifecycle agree with where the threads are (`Inv`).
pub reachable-Inv :
    (idle_seconds now count : ℕ) (schedule : List (ℕ × Act))
    → let w = run schedule (new_system idle_seconds now count) in Inv w.lifecycle (census w.threads)
unfolding new_system
reachable-Inv idle_seconds now count schedule =
    run-Inv schedule (new_system idle_seconds now count) (new-Inv idle_seconds now count)
