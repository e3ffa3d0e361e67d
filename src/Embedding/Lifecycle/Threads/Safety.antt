-- ===== src/Embedding/Lifecycle/Threads/Safety.antt =====
-- The invariant of the lifecycle along schedules, and what follows from it.
use private_onyx_app.Embedding.Lifecycle.Threads.Invariant.{reachable-Inv, Inv}
use private_onyx_app.Embedding.Lifecycle.Threads.Counts.{serves, reaps, census, starts}
use private_onyx_app.Embedding.Lifecycle.Threads.{
  starting, reaping, serving, new_system, run, end_request, System, Act,
}
use private_onyx_app.Common.{
  total, total-at, arith, ◌-◌, ok, ◌≢◌, ◌≤◌, some, ◌+◌, ◌≡◌, get_elem?, List, ℕ,
}

module _ (idle_seconds now count : ℕ) (schedule : List (ℕ × Act)) where
  abbrev pub w : System
  w = run schedule (new_system idle_seconds now count)

  holds : Inv w.lifecycle (census w.threads)
  holds = reachable-Inv idle_seconds now count schedule

  -- In every state that a schedule leads to, a thread that is between `begin_request` and `end_request`
  -- ends its request without an error: the requests in flight never underflow, and one less is left.
  pub end_request-ok :
      (i later : ℕ)
      → get_elem? w.threads i ≡ some serving
      → end_request later w.lifecycle
        ≡ ok (record w.lifecycle { active = w.lifecycle.active - 1; last_completed = later })
  unfolding end_request
  end_request-ok i later h = ground (arith, holds.counted, total-at serves w.threads i serving h)

  -- In every state that a schedule leads to, while `reap_if_idle` stops a child no thread has a request
  -- in flight and none starts a child.
  pub reaping-IsAlone :
      (i j p : ℕ)
      → get_elem? w.threads i ≡ some (reaping p)
      → (get_elem? w.threads j ≢ some serving) × (get_elem? w.threads j ≢ some starting)
  reaping-IsAlone i j p h = (
    λ e. ground (
      arith,
      holds,
      total-at reaps w.threads i (reaping p) h,
      total-at serves w.threads j serving e,
    ),
    λ e. ground (
      arith,
      holds,
      total-at reaps w.threads i (reaping p) h,
      total-at starts w.threads j starting e,
    ),
  )

  -- In every state that a schedule leads to, at most one thread is in the startup of a child or stops an
  -- idle one. (A thread that discards the child of a startup that failed is not counted.)
  pub starting-IsAlone : total starts w.threads + total reaps w.threads ≤ 1
  starting-IsAlone = ground (arith, holds)
