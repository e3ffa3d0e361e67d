-- ===== src/Embedding/Lifecycle/Threads/Closing.antt =====
-- About the schedules that a waiting shutdown has before it.
use private_onyx_app.Embedding.Lifecycle.Threads.Invariant.{reachable-Inv, run-Inv, Inv}
use private_onyx_app.Embedding.Lifecycle.Threads.Progress.{get_elem?-wake}
use private_onyx_app.Embedding.Lifecycle.Threads.Counts.{
  Census, census, total-moved, reaps, starts, serves, Weight,
}
use private_onyx_app.Common.{
  total-Found, total-sum, Found, total, Option, ◌++◌, refl, true, false, ◌∙◌, some_inv, sym, set,
  subst, ◌≢◌, ap, none, some, arith, ◌≤◌, ◌≡◌, ◌<◌, ◌+◌, Bool, get_elem?, List, ℕ, [], zero, suc,
  ◌∷◌,
}
use private_onyx_app.Embedding.Lifecycle.Threads.{
  new_system, terminating, is_busy, starting, take_child, serving, wake_if, proceed, closing,
  reaping, started, finish, turn, Lifecycle, Act, run, System, acted, step, act, Thread,
}

works : Weight
works t = serves t + starts t + reaps t

-- The act that ends the work of a thread.
settle : Thread → Act
settle serving = finish 0
settle starting = started none
settle _ = proceed

settle-idle : (t : Thread) (s : Lifecycle) → 0 < works t → works (act (settle t) s t).0.1 ≡ 0
unfolding works settle act
settle-idle serving s h = ground arith
settle-idle starting s h = ground arith
settle-idle (reaping p) s h = ground arith
settle-idle _ s h = absurd (omega (arith, h))

step-found :
    (w : System) (i : ℕ) (t : Thread) (a : Act)
    → get_elem? w.threads i ≡ some t
    → step (i, a) w ≡ acted w i (act a w.lifecycle t)
unfolding step turn
step-found w i t a h = ap (turn a w i) h

get_elem?-set :
    (ts : List Thread) (i k : ℕ) (t u : Thread)
    → get_elem? ts i ≡ some t
    → get_elem? ts k ≡ some closing
    → t ≢ closing
    → get_elem? (set ts i u) k ≡ some closing
get_elem?-set [] i k t u h h' h'' = ground arith
get_elem?-set (x ∷ ts) zero zero t u h h' h'' = absurd (h'' (some_inv (sym h ∙ h')))
get_elem?-set (x ∷ ts) zero (suc k) t u h h' h'' = h'
get_elem?-set (x ∷ ts) (suc i) zero t u h h' h'' = h'
get_elem?-set (x ∷ ts) (suc i) (suc k) t u h h' h'' = get_elem?-set ts i k t u h h' h''

get_elem?-kept :
    (ts : List Thread) (i k : ℕ) (t u : Thread) (notified : Bool)
    → get_elem? ts i ≡ some t
    → get_elem? ts k ≡ some closing
    → t ≢ closing
    → get_elem? (wake_if notified (set ts i u)) k ≡ some closing
get_elem?-kept ts i k t u false h h' h'' = get_elem?-set ts i k t u h h' h''
get_elem?-kept ts i k t u true h h' h'' =
    get_elem?-wake (set ts i u) k closing (get_elem?-set ts i k t u h h' h'')

step-settles :
    (w : System) (i k : ℕ) (t : Thread)
    → get_elem? w.threads i ≡ some t
    → get_elem? w.threads k ≡ some closing
    → 0 < works t
    → (total works (step (i, settle t) w).threads < total works w.threads)
      × (get_elem? (step (i, settle t) w).threads k ≡ some closing)
unfolding acted works
step-settles w i k t h h' h'' =
    subst
      (λ v.
        (total works v.threads < total works w.threads) × (get_elem? v.threads k ≡ some closing))
      (sym (step-found w i t (settle t) h))
      (
        omega (
          arith,
          total-moved works w.threads i t _ (act (settle t) w.lifecycle t).1 refl h,
          settle-idle t w.lifecycle h'',
          h'',
        ),
        get_elem?-kept w.threads i k t _ _ h h' (λ e. omega (arith, h'', ap works e)),
      )

-- A schedule behind which no thread is at work and thread `k` still waits to shut down.
record Drained (w : System) (k : ℕ) : Type 0 where
  schedule : List (ℕ × Act)
  quiet : total works (run schedule w).threads ≡ 0
  waits : get_elem? (run schedule w).threads k ≡ some closing

drain :
    (fuel : ℕ) (w : System) (k : ℕ)
    → total works w.threads ≤ fuel
    → get_elem? w.threads k ≡ some closing
    → Drained w k
unfolding run
drain zero w k h h' = record { schedule = []; quiet = omega (arith, h); waits = h' }
drain (suc fuel) w k h h' = by_work (total works w.threads) refl (λ v. drain fuel v k)
  where
    first :
        (found : Found works w.threads)
        → ((v : System)
            → total works v.threads ≤ fuel
            → get_elem? v.threads k ≡ some closing
            → Drained v k)
        → Drained w k
    first found later =
        let choice : ℕ × Act = (found.position, settle found.found) in
        let settled = step-settles w found.position k found.found found.is_there h' found.weighs in
        let rest = later (step choice w) (omega (arith, h, settled.0)) settled.1 in
        record { schedule = choice ∷ rest.schedule; quiet = rest.quiet; waits = rest.waits }

    by_work :
        (n : ℕ)
        → total works w.threads ≡ n
        → ((v : System)
            → total works v.threads ≤ fuel
            → get_elem? v.threads k ≡ some closing
            → Drained v k)
        → Drained w k
    by_work zero e later = record { schedule = []; quiet = e; waits = h' }
    by_work (suc n) e later = first (total-Found works w.threads (omega (arith, e))) later

act-takes :
    (s : Lifecycle) (n : Census)
    → Inv s n
    → n.serving + n.starting + n.reaping ≡ 0
    → act proceed s closing ≡ ((record s { child = none }, terminating s.child), false)
unfolding act take_child is_busy
act-takes s n h e = ground arith

get_elem?-set-same :
    (ts : List Thread) (k : ℕ) (t u : Thread)
    → get_elem? ts k ≡ some t
    → get_elem? (set ts k u) k ≡ some u
get_elem?-set-same [] k t u h = ground arith
get_elem?-set-same (x ∷ ts) zero t u h = refl
get_elem?-set-same (x ∷ ts) (suc k) t u h = get_elem?-set-same ts k t u h

step-takes :
    (w : System) (k : ℕ)
    → Inv w.lifecycle (census w.threads)
    → total works w.threads ≡ 0
    → get_elem? w.threads k ≡ some closing
    → get_elem? (step (k, proceed) w).threads k ≡ some (terminating w.lifecycle.child)
unfolding acted works
step-takes w k h e h' =
    let quiet = act-takes w.lifecycle (census w.threads) h (
      omega (
        arith,
        e,
        total-sum (λ t. serves t + starts t) reaps w.threads,
        total-sum serves starts w.threads,
      )) in
    subst (λ v. get_elem? v.threads k ≡ some (terminating w.lifecycle.child))
      (sym (step-found w k closing proceed h' ∙ ap (acted w k) quiet))
      (get_elem?-set-same w.threads k closing _ h')

run-append :
    (first more : List (ℕ × Act)) (w : System) → run (first ++ more) w ≡ run more (run first w)
unfolding run
run-append [] more w = refl
run-append (choice ∷ first) more w = run-append first more (step choice w)

module _ (idle_seconds now count : ℕ) (schedule : List (ℕ × Act)) where
  abbrev pub w : System
  w = run schedule (new_system idle_seconds now count)

  -- In every state that a schedule leads to, a thread that waits in `shutdown` can get on: some further
  -- schedule, in which requests end and starts fail, brings it past its wait with the child in its hand.
  pub shutdown-CanEnd :
      (k : ℕ)
      → get_elem? w.threads k ≡ some closing
      → (more : List (ℕ × Act)) × (child : Option ℕ) × (get_elem? (run more w).threads k
          ≡ some (terminating child))
  unfolding run
  shutdown-CanEnd k h =
      let drained = drain (total works w.threads) w k (omega arith) h in
      let after = run drained.schedule w in
      (
        drained.schedule ++ ((k, proceed) ∷ []),
        after.lifecycle.child,
        subst (λ v. get_elem? v.threads k ≡ some (terminating after.lifecycle.child))
            (sym (run-append drained.schedule ((k, proceed) ∷ []) w))
            (step-takes after k
              (run-Inv drained.schedule w (reachable-Inv idle_seconds now count schedule))
              drained.quiet drained.waits),
      )
