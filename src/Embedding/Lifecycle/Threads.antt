-- ===== src/Embedding/Lifecycle/Threads.antt =====
-- The threads of the proxy, and their interleavings: a schedule says which thread acts next and what
-- its environment does. Whatever thread calls `notify_all` wakes every thread that waits.
pub mod Counts
pub mod Invariant
pub mod Safety
pub mod Progress
pub mod Closing
pub mod Drained
use private_onyx_app.Common.{
  replicate, ℕ, Bool, true, false, not, ◌&&◌, List, [], ◌∷◌, Option, none, some, if◌then◌else◌, map,
  get_elem?, set, Result, ok, err,
}
use private_onyx_app.Embedding.Lifecycle.{
  Lifecycle, Entry, refused, admitted, must_wait, must_start, begin_section, finish_start,
  end_request, reap_section, reap_finish, request_shutdown, close, is_busy, take_child,
  new_lifecycle,
}

pub data Thread : Type 0 where
  -- outside the lifecycle
  outside : Thread
  -- in `condition.wait` of `begin_request`
  asleep : Thread
  -- in the startup loop, with a child of its own or none
  starting : Thread
  -- stopping the child of a startup that failed
  discarding : Thread
  -- between `begin_request` and `end_request`
  serving : Thread
  -- `reap_if_idle` and `shutdown` stopping a child
  reaping : ℕ → Thread
  closing : Thread
  terminating : Option ℕ → Thread

-- What a thread does next, with what it observes.
pub data Act : Type 0 where
  begin : (ℕ → Bool) → Act
  started : Option ℕ → Act
  finish : ℕ → Act
  reap : ℕ → Act
  ask_shutdown shut_down : Act
  proceed : Act

unfoldable pub entered : Entry → Thread
entered refused = outside
entered admitted = serving
entered must_wait = asleep
entered must_start = starting

unfoldable pub launched : Option ℕ → Thread
launched none = discarding
launched (some p) = serving

-- A call that raised leaves the lifecycle as it was, and notifies no one.
unfoldable pub ended : Lifecycle → Result Lifecycle → (Lifecycle × Thread) × Bool
ended s (ok s') = ((s', outside), true)
ended s (err e) = ((s, outside), false)

unfoldable pub reaped : Option ℕ → Thread
reaped none = outside
reaped (some p) = reaping p

-- The lifecycle and the thread after its act, and whether it notified the others. An act that the
-- thread is not at changes nothing.
unfoldable pub act : Act → Lifecycle → Thread → (Lifecycle × Thread) × Bool
unfolding entered launched ended reaped begin_section finish_start end_request reap_section
    reap_finish request_shutdown close is_busy take_child
act (begin exited) s outside =
    let (s', entry) = begin_section exited s in ((s', entered entry), false)
act (started child) s starting = ((finish_start child s, launched child), true)
act proceed s discarding = ((s, outside), false)
act (finish now) s serving = ended s (end_request now s)
act (reap now) s outside =
    let (s', child) = reap_section now s s.child in ((s', reaped child), false)
act proceed s (reaping p) = ((reap_finish p s, outside), true)
act ask_shutdown s outside = ((request_shutdown s, outside), true)
act shut_down s outside = ((close s, closing), false)
act proceed s closing =
    let (s', child) = take_child s in
    if is_busy s then ((s, closing), false) else ((s', terminating child), false)
act proceed s (terminating child) = ((s, outside), false)
act _ s t = ((s, t), false)

abbrev pub wake : Thread → Thread
wake asleep = outside
wake t = t

abbrev pub wake_if : Bool → List Thread → List Thread
wake_if true threads = map wake threads
wake_if false threads = threads

pub record System : Type 0 where
  pub lifecycle : Lifecycle
  pub threads : List Thread

unfoldable pub acted : System → ℕ → (Lifecycle × Thread) × Bool → System
acted w i ((s, t), notified) = record {
  lifecycle = s;
  threads = wake_if notified (set w.threads i t);
}

unfoldable pub turn : Act → System → ℕ → Option Thread → System
unfolding act acted
turn a w i none = w
turn a w i (some t) = acted w i (act a w.lifecycle t)

-- The thread at a position acts.
unfoldable pub step : ℕ × Act → System → System
unfolding turn
step (i, a) w = turn a w i (get_elem? w.threads i)

unfoldable pub run : List (ℕ × Act) → System → System
unfolding step
run [] w = w
run (choice ∷ schedule) w = run schedule (step choice w)

-- A new lifecycle, and threads that are outside it.
unfoldable pub new_system : ℕ → ℕ → ℕ → System
unfolding new_lifecycle
new_system idle_seconds now count = record {
  lifecycle = new_lifecycle idle_seconds now;
  threads = replicate count outside;
}
