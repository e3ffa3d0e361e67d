-- ===== src/Embedding/Lifecycle.antt =====
-- embedserv/idle_embedding_proxy.py, the class `Lifecycle`: what it changes as a record, and one function
-- for each section that runs under its condition variable. `exited` says which of the processes that
-- the proxy launched have ended, as `poll` would; a clock reading is a number.
pub mod Startup
pub mod Advertised
pub mod Threads
use private_onyx_app.Common.{
  ℕ, ◌+◌, ◌-◌, Bool, true, false, not, ◌&&◌, ◌||◌, Option, none, some, ltb, ◌==◌, if◌then◌else◌,
  codes, Result, ok, raise, runtime_error,
}

pub record Lifecycle : Type 0 where
  pub idle_seconds : ℕ
  pub child : Option ℕ
  pub starting : Bool
  pub stopping : Bool
  pub active : ℕ
  pub last_completed : ℕ
  pub closed : Bool
  pub shutdown_requested : Bool

unfoldable pub new_lifecycle : ℕ → ℕ → Lifecycle
new_lifecycle idle_seconds now = record {
  idle_seconds = idle_seconds;
  child = none;
  starting = false;
  stopping = false;
  active = 0;
  last_completed = now;
  closed = false;
  shutdown_requested = false;
}

-- What the first section of `begin_request` decides.
pub data Entry : Type 0 where
  refused admitted must_wait must_start : Entry

-- The child, unless it has ended.
unfoldable pub living : (ℕ → Bool) → Option ℕ → Option ℕ
living exited none = none
living exited (some p) = if exited p then none else some p

abbrev pub is_some {ℓ} : {A : Type ℓ} → Option A → Bool
is_some none = false
is_some (some a) = true

-- The section once the lifecycle is known to be open and the child to be what it is.
unfoldable pub enter : Lifecycle → Lifecycle × Entry
enter s =
    if is_some s.child && not s.stopping
    then (record s { active = s.active + 1 }, admitted)
    else if s.shutdown_requested
    then (s, refused)
    else if s.starting || s.stopping
    then (s, must_wait)
    else (record s { starting = true }, must_start)

unfoldable pub begin_section : (ℕ → Bool) → Lifecycle → Lifecycle × Entry
unfolding enter living
begin_section exited s =
    if s.closed then (s, refused) else enter (record s { child = living exited s.child })

-- The section behind a startup: its child, or none where it failed.
unfoldable pub finish_start : Option ℕ → Lifecycle → Lifecycle
finish_start none s = record s { starting = false; child = none }
finish_start (some p) s = record s { starting = false; child = some p; active = s.active + 1 }

unfoldable pub end_request : ℕ → Lifecycle → Result Lifecycle
end_request now s =
    if s.active == 0
    then raise runtime_error (codes "embedding lifecycle active-request underflow")
    else ok (record s { active = s.active - 1; last_completed = now })

-- The test of `reap_if_idle` on a child: the lifecycle is busy, or not idle for long enough.
unfoldable pub keeps_child : ℕ → Lifecycle → Bool
keeps_child now s =
    not (s.active == 0) || s.starting || s.stopping || ltb now (s.last_completed + s.idle_seconds)

-- The first section of `reap_if_idle`, and the child that is to be stopped.
unfoldable pub reap_section : ℕ → Lifecycle → Option ℕ → Lifecycle × Option ℕ
unfolding keeps_child
reap_section now s none = (s, none)
reap_section now s (some p) =
    if keeps_child now s then (s, none) else (record s { stopping = true }, some p)

-- child, unless it is this one
unfoldable pub without : ℕ → Option ℕ → Option ℕ
without p none = none
without p (some q) = if q == p then none else some q

-- The last section of `reap_if_idle`, which runs whether or not the child was stopped.
unfoldable pub reap_finish : ℕ → Lifecycle → Lifecycle
unfolding without
reap_finish p s = record s { child = without p s.child; stopping = false }

unfoldable pub request_shutdown : Lifecycle → Lifecycle
request_shutdown s = record s { shutdown_requested = true }

-- The start of `shutdown`, its test, and its end, which takes the child away.
unfoldable pub close : Lifecycle → Lifecycle
close s = record s { shutdown_requested = true; closed = true }

unfoldable pub is_busy : Lifecycle → Bool
is_busy s = not (s.active == 0) || s.starting || s.stopping

unfoldable pub take_child : Lifecycle → Lifecycle × Option ℕ
take_child s = (record s { child = none }, s.child)
