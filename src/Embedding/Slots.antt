-- ===== src/Embedding/Slots.antt =====
-- embedserv/idle_embedding_proxy.py, the slots of `ProxyServer`: a connection is handled only while a slot
-- of the bounded semaphore is free, and the thread that handles it gives the slot back.
use private_onyx_app.Common.{
  refl, if-elim, arith, ◌∷◌, true, codes, value_error, [], err, raise, ◌≡◌, ◌>>=◌, ◌-◌, ltb, false,
  ◌+◌, ◌==◌, List, ok, if◌then◌else◌, Bool, ℕ, Result,
}

-- The free slots, and the threads that handle a connection.
pub record Server : Type 0 where
  pub slots : ℕ
  pub handling : ℕ

unfoldable pub new_server : ℕ → Result Server
new_server max_active_connections =
    if max_active_connections == 0
    then raise value_error (codes "max_active_connections must be positive")
    else ok (record { slots = max_active_connections; handling = 0 })

pub data Event : Type 0 where
  -- a connection comes in, and its thread can be started or not
  connect : Result (Unit {0}) → Event
  -- a thread ends
  end_thread : Event

-- `process_request`, and whether the connection was shut down at once.
unfoldable pub process_request : Result (Unit {0}) → Server → Result Bool × Server
process_request thread s = if s.slots == 0 then (ok true, s) else started thread
  where
    started : Result (Unit {0}) → Result Bool × Server
    started (ok u) = (ok false, record { slots = s.slots - 1; handling = s.handling + 1 })
    started (err e) = (err e, s)

-- The end of `process_request_thread`. A release beyond the bound raises.
unfoldable pub release : ℕ → Server → Result Server
release max_active_connections s =
    if ltb s.slots max_active_connections
    then ok (record { slots = s.slots + 1; handling = s.handling - 1 })
    else raise value_error (codes "Semaphore released too many times")

unfoldable pub serve : ℕ → List Event → Server → Result Server
unfolding process_request release
serve bound [] s = ok s
serve bound (connect thread ∷ events) s = serve bound events (process_request thread s).1
serve bound (end_thread ∷ events) s =
    if s.handling == 0
    then serve bound events s
    else release bound s >>= (λ t. serve bound events t)

process_request-bounded :
    (bound : ℕ) (thread : Result (Unit {0})) (s : Server)
    → s.slots + s.handling ≡ bound
    → (process_request thread s).1.slots + (process_request thread s).1.handling ≡ bound
unfolding process_request
process_request-bounded bound (ok u) s h = ground arith
process_request-bounded bound (err e) s h = ground arith

release-goes_on :
    (bound : ℕ) (events : List Event) (s : Server)
    → s.slots + s.handling ≡ bound
    → (s.handling == 0) ≡ false
    → ((t : Server)
        → t.slots + t.handling ≡ bound
        → (u : Server) × (serve bound events t ≡ ok u) × (u.slots + u.handling ≡ bound))
    → (u : Server) × ((release bound s >>= (λ t. serve bound events t)) ≡ ok u)
      × (u.slots + u.handling ≡ bound)
unfolding release
release-goes_on bound events s h e later =
    if-elim
      (λ r.
        (u : Server) × ((r >>= (λ t. serve bound events t)) ≡ ok u)
        × (u.slots + u.handling ≡ bound))
      (ltb s.slots bound)
      (λ e'.
        later (record { slots = s.slots + 1; handling = s.handling - 1 }) (ground (arith, e, h)))
      (λ e'. absurd (ground (arith, e, e', h)))

-- Whatever connects and ends, no release exceeds the bound of the semaphore, and the slots that are free
-- and those in use make up the bound: at most so many connections are handled at once.
pub serve-bounded :
    (bound : ℕ) (events : List Event) (s : Server)
    → s.slots + s.handling ≡ bound
    → (t : Server) × (serve bound events s ≡ ok t) × (t.slots + t.handling ≡ bound)
unfolding serve
serve-bounded bound [] s h = (s, refl, h)
serve-bounded bound (connect thread ∷ events) s h =
    serve-bounded bound events _ (process_request-bounded bound thread s h)
serve-bounded bound (end_thread ∷ events) s h =
    if-elim (λ r. (t : Server) × (r ≡ ok t) × (t.slots + t.handling ≡ bound)) (s.handling == 0)
      (λ e. serve-bounded bound events s h)
      (λ e. release-goes_on bound events s h e (λ t. serve-bounded bound events t))
