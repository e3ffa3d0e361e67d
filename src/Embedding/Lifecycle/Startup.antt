-- ===== src/Embedding/Lifecycle/Startup.antt =====
-- embedserv/idle_embedding_proxy.py, the part of `begin_request` that runs outside the condition
-- variable, with `_child_healthy`: a child is launched, and polled until it serves its model. A round of
-- the loop sees whether a shutdown is requested, whether the child ended, and what the exchange
-- `GET /v1/models` gave: its status and `json.loads` of its body, or what it raised.
use private_onyx_app.Common.{
  elements, array, items_of, true, ◌==◌, is_os_error, is_value_error, any, get, codes, [], ◌≡◌,
  Elements, ◌∷◌, false, is_text, runtime_error, if◌then◌else◌, Members, Raised, none, ok, raise,
  err, some, object, Json, ℕ, List, Option, Bool, Text, Result,
}

pub record Observed : Type 0 where
  pub shutdown_requested : Bool
  pub exited : Bool
  pub models : Result (ℕ × Result Json)

unfoldable pub invalid_metadata : Result Bool
invalid_metadata = raise runtime_error (codes "MLX child returned invalid model metadata")

-- item.get("id") == self.served_model_name, for an item that is an object
unfoldable pub is_model : Text → Json → Bool
is_model name (object members) = is_text name (get (codes "id") members)
is_model name _ = false

unfoldable pub advertised : Text → Option (List Json) → Result Bool
unfolding invalid_metadata is_model
advertised name none = invalid_metadata
advertised name (some items) =
    if any (is_model name) items
    then ok true
    else raise runtime_error (codes "MLX child does not advertise the configured served model")

unfoldable pub metadata : Text → Result Json → Result Bool
unfolding invalid_metadata advertised
metadata name (err e) = if is_value_error e.kind then invalid_metadata else err e
metadata name (ok (object members)) = advertised name (items_of (get (codes "data") members))
metadata name (ok _) = invalid_metadata

unfoldable pub child_healthy : Text → Bool → Result (ℕ × Result Json) → Result Bool
unfolding metadata
child_healthy name true models = ok false
child_healthy name false (err e) = if is_os_error e.kind then ok false else err e
child_healthy name false (ok (status, body)) =
    if status == 200 then metadata name body else ok false

-- A round that ends the loop says how; the one that does not goes on to the next.
unfoldable pub ended_round : Observed → Result Bool → Option (Result (Unit {0}))
ended_round o health =
    if o.shutdown_requested
    then some (raise runtime_error (codes "MLX child startup canceled by proxy shutdown"))
    else if o.exited
    then some (raise runtime_error (codes "MLX child exited during startup"))
    else by_health health
  where
    by_health : Result Bool → Option (Result (Unit {0}))
    by_health (err e) = some (err e)
    by_health (ok true) = some (ok tt)
    by_health (ok false) = none

unfoldable pub or_later :
    Option (Result (Unit {0})) → Option (Result (Unit {0})) → Option (Result (Unit {0}))
or_later (some r) later = some r
or_later none later = later

-- The loop, on what its rounds see: none if they do not end it.
unfoldable pub startup_loop : Text → List Observed → Option (Result (Unit {0}))
unfolding ended_round or_later
startup_loop name [] = none
startup_loop name (o ∷ rounds) =
    or_later (ended_round o (child_healthy name o.exited o.models)) (startup_loop name rounds)

-- The child that was launched and the failure, as they stand behind the `try`.
pub record Startup : Type 0 where
  pub child : Option ℕ
  pub failure : Option Raised

unfoldable pub watched : ℕ → Option (Result (Unit {0})) → Option Startup
watched p none = none
watched p (some (ok u)) = some (record { child = some p; failure = none })
watched p (some (err e)) = some (record { child = some p; failure = some e })

-- The checks of the port and of `popen` come first. A startup whose rounds do not end it has no outcome.
unfoldable pub startup : Text → Result (Unit {0}) → Result ℕ → List Observed → Option Startup
unfolding watched
startup name (err e) popen rounds = some (record { child = none; failure = some e })
startup name (ok u) (err e) rounds = some (record { child = none; failure = some e })
startup name (ok u) (ok p) rounds = watched p (startup_loop name rounds)

-- What the section behind the startup publishes.
unfoldable pub published : Startup → Option ℕ
published s = only_if s.failure
  where
    only_if : Option Raised → Option ℕ
    only_if none = s.child
    only_if (some e) = none

-- A body that names the model among its data.
pub record Advertises (name : Text) (body : Json) : Type 0 where
  pub members : Members
  pub items : Elements
  pub is_object : body ≡ object members
  pub has_data : get (codes "data") members ≡ some (array items)
  pub names : any (is_model name) (elements items) ≡ true
