-- ===== src/Embedding/Handler.antt =====
-- embedserv/idle_embedding_proxy.py, `ProxyHandler` and `ProxyServer.verify_request`. What a handler does
-- is the list of its effects, in their order. `int`, `json.dumps` and the names of exception classes are
-- Python's, and so parameters, as is the bundled server's answer.
pub mod Bounded
use private_onyx_app.Egress.Address.{is_loopback, Ip}
use private_onyx_app.Common.{
  no_members, runtime_error, text, raise, true, is_runtime_error, member_of, ltb, pos, ◌==◌,
  text_eq, false, length, object, is_empty, none, negsuc, ◌||◌, ◌+◌, not, is_value_error, take,
  is_os_error, [], Bool, Json, some, ◌∷◌, ◌++◌, ◌*◌, codes, List, ℕ, Option, ℤ, ok, err,
  if◌then◌else◌, Raised, Result, Text,
}

pub record Library : Type 0 where
  pub int : Text → Result ℤ
  pub dumps : Json → List ℕ
  pub class_name : Raised → Text

-- A request, its client's address as `ip_address` reads it, and what its connection would deliver.
pub record Request : Type 0 where
  pub client : Result Ip
  pub path : Text
  pub transfer_encoding : Option Text
  pub content_length : Option Text
  pub content_type : Option Text
  pub authorization : Option Text
  pub stream : List ℕ

pub record Sent : Type 0 where
  pub content_type : Text
  pub authorization : Option Text
  pub body : List ℕ

pub record Answer : Type 0 where
  pub status : ℕ
  pub content_type : Option Text
  pub stream : List ℕ

-- What `begin_request`, the exchange, and the writes of the reply and of the report of an error give.
pub record Backend : Type 0 where
  pub begun : Result (Unit {0})
  pub answer : Sent → Result Answer
  pub reply_write : Result (Unit {0})
  pub report_write : Result (Unit {0})

pub record Reply : Type 0 where
  pub status : ℕ
  pub content_type : Text
  pub body : List ℕ

pub data Effect : Type 0 where
  -- `send_error`
  refuse : ℕ → Effect
  begun_request ended_request closed_connection : Effect
  post : Sent → Effect
  reply : Reply → Effect

abbrev pub Outcome : Type 0
Outcome = List Effect × Result (Unit {0})

abbrev pub request_path : Text
request_path = codes "/v1/embeddings"

abbrev pub max_request_bytes : ℕ
max_request_bytes = 16 * 1024 * 1024

abbrev pub max_response_bytes : ℕ
max_response_bytes = 64 * 1024 * 1024

-- The test of a client's address, of `verify_request` too.
unfoldable pub is_local : Result Ip → Bool
is_local (ok ip) = is_loopback ip
is_local (err e) = false

unfoldable pub or_default : Text → Option Text → Text
or_default t none = t
or_default t (some s) = s

-- A header whose value is empty counts as none.
unfoldable pub if_given : Option Text → Option Text
if_given none = none
if_given (some t) = if is_empty t then none else some t

unfoldable pub sent_for : Request → List ℕ → Sent
unfolding or_default if_given
sent_for r body = record {
  content_type = or_default (codes "application/json") r.content_type;
  authorization = if_given r.authorization;
  body = body;
}

-- The answer that came back, of whose body one byte more than the bound is read.
unfoldable pub relay : Backend → Result Answer → Outcome
unfolding or_default
relay b (err e) = ([], err e)
relay b (ok a) =
    let body = take (max_response_bytes + 1) a.stream in
    if ltb max_response_bytes (length body)
    then ([], raise runtime_error (codes "MLX response exceeded the supported bound"))
    else (
      reply (record {
        status = a.status;
        content_type = or_default (codes "application/json") a.content_type;
        body = body;
      })
          ∷ [],
      b.reply_write,
    )

-- try: the one forward of the request
unfoldable pub forward : Backend → Sent → Result (Unit {0}) → Outcome
unfolding relay
forward b sent (err e) = ([], err e)
forward b sent (ok u) =
    let (effects, r) = relay b (b.answer sent) in (begun_request ∷ post sent ∷ effects, r)

unfoldable pub report : Library → Raised → Reply
report lib e =
    let message = codes "local MLX embedding backend unavailable: " ++ lib.class_name e in
    record {
      status = 503;
      content_type = codes "application/json";
      body = lib.dumps (
          object (
            member_of (codes "error")
              (object (member_of (codes "message") (text message) no_members)) no_members));
    }

-- except (OSError, RuntimeError, TimeoutError)
unfoldable pub reported : Library → Backend → Outcome → Outcome
unfolding report
reported lib b (effects, ok u) = (effects, ok u)
reported lib b (effects, err e) =
    if is_os_error e.kind || is_runtime_error e.kind
    then (effects ++ (reply (report lib e) ∷ []), b.report_write)
    else (effects, err e)

-- finally: nothing is to be undone where `begin_request` raised
unfoldable pub finished : Result (Unit {0}) → Outcome → Outcome
finished (err e) outcome = outcome
finished (ok u) (effects, r) = (effects ++ (closed_connection ∷ ended_request ∷ []), r)

unfoldable pub exchange : Library → Backend → Sent → Outcome
unfolding forward reported finished
exchange lib b sent = finished b.begun (reported lib b (forward b sent b.begun))

unfoldable pub refused : ℕ → Outcome
refused status = (refuse status ∷ [], ok tt)

-- The body, which must be as long as it was said to be.
unfoldable pub with_length : Library → Backend → Request → ℕ → Outcome
unfolding exchange refused sent_for
with_length lib b r n =
    let body = take n r.stream in
    if length body == n then exchange lib b (sent_for r body) else refused 400

unfoldable pub with_bound : Library → Backend → Request → Result ℤ → Outcome
unfolding with_length refused
with_bound lib b r (err e) = if is_value_error e.kind then refused 411 else ([], err e)
with_bound lib b r (ok (negsuc n)) = refused 413
with_bound lib b r (ok (pos n)) =
    if n == 0 || ltb max_request_bytes n then refused 413 else with_length lib b r n

unfoldable pub is_given : Option Text → Bool
is_given none = false
is_given (some t) = true

unfoldable pub do_post : Library → Backend → Request → Outcome
unfolding with_bound refused is_local or_default is_given
do_post lib b r =
    if not (is_local r.client)
    then refused 403
    else if not (text_eq r.path request_path)
    then refused 404
    else if is_given r.transfer_encoding
    then refused 400
    else with_bound lib b r (lib.int (or_default [] r.content_length))

unfoldable pub do_get : Request → Outcome
unfolding refused is_local
do_get r = if is_local r.client then refused 404 else refused 403
