-- ===== src/Egress/Server.antt =====
-- egress/final_hop_proxy.py, `_allowed_client_reason` and `handle_request`: which clients are
-- served, how the head of a request is read, and which handler it goes to. The client's stream is
-- the bytes that it sends and whether it then stalls, until a time limit ends the wait, or ends.
pub mod Guarded
use private_onyx_app.Egress.Socks.{Ending}
use private_onyx_app.Common.{
  ℕ, zero, suc, Bool, true, false, not, ◌&&◌, ◌||◌, List, [], ◌∷◌, ◌++◌, Option, none, some, ltb,
  ◌==◌, if◌then◌else◌, length, Text, codes, text_eq, member, is_empty, is_space, strip, words,
  ends_with, Kind, Raised, Result, ok, err, raise, value_error, timeout_error, is_os_error,
  is_value_error, ◌>>=◌,
}
use private_onyx_app.Common.Actions.{◌>>>=◌, Action, pure, throw, lift}
use private_onyx_app.Egress.Address.{Ip, is_loopback}
use private_onyx_app.Egress.Platform.{Python, Settings, parse_ip_literal, upper}
use private_onyx_app.Egress.Framing.{
  Header, crlf, split_first, parse_header_line, parse_request_framing,
}
use private_onyx_app.Egress.Body.{split_line}
use private_onyx_app.Egress.Network.{Log, World, attempt, resolve_system_host}
use private_onyx_app.Egress.Handlers.{Reply, text_reply, handle_connect}
use private_onyx_app.Egress.Forward.{handle_forward_http}

pub record Client : Type 0 where
  -- the address of the peer, if it has one
  pub address : Option Text
  pub inbox : List ℕ
  pub stalls : Bool

pub record Request : Type 0 where
  pub method : Text
  pub target : Text
  pub headers : List Header
  pub body : List ℕ

-- What the head of a request is read as.
pub data Incoming : Type 0 where
  request : Request → Incoming
  answered : Reply → Incoming
  dropped : Incoming

pub data Fields : Type 0 where
  fields : List Header → List ℕ → Fields
  bad_fields : Text → Fields

-- `_write_text_response` with status 400
abbrev pub bad_request : Text → Reply
bad_request message = text_reply 400 (codes "Bad Request") message

-- readline, under a time limit: the line and the bytes behind it
unfoldable pub read_client_line : Bool → List ℕ → Result (List ℕ × List ℕ)
unfolding split_line
read_client_line stalls inbox =
    let (line, rest) = split_line inbox in
    if ltb 65537 (length line)
    then raise value_error (codes "Separator is found, but chunk is longer than limit")
    else if stalls && not (ends_with (10 ∷ []) line)
    then raise timeout_error []
    else ok (line, rest)

abbrev pub with_field : Header → Fields → Fields
with_field header (fields headers body) = fields (header ∷ headers) body
with_field header (bad_fields message) = bad_fields message

module _ (py : Python) where
  -- A header line, with the fields behind it.
  unfoldable pub add_header : Result Header → Result Fields → Result Fields
  add_header (ok header) more = more >>= λ found. ok (with_field header found)
  add_header (err e) more = if is_value_error e.kind then ok (bad_fields e.message) else err e

  -- The loop over header lines. Each takes a byte at least.
  unfoldable pub read_fields : ℕ → Bool → List ℕ → Result Fields
  unfolding read_client_line add_header is_empty text_eq
  read_fields zero stalls inbox = ok (bad_fields (codes "HTTP headers ended prematurely."))
  read_fields (suc fuel) stalls inbox = read_client_line stalls inbox >>= λ (line, rest).
      let more = read_fields fuel stalls rest in
      if is_empty line
      then ok (bad_fields (codes "HTTP headers ended prematurely."))
      else if text_eq line crlf
      then ok (fields [] rest)
      else add_header (parse_header_line py line) more

  -- The framing is checked before the request is handled.
  unfoldable pub check_framing : Text → Text → Fields → Result Incoming
  check_framing method target (bad_fields message) = ok (answered (bad_request message))
  check_framing method target (fields headers body) = elim (parse_request_framing py headers) [
    | ok framing ↦
        ok (request (record { method = method; target = target; headers = headers; body = body }))
    | err e ↦ if is_value_error e.kind then ok (answered (bad_request e.message)) else err e
  ]

  unfoldable pub is_version : Text → Bool
  is_version version = text_eq version (codes "HTTP/1.0") || text_eq version (codes "HTTP/1.1")

  -- The words of the request line, and the bytes behind it.
  unfoldable pub read_parts : Bool → List ℕ → List Text → Result Incoming
  unfolding read_fields check_framing is_version upper
  read_parts stalls inbox (method ∷ (target ∷ (version ∷ []))) =
      if is_version version
      then read_fields (suc (length inbox)) stalls inbox >>= check_framing (upper py method) target
      else ok (answered (bad_request (codes "Bad proxy request.")))
  read_parts stalls inbox _ = ok (answered (bad_request (codes "Bad proxy request.")))

  unfoldable pub read_request : Bool → List ℕ → Result Incoming
  unfolding read_client_line read_parts strip words
  read_request stalls inbox = read_client_line stalls inbox >>= λ (line, rest).
      if is_empty line
      then ok dropped
      else if not (ends_with crlf line)
      then ok (answered (bad_request (codes "HTTP request line must end with CRLF.")))
      else let request_str = strip is_space (py.utf8_decode line) in
        if is_empty request_str then ok dropped else read_parts stalls rest (words request_str)

abbrev pub not_allowed : Reply
not_allowed =
    text_reply 405 (codes "Method Not Allowed")
      (codes "HTTP proxy method is not allowed by this wrapper.")

-- The methods that are forwarded.
abbrev pub forwarded_methods : List Text
forwarded_methods =
    codes "GET"
    ∷ codes "HEAD"
    ∷ codes "POST"
    ∷ codes "PUT"
    ∷ codes "PATCH"
    ∷ codes "DELETE"
    ∷ codes "OPTIONS"
    ∷ []

module _ (py : Python) (cfg : Settings) (world : World) where
  -- The addresses of the allowed clients; a name that is not resolved has none.
  unfoldable pub allowed_addresses : List Text → Action Log (List Text)
  allowed_addresses [] = pure []
  allowed_addresses (host ∷ hosts) =
      attempt (resolve_system_host py cfg world host cfg.listen_port) is_os_error (λ e. pure [])
      >>>= λ ips. allowed_addresses hosts >>>= λ more. pure (ips ++ more)

  unfoldable pub check_bridge : Text → List Text → Action Log (Option Text)
  unfolding allowed_addresses member
  check_bridge address [] = pure (some (codes "no allowed bridge service configured"))
  check_bridge address (host ∷ hosts) = allowed_addresses (host ∷ hosts) >>>= λ allowed_ips. pure (
      if member address allowed_ips
      then none
      else some (codes "client is not an allowed bridge service"))

  unfoldable pub check_client : Text → Option Ip → Action Log (Option Text)
  unfolding check_bridge
  check_client address none = pure (some (codes "invalid client address"))
  check_client address (some ip) =
      if is_loopback ip then pure none else check_bridge address cfg.allowed_client_hosts

  unfoldable pub allowed_client_reason : Option Text → Action Log (Option Text)
  unfolding check_client split_first
  allowed_client_reason none = pure (some (codes "missing client address"))
  allowed_client_reason (some peername) =
      let address = (split_first b'%' peername).0 in
      check_client address (parse_ip_literal py address)

  module _ (peer : Log → List ℕ × Ending) (handshake : Log → Text → Result (Unit {0})) where
    unfoldable pub dispatch : Request → Action Log Reply
    unfolding handle_connect handle_forward_http
    dispatch r =
        if text_eq r.method (codes "CONNECT")
        then handle_connect py cfg world peer r.target
        else if member r.method forwarded_methods
        then handle_forward_http py cfg world peer handshake r.method r.target r.headers r.body
        else pure not_allowed

    unfoldable pub handle_incoming : Incoming → Action Log (Option Reply)
    unfolding dispatch
    handle_incoming (request r) = dispatch r >>>= λ reply. pure (some reply)
    handle_incoming (answered reply) = pure (some reply)
    handle_incoming dropped = pure none

    unfoldable pub serve : Client → Option Text → Action Log (Option Reply)
    unfolding handle_incoming read_request
    serve client (some reason) = pure (
        some (
          text_reply 403 (codes "Forbidden")
            (codes "This policy listener accepts only its configured bridge.")))
    serve client none = lift (read_request py client.stalls client.inbox) >>>= handle_incoming

    -- The reply, or none where the connection is closed without one.
    unfoldable pub handle_request : Client → Action Log (Option Reply)
    unfolding allowed_client_reason serve
    handle_request client =
        attempt (allowed_client_reason client.address >>>= serve client) (λ kind. true)
          (λ e. pure none)
