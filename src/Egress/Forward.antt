-- ===== src/Egress/Forward.antt =====
-- egress/final_hop_proxy.py, `_handle_forward_http`: a request that is forwarded, one function for
-- each stage of the handler. The client's stream is the bytes that follow the head of its request;
-- `handshake` is the outcome of a TLS handshake with the origin.
pub mod Safe
use private_onyx_app.Common.{
  ℕ, Bool, true, false, not, ◌&&◌, ◌||◌, List, [], ◌∷◌, ◌++◌, Option, none, some, ltb, leb, ◌==◌,
  if◌then◌else◌, Text, codes, text_eq, is_empty, decimal, utf8_encode, Kind, Raised, Result, ok,
  err, value_error, is_value_error, ◌>>=◌,
}
use private_onyx_app.Common.Actions.{◌>>>=◌, Action, pure, throw, lift}
use private_onyx_app.Egress.Platform.{Python, Url, Settings, lower}
use private_onyx_app.Egress.Hosts.{plain_http_allowed}
use private_onyx_app.Egress.Framing.{Header, header_values, parse_request_framing}
use private_onyx_app.Egress.Head.{forwarded_headers, host_authority, render_head}
use private_onyx_app.Egress.Body.{Streams, forward_request_body}
use private_onyx_app.Egress.Network.{Log, World, attempt}
use private_onyx_app.Egress.Socks.{Ending, Exchange, has_text, text_or_empty}
use private_onyx_app.Egress.Connect.{
  ProxyUrl, port_or, is_http_scheme, is_socks_scheme, parse_proxy_url, basic_credentials,
  uses_direct_role, open_validated_direct_connection, open_http_proxy_connection,
  connect_via_socks5, connect_via_upstream,
}
use private_onyx_app.Egress.Handlers.{
  Reply, text_reply, origin_response, http_url_block_message, parse_authority,
  reject_blocked_destination,
}

pub record Target : Type 0 where
  pub host : Text
  pub port : ℕ
  pub use_tls : Bool
  pub path : Text

pub data Parsed : Type 0 where
  good : Target → Parsed
  bad : Text → Parsed

-- text or "/"
or_slash : Text → Text
or_slash [] = codes "/"
or_slash (c ∷ text) = c ∷ text

with_query : Text → Text → Text
with_query path [] = path
with_query path (c ∷ query) = path ++ (b'?' ∷ (c ∷ query))

-- A ValueError of the parser becomes a bad request.
unfoldable pub or_bad : {A : Type 0} → Text → Result A → (A → Parsed) → Result Parsed
or_bad message (ok a) f = ok (f a)
or_bad message (err e) f = if is_value_error e.kind then ok (bad message) else err e

module _ (py : Python) where
  unfoldable pub absolute_target : Url → Result Parsed
  unfolding or_slash with_query or_bad port_or is_http_scheme text_or_empty is_empty text_eq
  absolute_target parsed =
      let scheme = lower py parsed.scheme in
      let use_tls = text_eq scheme (codes "https") in
      if not (is_http_scheme scheme) || is_empty parsed.netloc
      then ok (bad (codes "Absolute-form proxy targets must use http or https."))
      else or_bad (codes "Invalid HTTP proxy target port.") parsed.port (λ port. good (record {
        host = text_or_empty parsed.hostname;
        port = port_or (if use_tls then 443 else 80) port;
        use_tls = use_tls;
        path = with_query (or_slash parsed.path) parsed.query;
      }))

  unfoldable pub origin_target : Text → List Text → Result Parsed
  unfolding or_slash or_bad
  origin_target target (host_header ∷ []) =
      or_bad (codes "Invalid HTTP proxy target.") (parse_authority py host_header 80)
        (λ (host, port).
          good (record { host = host; port = port; use_tls = false; path = or_slash target }))
  origin_target target _ =
      ok (bad (codes "Origin-form proxy requests require exactly one Host header."))

  unfoldable pub forward_target : Text → List Header → Result Parsed
  unfolding absolute_target origin_target header_values is_empty
  forward_target target headers = py.urlparse target >>= λ parsed.
      if is_empty parsed.scheme
      then origin_target target (header_values headers (codes "host"))
      else absolute_target parsed

  -- `_proxy_authorization_header`, where a proxy URL is configured.
  unfoldable pub proxy_authorization : ProxyUrl → Option Text
  unfolding is_http_scheme has_text
  proxy_authorization proxy =
      if not (is_http_scheme proxy.scheme)
        || not (has_text proxy.username && has_text proxy.password)
      then none
      else some (basic_credentials py proxy.username proxy.password)

  unfoldable pub proxy_authorization_header : Settings → Result (Option Text)
  unfolding proxy_authorization is_empty
  proxy_authorization_header cfg =
      if is_empty cfg.upstream_proxy
      then ok none
      else parse_proxy_url py cfg.upstream_proxy >>= λ proxy. ok (proxy_authorization proxy)

module _ (py : Python) (cfg : Settings) (world : World) (peer : Log → List ℕ × Ending)
    (handshake : Log → Text → Result (Unit {0})) where
  -- A connection on which the origin form is spoken.
  unfoldable pub origin_form : Action Log Exchange → Action Log (Exchange × Bool)
  origin_form m = m >>>= λ upstream. pure (upstream, false)

  unfoldable pub open_plain_via_proxy : Text → ℕ → ProxyUrl → Action Log (Exchange × Bool)
  unfolding origin_form is_http_scheme is_socks_scheme
  open_plain_via_proxy host port proxy =
      if is_http_scheme proxy.scheme
      then (open_http_proxy_connection py cfg world peer proxy.host proxy.port proxy.scheme
          >>>= λ upstream. pure (upstream, true))
      else if is_socks_scheme proxy.scheme
      then origin_form (connect_via_socks5 py cfg world peer proxy host port)
      else throw value_error (codes "Unsupported proxy scheme: " ++ proxy.scheme)

  unfoldable pub open_plain_http_forward_connection :
      Text → ℕ → List Text → Action Log (Exchange × Bool)
  unfolding origin_form open_plain_via_proxy is_empty
  open_plain_http_forward_connection host port validated_ips =
      if uses_direct_role py cfg world peer host port validated_ips
      then origin_form (open_validated_direct_connection py cfg world peer validated_ips port)
      else if is_empty cfg.upstream_proxy && is_empty cfg.tor_socks_unix_path
      then origin_form (open_validated_direct_connection py cfg world peer validated_ips port)
      else if not (is_empty cfg.tor_socks_unix_path)
      then origin_form (connect_via_upstream py cfg world peer host port validated_ips)
      else lift (parse_proxy_url py cfg.upstream_proxy) >>>= open_plain_via_proxy host port

  -- `_open_origin_connection` with TLS
  unfoldable pub open_origin_connection : Text → ℕ → List Text → Action Log Exchange
  open_origin_connection host port validated_ips =
      connect_via_upstream py cfg world peer host port validated_ips >>>= λ upstream log.
      lift (handshake log host >>= λ u. ok upstream) log

  unfoldable pub absolute_uri : Target → Text
  unfolding decimal
  absolute_uri target =
      codes "http://" ++ (target.host ++ (b':' ∷ (decimal target.port ++ target.path)))

  -- The request target on a plain connection, and the credentials for the proxy.
  unfoldable pub request_form : Target → Exchange × Bool → Result (Exchange × (Text × Option Text))
  unfolding absolute_uri proxy_authorization_header
  request_form target (upstream, false) = ok (upstream, (target.path, none))
  request_form target (upstream, true) =
      proxy_authorization_header py cfg >>= λ auth. ok (upstream, (absolute_uri target, auth))

  unfoldable pub open_upstream : Target → List Text → Action Log (Exchange × (Text × Option Text))
  unfolding open_origin_connection open_plain_http_forward_connection request_form
  open_upstream target validated_ips =
      if target.use_tls
      then (open_origin_connection target.host target.port validated_ips >>>= λ upstream.
          pure (upstream, (target.path, none)))
      else (open_plain_http_forward_connection target.host target.port validated_ips >>>= λ found.
          lift (request_form target found))

  -- The bytes that are written upstream: the head, and then the body while it is checked.
  unfoldable pub written :
      Text
      → List Header
      → List ℕ
      → Target
      → Text
      → Option Text
      → Option ℕ × List Text
      → Result (List ℕ)
  unfolding forwarded_headers host_authority render_head forward_request_body
  written method headers body target request_target authorization (content_length, codings) =
      let head = render_head method request_target (
        forwarded_headers headers (host_authority target.host target.port target.use_tls)
          content_length codings authorization) in
      let sent =
        forward_request_body py content_length codings
          (record { inbox = body; outbox = utf8_encode head }) in
      sent.0 >>= λ u. ok sent.1.outbox

  unfoldable pub send_upstream :
      Text → List Header → List ℕ → Target → Exchange × (Text × Option Text) → Action Log Reply
  unfolding written
  send_upstream method headers body target (upstream, (request_target, authorization)) = lift (
      parse_request_framing py headers
      >>= written method headers body target request_target authorization
      >>= λ bytes. ok (origin_response upstream bytes))

  unfoldable pub forward_to :
      Text → List Header → List ℕ → Target → Option Reply × List Text → Action Log Reply
  unfolding open_upstream send_upstream plain_http_allowed
  forward_to method headers body target (some refusal, validated_ips) = pure refusal
  forward_to method headers body target (none, validated_ips) =
      if not target.use_tls && not (plain_http_allowed py cfg target.host target.port validated_ips)
      then pure (text_reply 403 (codes "Forbidden") http_url_block_message)
      else attempt
          (open_upstream target validated_ips >>>= send_upstream method headers body target)
          (λ kind. true)
          (λ e. pure (
            text_reply 502 (codes "Bad Gateway")
              (codes "HTTP proxy forwarding failed: " ++ e.message)))

  unfoldable pub forward_parsed : Text → List Header → List ℕ → Parsed → Action Log Reply
  unfolding forward_to reject_blocked_destination
  forward_parsed method headers body (bad message) =
      pure (text_reply 400 (codes "Bad Request") message)
  forward_parsed method headers body (good target) =
      reject_blocked_destination py cfg world target.host target.port
      >>>= forward_to method headers body target

  unfoldable pub handle_forward_http : Text → Text → List Header → List ℕ → Action Log Reply
  unfolding forward_target forward_parsed
  handle_forward_http method target headers body =
      lift (forward_target py target headers) >>>= forward_parsed method headers body
