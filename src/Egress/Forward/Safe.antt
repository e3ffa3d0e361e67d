-- ===== src/Egress/Forward/Safe.antt =====
-- Which connections a forwarded request leads to.
use private_onyx_app.Egress.Network.Answers.{Answers}
use private_onyx_app.Common.{ℕ, ◌≡◌, true, List, [], Option, none, some, Text, All, Result}
use private_onyx_app.Common.Actions.{Action}
use private_onyx_app.Egress.Platform.{Python, Settings, public_class}
use private_onyx_app.Egress.Framing.{Header}
use private_onyx_app.Egress.Network.{Log, World}
use private_onyx_app.Egress.Network.Sends.{
  Adds, Sends, Sends-pure, Sends-lift, Sends-if, Sends-bind, Sends-attempt,
}
use private_onyx_app.Egress.Validate.Outcomes.{IsPublic}
use private_onyx_app.Egress.Socks.{Ending, Exchange}
use private_onyx_app.Egress.Connect.{uses_direct_role}
use private_onyx_app.Egress.Handlers.{Reply}
use private_onyx_app.Egress.Handlers.Pinned.{
  IsSafeEvent, direct-Sends, unproxied, connect_via_upstream-Sends, after_validation-Sends,
}
use private_onyx_app.Egress.Forward.{
  Target, Parsed, good, bad, forward_target, origin_form, open_plain_http_forward_connection,
  open_origin_connection, open_upstream, send_upstream, forward_to, forward_parsed,
  handle_forward_http,
}

module _ (py : Python) (cfg : Settings) (world : World) (peer : Log → List ℕ × Ending)
    (handshake : Log → Text → Result (Unit {0})) (no_proxy : cfg.upstream_proxy ≡ [])
    (no_tor : cfg.tor_socks_unix_path ≡ []) where
  origin_form-Sends :
      (m : Action Log Exchange)
      → Sends (IsSafeEvent py) m
      → Sends (IsSafeEvent py) (origin_form py cfg world peer handshake m)
  unfolding origin_form
  origin_form-Sends m h = Sends-bind _ _ h (λ upstream. Sends-pure _)

  plain-Sends :
      (host : Text) (port : ℕ) (ips : List Text)
      → All (IsPublic py) ips
      → Sends
          (IsSafeEvent py)
          (open_plain_http_forward_connection py cfg world peer handshake host port ips)
  unfolding open_plain_http_forward_connection
  plain-Sends host port ips h =
      let direct = origin_form-Sends _ (direct-Sends py cfg world peer ips port h) in
      Sends-if (uses_direct_role py cfg world peer host port ips) _ _ direct
        (simp (unproxied py cfg world peer no_proxy no_tor) direct)

  origin-Sends :
      (host : Text) (port : ℕ) (ips : List Text)
      → All (IsPublic py) ips
      → Sends (IsSafeEvent py) (open_origin_connection py cfg world peer handshake host port ips)
  unfolding open_origin_connection
  origin-Sends host port ips h =
      Sends-bind _ _ (connect_via_upstream-Sends py cfg world peer no_proxy no_tor host port ips h)
        (λ upstream. record { only = λ log. Adds.same })

  open_upstream-Sends :
      (target : Target) (ips : List Text)
      → All (IsPublic py) ips
      → Sends (IsSafeEvent py) (open_upstream py cfg world peer handshake target ips)
  unfolding open_upstream
  open_upstream-Sends target ips h =
      Sends-if target.use_tls _ _
        (Sends-bind _ _ (origin-Sends target.host target.port ips h) (λ upstream. Sends-pure _))
        (Sends-bind _ _ (plain-Sends target.host target.port ips h) (λ found. Sends-lift _))

  send_upstream-Sends :
      (method : Text) (headers : List Header) (body : List ℕ) (target : Target)
      (found : Exchange × (Text × Option Text))
      → Sends
          (IsSafeEvent py)
          (send_upstream py cfg world peer handshake method headers body target found)
  unfolding send_upstream
  send_upstream-Sends method headers body target (upstream, (request_target, authorization)) =
      Sends-lift _

  forward_to-Sends :
      (method : Text) (headers : List Header) (body : List ℕ) (target : Target)
      (verdict : Option Reply × List Text)
      → All (IsPublic py) verdict.1
      → Sends
          (IsSafeEvent py)
          (forward_to py cfg world peer handshake method headers body target verdict)
  unfolding forward_to
  forward_to-Sends method headers body target (some refusal, ips) h = Sends-pure refusal
  forward_to-Sends method headers body target (none, ips) h = Sends-if _ _ _ (Sends-pure _) (
      Sends-attempt _ (λ kind. true) _
        (Sends-bind _ _ (open_upstream-Sends target ips h)
          (send_upstream-Sends method headers body target))
        (λ e. Sends-pure _))

  module _ (answers : Answers py world) (public : cfg.route_class ≡ public_class)
      (untrusted : cfg.trusted_internal_destinations ≡ []) where
    forward_parsed-Sends :
        (method : Text) (headers : List Header) (body : List ℕ) (parsed : Parsed)
        → Sends
            (IsSafeEvent py)
            (forward_parsed py cfg world peer handshake method headers body parsed)
    unfolding forward_parsed
    forward_parsed-Sends method headers body (bad message) = Sends-pure _
    forward_parsed-Sends method headers body (good target) =
        after_validation-Sends py cfg world peer no_proxy no_tor answers public untrusted
          target.host target.port
          (forward_to py cfg world peer handshake method headers body target)
          (forward_to-Sends method headers body target)

    -- On the public route without an upstream proxy or Tor, all that a forwarded request leads to, over
    -- TLS or not, are lookups and connections to public addresses, whatever its method, target, fields
    -- and body.
    pub handle_forward_http-pinned :
        (method target : Text) (headers : List Header) (body : List ℕ) (log : Log)
        → Adds
            (IsSafeEvent py)
            log
            (handle_forward_http py cfg world peer handshake method target headers body log).1
    unfolding handle_forward_http
    handle_forward_http-pinned method target headers body log =
        (Sends-bind _ _ (Sends-lift (forward_target py target headers))
            (forward_parsed-Sends method headers body)).only
          log
