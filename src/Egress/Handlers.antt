-- ===== src/Egress/Handlers.antt =====
-- egress/final_hop_proxy.py, "Proxy server": the refusal of a destination, and the handlers of
-- CONNECT and of requests that are forwarded, one function for each of their stages. The bytes
-- that a handler writes to its client are the value `Reply`.
pub mod Pinned
use private_onyx_app.Common.{
  ℕ, Bool, true, false, not, ◌&&◌, ◌||◌, List, [], ◌∷◌, ◌++◌, Option, none, some, ltb, leb, ◌==◌,
  if◌then◌else◌, length, Text, codes, text_eq, is_empty, is_space, rstrip, ends_with, decimal,
  utf8_encode, Kind, Raised, Result, ok, err, is_value_error, ◌>>=◌,
}
use private_onyx_app.Common.Actions.{◌>>>=◌, Action, pure, lift}
use private_onyx_app.Egress.Platform.{Python, Url, Settings, lower}
use private_onyx_app.Egress.Hosts.{plain_http_allowed}
use private_onyx_app.Egress.Framing.{Header, header_values, parse_request_framing, crlf}
use private_onyx_app.Egress.Head.{forwarded_headers, host_authority, render_head}
use private_onyx_app.Egress.Network.{Log, World, attempt}
use private_onyx_app.Egress.Validate.{Outcome, validate_destination}
use private_onyx_app.Egress.Socks.{Ending, Exchange, text_or_empty}
use private_onyx_app.Egress.Connect.{port_or, connect_via_upstream}

pub data Reply : Type 0 where
  -- `_write_text_response`: status, reason and body
  text_reply : ℕ → Text → Text → Reply
  -- the bare status line of a refused destination
  status_line : ℕ → Text → Reply
  -- 200, and then the two pipes
  tunnel : Exchange → Reply
  -- the origin's answer: the upstream connection, and the bytes that were written to it
  origin_response : Exchange → List ℕ → Reply

starts_with : Text → Text → Bool
starts_with [] text = true
starts_with (c ∷ word) [] = false
starts_with (c ∷ word) (d ∷ text) = c == d && starts_with word text

-- word in text
unfoldable pub contains_text : Text → Text → Bool
unfolding starts_with
contains_text word [] = starts_with word []
contains_text word (c ∷ text) = starts_with word (c ∷ text) || contains_text word text

unfoldable pub is_dns_failure : Text → Bool
unfolding contains_text
is_dns_failure reason =
    contains_text (codes "DNS resolution failed:") reason
    || ends_with (codes "DNS resolution returned no addresses") reason

-- The bytes of `_write_text_response`.
unfoldable pub text_response : ℕ → Text → Text → List ℕ
text_response status reason body =
    let body_bytes = utf8_encode (rstrip is_space body ++ (10 ∷ [])) in
    utf8_encode (
      codes "HTTP/1.1 "
      ++ (decimal status
          ++ (32
              ∷ (reason
                  ++ (crlf
                      ++ (codes "Content-Type: text/plain; charset=utf-8"
                          ++ (crlf
                              ++ (codes "Content-Length: "
                                  ++ (decimal (length body_bytes)
                                      ++ (crlf
                                          ++ (codes "Connection: close" ++ (crlf ++ crlf))))))))))))
    ++ body_bytes

abbrev pub http_url_block_message : Text
http_url_block_message =
    codes "HTTP URLs are disabled by EGRESS_ALLOW_HTTP_URLS=false. Use an https:// URL instead."

-- The port of a parsed authority, with the message of a bad one.
authority_of : ℕ → Url → Result (Text × ℕ)
unfolding port_or text_or_empty
authority_of default_port parsed =
    parsed.port >>= λ port. ok (text_or_empty parsed.hostname, port_or default_port port)

unfoldable pub parse_authority : Python → Text → ℕ → Result (Text × ℕ)
unfolding authority_of
parse_authority py authority default_port =
    py.urlparse (codes "//" ++ authority) >>= authority_of default_port

module _ (py : Python) (cfg : Settings) (world : World) where
  -- What `_reject_blocked_destination` makes of an outcome: the refusal, if there is one, and the
  -- addresses. An empty reason is none.
  unfoldable pub rejected : Outcome → Option Reply × List Text
  unfolding is_dns_failure
  rejected (none, validated_ips) = (none, validated_ips)
  rejected (some reason, validated_ips) =
      if is_empty reason
      then (none, validated_ips)
      else if is_dns_failure reason
      then (some (status_line 502 (codes "Bad Gateway")), [])
      else (some (status_line 403 (codes "Forbidden")), [])

  unfoldable pub reject_blocked_destination : Text → ℕ → Action Log (Option Reply × List Text)
  unfolding rejected
  reject_blocked_destination host port =
      validate_destination py cfg world host port >>>= λ outcome. pure (rejected outcome)

  module _ (peer : Log → List ℕ × Ending) where
    -- The tunnel, or the answer to any exception.
    unfoldable pub establish : Text → ℕ → List Text → Action Log Reply
    establish host port validated_ips =
        attempt
          (connect_via_upstream py cfg world peer host port validated_ips >>>= λ upstream.
            pure (tunnel upstream))
          (λ kind. true)
          (λ e. pure (
            text_reply 502 (codes "Bad Gateway")
              (codes "Failed to establish upstream tunnel: " ++ e.message)))

    unfoldable pub connect_to : Text → ℕ → Option Reply × List Text → Action Log Reply
    unfolding establish
    connect_to host port (some refusal, validated_ips) = pure refusal
    connect_to host port (none, validated_ips) =
        if port == 80 && not (plain_http_allowed py cfg host port validated_ips)
        then pure (text_reply 403 (codes "Forbidden") http_url_block_message)
        else establish host port validated_ips

    unfoldable pub connect_authority : Result (Text × ℕ) → Action Log Reply
    unfolding reject_blocked_destination connect_to
    connect_authority (err e) =
        if is_value_error e.kind
        then pure (text_reply 400 (codes "Bad Request") (codes "Invalid CONNECT target."))
        else lift (err e)
    connect_authority (ok (host, port)) =
        reject_blocked_destination host port >>>= connect_to host port

    unfoldable pub handle_connect : Text → Action Log Reply
    unfolding connect_authority parse_authority
    handle_connect target = connect_authority (parse_authority py target 443)
