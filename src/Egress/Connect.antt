-- ===== src/Egress/Connect.antt =====
-- egress/final_hop_proxy.py, "Upstream proxy connection helpers": the configuration of the upstream
-- proxy, and the connections to validated addresses, to a proxy, and through it. A connection that
-- opens is an `Exchange` with the bytes that its peer will send, which `peer` gives for a history.
-- A peer that falls silent is told from one that ends only where the code sets a time limit.
pub mod Configured
use private_onyx_app.Common.{
  ends_with, ℕ, zero, suc, Bool, true, false, not, ◌&&◌, ◌||◌, List, [], ◌∷◌, ◌++◌, Option, none,
  some, ltb, leb, if◌then◌else◌, length, Text, codes, text_eq, is_empty, is_space, strip, words,
  join, decimal, utf8_encode, Result, ok, err, raise, require, value_error, runtime_error,
  connection_error, is_os_error, is_value_error, ◌>>=◌, ◌>>◌,
}
use private_onyx_app.Common.Actions.{◌>>>=◌, Action, pure, throw, lift, bind}
use private_onyx_app.Egress.Platform.{Python, Url, Settings, is_host_class, lower}
use private_onyx_app.Egress.Hosts.{
  is_trusted_internal_destination, is_configured_local_embedding_destination,
  is_allowed_exact_host_destination, all_rfc1918,
}
use private_onyx_app.Egress.Framing.{crlf}
use private_onyx_app.Egress.Body.{split_line}
use private_onyx_app.Egress.Network.{Log, Event, tcp_connect, unix_connect, World, perform, attempt}
use private_onyx_app.Egress.Validate.{resolve_configured_endpoint}
use private_onyx_app.Egress.Socks.{
  resets, cut_short, Ending, Exchange, write, fail, has_text, text_or_empty, socks5_connect,
}

pub record ProxyUrl : Type 0 where
  pub scheme : Text
  pub host : Text
  pub port : ℕ
  pub username : Option Text
  pub password : Option Text

-- default_ports.get(scheme, 0)
unfoldable pub default_port : Text → ℕ
unfolding text_eq
default_port scheme =
    if text_eq scheme (codes "http")
    then 80
    else if text_eq scheme (codes "https")
    then 443
    else if text_eq scheme (codes "socks5") || text_eq scheme (codes "socks5h")
    then 1080
    else 0

unfoldable pub port_or : ℕ → Option ℕ → ℕ
port_or default none = default
port_or default (some port) = port

unfoldable pub is_socks_scheme : Text → Bool
is_socks_scheme scheme = text_eq scheme (codes "socks5") || text_eq scheme (codes "socks5h")

unfoldable pub is_http_scheme : Text → Bool
is_http_scheme scheme = text_eq scheme (codes "http") || text_eq scheme (codes "https")

unquoted : Python → Option Text → Option Text
unquoted py none = none
unquoted py (some t) = some (py.unquote t)

unfoldable pub proxy_of : Python → Url → Result ProxyUrl
unfolding unquoted default_port port_or text_or_empty
proxy_of py parsed = do
  let scheme = lower py parsed.scheme
  parsed_port ← parsed.port
  ok (record {
    scheme = scheme;
    host = text_or_empty parsed.hostname;
    port = port_or (default_port scheme) parsed_port;
    username = unquoted py parsed.username;
    password = unquoted py parsed.password;
  })

unfoldable pub parse_proxy_url : Python → Text → Result ProxyUrl
unfolding proxy_of
parse_proxy_url py proxy_url = py.urlparse proxy_url >>= proxy_of py

unfoldable pub same_presence : Option Text → Option Text → Bool
same_presence none none = true
same_presence (some s) (some t) = true
same_presence none (some t) = false
same_presence (some s) none = false

unfoldable pub fits_socks : Option Text → Option Text → Bool
unfolding text_or_empty
fits_socks none password = true
fits_socks (some username) password =
    leb (length (utf8_encode username)) 255
    && leb (length (utf8_encode (text_or_empty password))) 255

-- The checks on a URL that was parsed.
unfoldable pub check_proxy : Url → ProxyUrl → Result (Unit {0})
unfolding same_presence fits_socks is_socks_scheme is_http_scheme is_empty text_eq
check_proxy parsed proxy = do
  require (is_http_scheme proxy.scheme || is_socks_scheme proxy.scheme) runtime_error
      (codes "EGRESS_UPSTREAM_PROXY_URL must use http, https, socks5, or socks5h")
  require (not (is_empty proxy.host)) runtime_error
      (codes "EGRESS_UPSTREAM_PROXY_URL must include a hostname")
  require (ltb 0 proxy.port && leb proxy.port 65535) runtime_error
      (codes "EGRESS_UPSTREAM_PROXY_URL has an invalid port")
  require (is_empty parsed.query && is_empty parsed.fragment && is_empty parsed.params)
      runtime_error
      (codes "EGRESS_UPSTREAM_PROXY_URL must not include params, a query, or a fragment")
  require (is_empty parsed.path || text_eq parsed.path (codes "/")) runtime_error
      (codes "EGRESS_UPSTREAM_PROXY_URL must not include a path")
  require (same_presence proxy.username proxy.password) runtime_error
      (codes "EGRESS_UPSTREAM_PROXY_URL must provide both username and password")
  require (not (is_socks_scheme proxy.scheme) || fits_socks proxy.username proxy.password)
      runtime_error (codes "SOCKS5 proxy credentials must be at most 255 bytes each")

-- A ValueError of the parser becomes a RuntimeError.
unfoldable pub invalid_url : {A : Type 0} → Result A → Result A
invalid_url (ok a) = ok a
invalid_url (err e) =
    if is_value_error e.kind
    then raise runtime_error (codes "Invalid EGRESS_UPSTREAM_PROXY_URL: " ++ e.message)
    else err e

unfoldable pub validate_upstream_proxy_config : Python → Settings → Result (Unit {0})
unfolding check_proxy invalid_url parse_proxy_url is_empty
validate_upstream_proxy_config py cfg =
    if not (is_empty cfg.tor_socks_unix_path) && not (is_empty cfg.upstream_proxy)
    then raise runtime_error
        (codes "native Tor egress and EGRESS_UPSTREAM_PROXY_URL are mutually exclusive")
    else if is_empty cfg.upstream_proxy
    then ok tt
    else invalid_url (py.urlparse cfg.upstream_proxy) >>= λ parsed.
        invalid_url (parse_proxy_url py cfg.upstream_proxy) >>= check_proxy parsed

is_reset : Ending → Bool
is_reset resets = true
is_reset _ = false

-- StreamReader.readline on a connection to a proxy
unfoldable pub read_reply_line : Action Exchange (List ℕ)
unfolding split_line is_reset fail cut_short ends_with
read_reply_line s =
    let (line, rest) = split_line s.inbox in
    if ltb 65537 (length line)
    then throw value_error (codes "Separator is found, but chunk is longer than limit")
        (record s { inbox = rest })
    else if is_reset s.ending && not (ends_with (10 ∷ []) line)
    then fail (cut_short s.ending) (record s { inbox = rest })
    else (ok line, record s { inbox = rest })

unfoldable pub second_is : Text → List Text → Bool
second_is t (first ∷ (second ∷ rest)) = text_eq second t
second_is t _ = false

-- The rest of the reply's head. Each line takes a byte at least.
unfoldable pub skip_reply_headers : ℕ → Action Exchange (Unit {0})
unfolding read_reply_line
skip_reply_headers zero = pure tt
skip_reply_headers (suc fuel) = read_reply_line >>>= λ line.
    if is_empty line || text_eq line crlf then pure tt else skip_reply_headers fuel

module _ (py : Python) where
  unfoldable pub basic_credentials : Option Text → Option Text → Text
  unfolding text_or_empty
  basic_credentials username password =
      codes "Basic "
      ++ py.b64encode (utf8_encode (text_or_empty username ++ (b':' ∷ text_or_empty password)))

  unfoldable pub connect_request : Text → ℕ → Option Text → Option Text → Text
  unfolding basic_credentials has_text decimal
  connect_request host port username password =
      let authority = host ++ (b':' ∷ decimal port) in
      codes "CONNECT "
      ++ (authority
          ++ (codes " HTTP/1.1"
              ++ (crlf
                  ++ (codes "Host: "
                      ++ (authority
                          ++ (crlf
                              ++ ((if has_text username && has_text password
                                    then codes "Proxy-Authorization: "
                                      ++ (basic_credentials username password ++ crlf)
                                    else [])
                                  ++ crlf)))))))

  unfoldable pub check_status_line : List ℕ → Action Exchange (Unit {0})
  unfolding fail second_is skip_reply_headers
  check_status_line [] s = fail (codes "HTTP CONNECT: empty response from proxy") s
  check_status_line (b ∷ line) s =
      if second_is (codes "200") (words (py.utf8_decode (b ∷ line)))
      then skip_reply_headers (suc (length s.inbox)) s
      else fail (codes "HTTP CONNECT failed: " ++ strip is_space (py.utf8_decode (b ∷ line))) s

  -- The exchange of `_connect_via_http_connect` on an open connection.
  unfoldable pub http_connect : Text → ℕ → Option Text → Option Text → Action Exchange (Unit {0})
  unfolding write connect_request read_reply_line check_status_line
  http_connect host port username password =
      write (utf8_encode (connect_request host port username password)) >>>= λ u.
      read_reply_line >>>= check_status_line

module _ (py : Python) (cfg : Settings) (world : World) (peer : Log → List ℕ × Ending) where
  abbrev pub opened : List ℕ × Ending → Exchange
  opened (inbox, ending) = record { inbox = inbox; ending = ending; outbox = []; closed = false }

  -- A connection that opens, or the exception of one that does not.
  unfoldable pub open_stream : Event → (Log → Result (Unit {0})) → Action Log Exchange
  open_stream event answer = perform event answer >>>= λ u log. (ok (opened (peer log)), log)

  -- An exchange on a connection that is open.
  unfoldable pub on_stream : Action Exchange (Unit {0}) → Exchange → Action Log Exchange
  on_stream exchange s = lift (exchange s).0 >>>= λ u. pure (exchange s).1

  -- The loops over addresses: the first that opens.
  unfoldable pub try_addresses :
      (Text → Action Log Exchange) → Text → List Text → List Text → Action Log Exchange
  unfolding join
  try_addresses open_one message failures [] =
      throw connection_error (message ++ join (codes "; ") failures)
  try_addresses open_one message failures (ip ∷ ips) = attempt (open_one ip) is_os_error (λ exc.
      try_addresses open_one message (failures ++ ((ip ++ (codes ": " ++ exc.message)) ∷ [])) ips)

  unfoldable pub open_direct : ℕ → Text → Action Log Exchange
  unfolding open_stream
  open_direct port ip = open_stream (tcp_connect ip port false) (λ log. world.connects log ip port)

  unfoldable pub open_validated_direct_connection : List Text → ℕ → Action Log Exchange
  unfolding try_addresses open_direct
  open_validated_direct_connection [] port =
      throw connection_error (codes "direct connection has no validated destination addresses")
  open_validated_direct_connection (ip ∷ ips) port =
      try_addresses (open_direct port) (codes "all validated destination addresses failed: ") []
        (ip ∷ ips)

  unfoldable pub open_http_proxy_connection : Text → ℕ → Text → Action Log Exchange
  unfolding try_addresses open_stream
  open_http_proxy_connection host port scheme =
      resolve_configured_endpoint py cfg world host port
        (codes "configured upstream proxy endpoint")
      >>>= try_addresses
          (λ ip.
            open_stream (tcp_connect ip port (text_eq scheme (codes "https")))
              (λ log. world.connects log ip port))
          (codes "all upstream proxy addresses failed: ") []

  unfoldable pub connect_via_socks5 : ProxyUrl → Text → ℕ → Action Log Exchange
  unfolding open_http_proxy_connection on_stream
  connect_via_socks5 proxy host port =
      open_http_proxy_connection proxy.host proxy.port proxy.scheme
      >>>= on_stream (socks5_connect py host port proxy.username proxy.password)

  unfoldable pub connect_via_http_connect : ProxyUrl → Text → ℕ → Action Log Exchange
  unfolding open_http_proxy_connection on_stream http_connect
  connect_via_http_connect proxy host port =
      open_http_proxy_connection proxy.host proxy.port proxy.scheme
      >>>= on_stream (http_connect py host port proxy.username proxy.password)

  -- The targets that are connected to directly whatever the proxy.
  unfoldable pub uses_direct_role : Text → ℕ → List Text → Bool
  uses_direct_role host port validated_ips =
      is_trusted_internal_destination py cfg host port
      || is_configured_local_embedding_destination py cfg host port
      || is_allowed_exact_host_destination py cfg host port
      || (is_host_class cfg.route_class
          && cfg.allow_lan_endpoints
          && all_rfc1918 py cfg validated_ips)

  unfoldable pub connect_via_tor : Text → ℕ → Action Log Exchange
  unfolding open_stream on_stream
  connect_via_tor host port =
      attempt
        (open_stream (unix_connect cfg.tor_socks_unix_path)
          (λ log. world.unix_connects log cfg.tor_socks_unix_path))
        is_os_error (λ exc. throw connection_error (codes "native Tor SOCKS socket is unavailable"))
      >>>= on_stream (socks5_connect py host port none none)

  unfoldable pub connect_via_proxy : Text → ℕ → ProxyUrl → Action Log Exchange
  unfolding connect_via_socks5 connect_via_http_connect is_socks_scheme is_http_scheme
  connect_via_proxy host port proxy =
      if is_socks_scheme proxy.scheme
      then connect_via_socks5 proxy host port
      else if is_http_scheme proxy.scheme
      then connect_via_http_connect proxy host port
      else throw value_error (codes "Unsupported proxy scheme: " ++ proxy.scheme)

  unfoldable pub connect_via_upstream : Text → ℕ → List Text → Action Log Exchange
  unfolding open_validated_direct_connection uses_direct_role connect_via_tor connect_via_proxy
  connect_via_upstream host port validated_ips =
      if uses_direct_role host port validated_ips
      then open_validated_direct_connection validated_ips port
      else if is_empty cfg.upstream_proxy && is_empty cfg.tor_socks_unix_path
      then open_validated_direct_connection validated_ips port
      else if not (is_empty cfg.tor_socks_unix_path)
      then connect_via_tor host port
      else lift (parse_proxy_url py cfg.upstream_proxy) >>>= connect_via_proxy host port
