-- ===== src/Egress/Examples.antt =====
-- Tests of the final-hop proxy's model, and its theorems at concrete inputs.
use private_onyx_app.Egress.Network.Answers.{Answers}
use private_onyx_app.Egress.Server.{Request, request, read_request}
use private_onyx_app.Egress.Connect.{
  ProxyUrl, is_socks_scheme, parse_proxy_url, validate_upstream_proxy_config,
}
use private_onyx_app.Egress.Connect.Configured.{configured_exchange-closes}
use private_onyx_app.Egress.Handlers.{is_dns_failure, rejected}
use private_onyx_app.Egress.Connect.{port_or, uses_direct_role, connect_via_upstream}
use private_onyx_app.Egress.Server.{Client, handle_request}
use private_onyx_app.Egress.Network.{Log, tcp_connect, system_query}
use private_onyx_app.Egress.Network.Sends.{Adds}
use private_onyx_app.Common.{
  words, Result, Text, ◌%◌, ◌↔◌, of_digits, parse_int, is_digit, utf8_encode, split_on, is_empty,
  any, rstrip, strip, text_eq, ends_with, member, contains_char, is_ascii, is_space, ℕ, ◌≤◌, ◌<◌,
  ◌^◌, ◌≡◌, refl, true, false, List, [], ◌∷◌, ◌++◌, none, some, arith, All, all, length, codes, ok,
  raise, value_error,
}
use private_onyx_app.Egress.Address.{
  in_networks, in_network, is_private_v4, is_global, is_reserved, is_unspecified, is_link_local,
  is_private, is_loopback, parse_v4, v4, v6, quad, is_global_v4, is_multicast,
}
use private_onyx_app.Egress.Platform.{
  Url, lower, normalize_host, parse_ip_literal, Python, Settings, public_class,
}
use private_onyx_app.Egress.Hosts.{
  plain_http_allowed, all_rfc1918, is_allowed_exact_host_destination, is_rfc1918,
  is_configured_embedding_destination, blocked_name_reason, hostname_block_reason,
  loose_ipv4_literal, is_exact_docker_host, is_trusted_internal_destination,
  is_configured_local_embedding_destination, block_reason, ip_block_reason,
}
use private_onyx_app.Egress.Hosts.Classes.{block_reason-none_v4, ip_block_reason-rfc1918}
use private_onyx_app.Egress.Ports.{parse_allowed_host_ports, format_host_port_policy}
use private_onyx_app.Egress.Ports.RoundTrip.{
  ValidAbove, parse_allowed_host_ports-valid, parse-format,
}
use private_onyx_app.Egress.Framing.{
  is_token_char, split_first, parse_header_line, Header, parse_request_framing, is_token, last_is,
  count_text,
}
use private_onyx_app.Egress.Framing.Codings.{LowerLaws}
use private_onyx_app.Egress.Head.{forwarded_headers}
use private_onyx_app.Egress.Head.Framed.{framing-forwarded}
use private_onyx_app.Egress.Body.{Streams, send_exactly, forward_request_body}
use private_onyx_app.Egress.Body.Fixed.{IsTransparent, send_exactly-full, relayed}
use private_onyx_app.Egress.Body.Chunked.{forward-IsTransparent}
use private_onyx_app.Egress.Dns.{skip_dns_name, parse_dns_a_response, word_at}
use private_onyx_app.Egress.Dns.Bounds.{IsAddress, skip_dns_name_bounds, parse_dns_a_response-ok}
use private_onyx_app.Egress.Network.{
  add_text, sorted_set, resolve_system_host, resolve_target_host, World,
}
use private_onyx_app.Egress.Validate.{
  first_blocked, checked_answers, lan_enabled, validate_public, validate_name, after_literal,
  loose_outcome, parsed_outcome, literal_outcome, validate_target, validate_host,
  validate_destination,
}
use private_onyx_app.Egress.Validate.Leaks.{IsProviderQuery, validate_destination-no_leak}
use private_onyx_app.Egress.Socks.{Ending, ends_stream, Exchange, socks5_connect}
use private_onyx_app.Egress.Socks.Closing.{IsSettled}

-- What every text is parsed to.
abbrev example_url : Url
example_url = record {
  scheme = [];
  netloc = codes "example.com:443";
  path = [];
  params = [];
  query = [];
  fragment = [];
  username = none;
  password = none;
  hostname = some (codes "example.com");
  port = ok (some 443);
}

-- A platform without IPv6 and without IPv4 shorthand.
abbrev plain_python : Python
plain_python = record {
  idna = λ t. some t;
  lower_other = λ c. c ∷ [];
  upper_other = λ c. c ∷ [];
  urlparse = λ t. ok example_url;
  unquote = λ t. t;
  parse_v6 = λ t. none;
  inet_aton = λ t. none;
  utf8_decode = λ b. b;
  b64encode = λ b. b;
}

plain_python-LowerLaws : LowerLaws plain_python
plain_python-LowerLaws = record { no_upper = λ c h. (ground arith, tt) }

abbrev public_settings : Settings
public_settings = record {
  route_class = public_class;
  allow_lan_endpoints = false;
  host_ports_allow_all = false;
  operator_allowed_host_ports = [];
  configured_embedding_endpoint = none;
  podman_host_gateway_ip = [];
  upstream_proxy = [];
  tor_socks_unix_path = [];
  myst_vpn_enabled = false;
  listen_port = 3128;
  allowed_client_hosts = [];
  allow_http_urls = false;
  configured_blocked_hostnames = [];
  trusted_internal_destinations = [];
}

abbrev vpn_settings : Settings
vpn_settings = record public_settings { myst_vpn_enabled = true }

-- Every name has one public address.
abbrev small_world : World
small_world = record {
  system_dns = λ log host port. ok (codes "93.184.216.34" ∷ []);
  vpn_interface = λ log. some (quad 10 8 0 2, 24);
  random_id = λ log. 7;
  udp_answer = λ log message. raise value_error [];
  tcp_answer = λ log message. raise value_error [];
  connects = λ log address port. ok tt;
  unix_connects = λ log path. ok tt;
}

validate_destination-no_leak_example :
    Adds
      (IsProviderQuery small_world)
      []
      (validate_destination plain_python vpn_settings small_world (codes "example.com") 443 []).1
validate_destination-no_leak_example =
    validate_destination-no_leak plain_python vpn_settings small_world refl refl refl
      (codes "example.com") 443 []

-- A request with a folded pair of equal lengths, and one with two codings.
abbrev posted : List Header
posted =
    (codes "host", codes "a.example")
    ∷ (codes "content-length", codes "5, 5")
    ∷ (codes "accept", codes "*/*")
    ∷ []

abbrev streamed : List Header
streamed = (codes "transfer-encoding", codes "GZIP , chunked") ∷ []

posted_framing : parse_request_framing plain_python posted ≡ ok (some 5, [])
unfolding parse_request_framing text_eq split_on strip is_space is_digit parse_int of_digits
posted_framing = refl

streamed_framing :
    parse_request_framing plain_python streamed ≡ ok (none, codes "gzip" ∷ codes "chunked" ∷ [])
unfolding parse_request_framing text_eq split_on lower strip is_space
streamed_framing = refl

framing-forwarded_example :
    parse_request_framing plain_python
      (forwarded_headers posted (codes "a.example:80") (some 5) [] (some (codes "Basic eDp5")))
    ≡ ok (some 5, [])
framing-forwarded_example =
    framing-forwarded plain_python plain_python-LowerLaws posted (codes "a.example:80")
      (some (codes "Basic eDp5")) (some 5) [] posted_framing

-- A body of one chunk, with bytes of a next request behind it.
abbrev chunked_body : Streams
chunked_body = record {
  inbox = b'3' ∷ 13 ∷ 10 ∷ 65 ∷ 66 ∷ 67 ∷ 13 ∷ 10 ∷ b'0' ∷ 13 ∷ 10 ∷ 13 ∷ 10 ∷ b'G' ∷ b'E' ∷ [];
  outbox = [];
}

forward-IsTransparent_example :
    IsTransparent chunked_body
      (forward_request_body plain_python none (codes "chunked" ∷ []) chunked_body)
forward-IsTransparent_example =
    forward-IsTransparent plain_python none (codes "chunked" ∷ []) chunked_body

chunked_body_sent :
    (forward_request_body plain_python none (codes "chunked" ∷ []) chunked_body).1.inbox
    ≡ b'G' ∷ b'E' ∷ []
unfolding forward_request_body private_onyx_app.Egress.Body.parse_chunk_size
    private_onyx_app.Egress.Framing.is_header_blank
chunked_body_sent = refl

abbrev anonymous_exchange : Exchange
anonymous_exchange = record {
  inbox = 5 ∷ 0 ∷ 5 ∷ 0 ∷ 0 ∷ 1 ∷ [];
  ending = ends_stream;
  outbox = [];
  closed = false;
}

abbrev asked_name : List ℕ
asked_name = 3 ∷ b'a' ∷ b'b' ∷ b'c' ∷ 0 ∷ []

asked_name_skipped : skip_dns_name asked_name 0 ≡ ok 5
unfolding skip_dns_name
asked_name_skipped = refl

skip_dns_name_bounds_example : (0 < 5) × (5 ≤ length asked_name)
skip_dns_name_bounds_example = skip_dns_name_bounds asked_name 0 5 asked_name_skipped

-- A response with the address 93.184.216.34.
abbrev dns_response : List ℕ
dns_response =
    0
    ∷ 7
    ∷ 129
    ∷ 128
    ∷ 0
    ∷ 1
    ∷ 0
    ∷ 1
    ∷ 0
    ∷ 0
    ∷ 0
    ∷ 0
    ∷ (asked_name
        ++ (0
            ∷ 1
            ∷ 0
            ∷ 1
            ∷ (192 ∷ 12 ∷ 0 ∷ 1 ∷ 0 ∷ 1 ∷ 0 ∷ 0 ∷ 0 ∷ 60 ∷ 0 ∷ 4 ∷ 93 ∷ 184 ∷ 216 ∷ 34 ∷ [])))

dns_response_parsed : parse_dns_a_response dns_response 7 ≡ ok (codes "93.184.216.34" ∷ [], false)
unfolding parse_dns_a_response private_onyx_app.Egress.Address.print_v4
dns_response_parsed = refl

dns_response_bytes : All (λ b. b < 256) dns_response
dns_response_bytes = omega arith

parse_dns_a_response-ok_example :
    (12 ≤ length dns_response)
    × (word_at dns_response 0 ≡ 7)
    × (2 ^ 15 ≤ word_at dns_response 2)
    × (word_at dns_response 2 % 16 ≡ 0)
    × All IsAddress (codes "93.184.216.34" ∷ [])
    × (false ≡ true → codes "93.184.216.34" ∷ [] ≡ [])
parse_dns_a_response-ok_example =
    parse_dns_a_response-ok dns_response 7 (codes "93.184.216.34" ∷ []) false dns_response_bytes
      dns_response_parsed

send_exactly-full_example : send_exactly 3 3 chunked_body ≡ relayed chunked_body 3
send_exactly-full_example = send_exactly-full 3 3 chunked_body (omega arith) (omega arith)

parse-format_example :
    parse_allowed_host_ports (format_host_port_policy false (80 ∷ 443 ∷ []))
    ≡ ok (false, 80 ∷ 443 ∷ [])
parse-format_example =
    parse-format false (80 ∷ 443 ∷ []) (omega arith, omega arith, (omega arith, omega arith, tt))
      (λ e. absurd (cc e))

ports_parsed : parse_allowed_host_ports (codes " 443, 80,443") ≡ ok (false, 80 ∷ 443 ∷ [])
unfolding parse_allowed_host_ports strip private_onyx_app.Egress.Ports.is_port_blank text_eq
    split_on is_digit parse_int of_digits private_onyx_app.Egress.Ports.add_port
ports_parsed = refl

parse_allowed_host_ports-valid_example :
    ValidAbove 0 (80 ∷ 443 ∷ []) × (false ≡ true → ◌≡◌ {A = List ℕ} (80 ∷ 443 ∷ []) [])
parse_allowed_host_ports-valid_example =
    parse_allowed_host_ports-valid (codes " 443, 80,443") false (80 ∷ 443 ∷ []) ports_parsed

private_literal : is_rfc1918 plain_python (codes "192.168.1.20") ≡ true
unfolding is_rfc1918 parse_ip_literal parse_v4
private_literal = refl

ip_block_reason-rfc1918_example :
    ip_block_reason plain_python (codes "192.168.1.20") ≡ some (codes "private/RFC1918 IP")
ip_block_reason-rfc1918_example =
    ip_block_reason-rfc1918 plain_python (codes "192.168.1.20") private_literal

block_reason-none_v4_example :
    (block_reason (v4 (quad 100 64 0 1)) ≡ none)
    ↔ (is_global_v4 (quad 100 64 0 1) ≡ true) × (is_multicast (v4 (quad 100 64 0 1)) ≡ false)
block_reason-none_v4_example = block_reason-none_v4 (quad 100 64 0 1)

-- A client on the loopback interface that asks for a tunnel.
abbrev connecting_client : Client
connecting_client = record {
  address = some (codes "127.0.0.1");
  inbox =
      codes "CONNECT example.com:443 HTTP/1.1"
      ++ (13 ∷ 10 ∷ (codes "Host: a" ++ (13 ∷ 10 ∷ 13 ∷ 10 ∷ [])));
  stalls = false;
}

abbrev silent_peer : Log → List ℕ × Ending
silent_peer log = ([], ends_stream)

abbrev any_handshake : Log → Text → Result (Unit {0})
any_handshake log host = ok tt

connecting_client_served :
    (handle_request plain_python public_settings small_world silent_peer any_handshake
      connecting_client []).1
    ≡ tcp_connect (codes "93.184.216.34") 443 false ∷ system_query (codes "example.com") 443 ∷ []
unfolding handle_request parse_header_line split_first parse_request_framing words text_eq is_token
    is_token_char connect_via_upstream uses_direct_role is_allowed_exact_host_destination
    all_rfc1918 port_or rejected is_dns_failure plain_http_allowed validate_destination
    is_configured_local_embedding_destination is_trusted_internal_destination is_exact_docker_host
    parse_ip_literal parse_v4 normalize_host is_space loose_ipv4_literal hostname_block_reason
    blocked_name_reason is_ascii contains_char member ends_with resolve_target_host ip_block_reason
    is_configured_embedding_destination lower strip rstrip any all is_empty validate_host
    validate_target literal_outcome parsed_outcome loose_outcome after_literal validate_name
    validate_public lan_enabled checked_answers first_blocked block_reason is_loopback is_private
    is_link_local is_multicast is_unspecified is_reserved is_global is_private_v4 is_global_v4
    in_network in_networks resolve_system_host sorted_set add_text
connecting_client_served = refl

-- A platform on which every text is a SOCKS5 URL with credentials.
abbrev socks_python : Python
socks_python = record plain_python {
  urlparse = λ t. ok (record example_url {
    scheme = codes "socks5h";
    port = ok none;
    username = some (codes "u");
    password = some (codes "p");
  });
}

abbrev socks_proxy : ProxyUrl
socks_proxy = record {
  scheme = codes "socks5h";
  host = codes "example.com";
  port = 1080;
  username = some (codes "u");
  password = some (codes "p");
}

abbrev socks_settings : Settings
socks_settings = record public_settings { upstream_proxy = codes "socks5h://u:p@example.com" }

socks_accepted : validate_upstream_proxy_config socks_python socks_settings ≡ ok tt
unfolding validate_upstream_proxy_config lower utf8_encode
socks_accepted = refl

socks_in_use : is_empty socks_settings.upstream_proxy ≡ false
unfolding is_empty
socks_in_use = refl

socks_read : parse_proxy_url socks_python socks_settings.upstream_proxy ≡ ok socks_proxy
unfolding parse_proxy_url lower
socks_read = refl

socks_scheme : is_socks_scheme socks_proxy.scheme ≡ true
unfolding is_socks_scheme text_eq
socks_scheme = refl

configured_exchange-closes_example : IsSettled (
    socks5_connect socks_python
      (codes "example.com")
      443
      (some (codes "u"))
      (some (codes "p"))
      anonymous_exchange)
configured_exchange-closes_example =
    configured_exchange-closes socks_python socks_settings socks_proxy socks_accepted socks_in_use
      socks_read socks_scheme (codes "example.com") 443 anonymous_exchange refl

abbrev connecting_request : Request
connecting_request = record {
  method = codes "CONNECT";
  target = codes "example.com:443";
  headers = (codes "host", codes "a") ∷ [];
  body = [];
}

connecting_request_read :
    read_request plain_python false connecting_client.inbox ≡ ok (request connecting_request)
unfolding read_request ends_with parse_header_line contains_char is_ascii lower
    parse_request_framing
connecting_request_read = refl
