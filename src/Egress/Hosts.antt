-- ===== src/Egress/Hosts.antt =====
-- egress/final_hop_proxy.py, "Destination validation": the classes of addresses and host names.
pub mod Classes
use private_onyx_app.Common.{
  ℕ, ◌^◌, Bool, true, false, not, ◌&&◌, ◌||◌, List, [], ◌∷◌, ◌++◌, Option, none, some, ltb, leb,
  ◌==◌, if◌then◌else◌, any, all, Text, codes, text_eq, member, is_empty, is_ascii, ends_with,
  contains_char,
}
use private_onyx_app.Egress.Address.{
  Ip, v4, v6, quad, in_network, in_networks, is_private, is_global, is_loopback, is_link_local,
  is_multicast, is_unspecified, is_reserved, print_v4,
}
use private_onyx_app.Egress.Platform.{
  Python, Settings, ConfiguredEndpoint, is_host_class, normalize_host, parse_ip_literal,
}

abbrev pub builtin_blocked_hostnames : List Text
builtin_blocked_hostnames =
    codes "localhost"
    ∷ codes "localhost.localdomain"
    ∷ codes "host.docker.internal"
    ∷ codes "gateway.docker.internal"
    ∷ codes "vm.docker.internal"
    ∷ codes "docker.for.mac.host.internal"
    ∷ codes "docker.for.mac.localhost"
    ∷ codes "docker.for.mac.gateway.internal"
    ∷ codes "docker.for.win.host.internal"
    ∷ codes "docker.for.win.localhost"
    ∷ codes "host.containers.internal"
    ∷ codes "gateway.containers.internal"
    ∷ []

abbrev pub builtin_blocked_hostname_suffixes : List Text
builtin_blocked_hostname_suffixes = codes "docker.internal" ∷ codes "containers.internal" ∷ []

abbrev pub rfc1918_system_dns_suffixes : List Text
rfc1918_system_dns_suffixes = codes ".local" ∷ codes ".internal" ∷ codes ".home.arpa" ∷ []

-- The reason for which an address is refused, on the parsed address.
unfoldable pub block_reason : Ip → Option Text
block_reason ip =
    if is_loopback ip
    then some (codes "loopback IP")
    else if is_private ip
    then some (codes "private/RFC1918 IP")
    else if is_link_local ip
    then some (codes "link-local IP")
    else if is_multicast ip
    then some (codes "multicast IP")
    else if is_unspecified ip
    then some (codes "unspecified IP")
    else if is_reserved ip
    then some (codes "reserved IP")
    else if not (is_global ip)
    then some (codes "non-global IP")
    else none

unfoldable pub is_rfc1918_ip : Ip → Bool
unfolding in_network
is_rfc1918_ip (v4 n) =
    in_network n (quad 10 0 0 0, 24)
    || in_network n (quad 172 16 0 0, 20)
    || in_network n (quad 192 168 0 0, 16)
is_rfc1918_ip (v6 n) = false

module _ (py : Python) where
  unfoldable pub ip_block_reason : Text → Option Text
  unfolding block_reason
  ip_block_reason ip_text = elim (parse_ip_literal py ip_text) [
    | none ↦ none
    | some ip ↦ block_reason ip
  ]

  unfoldable pub is_rfc1918 : Text → Bool
  unfolding is_rfc1918_ip
  is_rfc1918 ip_text = elim (parse_ip_literal py ip_text) [
    | none ↦ false
    | some ip ↦ is_rfc1918_ip ip
  ]

  unfoldable pub is_exact_docker_host : Text → Bool
  is_exact_docker_host host = text_eq (normalize_host py host) (codes "host.docker.internal")

  unfoldable pub is_rfc1918_system_dns_name : Text → Bool
  unfolding any
  is_rfc1918_system_dns_name host =
      any (λ suffix. ends_with suffix (normalize_host py host)) rfc1918_system_dns_suffixes

  unfoldable pub configured_endpoint_uses_local_route : Text → Bool
  configured_endpoint_uses_local_route host =
      let normalized = normalize_host py host in
      is_exact_docker_host normalized
      || is_rfc1918 normalized
      || is_rfc1918_system_dns_name normalized

  pub is_loose_char : ℕ → Bool
  is_loose_char c =
      (leb b'0' c && leb c b'9')
      || (leb b'a' c && leb c b'f')
      || (leb b'A' c && leb c b'F')
      || c == b'x'
      || c == b'X'
      || c == b'.'

  -- inet_ntoa(inet_aton(host)), for texts of the characters that shorthand forms use
  unfoldable pub loose_ipv4_literal : Text → Option Text
  unfolding is_loose_char
  loose_ipv4_literal host =
      if is_empty host || not (all is_loose_char host)
      then none
      else elim (py.inet_aton host) [ none ↦ none | some n ↦ some (print_v4 n) ]

  unfoldable pub is_onion_hostname : Text → Bool
  is_onion_hostname host = ends_with (codes ".onion") (normalize_host py host)

module _ (py : Python) (cfg : Settings) where
  unfoldable pub is_allowed_exact_host_destination : Text → ℕ → Bool
  unfolding any
  is_allowed_exact_host_destination host port =
      is_host_class cfg.route_class
      && is_exact_docker_host py host
      && (cfg.host_ports_allow_all || any (λ p. p == port) cfg.operator_allowed_host_ports)

  unfoldable pub is_configured_embedding_destination : Text → ℕ → Bool
  is_configured_embedding_destination host port =
      is_host_class cfg.route_class && elim cfg.configured_embedding_endpoint [
        | none ↦ false
        | some endpoint ↦ text_eq (normalize_host py host) endpoint.host && port == endpoint.port
      ]

  unfoldable pub is_configured_local_embedding_destination : Text → ℕ → Bool
  unfolding is_configured_embedding_destination
  is_configured_local_embedding_destination host port =
      is_configured_embedding_destination host port && configured_endpoint_uses_local_route py host

  blocked_hostnames : List Text
  blocked_hostnames = builtin_blocked_hostnames ++ cfg.configured_blocked_hostnames

  -- The tests on the host once it is normalised.
  unfoldable pub blocked_name_reason : Text → Option Text
  unfolding blocked_hostnames
  blocked_name_reason host =
      if is_empty host
      then some (codes "empty host")
      else if not (is_ascii host)
      then some (codes "invalid IDNA hostname")
      else if contains_char b'%' host
      then some (codes "IPv6 zone identifier")
      else if member host blocked_hostnames
      then some (codes "blocked internal hostname")
      else if any (λ blocked. ends_with (b'.' ∷ blocked) host) blocked_hostnames
      then some (codes "blocked internal hostname suffix")
      else if any (λ suffix. text_eq host suffix || ends_with (b'.' ∷ suffix) host)
          builtin_blocked_hostname_suffixes
      then some (codes "blocked Docker-internal hostname suffix")
      else if not (contains_char b'.' host)
      then some (codes "single-label/internal hostname")
      else none

  unfoldable pub hostname_block_reason : Text → Option Text
  hostname_block_reason host = blocked_name_reason (normalize_host py host)

  unfoldable pub is_trusted_internal_destination : Text → ℕ → Bool
  unfolding any
  is_trusted_internal_destination host port =
      any (λ (name, p). text_eq (normalize_host py host) name && port == p)
        cfg.trusted_internal_destinations

  -- validated_ips and all(_is_rfc1918(ip) for ip in validated_ips)
  unfoldable pub all_rfc1918 : List Text → Bool
  unfolding all
  all_rfc1918 [] = false
  all_rfc1918 (ip ∷ ips) = all (is_rfc1918 py) (ip ∷ ips)

  unfoldable pub plain_http_allowed : Text → ℕ → List Text → Bool
  plain_http_allowed host port validated_ips =
      cfg.allow_http_urls
      || (not (is_empty cfg.tor_socks_unix_path) && is_onion_hostname py host)
      || is_trusted_internal_destination host port
      || is_configured_local_embedding_destination host port
      || is_allowed_exact_host_destination host port
      || (is_host_class cfg.route_class && cfg.allow_lan_endpoints && all_rfc1918 validated_ips)
