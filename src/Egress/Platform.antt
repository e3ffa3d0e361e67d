-- ===== src/Egress/Platform.antt =====
-- What egress/final_hop_proxy.py takes from outside: the parts of Python's standard library that
-- stay parameters, as the record `Python`, and the module's settings, as the record `Settings`.
use private_onyx_app.Common.{
  ℕ, ◌+◌, ◌-◌, Bool, true, false, ◌&&◌, ◌||◌, List, [], ◌∷◌, ◌++◌, Option, none, some, ltb, leb,
  ◌==◌, if◌then◌else◌, Text, is_space, strip, rstrip, Result,
}
use private_onyx_app.Egress.Address.{Ip, v4, v6, parse_v4}

-- The result of `urllib.parse.urlparse`. Reading `.port` may raise.
pub record Url : Type 0 where
  pub scheme : Text
  pub netloc : Text
  pub path : Text
  pub params : Text
  pub query : Text
  pub fragment : Text
  pub username : Option Text
  pub password : Option Text
  pub hostname : Option Text
  pub port : Result (Option ℕ)

pub record Python : Type 0 where
  -- t.encode("idna").decode("ascii"), `none` for a UnicodeError
  pub idna : Text → Option Text
  -- str.lower and str.upper of a character that is not ASCII
  pub lower_other : ℕ → Text
  pub upper_other : ℕ → Text
  pub urlparse : Text → Result Url
  pub unquote : Text → Text
  -- the value of `IPv6Address(t)`, `none` for a ValueError
  pub parse_v6 : Text → Option ℕ
  -- the address of `socket.inet_aton(t)`, `none` for an OSError
  pub inet_aton : Text → Option ℕ
  -- b.decode("utf-8", errors="replace")
  pub utf8_decode : List ℕ → Text
  -- base64.b64encode(b).decode("ascii")
  pub b64encode : List ℕ → Text

pub data RouteClass : Type 0 where
  public_class host_class : RouteClass

pub record ConfiguredEndpoint : Type 0 where
  pub host : Text
  pub port : ℕ

pub record Settings : Type 0 where
  pub route_class : RouteClass
  pub allow_lan_endpoints : Bool
  pub host_ports_allow_all : Bool
  pub operator_allowed_host_ports : List ℕ
  pub configured_embedding_endpoint : Option ConfiguredEndpoint
  pub podman_host_gateway_ip : Text
  pub upstream_proxy : Text
  pub tor_socks_unix_path : Text
  pub myst_vpn_enabled : Bool
  pub listen_port : ℕ
  pub allowed_client_hosts : List Text
  pub allow_http_urls : Bool
  pub configured_blocked_hostnames : List Text
  pub trusted_internal_destinations : List (Text × ℕ)

abbrev pub is_host_class : RouteClass → Bool
is_host_class public_class = false
is_host_class host_class = true

module _ (py : Python) where
  lower_char : ℕ → Text
  lower_char c =
      if ltb c 128 then (if leb b'A' c && leb c b'Z' then c + 32 else c) ∷ [] else py.lower_other c

  upper_char : ℕ → Text
  upper_char c =
      if ltb c 128 then (if leb b'a' c && leb c b'z' then c - 32 else c) ∷ [] else py.upper_other c

  -- str.lower
  unfoldable pub lower : Text → Text
  unfolding lower_char
  lower [] = []
  lower (c ∷ t) = lower_char c ++ lower t

  -- str.upper
  unfoldable pub upper : Text → Text
  unfolding upper_char
  upper [] = []
  upper (c ∷ t) = upper_char c ++ upper t

  -- host.strip().strip("[]").lower().rstrip("."), and then the IDNA form if there is one
  unfoldable pub normalize_host : Text → Text
  unfolding strip rstrip lower
  normalize_host host =
      let normalized =
        rstrip (λ c. c == b'.')
          (lower (strip (λ c. c == b'[' || c == b']') (strip is_space host))) in
      elim (py.idna normalized) [ none ↦ normalized | some text ↦ rstrip (λ c. c == b'.') text ]

  -- `_parse_ip_literal`: `ipaddress.ip_address` tries IPv4, then IPv6
  unfoldable pub parse_ip_literal : Text → Option Ip
  parse_ip_literal t = elim (parse_v4 t) [
    | some n ↦ some (v4 n)
    | none ↦ elim (py.parse_v6 t) [ some n ↦ some (v6 n) | none ↦ none ]
  ]
