-- ===== src/Egress/Validate.antt =====
-- egress/final_hop_proxy.py: the resolvers of configured endpoints, and `_validate_destination`,
-- one function for each of its stages. An outcome is the reason of a refusal, or none, and the
-- addresses that a direct connection may use.
pub mod Outcomes
pub mod Public
pub mod Leaks
use private_onyx_app.Common.{
  ℕ, Bool, true, false, not, ◌&&◌, ◌||◌, List, [], ◌∷◌, ◌++◌, Option, none, some, ltb, leb, ◌==◌,
  if◌then◌else◌, any, all, Text, codes, text_eq, is_empty, Kind, Raised, Result, connection_error,
  runtime_error, is_os_error, is_runtime_error, decimal,
}
use private_onyx_app.Common.Actions.{Action, pure, throw, bind}
use private_onyx_app.Egress.Address.{
  Ip, is_loopback, is_link_local, is_multicast, is_unspecified, is_reserved,
}
use private_onyx_app.Egress.Platform.{
  Python, Settings, is_host_class, normalize_host, parse_ip_literal,
}
use private_onyx_app.Egress.Hosts.{
  ip_block_reason, is_rfc1918, is_exact_docker_host, is_rfc1918_system_dns_name, loose_ipv4_literal,
  is_allowed_exact_host_destination, is_configured_local_embedding_destination,
  hostname_block_reason, is_trusted_internal_destination,
}
use private_onyx_app.Egress.Network.{
  Log, World, ◌>>=◌, ◌>>◌, attempt, resolver_errors, resolve_system_host, resolve_target_host,
}

abbrev pub Outcome : Type 0
Outcome = Option Text × List Text

pub data Lookup : Type 0 where
  found : List Text → Lookup
  failed : Text → Lookup

abbrev pub allowed : List Text → Outcome
allowed ips = (none, ips)

abbrev pub refused : Text → Outcome
refused reason = (some reason, [])

abbrev pub is_connection_error : Kind → Bool
is_connection_error connection_error = true
is_connection_error _ = false

-- The errors of a lookup that may also find the VPN interface unusable.
abbrev pub lookup_errors : Kind → Bool
lookup_errors k = resolver_errors k || is_runtime_error k

module _ (py : Python) (cfg : Settings) where
  unfoldable pub forbidden_ip : Text → Option Ip → Bool
  forbidden_ip address none = true
  forbidden_ip address (some ip) =
      is_loopback ip
      || (is_link_local ip
          && not (
              not (is_empty cfg.podman_host_gateway_ip)
              && text_eq address cfg.podman_host_gateway_ip
              && is_link_local ip))
      || is_multicast ip
      || is_unspecified ip
      || is_reserved ip

  -- The test on each address of the Docker host.
  unfoldable pub is_forbidden_docker_address : Text → Bool
  unfolding forbidden_ip
  is_forbidden_docker_address address = forbidden_ip address (parse_ip_literal py address)

module _ (py : Python) where
  -- The reason of the first address that is refused, as the loops over the answers find it.
  unfoldable pub first_blocked : List Text → Option (Text × Text)
  first_blocked [] = none
  first_blocked (ip ∷ ips) = elim (ip_block_reason py ip) [
    | some reason ↦ some (ip, reason)
    | none ↦ first_blocked ips
  ]

  -- The answers for a public target.
  unfoldable pub checked_answers : List Text → Outcome
  unfolding first_blocked
  checked_answers [] = refused (codes "DNS resolution returned no addresses")
  checked_answers (ip ∷ ips) = elim (first_blocked (ip ∷ ips)) [
    | none ↦ allowed (ip ∷ ips)
    | some (address, reason) ↦
        refused
          (codes "DNS resolved to blocked " ++ (address ++ (codes " (" ++ (reason ++ codes ")"))))
  ]

  -- The host is a literal, with the reason against it.
  abbrev pub address_outcome : Text → Option Text → Outcome
  address_outcome host none = allowed (host ∷ [])
  address_outcome host (some reason) = refused reason

  abbrev pub shorthand_outcome : Text → Option Text → Outcome
  shorthand_outcome loose_ip none = allowed (loose_ip ∷ [])
  shorthand_outcome loose_ip (some reason) =
      refused (reason ++ (codes " via IPv4 shorthand " ++ loose_ip))

  abbrev pub name_outcome : Option Text → Option Outcome
  name_outcome none = none
  name_outcome (some reason) = some (refused reason)

  -- The host is no literal; `found` is its IPv4 shorthand.
  unfoldable pub loose_outcome : Settings → Text → Option Text → Option Outcome
  loose_outcome cfg host (some loose_ip) =
      some (shorthand_outcome loose_ip (ip_block_reason py loose_ip))
  loose_outcome cfg host none = name_outcome (hostname_block_reason py cfg host)

  unfoldable pub parsed_outcome : Settings → Text → Option Ip → Option Outcome
  unfolding loose_outcome
  parsed_outcome cfg host (some ip) = some (address_outcome host (ip_block_reason py host))
  parsed_outcome cfg host none = loose_outcome cfg host (loose_ipv4_literal py host)

  -- The outcome of a host that is an address, or a name that is refused without a lookup; `none`
  -- for a name that remains to be resolved. `lan` says whether RFC1918 addresses are allowed.
  unfoldable pub literal_outcome : Settings → Bool → Text → Option Outcome
  unfolding parsed_outcome
  literal_outcome cfg lan host =
      if lan && is_rfc1918 py host
      then some (allowed (host ∷ []))
      else parsed_outcome cfg host (parse_ip_literal py host)

module _ (py : Python) (cfg : Settings) (world : World) where
  unfoldable pub resolve_exact_docker_host : Text → ℕ → Action Log (List Text)
  unfolding any is_empty
  resolve_exact_docker_host host port =
      if not (is_exact_docker_host py host)
      then throw connection_error
          (codes "exact Docker-host resolution requires host.docker.internal")
      else attempt (resolve_system_host py cfg world (normalize_host py host) port) resolver_errors
          (λ exc.
            throw connection_error
              (codes "Docker-host DNS resolution failed: system resolver error"))
        >>= λ resolved. elim resolved [
          | [] ↦ throw connection_error (codes "Docker-host DNS resolution returned no addresses")
          | ip ∷ ips ↦
              if any (is_forbidden_docker_address py cfg) (ip ∷ ips)
              then throw connection_error (codes "Docker-host resolved to a forbidden address")
              else pure (ip ∷ ips)
        ]

  -- The answers of the system resolver for an operator-local endpoint.
  unfoldable pub check_local_answers : Text → List Text → Action Log (List Text)
  unfolding all any
  check_local_answers purpose [] =
      throw connection_error (purpose ++ codes " system DNS resolution returned no addresses")
  check_local_answers purpose (ip ∷ ips) =
      if all (is_rfc1918 py) (ip ∷ ips)
      then pure (ip ∷ ips)
      else if any (is_rfc1918 py) (ip ∷ ips)
      then throw connection_error (purpose ++ codes " system DNS returned mixed addresses")
      else throw connection_error (purpose ++ codes " system DNS returned non-RFC1918 addresses")

  -- The answers for a public endpoint.
  unfoldable pub check_public_answers : Text → List Text → Action Log (List Text)
  check_public_answers purpose [] =
      throw connection_error (purpose ++ codes " DNS resolution returned no addresses")
  check_public_answers purpose (ip ∷ ips) = elim (first_blocked py (ip ∷ ips)) [
    | none ↦ pure (ip ∷ ips)
    | some (address, reason) ↦ throw connection_error (
        purpose
        ++ (codes " resolved to blocked " ++ (address ++ (codes " (" ++ (reason ++ codes ")")))))
  ]

  unfoldable pub resolve_configured_endpoint : Text → ℕ → Text → Action Log (List Text)
  unfolding resolve_exact_docker_host check_local_answers check_public_answers first_blocked
  resolve_configured_endpoint host port purpose =
      let normalized_host = normalize_host py host in
      elim (parse_ip_literal py normalized_host) [
        | some ip ↦
            if is_rfc1918 py normalized_host
            then pure (normalized_host ∷ [])
            else elim (ip_block_reason py normalized_host) [
              | none ↦ pure (normalized_host ∷ [])
              | some reason ↦
                  throw connection_error
                    (codes "blocked " ++ (purpose ++ (codes " address (" ++ (reason ++ codes ")"))))
            ]
        | none ↦
            if is_exact_docker_host py normalized_host
            then resolve_exact_docker_host normalized_host port
            else if is_rfc1918_system_dns_name py normalized_host
            then attempt (resolve_system_host py cfg world normalized_host port) resolver_errors
                (λ exc. throw connection_error (purpose ++ codes " system DNS resolution failed"))
              >>= check_local_answers purpose
            else elim (hostname_block_reason py cfg normalized_host) [
              | some reason ↦
                  throw connection_error (
                    codes "blocked " ++ (purpose ++ (codes " hostname (" ++ (reason ++ codes ")"))))
              | none ↦
                  attempt (resolve_target_host py cfg world normalized_host port) lookup_errors
                    (λ exc. throw connection_error (purpose ++ codes " DNS resolution failed"))
                  >>= check_public_answers purpose
            ]
      ]

  -- A ConnectionError becomes a refusal with its text.
  unfoldable pub refusing : Action Log (List Text) → Action Log Outcome
  refusing m =
      attempt (m >>= λ ips. pure (allowed ips)) is_connection_error
        (λ exc. pure (refused exc.message))

  unfoldable pub validate_trusted : Text → ℕ → Action Log Outcome
  validate_trusted host port =
      attempt
        (resolve_system_host py cfg world host port >>= λ resolved. elim resolved [
          | [] ↦ pure (refused (codes "trusted internal DNS resolution returned no addresses"))
          | ip ∷ ips ↦ pure (allowed (ip ∷ ips))
        ])
        resolver_errors
        (λ exc. pure (refused (codes "trusted internal DNS resolution failed: " ++ exc.message)))

  -- The last stage: a name that goes to a proxy, or to the public resolver.
  unfoldable pub validate_public : Text → ℕ → Action Log Outcome
  unfolding checked_answers
  validate_public host port =
      if not (is_empty cfg.upstream_proxy) || not (is_empty cfg.tor_socks_unix_path)
      then pure (allowed [])
      else attempt
          (resolve_target_host py cfg world host port >>= λ resolved.
            pure (checked_answers py resolved))
          lookup_errors (λ exc. pure (refused (codes "DNS resolution failed: " ++ exc.message)))

  -- The answers of the system resolver for an operator-local target. Answers that are all public
  -- are dropped, and the name takes the ordinary way.
  unfoldable pub local_answers : Text → ℕ → List Text → Action Log Outcome
  unfolding validate_public all any
  local_answers host port [] =
      pure (refused (codes "operator-local DNS resolution returned no addresses"))
  local_answers host port (ip ∷ ips) =
      if all (is_rfc1918 py) (ip ∷ ips)
      then pure (allowed (ip ∷ ips))
      else if any (is_rfc1918 py) (ip ∷ ips)
      then pure (refused (codes "DNS returned mixed RFC1918 and non-RFC1918 addresses"))
      else validate_public host port

  unfoldable pub lan_enabled : Bool
  lan_enabled = is_host_class cfg.route_class && cfg.allow_lan_endpoints

  -- The operator-local lookup: its answers, or the refusal of one that failed.
  unfoldable pub after_lookup : Text → ℕ → Lookup → Action Log Outcome
  unfolding local_answers
  after_lookup host port (found candidate_ips) = local_answers host port candidate_ips
  after_lookup host port (failed message) =
      pure (refused (codes "operator-local DNS resolution failed: " ++ message))

  -- A name that passed the tests on hosts.
  unfoldable pub validate_name : Text → ℕ → Action Log Outcome
  unfolding after_lookup lan_enabled validate_public
  validate_name host port =
      if lan_enabled && is_rfc1918_system_dns_name py host
      then attempt (resolve_system_host py cfg world host port >>= λ ips. pure (found ips))
          resolver_errors (λ exc. pure (failed exc.message))
        >>= after_lookup host port
      else validate_public host port

  unfoldable pub after_literal : Option Outcome → Text → ℕ → Action Log Outcome
  unfolding validate_name
  after_literal (some outcome) host port = pure outcome
  after_literal none host port = validate_name host port

  -- The stages behind the one for the configured endpoint.
  unfoldable pub validate_target : Text → ℕ → Action Log Outcome
  unfolding refusing resolve_exact_docker_host validate_trusted literal_outcome after_literal
  validate_target host port =
      if is_host_class cfg.route_class && is_exact_docker_host py host
      then (if is_allowed_exact_host_destination py cfg host port
          then refusing (resolve_exact_docker_host host port)
          else pure (refused (codes "host.docker.internal port is not allowed")))
      else if is_trusted_internal_destination py cfg host port
      then validate_trusted host port
      else after_literal (literal_outcome py cfg lan_enabled host) host port

  -- The stages on a normalised host.
  unfoldable pub validate_host : Text → ℕ → Action Log Outcome
  unfolding resolve_configured_endpoint refusing validate_target
  validate_host host port =
      if not (ltb 0 port && leb port 65535)
      then pure (refused (codes "invalid port"))
      else if is_configured_local_embedding_destination py cfg host port
      then refusing (resolve_configured_endpoint host port (codes "configured embedding endpoint"))
      else validate_target host port

  unfoldable pub validate_destination : Text → ℕ → Action Log Outcome
  unfolding validate_host
  validate_destination host port = validate_host (normalize_host py host) port
