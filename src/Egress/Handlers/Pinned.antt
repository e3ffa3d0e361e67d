-- ===== src/Egress/Handlers/Pinned.antt =====
-- Which connections a request leads to.
use private_onyx_app.Egress.Socks.{Ending}
use private_onyx_app.Egress.Network.Answers.{Answers}
use private_onyx_app.Common.{
  ℕ, ◌≡◌, refl, sym, subst, Bool, true, false, ◌&&◌, List, [], ◌∷◌, Option, none, some, Text, codes,
  is_empty, All, Result, ok, err, is_value_error, is_os_error, if◌then◌else◌,
}
use private_onyx_app.Common.Actions.{◌>>>=◌, Action, pure, lift}
use private_onyx_app.Egress.Platform.{Python, Settings, public_class}
use private_onyx_app.Egress.Network.{
  Log, Event, system_query, provider_udp, provider_tcp, tcp_connect, unix_connect, World,
}
use private_onyx_app.Egress.Network.Sends.{
  Adds, Adds-trans, Sends, Sends-pure, Sends-throw, Sends-lift, Sends-if, Sends-perform, Sends-bind,
  Sends-attempt,
}
use private_onyx_app.Egress.Validate.{Outcome, validate_destination}
use private_onyx_app.Egress.Validate.Outcomes.{IsPublic, IsPublicOutcome}
use private_onyx_app.Egress.Validate.Public.{validate_destination-IsPublic}
use private_onyx_app.Egress.Validate.Leaks.{validate_destination-Sends}
use private_onyx_app.Egress.Connect.{
  open_stream, try_addresses, open_direct, open_validated_direct_connection, uses_direct_role,
  connect_via_upstream,
}
use private_onyx_app.Egress.Handlers.{
  Reply, is_dns_failure, rejected, reject_blocked_destination, establish, connect_to,
  connect_authority, parse_authority, handle_connect,
}

-- A lookup, or a connection to a public address.
abbrev pub IsSafeEvent : Python → Event → Type 0
IsSafeEvent py (system_query host port) = Unit
IsSafeEvent py (provider_udp resolver source message) = Unit
IsSafeEvent py (provider_tcp resolver source message) = Unit
IsSafeEvent py (tcp_connect ip port tls) = IsPublic py ip
IsSafeEvent py (unix_connect path) = ⊥

module _ (py : Python) (cfg : Settings) (world : World) (peer : Log → List ℕ × Ending) where
  open_direct-Sends :
      (port : ℕ) (ip : Text)
      → IsPublic py ip
      → Sends (IsSafeEvent py) (open_direct py cfg world peer port ip)
  unfolding open_direct open_stream
  open_direct-Sends port ip h =
      Sends-bind _ _
        (Sends-perform (tcp_connect ip port false) (λ log. world.connects log ip port) h)
        (λ u. record { only = λ log. Adds.same })

  try_addresses-Sends :
      (port : ℕ) (message : Text) (failures ips : List Text)
      → All (IsPublic py) ips
      → Sends (IsSafeEvent py) (
          try_addresses py cfg world peer (open_direct py cfg world peer port) message failures ips)
  unfolding try_addresses
  try_addresses-Sends port message failures [] h = Sends-throw _ _
  try_addresses-Sends port message failures (ip ∷ ips) h =
      Sends-attempt _ is_os_error _ (open_direct-Sends port ip h.0)
        (λ exc. try_addresses-Sends port message _ ips h.1)

  pub direct-Sends :
      (ips : List Text) (port : ℕ)
      → All (IsPublic py) ips
      → Sends (IsSafeEvent py) (open_validated_direct_connection py cfg world peer ips port)
  unfolding open_validated_direct_connection
  direct-Sends [] port h = Sends-throw _ _
  direct-Sends (ip ∷ ips) port h =
      try_addresses-Sends port (codes "all validated destination addresses failed: ") [] (ip ∷ ips)
        h

  module _ (no_proxy : cfg.upstream_proxy ≡ []) (no_tor : cfg.tor_socks_unix_path ≡ []) where
    pub unproxied : (is_empty cfg.upstream_proxy && is_empty cfg.tor_socks_unix_path) ≡ true
    unfolding is_empty
    unproxied = rw (no_proxy, no_tor) refl

    pub connect_via_upstream-Sends :
        (host : Text) (port : ℕ) (ips : List Text)
        → All (IsPublic py) ips
        → Sends (IsSafeEvent py) (connect_via_upstream py cfg world peer host port ips)
    unfolding connect_via_upstream
    connect_via_upstream-Sends host port ips h =
        Sends-if (uses_direct_role py cfg world peer host port ips) _ _ (direct-Sends ips port h)
          (simp unproxied (direct-Sends ips port h))

    establish-Sends :
        (host : Text) (port : ℕ) (ips : List Text)
        → All (IsPublic py) ips
        → Sends (IsSafeEvent py) (establish py cfg world peer host port ips)
    unfolding establish
    establish-Sends host port ips h =
        Sends-attempt _ (λ kind. true) _
          (Sends-bind _ _ (connect_via_upstream-Sends host port ips h) (λ upstream. Sends-pure _))
          (λ e. Sends-pure _)

    connect_to-Sends :
        (host : Text) (port : ℕ) (verdict : Option Reply × List Text)
        → All (IsPublic py) verdict.1
        → Sends (IsSafeEvent py) (connect_to py cfg world peer host port verdict)
    unfolding connect_to
    connect_to-Sends host port (some refusal, ips) h = Sends-pure refusal
    connect_to-Sends host port (none, ips) h =
        Sends-if _ _ _ (Sends-pure _) (establish-Sends host port ips h)

    refused_ips :
        (b c : Bool) (r s t : Option Reply) (ips : List Text)
        → ips ≡ []
        → All
            (IsPublic py)
            (if◌then◌else◌ {A = Option Reply × List Text} b
              (r, ips)
              (if c then (s, []) else (t, []))).1
    refused_ips true c r s t ips h = subst (All (IsPublic py)) (sym h) tt
    refused_ips false true r s t ips h = tt
    refused_ips false false r s t ips h = tt

    rejected-IsPublic :
        (outcome : Outcome)
        → IsPublicOutcome py outcome
        → All (IsPublic py) (rejected py cfg world outcome).1
    unfolding rejected
    rejected-IsPublic (none, ips) h = h
    rejected-IsPublic (some reason, ips) h =
        refused_ips (is_empty reason) (is_dns_failure reason) _ _ _ ips h

    validated_only :
        (r : Result Outcome) (next : Option Reply × List Text → Action Log Reply) (log : Log)
        → ((verdict : Option Reply × List Text)
            → All (IsPublic py) verdict.1
            → Sends (IsSafeEvent py) (next verdict))
        → ((outcome : Outcome) → r ≡ ok outcome → IsPublicOutcome py outcome)
        → Adds
            (IsSafeEvent py)
            log
            (((lift r >>>= λ outcome. pure (rejected py cfg world outcome)) >>>= next) log).1
    validated_only (ok outcome) next log k h =
        (k (rejected py cfg world outcome) (rejected-IsPublic outcome (h outcome refl))).only log
    validated_only (err e) next log k h = Adds.same

    module _ (answers : Answers py world) (public : cfg.route_class ≡ public_class)
        (untrusted : cfg.trusted_internal_destinations ≡ []) where
      -- What runs on the verdict on a destination may connect to the addresses of the verdict.
      pub after_validation-Sends :
          (host : Text) (port : ℕ) (next : Option Reply × List Text → Action Log Reply)
          → ((verdict : Option Reply × List Text)
              → All (IsPublic py) verdict.1
              → Sends (IsSafeEvent py) (next verdict))
          → Sends (IsSafeEvent py) (reject_blocked_destination py cfg world host port >>>= next)
      unfolding reject_blocked_destination
      after_validation-Sends host port next k = record {
        only = λ log.
            Adds-trans
              ((validate_destination-Sends py cfg world (IsSafeEvent py) (λ r s m e. tt)
                  (λ r s m e. tt) (λ direct host port. tt) public untrusted host port).only
                log)
              (validated_only (validate_destination py cfg world host port log).0 next
                (validate_destination py cfg world host port log).1 k
                (validate_destination-IsPublic py cfg world answers public untrusted host port
                  log));
      }

      authority-Sends :
          (authority : Result (Text × ℕ))
          → Sends (IsSafeEvent py) (connect_authority py cfg world peer authority)
      unfolding connect_authority
      authority-Sends (err e) = Sends-if (is_value_error e.kind) _ _ (Sends-pure _) (Sends-lift _)
      authority-Sends (ok (host, port)) =
          after_validation-Sends host port (connect_to py cfg world peer host port)
            (connect_to-Sends host port)

      -- On the public route without an upstream proxy or Tor, all that a CONNECT request leads to are
      -- lookups and connections to public addresses, whatever its target, whatever the resolvers
      -- answer each time and whichever connections fail: the addresses that were classified are the
      -- addresses that are connected to.
      pub handle_connect-pinned :
          (target : Text) (log : Log)
          → Adds (IsSafeEvent py) log (handle_connect py cfg world peer target log).1
      unfolding handle_connect
      handle_connect-pinned target log = (authority-Sends (parse_authority py target 443)).only log
