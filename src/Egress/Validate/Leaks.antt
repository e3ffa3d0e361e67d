-- ===== src/Egress/Validate/Leaks.antt =====
-- About the lookups that `_validate_destination` makes on the public route.
use private_onyx_app.Common.{
  ℕ, ◌≡◌, sym, ◌∙◌, true, false, false≢true, not, ◌&&◌, ◌||◌, List, [], Option, none, some, ltb,
  leb, Text, is_empty, Bool-cases, inl, inr,
}
use private_onyx_app.Egress.Platform.{Python, Settings, public_class, normalize_host}
use private_onyx_app.Egress.Network.{Log, Event, system_query, provider_udp, provider_tcp, World}
use private_onyx_app.Egress.Network.Sends.{
  IsEndpoint, Adds, Sends, Sends-pure, Sends-bind, Sends-attempt, resolve_target_host-Sends,
}
use private_onyx_app.Egress.Validate.{
  Outcome, lookup_errors, validate_public, validate_name, after_literal, literal_outcome,
  validate_host, validate_destination,
}
use private_onyx_app.Egress.Validate.Public.{public_host, public_target, public_name}

-- The event asks the provider's resolver, the one that the VPN interface leads to.
abbrev pub IsProviderQuery : World → Event → Type 0
IsProviderQuery world (provider_udp resolver source message) = IsEndpoint world resolver source
IsProviderQuery world (provider_tcp resolver source message) = IsEndpoint world resolver source
IsProviderQuery world _ = ⊥

module _ (py : Python) (cfg : Settings) (world : World) (P : Event → Type 0)
    (udp : (resolver source : Text) (message : List ℕ)
      → IsEndpoint world resolver source
      → P (provider_udp resolver source message))
    (tcp : (resolver source : Text) (message : List ℕ)
      → IsEndpoint world resolver source
      → P (provider_tcp resolver source message))
    (system : cfg.myst_vpn_enabled ≡ false
      → (host : Text) (port : ℕ) → P (system_query host port)) where
  validate_public-Sends :
      (host : Text) (port : ℕ) → Sends P (validate_public py cfg world host port)
  unfolding validate_public
  validate_public-Sends host port =
      elim (Bool-cases
        (not (is_empty cfg.upstream_proxy) || not (is_empty cfg.tor_socks_unix_path))) [
          | inl e ↦ rw e (Sends-pure _)
          | inr e ↦ rw e (
              Sends-attempt _ lookup_errors _
                (Sends-bind _ _
                  (resolve_target_host-Sends py cfg world P udp tcp host port
                    (λ e. system e host port))
                  (λ resolved. Sends-pure _))
                (λ exc. Sends-pure _))
        ]

  after_literal-Sends :
      (o : Option Outcome) (host : Text) (port : ℕ)
      → Sends P (validate_name py cfg world host port)
      → Sends P (after_literal py cfg world o host port)
  unfolding after_literal
  after_literal-Sends (some outcome) host port h = Sends-pure outcome
  after_literal-Sends none host port h = h

  refused_port :
      (host : Text) (port : ℕ)
      → (ltb 0 port && leb port 65535) ≡ false
      → Sends P (validate_host py cfg world host port)
  unfolding validate_host
  refused_port host port e = rw e (Sends-pure _)

  module _ (public : cfg.route_class ≡ public_class)
      (untrusted : cfg.trusted_internal_destinations ≡ []) where
    validate_name-Sends : (host : Text) (port : ℕ) → Sends P (validate_name py cfg world host port)
    validate_name-Sends host port =
        rw (public_name py cfg world public untrusted host port) (validate_public-Sends host port)

    validate_host-Sends : (host : Text) (port : ℕ) → Sends P (validate_host py cfg world host port)
    validate_host-Sends host port = elim (Bool-cases (ltb 0 port && leb port 65535)) [
      | inl e ↦
          rw
            (
              public_host py cfg world public untrusted host port e,
              public_target py cfg world public untrusted host port,
            )
            (after_literal-Sends (literal_outcome py cfg false host) host port
              (validate_name-Sends host port))
      | inr e ↦ refused_port host port e
    ]

    -- The effects of a validation are lookups.
    pub validate_destination-Sends :
        (host : Text) (port : ℕ) → Sends P (validate_destination py cfg world host port)
    unfolding validate_destination
    validate_destination-Sends host port = validate_host-Sends (normalize_host py host) port

-- On the public route with the VPN enabled no validation asks the system resolver or opens a
-- connection: all that it adds to the history are queries to the provider's resolver, the first address of
-- the VPN interface's network, from the interface's own address.
pub validate_destination-no_leak :
    (py : Python) (cfg : Settings) (world : World)
    → cfg.route_class ≡ public_class
    → cfg.trusted_internal_destinations ≡ []
    → cfg.myst_vpn_enabled ≡ true
    → (host : Text) (port : ℕ) (log : Log)
    → Adds (IsProviderQuery world) log (validate_destination py cfg world host port log).1
validate_destination-no_leak py cfg world public untrusted vpn host port log =
    (validate_destination-Sends py cfg world (IsProviderQuery world) (λ r s m e. e) (λ r s m e. e)
        (λ direct. absurd (false≢true (sym direct ∙ vpn))) public untrusted host port).only
      log
