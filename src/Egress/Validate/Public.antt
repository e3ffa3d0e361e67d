-- ===== src/Egress/Validate/Public.antt =====
-- About the addresses that `_validate_destination` returns on the public route.
use private_onyx_app.Egress.Validate.Outcomes.{
  IsPublicOutcome, parsed_outcome-IsPublic, checked_answers-IsPublic,
}
use private_onyx_app.Egress.Network.Answers.{resolve_target_host-Literals, Answers}
use private_onyx_app.Common.{
  ℕ, ◌≡◌, refl, sym, ap, ◌∙◌, subst, true, false, not, ◌&&◌, ◌||◌, [], ◌++◌, Option, none, some,
  ltb, leb, Text, codes, is_empty, ok, Bool-cases, inl, inr, ok-injective,
}
use private_onyx_app.Egress.Platform.{
  Python, Settings, public_class, is_host_class, normalize_host, parse_ip_literal,
}
use private_onyx_app.Egress.Hosts.{
  is_configured_local_embedding_destination, is_trusted_internal_destination,
}
use private_onyx_app.Egress.Network.{Log, World, resolve_target_host}
use private_onyx_app.Egress.Network.Attempts.{attempt_inv}
use private_onyx_app.Egress.Validate.{
  Outcome, allowed, refused, literal_outcome, checked_answers, validate_public, validate_name,
  after_literal, validate_target, validate_host, validate_destination, lookup_errors,
}

module _ (py : Python) (cfg : Settings) (world : World) where
  proxied :
      (host : Text) (port : ℕ) (log : Log)
      → (not (is_empty cfg.upstream_proxy) || not (is_empty cfg.tor_socks_unix_path)) ≡ true
      → (validate_public py cfg world host port log).0 ≡ ok (allowed [])
  unfolding validate_public
  proxied host port log e = rw e

  module _ (public : cfg.route_class ≡ public_class)
      (untrusted : cfg.trusted_internal_destinations ≡ []) where
    no_host_class : is_host_class cfg.route_class ≡ false
    no_host_class = ap is_host_class public

    no_embedding :
        (host : Text) (port : ℕ)
        → is_configured_local_embedding_destination py cfg host port ≡ false
    unfolding is_configured_local_embedding_destination
    no_embedding host port = rw no_host_class

    no_trusted : (host : Text) (port : ℕ) → is_trusted_internal_destination py cfg host port ≡ false
    unfolding is_trusted_internal_destination
    no_trusted host port = rw untrusted

    pub public_name :
        (host : Text) (port : ℕ)
        → validate_name py cfg world host port ≡ validate_public py cfg world host port
    unfolding validate_name
    public_name host port = rw no_host_class

    pub public_target :
        (host : Text) (port : ℕ)
        → validate_target py cfg world host port
          ≡ after_literal py cfg world (literal_outcome py cfg false host) host port
    unfolding validate_target
    public_target host port = rw (no_host_class, no_trusted host port)

    pub public_host :
        (host : Text) (port : ℕ)
        → (ltb 0 port && leb port 65535) ≡ true
        → validate_host py cfg world host port ≡ validate_target py cfg world host port
    unfolding validate_host
    public_host host port e = rw (e, no_embedding host port)

    bad_port :
        (host : Text) (port : ℕ) (log : Log)
        → (ltb 0 port && leb port 65535) ≡ false
        → (validate_host py cfg world host port log).0 ≡ ok (refused (codes "invalid port"))
    unfolding validate_host
    bad_port host port log e = rw e

module _ (py : Python) (cfg : Settings) (world : World) (answers : Answers py world) where
  validate_public-IsPublic :
      (host : Text) (port : ℕ) (log : Log) (outcome : Outcome)
      → (validate_public py cfg world host port log).0 ≡ ok outcome
      → IsPublicOutcome py outcome
  validate_public-IsPublic host port log outcome h =
      elim (Bool-cases
        (not (is_empty cfg.upstream_proxy) || not (is_empty cfg.tor_socks_unix_path))) [
          | inl e ↦
              subst (IsPublicOutcome py)
                (ok-injective (sym (proxied py cfg world host port log e) ∙ h)) tt
          | inr e ↦
              elim (attempt_inv (checked_answers py) lookup_errors
                (λ exc. refused (codes "DNS resolution failed: " ++ exc.message))
                (resolve_target_host py cfg world host port) log outcome
                (unfold validate_public in rw e at h)) [
                  | inl r ↦ subst (IsPublicOutcome py) r.2 (
                      checked_answers-IsPublic py r.0 (
                        (resolve_target_host-Literals py cfg world answers host port).holds log r.0
                          r.1))
                  | inr r ↦ subst (IsPublicOutcome py) r.1 refl
                ]
        ]

  module _ (public : cfg.route_class ≡ public_class)
      (untrusted : cfg.trusted_internal_destinations ≡ []) where
    after_literal-IsPublic :
        (o : Option Outcome) (host : Text) (port : ℕ) (log : Log) (outcome : Outcome)
        → ((found : Outcome) → o ≡ some found → IsPublicOutcome py found)
        → (after_literal py cfg world o host port log).0 ≡ ok outcome
        → IsPublicOutcome py outcome
    unfolding after_literal
    after_literal-IsPublic (some found) host port log outcome lit h =
        subst (IsPublicOutcome py) (ok-injective h) (lit found refl)
    after_literal-IsPublic none host port log outcome lit h =
        validate_public-IsPublic host port log outcome
          (rw (public_name py cfg world public untrusted) at h)

    literal_public :
        (host : Text) (outcome : Outcome)
        → literal_outcome py cfg false host ≡ some outcome
        → IsPublicOutcome py outcome
    unfolding literal_outcome
    literal_public host outcome h =
        parsed_outcome-IsPublic py cfg host (parse_ip_literal py host) outcome answers.word_of_text
          refl h

    validate_host-IsPublic :
        (host : Text) (port : ℕ) (log : Log) (outcome : Outcome)
        → (validate_host py cfg world host port log).0 ≡ ok outcome
        → IsPublicOutcome py outcome
    validate_host-IsPublic host port log outcome h =
        elim (Bool-cases (ltb 0 port && leb port 65535)) [
          | inl e ↦
              after_literal-IsPublic (literal_outcome py cfg false host) host port log outcome
                (literal_public host)
                (rw
                  (
                    public_host py cfg world public untrusted host port e,
                    public_target py cfg world public untrusted host port,
                  )
                  at h)
          | inr e ↦
              subst (IsPublicOutcome py)
                (ok-injective (sym (bad_port py cfg world public untrusted host port log e) ∙ h))
                refl
        ]

    pub validate_destination-IsPublic :
        (host : Text) (port : ℕ) (log : Log) (outcome : Outcome)
        → (validate_destination py cfg world host port log).0 ≡ ok outcome
        → IsPublicOutcome py outcome
    unfolding validate_destination
    validate_destination-IsPublic host port log outcome h =
        validate_host-IsPublic (normalize_host py host) port log outcome h
