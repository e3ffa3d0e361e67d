-- ===== src/Egress/Network.antt =====
-- egress/final_hop_proxy.py seen from the network: the effects that the proxy has, the answers that
-- it gets, and its resolvers. An answer may depend on the whole history, so that two lookups of one
-- name may differ. A set of addresses is the ascending list of its members.
pub mod Attempts
pub mod Sends
pub mod Answers
use private_onyx_app.Common.{
  ℕ, ◌+◌, ◌-◌, ◌*◌, ◌/◌, ◌%◌, ◌^◌, Bool, true, false, not, ◌&&◌, ◌||◌, List, [], ◌∷◌, ◌++◌, Option,
  none, some, ltb, leb, ◌==◌, if◌then◌else◌, Text, text_eq, codes, Kind, Raised, Result, ok, err,
  runtime_error, os_error, is_os_error, is_value_error,
}
use private_onyx_app.Common.Actions.{Action, pure, throw, lift, bind}
use private_onyx_app.Egress.Address.{print_v4}
use private_onyx_app.Egress.Platform.{Python, Settings}
use private_onyx_app.Egress.Dns.{encode_dns_name, parse_dns_a_response}

pub data Event : Type 0 where
  -- getaddrinfo through the container's resolver
  system_query : Text → ℕ → Event
  -- a query to the provider's resolver, from the VPN address: resolver, source, message
  provider_udp provider_tcp : Text → Text → List ℕ → Event
  -- open_connection: address, port, and whether TLS to a proxy is spoken
  tcp_connect : Text → ℕ → Bool → Event
  unix_connect : Text → Event

abbrev pub Log : Type 0
Log = List Event

-- What the environment answers. The newest event of a history stands first.
pub record World : Type 0 where
  pub system_dns : Log → Text → ℕ → Result (List Text)
  -- the address and the prefix length of the VPN interface, `none` for an OSError of the ioctl
  pub vpn_interface : Log → Option (ℕ × ℕ)
  pub random_id : Log → ℕ
  pub udp_answer : Log → List ℕ → Result (List ℕ)
  pub tcp_answer : Log → List ℕ → Result (List ℕ)
  pub connects : Log → Text → ℕ → Result (Unit {0})
  pub unix_connects : Log → Text → Result (Unit {0})

infixl 5 ◌>>=◌ ◌>>◌
abbrev pub ◌>>=◌ : {A B : Type 0} → Action Log A → (A → Action Log B) → Action Log B
◌>>=◌ = bind

abbrev pub ◌>>◌ : {A B : Type 0} → Action Log A → Action Log B → Action Log B
m >> k = bind m (λ _. k)

module _ {A : Type 0} where
  -- An effect, with the answer to it.
  abbrev pub perform : Event → (Log → Result A) → Action Log A
  perform event answer log = (answer log, event ∷ log)

  abbrev pub handled : (Kind → Bool) → (Raised → Action Log A) → Result A → Action Log A
  handled catches handler (ok a) log = (ok a, log)
  handled catches handler (err e) log = if catches e.kind then handler e log else (err e, log)

  -- try: m except ...: handler
  abbrev pub attempt : Action Log A → (Kind → Bool) → (Raised → Action Log A) → Action Log A
  attempt m catches handler log = handled catches handler (m log).0 (m log).1

abbrev pub resolver_errors : Kind → Bool
resolver_errors k = is_os_error k || is_value_error k

unfoldable pub text_lt : Text → Text → Bool
text_lt s [] = false
text_lt [] (b ∷ t) = true
text_lt (a ∷ s) (b ∷ t) = if ltb a b then true else (a == b && text_lt s t)

unfoldable pub add_text : Text → List Text → List Text
unfolding text_lt text_eq
add_text t [] = t ∷ []
add_text t (u ∷ us) =
    if text_lt t u then t ∷ (u ∷ us) else if text_eq t u then u ∷ us else u ∷ add_text t us

-- sorted(set(texts))
unfoldable pub sorted_set : List Text → List Text
unfolding add_text
sorted_set [] = []
sorted_set (t ∷ ts) = add_text t (sorted_set ts)

-- A query for the A records of a name.
unfoldable pub query_message : ℕ → List ℕ → List ℕ
query_message query_id name =
    (query_id / 256)
    ∷ (query_id % 256)
    ∷ (1 ∷ 0 ∷ 0 ∷ 1 ∷ 0 ∷ 0 ∷ 0 ∷ 0 ∷ 0 ∷ 0 ∷ (name ++ (0 ∷ 1 ∷ 0 ∷ 1 ∷ [])))

-- The resolver and the source address of the VPN interface with this address and prefix length.
unfoldable pub provider_endpoint : Option (ℕ × ℕ) → Result (Text × Text)
unfolding print_v4
provider_endpoint none = err (record {
  kind = runtime_error;
  message = codes "Mysterium VPN interface has no usable IPv4 configuration";
})
provider_endpoint (some (address, prefixlen)) =
    let network_address = address / 2 ^ (32 - prefixlen) * 2 ^ (32 - prefixlen) in
    if prefixlen == 32
    then err (record {
      kind = runtime_error;
      message = codes "cannot derive provider DNS from a /32 Myst interface";
    })
    else if network_address + 1 == address
    then err (record {
      kind = runtime_error;
      message = codes "derived provider DNS address equals the local Myst address";
    })
    else ok (print_v4 (network_address + 1), print_v4 address)

module _ (py : Python) (cfg : Settings) (world : World) where
  unfoldable pub resolve_system_host : Text → ℕ → Action Log (List Text)
  unfolding sorted_set
  resolve_system_host host port =
      perform (system_query host port) (λ log. world.system_dns log host port) >>= λ addresses.
      pure (sorted_set addresses)

  unfoldable pub myst_provider_dns_endpoint : Action Log (Text × Text)
  unfolding provider_endpoint
  myst_provider_dns_endpoint log = lift (provider_endpoint (world.vpn_interface log)) log

  unfoldable pub after_tcp : List Text × Bool → Action Log (List Text)
  after_tcp (addresses, false) = pure addresses
  after_tcp (addresses, true) = throw os_error (codes "DNS TCP response was unexpectedly truncated")

  -- The answers over UDP, or over TCP where they were truncated.
  unfoldable pub after_udp : Text → Text → List ℕ → ℕ → List Text × Bool → Action Log (List Text)
  unfolding parse_dns_a_response after_tcp
  after_udp resolver_ip local_ip query query_id (addresses, false) = pure addresses
  after_udp resolver_ip local_ip query query_id (addresses, true) =
      perform (provider_tcp resolver_ip local_ip query) (λ log. world.tcp_answer log query)
      >>= λ response. lift (parse_dns_a_response response query_id) >>= after_tcp

  unfoldable pub dns_query_a : Text → Text → Text → Action Log (List Text)
  unfolding after_udp query_message
  dns_query_a host resolver_ip local_ip log =
      let query_id = world.random_id log in
      (lift (encode_dns_name py host) >>= λ name.
      perform (provider_udp resolver_ip local_ip (query_message query_id name))
        (λ l. world.udp_answer l (query_message query_id name))
      >>= λ response.
          lift (parse_dns_a_response response query_id)
          >>= after_udp resolver_ip local_ip (query_message query_id name) query_id)
        log

  unfoldable pub resolve_target_host : Text → ℕ → Action Log (List Text)
  unfolding resolve_system_host myst_provider_dns_endpoint dns_query_a sorted_set
  resolve_target_host host port =
      if not cfg.myst_vpn_enabled
      then resolve_system_host host port
      else myst_provider_dns_endpoint >>= λ endpoint.
          dns_query_a host endpoint.0 endpoint.1 >>= λ addresses. pure (sorted_set addresses)
