-- ===== src/Egress/Network/Sends.antt =====
-- Which effects an action has: the events that it adds to the history.
use private_onyx_app.Egress.Address.{print_v4}
use private_onyx_app.Common.{
  ok-injective, sym, arith, refl, ◌==◌, if-elim, none, ◌+◌, ◌*◌, ◌-◌, ◌^◌, ap, ◌/◌, Option, ◌≢◌,
  some, ℕ, ◌≡◌, Bool, true, false, List, ◌∷◌, if◌then◌else◌, Text, Kind, Raised, Result, ok, err,
  Bool-cases, inl, inr,
}
use private_onyx_app.Common.Actions.{Action, pure, throw, lift, continue}
use private_onyx_app.Egress.Platform.{Python, Settings}
use private_onyx_app.Egress.Dns.{encode_dns_name, parse_dns_a_response}
use private_onyx_app.Egress.Network.{
  sorted_set, provider_endpoint, Log, Event, system_query, provider_udp, provider_tcp, World, ◌>>=◌,
  perform, handled, attempt, query_message, after_tcp, after_udp, dns_query_a,
  myst_provider_dns_endpoint, resolve_system_host, resolve_target_host,
}

-- The endpoints of a lookup through the VPN, as its interface stood at some time: the resolver is the first
-- address of the interface's network and not the interface's own, from which it is asked.
pub record IsEndpoint (world : World) (resolver source : Text) : Type 0 where
  pub seen : Log
  pub address : ℕ
  pub prefixlen : ℕ
  pub interface : world.vpn_interface seen ≡ some (address, prefixlen)
  pub is_network : prefixlen ≢ 32
  pub not_self : address / 2 ^ (32 - prefixlen) * 2 ^ (32 - prefixlen) + 1 ≢ address
  pub is_resolver : resolver ≡ print_v4 (address / 2 ^ (32 - prefixlen) * 2 ^ (32 - prefixlen) + 1)
  pub is_source : source ≡ print_v4 address

endpoint_inv :
    (address prefixlen : ℕ) (found : Text × Text)
    → provider_endpoint (some (address, prefixlen)) ≡ ok found
    → let first = address / 2 ^ (32 - prefixlen) * 2 ^ (32 - prefixlen) + 1 in
      (prefixlen ≢ 32) × (first ≢ address) × (found ≡ (print_v4 first, print_v4 address))
unfolding provider_endpoint
endpoint_inv address prefixlen found =
    let first = address / 2 ^ (32 - prefixlen) * 2 ^ (32 - prefixlen) + 1 in
    let Inverted : Type 0 =
      (prefixlen ≢ 32) × (first ≢ address) × (found ≡ (print_v4 first, print_v4 address)) in
    if-elim (λ (r : Result (Text × Text)). r ≡ ok found → Inverted) (prefixlen == 32)
      (λ _ h. absurd (cc h))
      (λ long.
        if-elim (λ (r : Result (Text × Text)). r ≡ ok found → Inverted) (first == address)
          (λ _ h. absurd (cc h))
          (λ other h. (ground (arith, long), ground (arith, other), sym (ok-injective h))))

provider_endpoint-IsEndpoint :
    (world : World) (log : Log) (found : Text × Text)
    → provider_endpoint (world.vpn_interface log) ≡ ok found
    → IsEndpoint world found.0 found.1
unfolding provider_endpoint
provider_endpoint-IsEndpoint world log found h = by_interface (world.vpn_interface log) refl h
  where
    by_interface :
        (o : Option (ℕ × ℕ))
        → world.vpn_interface log ≡ o
        → provider_endpoint o ≡ ok found
        → IsEndpoint world found.0 found.1
    by_interface none e h' = absurd (cc h')
    by_interface (some (address, prefixlen)) e h' =
        let (is_network, not_self, same) = endpoint_inv address prefixlen found h' in
        record {
          seen = log;
          address = address;
          prefixlen = prefixlen;
          interface = e;
          is_network = is_network;
          not_self = not_self;
          is_resolver = ap (λ (p : Text × Text). p.0) same;
          is_source = ap (λ (p : Text × Text). p.1) same;
        }

-- `later` is `log` behind further events, all of which have the property.
pub data Adds (P : Event → Type 0) (log : Log) : Log → Type 0 where
  same : Adds P log log
  further : {later : Log} (event : Event) → P event → Adds P log later → Adds P log (event ∷ later)

-- An action all of whose effects have the property, whatever the history.
pub record Sends (P : Event → Type 0) {A : Type 0} (m : Action Log A) : Type 0 where
  pub only : (log : Log) → Adds P log (m log).1

module _ {P : Event → Type 0} where
  pub Adds-trans : {a b c : Log} → Adds P a b → Adds P b c → Adds P a c
  Adds-trans p same = p
  Adds-trans p (further event h q) = further event h (Adds-trans p q)

  module _ {A : Type 0} where
    pub Sends-pure : (a : A) → Sends P (pure a)
    Sends-pure a = record { only = λ log. same }

    pub Sends-throw : (k : Kind) (m : Text) → Sends P (throw {A = A} k m)
    Sends-throw k m = record { only = λ log. same }

    pub Sends-lift : (r : Result A) → Sends P (lift r)
    Sends-lift r = record { only = λ log. same }

    pub Sends-perform :
        (event : Event) (answer : Log → Result A) → P event → Sends P (perform event answer)
    Sends-perform event answer h = record { only = λ log. further event h same }

    pub Sends-if :
        (b : Bool) (m n : Action Log A) → Sends P m → Sends P n → Sends P (if b then m else n)
    Sends-if true m n h k = h
    Sends-if false m n h k = k

    handled_only :
        (r : Result A) (catches : Kind → Bool) (g : Raised → Action Log A) (log : Log)
        → ((e : Raised) → Sends P (g e))
        → Adds P log (handled catches g r log).1
    handled_only (ok a) catches g log h = same
    handled_only (err e) catches g log h = elim (Bool-cases (catches e.kind)) [
      | inl c ↦ rw c ((h e).only log)
      | inr c ↦ rw c same
    ]

    pub Sends-attempt :
        (m : Action Log A) (catches : Kind → Bool) (g : Raised → Action Log A)
        → Sends P m
        → ((e : Raised) → Sends P (g e))
        → Sends P (attempt m catches g)
    Sends-attempt m catches g h k = record {
      only = λ log. Adds-trans (h.only log) (handled_only (m log).0 catches g (m log).1 k);
    }

  module _ {A B : Type 0} where
    -- What follows a result need have only effects with the property where the result is returned.
    pub continue_only :
        (r : Result A) (f : A → Action Log B) (log : Log)
        → ((a : A) → r ≡ ok a → Adds P log (f a log).1)
        → Adds P log (continue r f log).1
    continue_only (ok a) f log h = h a (λ i. ok a)
    continue_only (err e) f log h = same

    pub Sends-bind :
        (m : Action Log A) (f : A → Action Log B)
        → Sends P m
        → ((a : A) → Sends P (f a))
        → Sends P (m >>= f)
    Sends-bind m f h k = record {
      only = λ log.
          Adds-trans (h.only log)
            (continue_only (m log).0 f (m log).1 (λ a e. (k a).only (m log).1));
    }

module _ (py : Python) (cfg : Settings) (world : World) (P : Event → Type 0) where
  pub resolve_system_host-Sends :
      (host : Text) (port : ℕ)
      → P (system_query host port)
      → Sends P (resolve_system_host py cfg world host port)
  unfolding resolve_system_host
  resolve_system_host-Sends host port h =
      Sends-bind _ _
        (Sends-perform (system_query host port) (λ log. world.system_dns log host port) h)
        (λ addresses. Sends-pure _)

  after_tcp-Sends : (found : List Text × Bool) → Sends P (after_tcp py cfg world found)
  unfolding after_tcp
  after_tcp-Sends (addresses, false) = Sends-pure addresses
  after_tcp-Sends (addresses, true) = Sends-throw _ _

  module _ (resolver source : Text)
      (udp : (message : List ℕ) → P (provider_udp resolver source message))
      (tcp : (message : List ℕ) → P (provider_tcp resolver source message)) where
    after_udp-Sends :
        (message : List ℕ) (query_id : ℕ) (found : List Text × Bool)
        → Sends P (after_udp py cfg world resolver source message query_id found)
    unfolding after_udp
    after_udp-Sends message query_id (addresses, false) = Sends-pure addresses
    after_udp-Sends message query_id (addresses, true) =
        Sends-bind _ _
          (Sends-perform (provider_tcp resolver source message)
            (λ log. world.tcp_answer log message) (tcp message))
          (λ response.
            Sends-bind _ _ (Sends-lift (parse_dns_a_response response query_id)) after_tcp-Sends)

    dns_query_a-Sends : (host : Text) → Sends P (dns_query_a py cfg world host resolver source)
    unfolding dns_query_a
    dns_query_a-Sends host = record {
      only = λ log.
          (Sends-bind _ _ (Sends-lift (encode_dns_name py host)) (λ name.
              let message = query_message (world.random_id log) name in
              Sends-bind _ _
                (Sends-perform (provider_udp resolver source message)
                  (λ l. world.udp_answer l message) (udp message))
                (λ response.
                  Sends-bind _ _ (Sends-lift (parse_dns_a_response response (world.random_id log)))
                    (after_udp-Sends message (world.random_id log))))).only
            log;
    }

  module _
      (udp : (resolver source : Text) (message : List ℕ)
        → IsEndpoint world resolver source
        → P (provider_udp resolver source message))
      (tcp : (resolver source : Text) (message : List ℕ)
        → IsEndpoint world resolver source
        → P (provider_tcp resolver source message)) where
    pub resolve_target_host-Sends :
        (host : Text) (port : ℕ)
        → (cfg.myst_vpn_enabled ≡ false → P (system_query host port))
        → Sends P (resolve_target_host py cfg world host port)
    unfolding resolve_target_host myst_provider_dns_endpoint
    resolve_target_host-Sends host port system = elim (Bool-cases cfg.myst_vpn_enabled) [
      | inl vpn ↦ simp vpn (record { only = from_endpoint })
      | inr direct ↦ simp direct (resolve_system_host-Sends host port (system direct))
    ]
      where
        from_endpoint :
            (log : Log)
            → Adds P log
                ((myst_provider_dns_endpoint py cfg world >>= λ endpoint.
                    dns_query_a py cfg world host endpoint.0 endpoint.1 >>= λ addresses.
                    pure (sorted_set addresses))
                  log).1
        from_endpoint log =
            continue_only (provider_endpoint (world.vpn_interface log)) _ log (λ endpoint e.
              let is_endpoint = provider_endpoint-IsEndpoint world log endpoint e in
              (Sends-bind _ _
                  (dns_query_a-Sends endpoint.0 endpoint.1
                    (λ message. udp endpoint.0 endpoint.1 message is_endpoint)
                    (λ message. tcp endpoint.0 endpoint.1 message is_endpoint) host)
                  (λ addresses. Sends-pure _)).only
                log)
