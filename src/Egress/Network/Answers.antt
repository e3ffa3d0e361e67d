-- ===== src/Egress/Network/Answers.antt =====
-- About the addresses that a lookup returns.
use private_onyx_app.Egress.Dns.{parse_dns_a_response, encode_dns_name}
use private_onyx_app.Egress.Address.{v6, print_v4, v4, parse_v4, Ip}
use private_onyx_app.Egress.Network.{
  ◌>>=◌, provider_udp, query_message, myst_provider_dns_endpoint, provider_tcp, system_query,
  text_lt, perform, resolve_target_host, dns_query_a, after_udp, after_tcp, resolve_system_host,
  sorted_set, add_text, Log, World, Event,
}
use private_onyx_app.Common.{
  Option, inr, refl, true, inl, Bool-cases, text_eq, false, err, ◌^◌, [], if◌then◌else◌, ap, none,
  ◌∷◌, ok-injective, ok, some, ◌<◌, All, ℕ, Bool, subst, ◌≡◌, Text, List, Result, Kind,
}
use private_onyx_app.Common.Actions.{continue, lift, throw, pure, Action}
use private_onyx_app.Egress.Platform.{Settings, parse_ip_literal, Python}
use private_onyx_app.Egress.Dns.Bounds.{IsAddress, parse_dns_a_response-ok}
use private_onyx_app.Egress.Address.Dotted.{parse_v4-print_v4}

-- The text is an address literal, which the classification of addresses reads.
abbrev pub IsLiteral : Python → Text → Type 0
IsLiteral py ip = (address : Ip) × (parse_ip_literal py ip ≡ some address)

-- What the model relies on: getaddrinfo answers with address literals, a datagram or a stream yields
-- bytes, and `inet_aton` yields an address of 32 bits.
pub record Answers (py : Python) (world : World) : Type 0 where
  pub literals :
      (log : Log) (host : Text) (port : ℕ) (ips : List Text)
      → world.system_dns log host port ≡ ok ips
      → All (IsLiteral py) ips
  pub udp_bytes :
      (log : Log) (message response : List ℕ)
      → world.udp_answer log message ≡ ok response
      → All (λ b. b < 256) response
  pub tcp_bytes :
      (log : Log) (message response : List ℕ)
      → world.tcp_answer log message ≡ ok response
      → All (λ b. b < 256) response
  pub word_of_text : (t : Text) (n : ℕ) → py.inet_aton t ≡ some n → n < 2 ^ 32

-- An action whose results have the property, whatever the history.
pub record Yields {A : Type 0} (P : A → Type 0) (m : Action Log A) : Type 0 where
  pub holds : (log : Log) (a : A) → (m log).0 ≡ ok a → P a

module _ {A : Type 0} {P : A → Type 0} where
  Yields-pure : (a : A) → P a → Yields P (pure a)
  Yields-pure a h = record { holds = λ log b e. subst P (ok-injective e) h }

  Yields-throw : (k : Kind) (m : Text) → Yields P (throw {A = A} k m)
  Yields-throw k m = record { holds = λ log a e. absurd (cc e) }

  Yields-lift : (r : Result A) → ((a : A) → r ≡ ok a → P a) → Yields P (lift r)
  Yields-lift r h = record { holds = λ log a e. h a e }

  Yields-perform :
      (event : Event) (answer : Log → Result A)
      → ((log : Log) (a : A) → answer log ≡ ok a → P a)
      → Yields P (perform event answer)
  Yields-perform event answer h = record { holds = h }

module _ {A B : Type 0} where
  continue_holds :
      (C : Type 0) (r : Result A) (f : A → Action Log B) (log : Log) (b : B)
      → ((a : A) → r ≡ ok a → (f a log).0 ≡ ok b → C)
      → (continue r f log).0 ≡ ok b
      → C
  continue_holds C (ok a) f log b h e = h a refl e
  continue_holds C (err x) f log b h e = absurd (cc e)

  Yields-bind :
      {P : B → Type 0} (Q : A → Type 0) (m : Action Log A) (f : A → Action Log B)
      → Yields Q m
      → ((a : A) → Q a → Yields P (f a))
      → Yields P (m >>= f)
  Yields-bind {P = P} Q m f h k = record {
    holds = λ log b.
        continue_holds (P b) (m log).0 f (m log).1 b
          (λ a e e'. (k a (h.holds log a e)).holds _ b e');
  }

if_Literals :
    (P : List Text → Type 0) (b : Bool) (xs ys : List Text) → P xs → P ys → P (if b then xs else ys)
if_Literals P true xs ys h k = h
if_Literals P false xs ys h k = k

module _ (P : Text → Type 0) where
  add_text-All : (t : Text) (ts : List Text) → P t → All P ts → All P (add_text t ts)
  unfolding add_text
  add_text-All t [] p h = (p, tt)
  add_text-All t (u ∷ us) p h =
      let rest = add_text-All t us p h.1 in
      if_Literals (All P) (text_lt t u) _ _ (p, h)
        (if_Literals (All P) (text_eq t u) _ _ h (h.0, rest))

  sorted_set-All : (ts : List Text) → All P ts → All P (sorted_set ts)
  unfolding sorted_set
  sorted_set-All [] h = tt
  sorted_set-All (t ∷ ts) h = add_text-All t (sorted_set ts) h.0 (sorted_set-All ts h.1)

module _ (py : Python) where
  literal_of_v4 : (t : Text) (n : ℕ) → parse_v4 t ≡ some n → parse_ip_literal py t ≡ some (v4 n)
  unfolding parse_ip_literal
  literal_of_v4 t n e =
      ap
        (λ (o : Option ℕ). elim o as (λ o. Option Ip) [
          | some n ↦ some (v4 n)
          | none ↦ elim (py.parse_v6 t) [ some n ↦ some (v6 n) | none ↦ none ]
        ])
        e

  pub print_v4-IsLiteral : (n : ℕ) → n < 2 ^ 32 → IsLiteral py (print_v4 n)
  print_v4-IsLiteral n h = (v4 n, literal_of_v4 (print_v4 n) n (parse_v4-print_v4 n h))

  addresses-IsLiteral : (ts : List Text) → All IsAddress ts → All (IsLiteral py) ts
  addresses-IsLiteral [] h = tt
  addresses-IsLiteral (t ∷ ts) ((n, small, e), h) =
      ((v4 n, literal_of_v4 t n e), addresses-IsLiteral ts h)

  -- What a DNS response yields.
  abbrev Found : List Text × Bool → Type 0
  Found found = All (IsLiteral py) found.0

  response-Found :
      (message : List ℕ) (query_id : ℕ)
      → All (λ b. b < 256) message
      → Yields Found (lift (parse_dns_a_response message query_id))
  response-Found message query_id b =
      Yields-lift (parse_dns_a_response message query_id) (λ found e.
        let (_, _, _, _, addresses, _) =
          parse_dns_a_response-ok message query_id found.0 found.1 b e in
        addresses-IsLiteral found.0 addresses)

module _ (py : Python) (cfg : Settings) (world : World) (answers : Answers py world) where
  abbrev Literals : List Text → Type 0
  Literals = All (IsLiteral py)

  abbrev Bytes : List ℕ → Type 0
  Bytes = All (λ b. b < 256)

  resolve_system_host-Literals :
      (host : Text) (port : ℕ) → Yields Literals (resolve_system_host py cfg world host port)
  unfolding resolve_system_host
  resolve_system_host-Literals host port =
      Yields-bind Literals _ _
        (Yields-perform (system_query host port) (λ log. world.system_dns log host port)
          (λ log ips. answers.literals log host port ips))
        (λ ips h. Yields-pure _ (sorted_set-All (IsLiteral py) ips h))

  after_tcp-Literals :
      (found : List Text × Bool) → Found py found → Yields Literals (after_tcp py cfg world found)
  unfolding after_tcp
  after_tcp-Literals (addresses, false) h = Yields-pure addresses h
  after_tcp-Literals (addresses, true) h = Yields-throw _ _

  after_udp-Literals :
      (resolver source : Text) (message : List ℕ) (query_id : ℕ) (found : List Text × Bool)
      → Found py found
      → Yields Literals (after_udp py cfg world resolver source message query_id found)
  unfolding after_udp
  after_udp-Literals resolver source message query_id (addresses, false) h = Yields-pure addresses h
  after_udp-Literals resolver source message query_id (addresses, true) h =
      Yields-bind Bytes _ _
        (Yields-perform (provider_tcp resolver source message) (λ log. world.tcp_answer log message)
          (λ log response. answers.tcp_bytes log message response))
        (λ response b.
          Yields-bind (Found py) _ _ (response-Found py response query_id b) after_tcp-Literals)

  dns_query_a-Literals :
      (host resolver source : Text)
      → Yields Literals (dns_query_a py cfg world host resolver source)
  unfolding dns_query_a
  dns_query_a-Literals host resolver source = record {
    holds = λ log.
        (Yields-bind (λ name. Unit {0}) _ _ (Yields-lift (encode_dns_name py host) (λ name e. tt))
            (λ name u.
              let message = query_message (world.random_id log) name in
              Yields-bind Bytes _ _
                (Yields-perform (provider_udp resolver source message)
                  (λ l. world.udp_answer l message)
                  (λ l response. answers.udp_bytes l message response))
                (λ response b.
                  Yields-bind (Found py) _ _ (response-Found py response (world.random_id log) b)
                    (after_udp-Literals resolver source message (world.random_id log))))).holds
          log;
  }

  -- Whichever resolver is asked, a lookup returns address literals.
  pub resolve_target_host-Literals :
      (host : Text) (port : ℕ) → Yields Literals (resolve_target_host py cfg world host port)
  unfolding resolve_target_host myst_provider_dns_endpoint
  resolve_target_host-Literals host port = elim (Bool-cases cfg.myst_vpn_enabled) [
    | inl vpn ↦ simp vpn (
        Yields-bind (λ (endpoint : Text × Text). Unit {0}) _ _
          (record { holds = λ log endpoint e. tt })
          (λ (endpoint : Text × Text) u.
            Yields-bind Literals _ _ (dns_query_a-Literals host endpoint.0 endpoint.1)
              (λ ips h. Yields-pure _ (sorted_set-All (IsLiteral py) ips h))))
    | inr direct ↦ simp direct (resolve_system_host-Literals host port)
  ]
