-- ===== src/Egress/Validate/Outcomes.antt =====
-- About the outcomes that `_validate_destination` makes of address literals and of the answers of a lookup.
use private_onyx_app.Egress.Network.Answers.{print_v4-IsLiteral, IsLiteral}
use private_onyx_app.Common.{
  all, if-elim, ◌<◌, ℕ, ◌/◌, ◌^◌, ◌≡◌, refl, sym, ap, ◌∙◌, subst, ◌≢◌, true, false, not, ◌||◌, List,
  [], ◌∷◌, ◌++◌, Option, none, some, some_inv, arith, All, Text, codes, is_empty, Bool-cases,
  Option-cases, inl, inr,
}
use private_onyx_app.Egress.Address.{
  print_v4, is_global, is_loopback, is_link_local, Ip, v4, v6, is_global_v4, is_multicast,
}
use private_onyx_app.Egress.Platform.{Python, Settings, parse_ip_literal}
use private_onyx_app.Egress.Hosts.{
  block_reason, ip_block_reason, is_rfc1918, loose_ipv4_literal, is_loose_char,
  hostname_block_reason,
}
use private_onyx_app.Egress.Hosts.Classes.{
  block_reason-none_v6, block_reason-none_v4, block_reason-mapped, ip_block_reason-rfc1918,
}
use private_onyx_app.Egress.Validate.{
  Outcome, allowed, refused, first_blocked, address_outcome, shorthand_outcome, name_outcome,
  loose_outcome, parsed_outcome, checked_answers,
}

-- An address to which the public route may connect: a literal, not private, global and no multicast address if
-- it is IPv4; global, neither loopback nor link-local and no IPv4-mapped address if it is IPv6.
pub record IsPublic (py : Python) (ip : Text) : Type 0 where
  pub is_literal : IsLiteral py ip
  pub not_private : is_rfc1918 py ip ≡ false
  pub global : (n : ℕ) → parse_ip_literal py ip ≡ some (v4 n) → is_global_v4 n ≡ true
  pub unicast : (n : ℕ) → parse_ip_literal py ip ≡ some (v4 n) → is_multicast (v4 n) ≡ false
  pub global_v6 :
      (n : ℕ)
      → parse_ip_literal py ip ≡ some (v6 n)
      → (is_global (v6 n) ≡ true) × (is_loopback (v6 n) ≡ false) × (is_link_local (v6 n) ≡ false)
  pub unmapped : (n : ℕ) → parse_ip_literal py ip ≡ some (v6 n) → n / 2 ^ 32 ≢ 0xffff

module _ (py : Python) where
  parsed_reason :
      (ip : Text) (a : Ip)
      → parse_ip_literal py ip ≡ some a
      → ip_block_reason py ip ≡ block_reason a
  unfolding ip_block_reason
  parsed_reason ip a e =
      ap (λ o. elim o as (λ x. Option Text) [ none ↦ none | some i ↦ block_reason i ]) e

  IsPublic-of_reason : (ip : Text) → IsLiteral py ip → ip_block_reason py ip ≡ none → IsPublic py ip
  IsPublic-of_reason ip l h = record {
    is_literal = l;
    not_private = elim (Bool-cases (is_rfc1918 py ip)) [
      | inl e ↦ absurd (cc (ip_block_reason-rfc1918 py ip e))
      | inr e ↦ e
    ];
    global = λ n e. ((block_reason-none_v4 n).0 (sym (parsed_reason ip (v4 n) e) ∙ h)).0;
    unicast = λ n e. ((block_reason-none_v4 n).0 (sym (parsed_reason ip (v4 n) e) ∙ h)).1;
    global_v6 = λ n e. block_reason-none_v6 n (sym (parsed_reason ip (v6 n) e) ∙ h);
    unmapped = λ n e m. block_reason-mapped n m (sym (parsed_reason ip (v6 n) e) ∙ h);
  }

  first_blocked-none :
      (ips : List Text)
      → All (IsLiteral py) ips
      → first_blocked py ips ≡ none
      → All (IsPublic py) ips
  unfolding first_blocked
  first_blocked-none [] l h = tt
  first_blocked-none (ip ∷ ips) l h = elim (Option-cases (ip_block_reason py ip)) [
    | inl e ↦ (IsPublic-of_reason ip l.0 e, first_blocked-none ips l.1 (ground arith))
    | inr e ↦ absurd (ground arith)
  ]

-- What holds of an outcome of the public route.
abbrev pub IsPublicOutcome : Python → Outcome → Type 0
IsPublicOutcome py (none, ips) = All (IsPublic py) ips
IsPublicOutcome py (some reason, ips) = ips ≡ []

module _ (py : Python) where
  address_outcome-IsPublic :
      (host : Text) (reason : Option Text)
      → IsLiteral py host
      → ip_block_reason py host ≡ reason
      → IsPublicOutcome py (address_outcome py host reason)
  address_outcome-IsPublic host none l h = (IsPublic-of_reason py host l h, tt)
  address_outcome-IsPublic host (some r) l h = refl

  shorthand_outcome-IsPublic :
      (host : Text) (reason : Option Text)
      → IsLiteral py host
      → ip_block_reason py host ≡ reason
      → IsPublicOutcome py (shorthand_outcome py host reason)
  shorthand_outcome-IsPublic host none l h = (IsPublic-of_reason py host l h, tt)
  shorthand_outcome-IsPublic host (some r) l h = refl

  name_outcome-IsPublic :
      (reason : Option Text) (outcome : Outcome)
      → name_outcome py reason ≡ some outcome
      → IsPublicOutcome py outcome
  name_outcome-IsPublic none outcome h = absurd (cc h)
  name_outcome-IsPublic (some r) outcome h = subst (IsPublicOutcome py) (some_inv h) refl

  loose_ipv4_literal-IsLiteral :
      (host ip : Text)
      → ((t : Text) (n : ℕ) → py.inet_aton t ≡ some n → n < 2 ^ 32)
      → loose_ipv4_literal py host ≡ some ip
      → IsLiteral py ip
  unfolding loose_ipv4_literal
  loose_ipv4_literal-IsLiteral host ip word =
      if-elim (λ o. o ≡ some ip → IsLiteral py ip)
        (is_empty host || not (all (is_loose_char py) host)) (λ _ h. absurd (cc h))
        (λ _. by_word (py.inet_aton host) refl)
    where
      by_word :
          (o : Option ℕ)
          → py.inet_aton host ≡ o
          → elim o as (λ o. Option Text) [ none ↦ none | some n ↦ some (print_v4 n) ] ≡ some ip
          → IsLiteral py ip
      by_word none e h = absurd (cc h)
      by_word (some n) e h =
          subst (IsLiteral py) (some_inv h) (print_v4-IsLiteral py n (word host n e))

  pub parsed_outcome-IsPublic :
      (cfg : Settings) (host : Text) (parsed : Option Ip) (outcome : Outcome)
      → ((t : Text) (n : ℕ) → py.inet_aton t ≡ some n → n < 2 ^ 32)
      → parse_ip_literal py host ≡ parsed
      → parsed_outcome py cfg host parsed ≡ some outcome
      → IsPublicOutcome py outcome
  unfolding parsed_outcome
  parsed_outcome-IsPublic cfg host (some ip) outcome word p h =
      subst (IsPublicOutcome py) (some_inv h)
        (address_outcome-IsPublic host (ip_block_reason py host) (ip, p) refl)
  parsed_outcome-IsPublic cfg host none outcome word p h =
      by_shorthand (loose_ipv4_literal py host) refl h
    where
      by_shorthand :
          (loose : Option Text)
          → loose_ipv4_literal py host ≡ loose
          → loose_outcome py cfg host loose ≡ some outcome
          → IsPublicOutcome py outcome
      by_shorthand (some ip) l e = subst (IsPublicOutcome py) (some_inv e) (
          shorthand_outcome-IsPublic ip (ip_block_reason py ip)
            (loose_ipv4_literal-IsLiteral host ip word l) refl)
      by_shorthand none l e = name_outcome-IsPublic (hostname_block_reason py cfg host) outcome e

  pub checked_answers-IsPublic :
      (ips : List Text) → All (IsLiteral py) ips → IsPublicOutcome py (checked_answers py ips)
  unfolding checked_answers
  checked_answers-IsPublic [] l = refl
  checked_answers-IsPublic (ip ∷ ips) l = by_first (first_blocked py (ip ∷ ips)) refl
    where
      by_first :
          (first : Option (Text × Text))
          → first_blocked py (ip ∷ ips) ≡ first
          → IsPublicOutcome py (elim first as (λ o. Outcome) [
            | none ↦ allowed (ip ∷ ips)
            | some (address, reason) ↦ refused (
                codes "DNS resolved to blocked "
                ++ (address ++ (codes " (" ++ (reason ++ codes ")"))))
          ])
      by_first none e = first_blocked-none py (ip ∷ ips) l e
      by_first (some (a, r)) e = refl
