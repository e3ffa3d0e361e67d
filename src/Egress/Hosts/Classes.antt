-- ===== src/Egress/Hosts/Classes.antt =====
-- About the seven tests of `_ip_block_reason`.
use private_onyx_app.Common.{
  ℕ, ◌/◌, ◌^◌, ◌≡◌, ◌≢◌, ◌↔◌, true, false, Option, none, some, arith, Text, codes,
}
use private_onyx_app.Egress.Address.{
  Ip, v4, v6, is_private_v4, is_global_v4, is_private, is_global, is_loopback, is_link_local,
  is_multicast, is_unspecified, is_reserved,
}
use private_onyx_app.Egress.Platform.{Python, parse_ip_literal}
use private_onyx_app.Egress.Hosts.{block_reason, is_rfc1918_ip, ip_block_reason, is_rfc1918}

private-loopback : (n : ℕ) → is_loopback (v4 n) ≡ true → is_private_v4 n ≡ true
unfolding is_loopback is_private_v4
private-loopback n h = ground arith

private-link_local : (n : ℕ) → is_link_local (v4 n) ≡ true → is_private_v4 n ≡ true
unfolding is_link_local is_private_v4
private-link_local n h = ground arith

private-reserved : (n : ℕ) → is_reserved (v4 n) ≡ true → is_private_v4 n ≡ true
unfolding is_reserved is_private_v4
private-reserved n h = ground arith

private-unspecified : (n : ℕ) → is_unspecified (v4 n) ≡ true → is_private_v4 n ≡ true
unfolding is_unspecified is_private_v4
private-unspecified n h = ground arith

pub private-rfc1918 : (n : ℕ) → is_rfc1918_ip (v4 n) ≡ true → is_private_v4 n ≡ true
unfolding is_rfc1918_ip is_private_v4
private-rfc1918 n h = ground arith

rfc1918-not_loopback : (n : ℕ) → is_rfc1918_ip (v4 n) ≡ true → is_loopback (v4 n) ≡ false
unfolding is_rfc1918_ip is_loopback
rfc1918-not_loopback n h = ground arith

-- An IPv4 address passes the seven tests exactly when it is global and no multicast address: the
-- tests for loopback, link-local, unspecified and reserved addresses only choose the reason.
pub block_reason-none_v4 :
    (n : ℕ) → (block_reason (v4 n) ≡ none) ↔ (is_global_v4 n ≡ true) × (is_multicast (v4 n) ≡ false)
unfolding block_reason is_private is_global is_global_v4
block_reason-none_v4 n = (
  ground arith,
  ground
      (arith, private-loopback n, private-link_local n, private-reserved n, private-unspecified n),
)

block_reason-private :
    (n : ℕ)
    → is_loopback (v4 n) ≡ false
    → is_private_v4 n ≡ true
    → block_reason (v4 n) ≡ some (codes "private/RFC1918 IP")
unfolding block_reason is_private
block_reason-private n h p = rw (h, p)

-- Every text that the LAN option takes for an RFC1918 address is refused, with the reason
-- "private/RFC1918 IP", wherever the ordinary classification is asked.
pub ip_block_reason-rfc1918 :
    (py : Python) (t : Text)
    → is_rfc1918 py t ≡ true
    → ip_block_reason py t ≡ some (codes "private/RFC1918 IP")
unfolding ip_block_reason is_rfc1918
ip_block_reason-rfc1918 py t = by_ip (parse_ip_literal py t)
  where
    by_ip :
        (o : Option Ip)
        → elim o [ none ↦ false | some ip ↦ is_rfc1918_ip ip ] ≡ true
        → elim o [ none ↦ none | some ip ↦ block_reason ip ] ≡ some (codes "private/RFC1918 IP")
    by_ip none h = cc
    by_ip (some (v4 n)) h = block_reason-private n (rfc1918-not_loopback n h) (private-rfc1918 n h)
    by_ip (some (v6 n)) h = unfold is_rfc1918_ip in cc h

mapped-reserved : (n : ℕ) → n / 2 ^ 32 ≡ 0xffff → is_reserved (v6 n) ≡ true
unfolding is_reserved
mapped-reserved n h = ground arith

-- An IPv4-mapped IPv6 address is refused whatever IPv4 address it holds.
pub block_reason-mapped : (n : ℕ) → n / 2 ^ 32 ≡ 0xffff → block_reason (v6 n) ≢ none
unfolding block_reason
block_reason-mapped n h = ground (arith, mapped-reserved n h)

-- An IPv6 address that passes the seven tests is global, and neither loopback nor link-local.
pub block_reason-none_v6 :
    (n : ℕ)
    → block_reason (v6 n) ≡ none
    → (is_global (v6 n) ≡ true) × (is_loopback (v6 n) ≡ false) × (is_link_local (v6 n) ≡ false)
unfolding block_reason
block_reason-none_v6 n h = ground arith
