-- ===== src/Egress/Address.antt =====
-- Python's `ipaddress` module, as far as egress/final_hop_proxy.py reads it: the values of IPv4
-- and IPv6 addresses, their IANA classes, and the dotted form of IPv4. The parser of IPv6 texts is
-- a parameter of the model (`Python` of Egress/Platform). The classes are those of Python
-- 3.12, the PYTHON_SLIM_IMAGE of stack.versions.env: there every IPv4-mapped IPv6 address is reserved,
-- and only later versions ask the IPv4 address in it.
pub mod Dotted
use private_onyx_app.Common.{
  ℕ, ◌+◌, ◌*◌, ◌/◌, ◌%◌, ◌^◌, Bool, true, false, not, ◌&&◌, ◌||◌, List, [], ◌∷◌, ◌++◌, Option, none,
  some, ltb, leb, ◌==◌, if◌then◌else◌, any, all, length, Text, codes, split_on, is_empty, is_digit,
  of_digits, decimal,
}

pub data Ip : Type 0 where
  v4 v6 : ℕ → Ip

-- A network is its first address and the number of its host bits: 10.0.0.0/8 has 24.
abbrev pub Network : Type 0
Network = ℕ × ℕ

abbrev pub quad : ℕ → ℕ → ℕ → ℕ → ℕ
quad a b c d = ((a * 256 + b) * 256 + c) * 256 + d

unfoldable pub in_network : ℕ → Network → Bool
in_network n (base, bits) = n / 2 ^ bits == base / 2 ^ bits

unfoldable pub in_networks : ℕ → List Network → Bool
unfolding any in_network
in_networks n = any (in_network n)

abbrev pub private_networks_v4 : List Network
private_networks_v4 =
    (quad 0 0 0 0, 24)
    ∷ (quad 10 0 0 0, 24)
    ∷ (quad 127 0 0 0, 24)
    ∷ (quad 169 254 0 0, 16)
    ∷ (quad 172 16 0 0, 20)
    ∷ (quad 192 0 0 0, 8)
    ∷ (quad 192 0 0 170, 1)
    ∷ (quad 192 0 2 0, 8)
    ∷ (quad 192 168 0 0, 16)
    ∷ (quad 198 18 0 0, 17)
    ∷ (quad 198 51 100 0, 8)
    ∷ (quad 203 0 113 0, 8)
    ∷ (quad 240 0 0 0, 28)
    ∷ (quad 255 255 255 255, 0)
    ∷ []

abbrev pub private_exceptions_v4 : List Network
private_exceptions_v4 = (quad 192 0 0 9, 0) ∷ (quad 192 0 0 10, 0) ∷ []

abbrev pub private_networks_v6 : List Network
private_networks_v6 =
    (1, 0)
    ∷ (0, 0)
    ∷ (0xffff * 2 ^ 32, 32)
    ∷ (0x64_ff9b_0001 * 2 ^ 80, 80)
    ∷ (0x100 * 2 ^ 112, 64)
    ∷ (0x2001 * 2 ^ 112, 105)
    ∷ (0x2001_0db8 * 2 ^ 96, 96)
    ∷ (0x2002 * 2 ^ 112, 112)
    ∷ (0xfc00 * 2 ^ 112, 121)
    ∷ (0xfe80 * 2 ^ 112, 118)
    ∷ []

abbrev pub private_exceptions_v6 : List Network
private_exceptions_v6 =
    (0x2001_0001 * 2 ^ 96 + 1, 0)
    ∷ (0x2001_0001 * 2 ^ 96 + 2, 0)
    ∷ (0x2001_0003 * 2 ^ 96, 96)
    ∷ (0x2001_0004_0112 * 2 ^ 80, 80)
    ∷ (0x2001_0020 * 2 ^ 96, 100)
    ∷ (0x2001_0030 * 2 ^ 96, 100)
    ∷ []

abbrev pub reserved_networks_v6 : List Network
reserved_networks_v6 =
    (0, 120)
    ∷ (0x100 * 2 ^ 112, 120)
    ∷ (0x200 * 2 ^ 112, 121)
    ∷ (0x400 * 2 ^ 112, 122)
    ∷ (0x800 * 2 ^ 112, 123)
    ∷ (0x1000 * 2 ^ 112, 124)
    ∷ (0x4000 * 2 ^ 112, 125)
    ∷ (0x6000 * 2 ^ 112, 125)
    ∷ (0x8000 * 2 ^ 112, 125)
    ∷ (0xa000 * 2 ^ 112, 125)
    ∷ (0xc000 * 2 ^ 112, 125)
    ∷ (0xe000 * 2 ^ 112, 124)
    ∷ (0xf000 * 2 ^ 112, 123)
    ∷ (0xf800 * 2 ^ 112, 122)
    ∷ (0xfe00 * 2 ^ 112, 119)
    ∷ []

unfoldable pub is_private_v4 : ℕ → Bool
unfolding in_networks
is_private_v4 n = in_networks n private_networks_v4 && not (in_networks n private_exceptions_v4)

unfoldable pub is_global_v4 : ℕ → Bool
unfolding is_private_v4
is_global_v4 n = not (in_network n (quad 100 64 0 0, 22)) && not (is_private_v4 n)

-- An IPv4-mapped address has the class of the IPv4 address in it.
unfoldable pub is_private : Ip → Bool
unfolding is_private_v4
is_private (v4 n) = is_private_v4 n
is_private (v6 n) =
    if n / 2 ^ 32 == 0xffff
    then is_private_v4 (n % 2 ^ 32)
    else in_networks n private_networks_v6 && not (in_networks n private_exceptions_v6)

unfoldable pub is_global : Ip → Bool
unfolding is_private is_global_v4
is_global (v4 n) = is_global_v4 n
is_global (v6 n) =
    if n / 2 ^ 32 == 0xffff then is_global_v4 (n % 2 ^ 32) else not (is_private (v6 n))

unfoldable pub is_loopback : Ip → Bool
unfolding in_network
is_loopback (v4 n) = in_network n (quad 127 0 0 0, 24)
is_loopback (v6 n) = n == 1

unfoldable pub is_link_local : Ip → Bool
unfolding in_network
is_link_local (v4 n) = in_network n (quad 169 254 0 0, 16)
is_link_local (v6 n) = in_network n (0xfe80 * 2 ^ 112, 118)

unfoldable pub is_multicast : Ip → Bool
unfolding in_network
is_multicast (v4 n) = in_network n (quad 224 0 0 0, 28)
is_multicast (v6 n) = in_network n (0xff00 * 2 ^ 112, 120)

unfoldable pub is_unspecified : Ip → Bool
is_unspecified (v4 n) = n == 0
is_unspecified (v6 n) = n == 0

unfoldable pub is_reserved : Ip → Bool
unfolding in_networks
is_reserved (v4 n) = in_network n (quad 240 0 0 0, 28)
is_reserved (v6 n) = in_networks n reserved_networks_v6

-- `IPv4Address._parse_octet`: at most three digits, no leading zero, at most 255
unfoldable pub parse_octet : Text → Option ℕ
unfolding all is_digit is_empty of_digits
parse_octet t =
    if is_empty t || not (all is_digit t)
    then none
    else if ltb 3 (length t)
    then none
    else if elim t [ [] ↦ false | c ∷ r ↦ c == b'0' && not (is_empty r) ]
    then none
    else if ltb 255 (of_digits 0 t)
    then none
    else some (of_digits 0 t)

octets : Option ℕ → Option ℕ → Option ℕ → Option ℕ → Option ℕ
octets (some a) (some b) (some c) (some d) = some (quad a b c d)
octets _ _ _ _ = none

four_parts : List Text → Option ℕ
unfolding octets parse_octet
four_parts (a ∷ b ∷ c ∷ d ∷ []) =
    octets (parse_octet a) (parse_octet b) (parse_octet c) (parse_octet d)
four_parts _ = none

-- `IPv4Address(t)`
unfoldable pub parse_v4 : Text → Option ℕ
unfolding four_parts split_on
parse_v4 t = four_parts (split_on b'.' t)

-- `str(IPv4Address(n))` and `socket.inet_ntoa`
unfoldable pub print_v4 : ℕ → Text
unfolding decimal
print_v4 n =
    decimal (n / 2 ^ 24)
    ++ (b'.'
        ∷ (decimal (n / 2 ^ 16 % 256)
            ++ (b'.' ∷ (decimal (n / 2 ^ 8 % 256) ++ (b'.' ∷ decimal (n % 256))))))
