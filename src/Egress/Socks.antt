-- ===== src/Egress/Socks.antt =====
-- egress/final_hop_proxy.py, `_socks5_connect`: the SOCKS5 exchange on an open stream, one function
-- for each of its stages. The stream is the bytes that the proxy still sends, what it does then, the
-- bytes that were written to it, and whether it was closed. The credentials and the port are those
-- that configuration and validation let through.
pub mod Closing
use private_onyx_app.Common.{
  ℕ, zero, suc, ◌+◌, ◌/◌, ◌%◌, ◌^◌, Bool, true, false, not, ◌&&◌, ◌||◌, List, [], ◌∷◌, ◌++◌, Option,
  none, some, ltb, leb, ◌==◌, if◌then◌else◌, length, take, drop, Text, codes, is_empty, utf8_encode,
  decimal, Result, ok, err, connection_error, value_error,
}
use private_onyx_app.Common.Actions.{Action, pure, throw, bind}
use private_onyx_app.Egress.Address.{Ip, v4, v6}
use private_onyx_app.Egress.Platform.{Python, normalize_host, parse_ip_literal}
use private_onyx_app.Egress.Hosts.{loose_ipv4_literal}

-- What a peer does behind the bytes that it sends.
pub data Ending : Type 0 where
  falls_silent ends_stream resets : Ending

pub record Exchange : Type 0 where
  pub inbox : List ℕ
  pub ending : Ending
  pub outbox : List ℕ
  pub closed : Bool

infixl 5 ◌>>=◌ ◌>>◌
abbrev pub ◌>>=◌ : {A B : Type 0} → Action Exchange A → (A → Action Exchange B) → Action Exchange B
◌>>=◌ = bind

abbrev pub ◌>>◌ : {A B : Type 0} → Action Exchange A → Action Exchange B → Action Exchange B
m >> k = bind m (λ _. k)

unfoldable pub write : List ℕ → Action Exchange Unit
write bytes s = (ok tt, record s { outbox = s.outbox ++ bytes })

-- writer.close(), and then a ConnectionError
unfoldable pub fail : {A : Type 0} → Text → Action Exchange A
fail message s = throw connection_error message (record s { closed = true })

unfoldable pub check : Bool → Text → Action Exchange Unit
unfolding fail
check true message s = (ok tt, s)
check false message s = fail message s

-- What a read that wants more bytes raises. On a reset that is the error of asyncio, which has closed the
-- stream; a `drain` that fails raises it too, with the same outcome as the read behind it.
unfoldable pub cut_short : Ending → Text
cut_short falls_silent = codes "SOCKS5 reply timed out"
cut_short ends_stream = codes "SOCKS5 reply was truncated"
cut_short resets = codes "Connection reset by peer"

-- The helper `read_exactly`.
unfoldable pub read_exactly : ℕ → Action Exchange (List ℕ)
unfolding fail cut_short
read_exactly size s =
    if leb size (length s.inbox)
    then (ok (take size s.inbox), record s { inbox = drop size s.inbox })
    else fail (cut_short s.ending) (record s { inbox = [] })

-- resp[i], for the bytes that were read
unfoldable pub byte : List ℕ → ℕ → ℕ
byte [] i = 0
byte (b ∷ bytes) zero = b
byte (b ∷ bytes) (suc i) = byte bytes i

-- `if username and password`
unfoldable pub has_text : Option Text → Bool
unfolding is_empty
has_text none = false
has_text (some t) = not (is_empty t)

unfoldable pub text_or_empty : Option Text → Text
text_or_empty none = []
text_or_empty (some t) = t

unfoldable pub big_endian : ℕ → ℕ → List ℕ
big_endian zero n = []
big_endian (suc size) n = big_endian size (n / 256) ++ ((n % 256) ∷ [])

unfoldable pub packed : Ip → List ℕ
unfolding big_endian
packed (v4 n) = 1 ∷ big_endian 4 n
packed (v6 n) = 4 ∷ big_endian 16 n

module _ (username password : Option Text) where
  unfoldable pub offers_password : Bool
  unfolding has_text
  offers_password = has_text username && has_text password

  unfoldable pub send_greeting : Action Exchange Unit
  unfolding write offers_password
  send_greeting = write (if offers_password then 5 ∷ 2 ∷ 0 ∷ 2 ∷ [] else 5 ∷ 1 ∷ 0 ∷ [])

  unfoldable pub send_credentials : Action Exchange Unit
  unfolding write fail text_or_empty
  send_credentials s =
      let user = utf8_encode (text_or_empty username) in
      let secret = utf8_encode (text_or_empty password) in
      if ltb 255 (length user) || ltb 255 (length secret)
      then throw value_error (codes "bytes must be in range(0, 256)") s
      else write (1 ∷ (length user ∷ (user ++ (length secret ∷ secret)))) s

  -- The subnegotiation, where the server asked for it.
  unfoldable pub authenticate : ℕ → Action Exchange Unit
  unfolding send_credentials read_exactly check byte has_text
  authenticate method =
      if method == 2
      then (check (has_text username) (codes "SOCKS5: server requires auth but no credentials")
          >> (send_credentials
              >> (read_exactly 2 >>= λ resp.
                  check (byte resp 0 == 1 && byte resp 1 == 0) (codes "SOCKS5: auth failed"))))
      else pure tt

  -- The server's choice of a method.
  unfoldable pub select_method : List ℕ → Action Exchange Unit
  unfolding authenticate check byte offers_password
  select_method resp =
      check (byte resp 0 == 5) (codes "SOCKS5 version mismatch")
      >> (check (not (byte resp 1 == 0xff)) (codes "SOCKS5: no acceptable auth method")
          >> (check (byte resp 1 == 0 || (byte resp 1 == 2 && offers_password))
                (codes "SOCKS5: server selected an unoffered auth method")
              >> authenticate (byte resp 1)))

  unfoldable pub negotiate : Action Exchange Unit
  unfolding send_greeting select_method read_exactly
  negotiate = send_greeting >> (read_exactly 2 >>= select_method)

unfoldable pub send_name : Text → ℕ → Action Exchange Unit
unfolding write fail check big_endian
send_name target_host target_port =
    let host_bytes = utf8_encode target_host in
    check (leb 1 (length host_bytes) && leb (length host_bytes) 255)
      (codes "SOCKS5: invalid target hostname length")
    >> write (5 ∷ 1 ∷ 0 ∷ 3 ∷ (length host_bytes ∷ (host_bytes ++ big_endian 2 target_port)))

unfoldable pub send_address : Option Ip → ℕ → Action Exchange Unit
unfolding write fail packed big_endian
send_address none target_port = fail (codes "SOCKS5: invalid target IP")
send_address (some ip) target_port = write (5 ∷ 1 ∷ 0 ∷ (packed ip ++ big_endian 2 target_port))

-- A literal stays a literal, in its dotted form if it was IPv4 shorthand.
unfoldable pub send_target : Python → Text → ℕ → Option Ip → Option Text → Action Exchange Unit
unfolding send_name send_address
send_target py host port none none = send_name host port
send_target py host port literal (some loose_ip) = send_address (parse_ip_literal py loose_ip) port
send_target py host port (some ip) none = send_address (some ip) port

unfoldable pub send_request : Python → Text → ℕ → Action Exchange Unit
unfolding send_target
send_request py target_host target_port =
    let normalized_host = normalize_host py target_host in
    send_target py target_host target_port (parse_ip_literal py normalized_host)
      (loose_ipv4_literal py normalized_host)

unfoldable pub read_domain : ℕ → Action Exchange Unit
unfolding read_exactly check
read_domain size =
    check (not (size == 0)) (codes "SOCKS5 response has an empty bound hostname")
    >> (read_exactly (size + 2) >>= λ bound. pure tt)

-- The bound address is read and dropped.
unfoldable pub read_bound_address : ℕ → Action Exchange Unit
unfolding read_exactly fail read_domain byte
read_bound_address atyp =
    if atyp == 1
    then (read_exactly 6 >>= λ bound. pure tt)
    else if atyp == 3
    then (read_exactly 1 >>= λ size. read_domain (byte size 0))
    else if atyp == 4
    then (read_exactly 18 >>= λ bound. pure tt)
    else fail (codes "SOCKS5 response has unknown address type")

unfoldable pub read_reply : Action Exchange Unit
unfolding read_exactly check read_bound_address byte
read_reply = read_exactly 4 >>= λ resp.
    check (byte resp 0 == 5) (codes "SOCKS5 response version mismatch")
    >> (check (byte resp 2 == 0) (codes "SOCKS5 response has a nonzero reserved byte")
        >> (check (byte resp 1 == 0) (codes "SOCKS5 connect failed")
            >> read_bound_address (byte resp 3)))

unfoldable pub socks5_connect : Python → Text → ℕ → Option Text → Option Text → Action Exchange Unit
unfolding negotiate send_request read_reply
socks5_connect py target_host target_port username password =
    negotiate username password >> (send_request py target_host target_port >> read_reply)
