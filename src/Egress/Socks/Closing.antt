-- ===== src/Egress/Socks/Closing.antt =====
-- About the stream of `_socks5_connect` behind each of its exits.
use private_onyx_app.Common.{
  ℕ, ◌≡◌, refl, Bool, true, false, not, ◌&&◌, ◌||◌, List, [], ◌∷◌, Option, none, some, leb, ◌==◌,
  if◌then◌else◌, length, Text, codes, utf8_encode, Result, ok, err, Bool-cases, inl, inr, ◌≤◌, ◌+◌,
  le→not_ltb,
}
use private_onyx_app.Common.Actions.{Action, pure, continue}
use private_onyx_app.Egress.Address.{Ip}
use private_onyx_app.Egress.Platform.{Python, normalize_host, parse_ip_literal}
use private_onyx_app.Egress.Hosts.{loose_ipv4_literal}
use private_onyx_app.Egress.Socks.{
  Exchange, byte, offers_password, ◌>>=◌, ◌>>◌, write, fail, check, read_exactly, text_or_empty,
  send_greeting, send_credentials, authenticate, select_method, negotiate, send_name, send_address,
  send_target, send_request, read_domain, read_bound_address, read_reply, socks5_connect,
}

-- The outcome of an action on an open stream.
abbrev pub IsSettled : {A : Type 0} → Result A × Exchange → Type 0
IsSettled (ok a, s) = s.closed ≡ false
IsSettled (err e, s) = s.closed ≡ true

pub record ClosesOnFailure {A : Type 0} (m : Action Exchange A) : Type 0 where
  pub at : (s : Exchange) → s.closed ≡ false → IsSettled (m s)

module _ {A B : Type 0} where
  Closes-bind :
      (m : Action Exchange A) (f : A → Action Exchange B)
      → ClosesOnFailure m
      → ((a : A) → ClosesOnFailure (f a))
      → ClosesOnFailure (m >>= f)
  Closes-bind m f h k = record { at = λ s e. by_result (m s) (h.at s e) }
    where
      by_result : (r : Result A × Exchange) → IsSettled r → IsSettled (continue r.0 f r.1)
      by_result (ok a, t) c = (k a).at t c
      by_result (err e, t) c = c

Closes-pure : ClosesOnFailure (pure {S = Exchange} tt)
Closes-pure = record { at = λ s e. e }

Closes-write : (bytes : List ℕ) → ClosesOnFailure (write bytes)
unfolding write
Closes-write bytes = record { at = λ s e. e }

Closes-fail : {A : Type 0} (message : Text) → ClosesOnFailure (fail {A = A} message)
unfolding fail
Closes-fail message = record { at = λ s e. refl }

Closes-check : (b : Bool) (message : Text) → ClosesOnFailure (check b message)
unfolding check
Closes-check true message = record { at = λ s e. e }
Closes-check false message = record { at = λ s e. refl }

Closes-read : (size : ℕ) → ClosesOnFailure (read_exactly size)
unfolding read_exactly
Closes-read size = record {
  at = λ s e. elim (Bool-cases (leb size (length s.inbox))) [ inl h ↦ rw h e | inr h ↦ rw h refl ];
}

module _ (username password : Option Text) where
  Closes-credentials :
      length (utf8_encode (text_or_empty username)) ≤ 255
      → length (utf8_encode (text_or_empty password)) ≤ 255
      → ClosesOnFailure (send_credentials username password)
  unfolding send_credentials
  Closes-credentials h k = record { at = λ s e. rw (le→not_ltb _ _ h, le→not_ltb _ _ k) e }

  module _ (user_fits : length (utf8_encode (text_or_empty username)) ≤ 255)
      (password_fits : length (utf8_encode (text_or_empty password)) ≤ 255) where
    Closes-authenticate : (method : ℕ) → ClosesOnFailure (authenticate username password method)
    unfolding authenticate
    Closes-authenticate method = elim (Bool-cases (method == 2)) [
      | inl e ↦ rw e (
          Closes-bind _ _ (Closes-check _ _) (λ u.
            Closes-bind _ _ (Closes-credentials user_fits password_fits)
              (λ v. Closes-bind _ _ (Closes-read 2) (λ resp. Closes-check _ _))))
      | inr e ↦ rw e Closes-pure
    ]

    Closes-greeting : ClosesOnFailure (send_greeting username password)
    unfolding send_greeting
    Closes-greeting =
        Closes-write
          (if offers_password username password then 5 ∷ 2 ∷ 0 ∷ 2 ∷ [] else 5 ∷ 1 ∷ 0 ∷ [])

    Closes-select : (resp : List ℕ) → ClosesOnFailure (select_method username password resp)
    unfolding select_method
    Closes-select resp =
        Closes-bind _ _ (Closes-check (byte resp 0 == 5) (codes "SOCKS5 version mismatch")) (λ u.
          Closes-bind _ _
            (Closes-check (not (byte resp 1 == 0xff)) (codes "SOCKS5: no acceptable auth method"))
            (λ v.
              Closes-bind _ _
                (Closes-check
                  (byte resp 1 == 0 || (byte resp 1 == 2 && offers_password username password))
                  (codes "SOCKS5: server selected an unoffered auth method"))
                (λ w. Closes-authenticate (byte resp 1))))

    Closes-negotiate : ClosesOnFailure (negotiate username password)
    unfolding negotiate
    Closes-negotiate = Closes-bind (send_greeting username password) _ Closes-greeting (λ u.
        Closes-bind (read_exactly 2) (select_method username password) (Closes-read 2)
          Closes-select)

Closes-send_name : (host : Text) (port : ℕ) → ClosesOnFailure (send_name host port)
unfolding send_name
Closes-send_name host port = Closes-bind _ _ (Closes-check _ _) (λ u. Closes-write _)

Closes-send_address : (o : Option Ip) (port : ℕ) → ClosesOnFailure (send_address o port)
unfolding send_address
Closes-send_address none port = Closes-fail _
Closes-send_address (some ip) port = Closes-write _

Closes-send_target :
    (py : Python) (host : Text) (port : ℕ) (literal : Option Ip) (loose : Option Text)
    → ClosesOnFailure (send_target py host port literal loose)
unfolding send_target
Closes-send_target py host port none none = Closes-send_name host port
Closes-send_target py host port none (some t) = Closes-send_address _ port
Closes-send_target py host port (some ip) (some t) = Closes-send_address _ port
Closes-send_target py host port (some ip) none = Closes-send_address (some ip) port

Closes-send_request :
    (py : Python) (host : Text) (port : ℕ) → ClosesOnFailure (send_request py host port)
unfolding send_request
Closes-send_request py host port =
    let name = normalize_host py host in
    Closes-send_target py host port (parse_ip_literal py name) (loose_ipv4_literal py name)

Closes-read_domain : (size : ℕ) → ClosesOnFailure (read_domain size)
unfolding read_domain
Closes-read_domain size =
    Closes-bind _ _ (Closes-check _ _)
      (λ u. Closes-bind _ _ (Closes-read (size + 2)) (λ bound. Closes-pure))

Closes-if :
    (b : Bool) (m n : Action Exchange Unit)
    → ClosesOnFailure m
    → ClosesOnFailure n
    → ClosesOnFailure (if b then m else n)
Closes-if true m n h k = h
Closes-if false m n h k = k

Closes-bound : (atyp : ℕ) → ClosesOnFailure (read_bound_address atyp)
unfolding read_bound_address
Closes-bound atyp = Closes-if (atyp == 1) _ _ (Closes-bind _ _ (Closes-read 6) (λ b. Closes-pure)) (
    Closes-if (atyp == 3) _ _ (Closes-bind _ _ (Closes-read 1) (λ b. Closes-read_domain (byte b 0)))
      (Closes-if (atyp == 4) _ _ (Closes-bind _ _ (Closes-read 18) (λ b. Closes-pure))
        (Closes-fail (codes "SOCKS5 response has unknown address type"))))

-- What follows the first four bytes of the reply.
Closes-reply_fields :
    (resp : List ℕ)
    → ClosesOnFailure (
        check (byte resp 0 == 5) (codes "SOCKS5 response version mismatch")
        >> (check (byte resp 2 == 0) (codes "SOCKS5 response has a nonzero reserved byte")
            >> (check (byte resp 1 == 0) (codes "SOCKS5 connect failed")
                >> read_bound_address (byte resp 3))))
Closes-reply_fields resp =
    Closes-bind _ _ (Closes-check (byte resp 0 == 5) (codes "SOCKS5 response version mismatch"))
      (λ u.
        Closes-bind _ _
          (Closes-check (byte resp 2 == 0) (codes "SOCKS5 response has a nonzero reserved byte"))
          (λ v.
            Closes-bind _ _ (Closes-check (byte resp 1 == 0) (codes "SOCKS5 connect failed"))
              (λ w. Closes-bound (byte resp 3))))

Closes-read_reply : ClosesOnFailure read_reply
unfolding read_reply
Closes-read_reply = Closes-bind (read_exactly 4) _ (Closes-read 4) Closes-reply_fields

pub socks5_connect-closes :
    (py : Python) (host : Text) (port : ℕ) (username password : Option Text) (s : Exchange)
    → length (utf8_encode (text_or_empty username)) ≤ 255
    → length (utf8_encode (text_or_empty password)) ≤ 255
    → s.closed ≡ false
    → IsSettled (socks5_connect py host port username password s)
unfolding socks5_connect
socks5_connect-closes py host port username password s h k still_open =
    (Closes-bind (negotiate username password) _ (Closes-negotiate username password h k) (λ u.
        Closes-bind (send_request py host port) _ (Closes-send_request py host port)
          (λ v. Closes-read_reply))).at
      s still_open
