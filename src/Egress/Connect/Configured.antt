-- ===== src/Egress/Connect/Configured.antt =====
-- What an accepted configuration of the upstream proxy gives the exchange with it.
use private_onyx_app.Common.{
  ◌>>◌, ℕ, ◌≤◌, ◌≡◌, refl, ap, subst, Bool, true, false, not, ◌&&◌, ◌||◌, Option, none, some, arith,
  leb, leb→le, ltb, length, Text, codes, is_empty, text_eq, utf8_encode, Kind, ok, err, Raised,
  require, require_inv, ◌>>=◌, >>=-eq-ok, runtime_error, if◌then◌else◌, and_true,
}
use private_onyx_app.Egress.Platform.{Python, Url, Settings}
use private_onyx_app.Egress.Socks.{Exchange, text_or_empty, socks5_connect}
use private_onyx_app.Egress.Socks.Closing.{IsSettled, socks5_connect-closes}
use private_onyx_app.Egress.Connect.{
  ProxyUrl, is_socks_scheme, is_http_scheme, same_presence, fits_socks, check_proxy, invalid_url,
  parse_proxy_url, validate_upstream_proxy_config,
}

require_last : (b : Bool) (k : Kind) (m : Text) → require b k m ≡ ok tt → b ≡ true
require_last true k m h = refl
require_last false k m h = cc h

-- The credentials are short enough for the exchange, where they are checked for it.
Fits : ProxyUrl → Type 0
Fits proxy =
    (length (utf8_encode (text_or_empty proxy.username)) ≤ 255)
    × (length (utf8_encode (text_or_empty proxy.password)) ≤ 255)

credentials_fit :
    (username password : Option Text)
    → same_presence username password ≡ true
    → fits_socks username password ≡ true
    → (length (utf8_encode (text_or_empty username)) ≤ 255)
      × (length (utf8_encode (text_or_empty password)) ≤ 255)
unfolding same_presence fits_socks text_or_empty utf8_encode
credentials_fit none none p h = (omega arith, omega arith)
credentials_fit none (some t) p h = absurd (cc p)
credentials_fit (some s) none p h = absurd (cc p)
credentials_fit (some s) (some t) p h = let (u, v) = and_true _ _ h in (leb→le _ _ u, leb→le _ _ v)

require_chain :
    (a b c d e f g : Bool) (k : Kind) (l m n o p q r : Text)
    → (require a k l
        >> (require b k m
            >> (require c k n
                >> (require d k o >> (require e k p >> (require f k q >> require g k r))))))
      ≡ ok tt
    → (f ≡ true) × (g ≡ true)
require_chain a b c d e f g k l m n o p q r h =
    let (_, h1) = require_inv a k l _ h in
    let (_, h2) = require_inv b k m _ h1 in
    let (_, h3) = require_inv c k n _ h2 in
    let (_, h4) = require_inv d k o _ h3 in
    let (_, h5) = require_inv e k p _ h4 in
    let (both, h6) = require_inv f k q (require g k r) h5 in (both, require_last g k r h6)

check_proxy-Fits :
    (parsed : Url) (proxy : ProxyUrl)
    → is_socks_scheme proxy.scheme ≡ true
    → check_proxy parsed proxy ≡ ok tt
    → Fits proxy
unfolding check_proxy Fits
check_proxy-Fits parsed proxy socks h =
    let (both, fit) =
      require_chain (is_http_scheme proxy.scheme || is_socks_scheme proxy.scheme)
        (not (is_empty proxy.host)) (ltb 0 proxy.port && leb proxy.port 65535)
        (is_empty parsed.query && is_empty parsed.fragment && is_empty parsed.params)
        (is_empty parsed.path || text_eq parsed.path (codes "/"))
        (same_presence proxy.username proxy.password)
        (not (is_socks_scheme proxy.scheme) || fits_socks proxy.username proxy.password)
        runtime_error _ _ _ _ _ _ _ h in
    credentials_fit proxy.username proxy.password both
      (subst (λ b. (not b || fits_socks proxy.username proxy.password) ≡ true) socks fit)

module _ (py : Python) (cfg : Settings) (proxy : ProxyUrl)
    (accepted : validate_upstream_proxy_config py cfg ≡ ok tt)
    (in_use : is_empty cfg.upstream_proxy ≡ false)
    (read : parse_proxy_url py cfg.upstream_proxy ≡ ok proxy)
    (socks : is_socks_scheme proxy.scheme ≡ true) where
  unusable : Raised
  unusable = record {
    kind = runtime_error;
    message = codes "native Tor egress and EGRESS_UPSTREAM_PROXY_URL are mutually exclusive";
  }

  checked :
      (both : Bool)
      → (if both
          then err unusable
          else (invalid_url (py.urlparse cfg.upstream_proxy) >>= λ parsed.
              invalid_url (parse_proxy_url py cfg.upstream_proxy) >>= check_proxy parsed))
        ≡ ok tt
      → Fits proxy
  unfolding invalid_url
  checked true h = absurd (cc h)
  checked false h =
      let (parsed, found, rest) = >>=-eq-ok (invalid_url (py.urlparse cfg.upstream_proxy)) _ h in
      check_proxy-Fits parsed proxy socks
        (subst (λ r. (r >>= check_proxy parsed) ≡ ok tt) (ap invalid_url read) rest)

  -- Where the configuration is accepted and its proxy speaks SOCKS5, every exchange that fails has
  -- closed the connection to the proxy, and one that succeeds leaves it open, whatever bytes come.
  pub configured_exchange-closes :
      (host : Text) (port : ℕ) (s : Exchange)
      → s.closed ≡ false
      → IsSettled (socks5_connect py host port proxy.username proxy.password s)
  unfolding validate_upstream_proxy_config Fits unusable
  configured_exchange-closes host port s still_open =
      let fit =
        checked (not (is_empty cfg.tor_socks_unix_path) && not false) (rw in_use at accepted) in
      socks5_connect-closes py host port proxy.username proxy.password s fit.0 fit.1 still_open
