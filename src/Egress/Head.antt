-- ===== src/Egress/Head.antt =====
-- egress/final_hop_proxy.py, `_handle_forward_http`: the head of the request that is sent on.
pub mod Framed
use private_onyx_app.Common.{
  ℕ, Bool, true, false, not, ◌&&◌, ◌||◌, List, [], ◌∷◌, ◌++◌, Option, none, some, ◌==◌,
  if◌then◌else◌, Text, codes, member, is_empty, contains_char, join, decimal,
}
use private_onyx_app.Egress.Framing.{Header, crlf}

-- The fields that the proxy writes itself.
abbrev pub rewritten_fields : List Text
rewritten_fields =
    codes "connection"
    ∷ codes "proxy-connection"
    ∷ codes "proxy-authorization"
    ∷ codes "host"
    ∷ codes "content-length"
    ∷ codes "transfer-encoding"
    ∷ []

unfoldable pub kept_headers : List Header → List Header
unfolding member
kept_headers [] = []
kept_headers ((name, value) ∷ headers) =
    let rest = kept_headers headers in
    if member name rewritten_fields then rest else (name, value) ∷ rest

-- [target_host] for an IPv6 literal
unfoldable pub display_host : Text → Text
unfolding contains_char
display_host host = if contains_char b':' host then b'[' ∷ (host ++ codes "]") else host

unfoldable pub host_authority : Text → ℕ → Bool → Text
unfolding display_host decimal
host_authority host port use_tls =
    if port == (if use_tls then 443 else 80)
    then display_host host
    else display_host host ++ (b':' ∷ decimal port)

unfoldable pub length_header : Option ℕ → List Header
length_header none = []
length_header (some n) = (codes "content-length", decimal n) ∷ []

unfoldable pub codings_header : List Text → List Header
codings_header [] = []
codings_header (c ∷ cs) = (codes "transfer-encoding", join (codes ", ") (c ∷ cs)) ∷ []

unfoldable pub authorization_header : Option Text → List Header
authorization_header none = []
authorization_header (some value) =
    if is_empty value then [] else (codes "proxy-authorization", value) ∷ []

-- The fields of the request that is sent on, in order.
unfoldable pub forwarded_headers :
    List Header → Text → Option ℕ → List Text → Option Text → List Header
unfolding kept_headers length_header codings_header authorization_header
forwarded_headers headers authority content_length codings authorization =
    kept_headers headers
    ++ ((codes "host", authority)
        ∷ (length_header content_length
            ++ (codings_header codings
                ++ (authorization_header authorization
                    ++ ((codes "connection", codes "close") ∷ [])))))

unfoldable pub render_headers : List Header → Text
render_headers [] = []
render_headers ((name, value) ∷ headers) =
    name ++ (codes ": " ++ (value ++ (crlf ++ render_headers headers)))

-- The text of the head, from the request line to the empty line.
unfoldable pub render_head : Text → Text → List Header → Text
unfolding render_headers
render_head method request_target headers =
    method
    ++ (32 ∷ (request_target ++ (codes " HTTP/1.1" ++ (crlf ++ (render_headers headers ++ crlf)))))
