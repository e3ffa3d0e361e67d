-- ===== src/Egress/Ports.antt =====
-- egress/final_hop_proxy.py: the port policy of the ordinary Docker host, its parser and its
-- printer. A frozenset of ports is the ascending list of its members.
pub mod RoundTrip
use private_onyx_app.Common.{
  ℕ, Bool, true, false, not, ◌&&◌, ◌||◌, List, [], ◌∷◌, ◌++◌, Option, none, some, ltb, leb, ◌==◌,
  map, if◌then◌else◌, any, all, Text, codes, text_eq, is_empty, is_digit, strip, split_on, join,
  decimal, parse_int, Result, ok, err, raise, require, runtime_error, ◌>>=◌, ◌>>◌,
}

-- ports.add(port)
unfoldable pub add_port : ℕ → List ℕ → List ℕ
add_port port [] = port ∷ []
add_port port (p ∷ ports) =
    if ltb port p
    then port ∷ (p ∷ ports)
    else if port == p
    then p ∷ ports
    else p ∷ add_port port ports

-- " \t\r\n\v\f"
unfoldable pub is_port_blank : ℕ → Bool
is_port_blank c = c == 32 || (leb 9 c && leb c 13)

abbrev pub bad_ports_message : Text
bad_ports_message =
    codes
      "ONYX_INTEGRATIONS_ALLOWED_HOST_PORTS must be 'none', 'all', or a comma-separated list of TCP ports"

abbrev pub bad_port_message : Text
bad_port_message = codes "ONYX_INTEGRATIONS_ALLOWED_HOST_PORTS contains an invalid TCP port"

unfoldable pub parse_port_item : Text → Result ℕ
unfolding all is_empty
parse_port_item candidate = do
  require (not (is_empty candidate) && all is_digit candidate) runtime_error bad_ports_message
  port ← parse_int candidate
  require (ltb 0 port && leb port 65535) runtime_error bad_port_message
  ok port

-- The loop over the items.
unfoldable pub parse_port_items : List ℕ → List Text → Result (List ℕ)
unfolding parse_port_item
parse_port_items ports [] = ok ports
parse_port_items ports (item ∷ items) = parse_port_item (strip is_port_blank item) >>= λ port.
    parse_port_items (add_port port ports) items

parse_port_list : Text → Result (Bool × List ℕ)
unfolding parse_port_items
parse_port_list value = parse_port_items [] (split_on b',' value) >>= λ ports. ok (false, ports)

unfoldable pub parse_allowed_host_ports : Text → Result (Bool × List ℕ)
unfolding parse_port_list
parse_allowed_host_ports raw =
    let value = strip is_port_blank raw in
    if is_empty value || text_eq value (codes "none")
    then ok (false, [])
    else if text_eq value (codes "all")
    then ok (true, [])
    else parse_port_list value

unfoldable pub format_host_port_policy : Bool → List ℕ → Text
unfolding is_empty
format_host_port_policy true ports = codes "all"
format_host_port_policy false [] = codes "none"
format_host_port_policy false (p ∷ ports) = join (codes ",") (map decimal (p ∷ ports))
