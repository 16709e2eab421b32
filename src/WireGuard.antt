-- ===== src/WireGuard.antt =====
-- pkg/wireguard/render.go: the configuration of an interface for `wg-quick`. The interface's name, which
-- the text does not have, is left out.
pub mod Reading
pub mod Lines
pub mod RoundTrip
use peer_wan.Prelude.{
  ℕ, String, ◌⧺◌, Bool, not, Option, none, some, List, [], ◌∷◌, ◌++◌, decimal, join, eqb, is_blank,
  is_empty, if◌then◌else◌,
}
use peer_wan.Prelude.Dict.{lookup}
use peer_wan.Model.{Node, Peer}

-- Each of the lines, ended.
unfoldable pub unlines : List String → String
unlines [] = ""
unlines (l ∷ ls) = l ⧺ ("\n" ⧺ unlines ls)

abbrev pub line_if : Bool → String → List String → List String
line_if b l rest = if b then l ∷ rest else rest

abbrev pub override_or : Option String → String → String
override_or none old = old
override_or (some e) old = if is_blank e then old else e

-- `ep`
unfoldable pub endpoint_of : Node → Peer → String
unfolding lookup
endpoint_of n p = override_or (lookup p.id n.peer_endpoints) p.endpoint

unfoldable pub interface_lines : Node → String → List String
unfolding decimal
interface_lines n key =
    "[Interface]"
    ∷ line_if (not (is_blank n.overlay_ip)) ("Address = " ⧺ n.overlay_ip) (
        line_if (not (eqb n.listen_port 0)) ("ListenPort = " ⧺ decimal n.listen_port)
          (line_if (not (is_blank key)) ("PrivateKey = " ⧺ key) ("" ∷ [])))

unfoldable pub peer_lines : Node → Peer → List String
unfolding endpoint_of join decimal
peer_lines n p =
    "[Peer]"
    ∷ ("PublicKey = " ⧺ p.public_key)
    ∷ line_if (not (is_blank (endpoint_of n p))) ("Endpoint = " ⧺ endpoint_of n p) (
        line_if (not (is_empty p.allowed_ips)) ("AllowedIPs = " ⧺ join ", " p.allowed_ips) (
          line_if (not (eqb p.keepalive 0)) ("PersistentKeepalive = " ⧺ decimal p.keepalive)
            ("" ∷ [])))

unfoldable pub peers_lines : Node → List Peer → List String
unfolding peer_lines
peers_lines n [] = []
peers_lines n (p ∷ peers) = peer_lines n p ++ peers_lines n peers

-- `RenderConfig`
unfoldable pub render_config : Node → List Peer → String → String
unfolding unlines interface_lines peers_lines
render_config n peers key = unlines (interface_lines n key ++ peers_lines n peers)
