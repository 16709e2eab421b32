-- ===== src/Agent/Files.antt =====
-- `RenderAndWrite` of pkg/agent/render.go: the WireGuard configuration and the routes that go with it. The
-- BGP configuration that is written between the two, and errors of the file system, are left out.
use peer_wan.Prelude.{
  ℕ, String, Bool, Option, none, some, List, [], ◌∷◌, ◌≡◌, refl, All, is_blank, map, Bool-cases,
  inl, inr,
}
use peer_wan.Prelude.Dict.{Dict, lookup}
use peer_wan.Model.{Node, Peer, PolicyRule}
use peer_wan.Controller.{with_port}
use peer_wan.Policy.{World, Geoip}
use peer_wan.WireGuard.{render_config}
use peer_wan.WireGuard.Reading.{IsLine, read_config}
use peer_wan.WireGuard.Lines.{IsPlain}
use peer_wan.WireGuard.RoundTrip.{interface_of, section_of, read_config-render_config}
use peer_wan.Agent.Render.{
  Targets, Command, with_wanted, targets_of, augment_peer, augment_each, augment_egress_allowed_ips,
  apply_static_routes,
}
use peer_wan.Agent.Installed.{IsInstalled}
use peer_wan.Agent.Carried.{IsCarried, IsServed, HasNames}
use peer_wan.Agent.Forwarding.{apply_static_routes-IsServed}
use peer_wan.Agent.Tunnels.{Net, endpoint_host, local_or, tunneled, allocate_local_ports}

abbrev pub tunnel_each : Net → Dict ℕ → List Peer → List Peer
tunnel_each net ports [] = []
tunnel_each net ports (p ∷ peers) = tunneled net ports p ∷ tunnel_each net ports peers

-- `peersWithPolicy`
unfoldable pub written_peers : World → Geoip → Net → Node → List Peer → List Peer
unfolding augment_egress_allowed_ips tunneled allocate_local_ports
written_peers w g net n peers =
    augment_egress_allowed_ips w g (tunnel_each net (allocate_local_ports net peers 30000) peers) n

-- The configuration's text, and the commands.
unfoldable pub render_and_write :
    World
    → Geoip
    → Net
    → (Command → Bool)
    → String × String
    → Node
    → List Peer
    → String
    → String × List Command
unfolding written_peers with_port render_config apply_static_routes
render_and_write w g net ok gw n peers key = (
  render_config (with_port n) (written_peers w g net (with_port n) peers) key,
  apply_static_routes w g ok gw peers (with_port n),
)

local_or-id : (o : Option ℕ) (p : Peer) → (local_or o p).id ≡ p.id
local_or-id none p = refl
local_or-id (some port) p = refl

local_or-allowed_ips : (o : Option ℕ) (p : Peer) → (local_or o p).allowed_ips ≡ p.allowed_ips
local_or-allowed_ips none p = refl
local_or-allowed_ips (some port) p = refl

tunneled-id : (net : Net) (ports : Dict ℕ) (p : Peer) → (tunneled net ports p).id ≡ p.id
unfolding tunneled
tunneled-id net ports p = elim (Bool-cases (is_blank (endpoint_host net p.endpoint))) [
  | inl t ↦ (let r : (tunneled net ports p).id ≡ p.id = rw t refl in r)
  | inr f ↦
      (let r : (tunneled net ports p).id ≡ p.id =
          rw f (local_or-id (lookup (endpoint_host net p.endpoint) ports) p) in
        r)
]

tunneled-allowed_ips :
    (net : Net) (ports : Dict ℕ) (p : Peer) → (tunneled net ports p).allowed_ips ≡ p.allowed_ips
unfolding tunneled
tunneled-allowed_ips net ports p = elim (Bool-cases (is_blank (endpoint_host net p.endpoint))) [
  | inl t ↦ (let r : (tunneled net ports p).allowed_ips ≡ p.allowed_ips = rw t refl in r)
  | inr f ↦
      (let r : (tunneled net ports p).allowed_ips ≡ p.allowed_ips =
          rw f (local_or-allowed_ips (lookup (endpoint_host net p.endpoint) ports) p) in
        r)
]

with_wanted-allowed_ips :
    (o : Option (List String)) (p q : Peer)
    → p.allowed_ips ≡ q.allowed_ips
    → (with_wanted o p).allowed_ips ≡ (with_wanted o q).allowed_ips
unfolding with_wanted
with_wanted-allowed_ips none p q e = e
with_wanted-allowed_ips (some want) p q e = rw e refl

augment_peer-tunneled :
    (t : Targets) (net : Net) (ports : Dict ℕ) (p : Peer)
    → (augment_peer t (tunneled net ports p)).allowed_ips ≡ (augment_peer t p).allowed_ips
unfolding augment_peer tunneled
augment_peer-tunneled t net ports p = rw (tunneled-id net ports p) (
    with_wanted-allowed_ips (lookup p.id t) (tunneled net ports p) p
      (tunneled-allowed_ips net ports p))

IsCarried-tunneled :
    (t : Targets) (net : Net) (ports : Dict ℕ) (peers : List Peer) (ip pfx : String)
    → IsCarried (augment_each t peers) ip pfx
    → IsCarried (augment_each t (tunnel_each net ports peers)) ip pfx
IsCarried-tunneled t net ports [] ip pfx h = h
IsCarried-tunneled t net ports (p ∷ peers) ip pfx (inl here) =
    let e : (augment_peer t (tunneled net ports p)).allowed_ips ≡ (augment_peer t p).allowed_ips =
      augment_peer-tunneled t net ports p in
    inl (rw e here)
IsCarried-tunneled t net ports (p ∷ peers) ip pfx (inr later) =
    inr (IsCarried-tunneled t net ports peers ip pfx later)

module _ (w : World) (g : Geoip) (rules : List PolicyRule) (a b : List Peer)
    (carry : (ip pfx : String) → IsCarried a ip pfx → IsCarried b ip pfx) where
  IsServed-carry : (c : Command) → IsServed w g rules a c → IsServed w g rules b c
  IsServed-carry (Command.main_route pfx ip) h = carry ip pfx h
  IsServed-carry (Command.table_route pfx ip) h = carry ip pfx h
  IsServed-carry (Command.link_route ip) h = tt
  IsServed-carry (Command.default_via ip) h = tt
  IsServed-carry (Command.bypass_rule c) h = tt
  IsServed-carry Command.lookup_100 h = tt
  IsServed-carry (Command.local_rule pfx) h = h
  IsServed-carry (Command.local_route pfx) h = h
  IsServed-carry (Command.prefer_main pfx) h = tt

  All-carry : (cs : List Command) → All (IsServed w g rules a) cs → All (IsServed w g rules b) cs
  All-carry [] h = tt
  All-carry (c ∷ cs) h = (IsServed-carry c h.0, All-carry cs h.1)

-- The configuration's text, read back, has the node's interface and a section for each of the peers that
-- the agent has put together. Every prefix of a policy rule that has something to match and somewhere to send
-- it, does not go out locally by the `viaNode` "local" or "main", and the first hop of which is a peer with an
-- address, gets a route into the tunnel; every route into the tunnel that is installed for a prefix goes to
-- the address of one of these peers that accepts the prefix; and a route through the primary gateway, or a
-- rule past table 100 at priority 150, is installed only for a prefix of a policy rule with the `viaNode`
-- "local" or "main". The controller's peers have identifiers, no text has a line break, and names and country
-- lists resolve the same both times.
pub render_and_write_lem :
    (w : World) (g : Geoip) (net : Net) (ok : Command → Bool) (gw : String × String) (n : Node)
    (peers : List Peer) (key : String)
    → HasNames peers
    → IsLine (with_port n).overlay_ip
    → IsLine key
    → All (IsPlain (with_port n)) (written_peers w g net (with_port n) peers)
    → (read_config (render_and_write w g net ok gw n peers key).0 ≡ (
      interface_of (with_port n) key,
      map (section_of (with_port n)) (written_peers w g net (with_port n) peers),
    ))
      × All
          (IsServed w g (with_port n).policy_rules (written_peers w g net (with_port n) peers))
          (render_and_write w g net ok gw n peers key).1
      × All
          (IsInstalled w g peers (render_and_write w g net ok gw n peers key).1)
          (with_port n).policy_rules
unfolding render_and_write written_peers augment_egress_allowed_ips
render_and_write_lem w g net ok gw n peers key names line_o line_k plain =
    let ports : Dict ℕ = allocate_local_ports net peers 30000 in
    let t : Targets = targets_of w g (with_port n) in
    let all = apply_static_routes-IsServed w g ok gw peers (with_port n) names in
    (
      read_config-render_config (with_port n) (augment_each t (tunnel_each net ports peers)) key
          line_o line_k plain,
      All-carry w g (with_port n).policy_rules (augment_each t peers)
          (augment_each t (tunnel_each net ports peers)) (IsCarried-tunneled t net ports peers)
          (apply_static_routes w g ok gw peers (with_port n)) all.0,
      all.1,
    )
