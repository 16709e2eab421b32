-- ===== src/Agent/Render.antt =====
-- pkg/agent/render.go: what the peers of the WireGuard configuration accept, and the commands that
-- install routes. `applyStaticRoutes` runs them: `Command` has a constructor for each of its calls of
-- `ip`, `args` the arguments. Whether a command succeeds, and the primary route, are parameters.
use peer_wan.Prelude.{
  String, ◌==◌, ◌⧺◌, Bool, not, ◌&&◌, ◌||◌, Option, none, some, List, [], ◌∷◌, ◌++◌, is_blank,
  is_empty, if◌then◌else◌,
}
use peer_wan.Prelude.Dict.{Dict, lookup, insert}
use peer_wan.Model.{Node, Peer, PolicyRule, validate}
use peer_wan.Policy.{World, Geoip, add_new, expand}
use peer_wan.Controller.Registration.{before_slash}

abbrev pub Targets : Type 0
Targets = Dict (List String)

abbrev or_no_prefixes : Option (List String) → List String
or_no_prefixes none = []
or_no_prefixes (some ps) = ps

-- `targets[id]`
unfoldable pub targets_at : String → Targets → List String
unfolding lookup
targets_at id t = or_no_prefixes (lookup id t)

-- `targets[id] = append(targets[id], pfx...)`
unfoldable pub append_targets : String → List String → Targets → Targets
unfolding targets_at insert
append_targets id pfx t = insert id (targets_at id t ++ pfx) t

abbrev first_or : List String → String → String
first_or [] other = other
first_or (hop ∷ hops) other = hop

-- `target`
unfoldable pub target_of : PolicyRule → String
target_of pr = first_or pr.path pr.via_node

unfoldable pub collect : World → Geoip → List PolicyRule → Targets → Targets
unfolding append_targets expand target_of
collect w g [] t = t
collect w g (pr ∷ rest) t =
    let pfx : List String = expand w g pr in
    collect w g rest
      (if is_empty pfx || is_blank (target_of pr) then t else append_targets (target_of pr) pfx t)

-- `targets`, with the default route
unfoldable pub targets_of : World → Geoip → Node → Targets
unfolding collect append_targets
targets_of w g n =
    let t : Targets = collect w g n.policy_rules [] in
    if n.default_route && not (is_blank n.egress_peer_id)
    then append_targets n.egress_peer_id ("0.0.0.0/0" ∷ []) t
    else t

unfoldable pub add_wanted : List String → List String → List String
unfolding add_new
add_wanted [] ips = ips
add_wanted (p ∷ ps) ips = add_wanted ps (add_new p ips)

unfoldable pub with_wanted : Option (List String) → Peer → Peer
unfolding add_wanted
with_wanted none p = p
with_wanted (some want) p = record p { allowed_ips = add_wanted want p.allowed_ips }

unfoldable pub augment_peer : Targets → Peer → Peer
unfolding with_wanted lookup
augment_peer t p = with_wanted (lookup p.id t) p

abbrev pub augment_each : Targets → List Peer → List Peer
augment_each t [] = []
augment_each t (p ∷ ps) = augment_peer t p ∷ augment_each t ps

-- `augmentEgressAllowedIPs`
unfoldable pub augment_egress_allowed_ips : World → Geoip → List Peer → Node → List Peer
unfolding targets_of augment_peer
augment_egress_allowed_ips w g peers n = augment_each (targets_of w g n) peers

abbrev or_blank : List String → String
or_blank [] = ""
or_blank (ip ∷ ips) = ip

abbrev pub or_later : List String → String → String
or_later [] later = later
or_later (ip ∷ ips) later = ip

-- `frrOverlayForPeer`
unfoldable pub overlay_for_peer : String → List Peer → String
overlay_for_peer id [] = ""
overlay_for_peer id (p ∷ ps) =
    let later = overlay_for_peer id ps in if p.id == id then or_later p.allowed_ips later else later

abbrev cut_or : Option String → String → String
cut_or none s = s
cut_or (some t) s = t

-- `strings.Split(nh, "/")[0]`
unfoldable pub host_of : String → String
unfolding before_slash
host_of nh = cut_or (before_slash nh) nh

pub data Command : Type 0 where
  link_route : String → Command
  main_route : String → String → Command
  table_route : String → String → Command
  default_via : String → Command
  bypass_rule : String → Command
  lookup_100 : Command
  local_rule : String → Command
  local_route : String → Command
  prefer_main : String → Command

-- The arguments, for the interface and the primary route's gateway and device.
unfoldable pub args : String → String × String → Command → List String
args iface gw (Command.link_route ip) =
    "ip" ∷ "route" ∷ "replace" ∷ (ip ⧺ "/32") ∷ "dev" ∷ iface ∷ "scope" ∷ "link" ∷ []
args iface gw (Command.main_route pfx ip) =
    "ip" ∷ "route" ∷ "replace" ∷ pfx ∷ "via" ∷ ip ∷ "dev" ∷ iface ∷ []
args iface gw (Command.table_route pfx ip) =
    "ip" ∷ "route" ∷ "replace" ∷ pfx ∷ "via" ∷ ip ∷ "dev" ∷ iface ∷ "table" ∷ "100" ∷ []
args iface gw (Command.default_via ip) =
    "ip" ∷ "route" ∷ "replace" ∷ "default" ∷ "via" ∷ ip ∷ "dev" ∷ iface ∷ "table" ∷ "100" ∷ []
args iface gw (Command.bypass_rule c) =
    "ip" ∷ "rule" ∷ "add" ∷ "from" ∷ c ∷ "lookup" ∷ "main" ∷ "priority" ∷ "100" ∷ []
args iface gw Command.lookup_100 =
    "ip" ∷ "rule" ∷ "add" ∷ "priority" ∷ "200" ∷ "lookup" ∷ "100" ∷ []
args iface gw (Command.local_rule pfx) =
    "ip" ∷ "rule" ∷ "add" ∷ "to" ∷ pfx ∷ "lookup" ∷ "main" ∷ "priority" ∷ "150" ∷ []
args iface gw (Command.local_route pfx) =
    "ip" ∷ "route" ∷ "replace" ∷ pfx ∷ "via" ∷ gw.0 ∷ "dev" ∷ gw.1 ∷ []
args iface gw (Command.prefer_main pfx) =
    "ip" ∷ "rule" ∷ "add" ∷ "to" ∷ pfx ∷ "lookup" ∷ "main" ∷ "priority" ∷ "140" ∷ []

-- `apply` with what follows it: a failed command ends the work on the prefix.
unfoldable pub apply_prefix : (Command → Bool) → String → String → List Command
unfolding host_of
apply_prefix ok nh pfx =
    let ip : String = host_of nh in
    if is_blank pfx || is_blank nh
    then Command.prefer_main pfx ∷ []
    else Command.link_route ip
      ∷ Command.main_route pfx ip
      ∷ (if ok (Command.main_route pfx ip)
          then Command.table_route pfx ip
            ∷ (if ok (Command.table_route pfx ip) then Command.prefer_main pfx ∷ [] else [])
          else [])

unfoldable pub apply_each : (Command → Bool) → String → List String → List Command
unfolding apply_prefix
apply_each ok nh [] = []
apply_each ok nh (pfx ∷ rest) = apply_prefix ok nh pfx ++ apply_each ok nh rest

unfoldable pub local_each : String × String → List String → List Command
local_each gw [] = []
local_each gw (pfx ∷ rest) =
    let later = local_each gw rest in
    Command.local_rule pfx
    ∷ (if is_blank gw.0 || is_blank gw.1 then later else Command.local_route pfx ∷ later)

-- `nextID`
unfoldable pub next_id : PolicyRule → String
next_id pr = first_or pr.path pr.via_node

-- The commands for one rule; `prefixes` is its expansion.
unfoldable pub rule_commands :
    (Command → Bool) → String × String → List Peer → List String → PolicyRule → List Command
unfolding apply_each local_each overlay_for_peer next_id
rule_commands ok gw peers prefixes pr =
    let nh : String = overlay_for_peer (next_id pr) peers in
    if not (validate pr)
    then []
    else if pr.via_node == "local" || pr.via_node == "main"
    then local_each gw prefixes
    else if is_blank nh
    then []
    else apply_each ok nh prefixes

unfoldable pub policy_commands :
    World → Geoip → (Command → Bool) → String × String → List Peer → List PolicyRule → List Command
unfolding rule_commands expand
policy_commands w g ok gw peers [] = []
policy_commands w g ok gw peers (pr ∷ rest) =
    rule_commands ok gw peers (expand w g pr) pr ++ policy_commands w g ok gw peers rest

abbrev pub bypass_each : List String → List Command
bypass_each [] = Command.lookup_100 ∷ []
bypass_each (c ∷ rest) = Command.bypass_rule c ∷ bypass_each rest

-- The peer of the default route.
unfoldable pub default_peer : Node → String
default_peer n =
    if is_blank n.default_route_next_hop then n.egress_peer_id else n.default_route_next_hop

unfoldable pub default_commands : List Peer → Node → List Command
unfolding host_of overlay_for_peer default_peer
default_commands peers n =
    let nh : String = overlay_for_peer (default_peer n) peers in
    if n.default_route && not (is_blank nh)
    then Command.default_via (host_of nh) ∷ bypass_each n.bypass_cidrs
    else []

-- `applyStaticRoutes`, for the plan that `RenderAndWrite` makes of the node and its peers: what comes after
-- `syncPeerRoutes` and before the clean-up
unfoldable pub apply_static_routes :
    World → Geoip → (Command → Bool) → String × String → List Peer → Node → List Command
unfolding default_commands policy_commands
apply_static_routes w g ok gw peers n =
    default_commands peers n ++ policy_commands w g ok gw peers n.policy_rules
