-- ===== src/Controller.antt =====
-- pkg/api/controller.go: the handlers that register nodes, take health reports and roll plans back,
-- with the plans that they store and push. The server always passes a `planVersion` counter and a hub;
-- what is handed to `wsHubGlobal.Send` is listed in `sent`. SHA-256 in hexadecimal, the reading of a
-- duration in seconds (0 where it does not parse), the default settings and the build's version are
-- parameters, in the record `Host`. A decoded request is the record of its fields.
pub mod Registration
pub mod Handlers
pub mod Recompute
pub mod Safety
pub mod Rollback
pub mod Policies
pub mod PolicyUpdates
pub mod Reports
pub mod Served
pub mod Options
pub mod Waiting
use peer_wan.Prelude.{
  ℕ, suc, ◌+◌, String, ◌==◌, ◌⧺◌, Bool, true, false, not, ◌&&◌, ◌||◌, Option, none, some, List, [],
  ◌∷◌, ◌++◌, decimal, join, eqb, is_blank, is_empty, if◌then◌else◌,
}
use peer_wan.Prelude.Dict.{Dict, insert}
use peer_wan.Model.{Node, Peer, HealthReport, Plan, PolicyRule, Settings, GeoipConfig, AuditEntry}
use peer_wan.Topology.{build_peer_plan}
use peer_wan.Routing.{RuleMap, expand_policy_rules, rules_at}
use peer_wan.Store.{
  MemoryStore, list_nodes, list_health, get_node, save_plan, set_global_plan_version,
}

pub record Host : Type 0 where
  pub digest : String → String
  pub seconds : String → ℕ
  pub defaults : Settings
  pub build : String

-- `NodeConfigResponse`
pub record NodeConfig : Type 0 where
  pub id : String
  pub config_version : String
  pub wire_guard_peers : List Peer
  pub routes : List String
  pub overlay_ip : String
  pub listen_port : ℕ
  pub asn : ℕ
  pub router_id : String
  pub endpoints : List String
  pub private_key : String
  pub public_key : String
  pub egress_peer_id : String
  pub policy_rules : List PolicyRule
  pub peer_endpoints : Dict String
  pub geoip : GeoipConfig
  pub default_route : Bool
  pub bypass_cidrs : List String
  pub default_route_next_hop : String
  pub health_interval_sec : ℕ
  pub message : String

pub record Controller : Type 0 where
  pub store : MemoryStore
  pub plan_version : ℕ
  pub sent : List NodeConfig

abbrev pub non_blank : String → String → String
non_blank s other = if is_blank s then other else s

-- `loadSettingsOrDefault`, for a store that answers
unfoldable pub load_settings_or_default : Host → MemoryStore → Settings
load_settings_or_default host s = record {
  geoip = record {
    source_v4 = non_blank s.settings.geoip.source_v4 host.defaults.geoip.source_v4;
    source_v6 = non_blank s.settings.geoip.source_v6 host.defaults.geoip.source_v6;
    cache_dir = non_blank s.settings.geoip.cache_dir host.defaults.geoip.cache_dir;
    cache_ttl = non_blank s.settings.geoip.cache_ttl host.defaults.geoip.cache_ttl;
  };
  diag = record {
    ping_interval = non_blank s.settings.diag.ping_interval host.defaults.diag.ping_interval;
  };
}

unfoldable pub diag_interval_seconds : Host → MemoryStore → ℕ
unfolding load_settings_or_default
diag_interval_seconds host s =
    let interval : String = (load_settings_or_default host s).diag.ping_interval in
    if is_blank interval then 0 else host.seconds interval

unfoldable pub peers_text : List Peer → String
peers_text [] = ""
peers_text (p ∷ peers) = p.id ⧺ (join "," p.allowed_ips ⧺ peers_text peers)

-- `signPlan`: the hash of everything that is written to it
unfoldable pub sign_plan : Host → String → List Peer → String → String
unfolding peers_text
sign_plan host id peers cfg_ver = host.digest (id ⧺ (cfg_ver ⧺ peers_text peers))

-- The plan that `savePlanWithRules` builds.
unfoldable pub plan_of : Host → ℕ → Node → List Peer → List PolicyRule → ℕ → Plan
unfolding sign_plan
plan_of host now n peers rules version =
    let cv : String = "dynamic-v" ⧺ decimal version in
    record {
      node_id = n.id;
      version = version;
      config_version = cv;
      peers = peers;
      routes = n.cidrs;
      created_at = now;
      signature = sign_plan host n.id peers cv;
      egress_peer_id = n.egress_peer_id;
      policy_rules = rules;
      peer_endpoints = n.peer_endpoints;
      default_route = n.default_route;
      bypass_cidrs = n.bypass_cidrs;
      default_route_next_hop = n.default_route_next_hop;
    }

-- The configuration that a node is sent; `keys` is the private and the public key.
unfoldable pub config_of :
    Host
    → MemoryStore
    → Node
    → String
    → List Peer
    → List PolicyRule
    → String × String
    → String
    → NodeConfig
unfolding load_settings_or_default diag_interval_seconds
config_of host s n cv peers rules keys message = record {
  id = n.id;
  config_version = cv;
  wire_guard_peers = peers;
  routes = n.cidrs;
  overlay_ip = n.overlay_ip;
  listen_port = n.listen_port;
  asn = n.asn;
  router_id = n.router_id;
  endpoints = n.endpoints;
  private_key = keys.0;
  public_key = keys.1;
  egress_peer_id = n.egress_peer_id;
  policy_rules = rules;
  peer_endpoints = n.peer_endpoints;
  geoip = (load_settings_or_default host s).geoip;
  default_route = n.default_route;
  bypass_cidrs = n.bypass_cidrs;
  default_route_next_hop = n.default_route_next_hop;
  health_interval_sec = diag_interval_seconds host s;
  message = message;
}

-- WireGuard over WSS listens on port 8082 where the node names none.
unfoldable pub with_port : Node → Node
with_port n = if eqb n.listen_port 0 then record n { listen_port = 8082 } else n

-- `savePlanWithRules`
unfoldable pub save_plan_with_rules :
    Host → ℕ → Node → List Peer → List PolicyRule → Controller → Controller
unfolding plan_of with_port config_of save_plan set_global_plan_version
save_plan_with_rules host now n peers rules c =
    let version : ℕ = suc c.plan_version in
    let p : Plan = plan_of host now (with_port n) peers rules version in
    let st : MemoryStore = set_global_plan_version version (save_plan p c.store) in
    record {
      store = st;
      plan_version = version;
      sent =
          c.sent
          ++ config_of host st (with_port n) p.config_version peers rules ("", "") "ws plan push"
            ∷ [];
    }

-- `for _, h := range healthList { hmap[h.NodeID] = h }`
unfoldable pub health_map : List HealthReport → Dict HealthReport → Dict HealthReport
health_map [] m = m
health_map (h ∷ hs) m = health_map hs (insert h.node_id h m)

-- The loop of `RecomputeAllPlans` over the nodes that are left.
unfoldable pub save_each :
    Host → ℕ → List Node → Dict HealthReport → RuleMap → List Node → Controller → Controller
unfolding save_plan_with_rules
save_each host now all health rules [] c = c
save_each host now all health rules (n ∷ rest) c =
    save_each host now all health rules rest
      (save_plan_with_rules host now n (build_peer_plan n.id all health) (rules_at n.id rules) c)

unfoldable pub recompute_all_plans : Host → ℕ → Controller → Controller
unfolding save_each health_map
recompute_all_plans host now c =
    save_each host now (list_nodes c.store) (health_map (list_health c.store) [])
      (expand_policy_rules (list_nodes c.store)) (list_nodes c.store) c

unfoldable pub bump_plan_version : Controller → Controller
bump_plan_version c = record c { plan_version = suc c.plan_version }
