-- ===== src/Agent.antt =====
-- pkg/agent: what an agent does with the plans and tasks that the controller sends.
pub mod Carried
pub mod Installed
pub mod Merge
pub mod Render
pub mod AllowedIps
pub mod Forwarding
pub mod Pipeline
pub mod Outcome
pub mod Tunnels
pub mod Files
use peer_wan.Prelude.{ℕ, String, Bool, List, eqb, is_blank, is_empty, if◌then◌else◌}
use peer_wan.Model.{Node}
use peer_wan.Controller.{NodeConfig}
use peer_wan.Policy.{World, Geoip, set_config}

abbrev given_text : String → String → String
given_text new old = if is_blank new then old else new

abbrev given_number : ℕ → ℕ → ℕ
given_number new old = if eqb new 0 then old else new

abbrev given_list {ℓ} : {A : Type ℓ} → List A → List A → List A
given_list new old = if is_empty new then old else new

abbrev merge_port : ℕ → ℕ → ℕ
merge_port new old = if eqb new 0 then (if eqb old 0 then 8082 else old) else new

-- `mergePlanIntoNode`, the node that it gives (plan.go)
unfoldable pub merge_plan_into_node : Node → NodeConfig → Node
merge_plan_into_node n cfg = record n {
  overlay_ip = given_text cfg.overlay_ip n.overlay_ip;
  listen_port = merge_port cfg.listen_port n.listen_port;
  asn = given_number cfg.asn n.asn;
  router_id = given_text cfg.router_id n.router_id;
  cidrs = given_list cfg.routes n.cidrs;
  peer_endpoints = given_list cfg.peer_endpoints n.peer_endpoints;
  egress_peer_id = given_text cfg.egress_peer_id n.egress_peer_id;
  policy_rules = given_list cfg.policy_rules n.policy_rules;
  default_route = cfg.default_route;
  bypass_cidrs = given_list cfg.bypass_cidrs n.bypass_cidrs;
  default_route_next_hop = given_text cfg.default_route_next_hop n.default_route_next_hop;
}

-- The AS number that it gives.
unfoldable pub next_asn : ℕ → Node → ℕ
next_asn asn n = if eqb n.asn 0 then asn else n.asn

-- `latestCfg`, `latestNode`, the AS number of the last rendering, and the variables of pkg/policy.
pub record Agent : Type 0 where
  pub latest_cfg : NodeConfig
  pub latest_node : Node
  pub rendered_asn : ℕ
  pub geoip : Geoip

-- What `handlePlan` does before the files are written; `asn` is that of `wsCtx`.
unfoldable pub take_plan : World → ℕ → NodeConfig → Agent → Agent
unfolding merge_plan_into_node next_asn set_config
take_plan w asn cfg a =
    let n : Node = merge_plan_into_node a.latest_node cfg in
    record {
      latest_cfg = cfg;
      latest_node = n;
      rendered_asn = next_asn asn n;
      geoip = set_config w cfg.geoip a.geoip;
    }

-- `handleWSPlan`, as far as that
unfoldable pub handle_ws_plan : World → ℕ → String → NodeConfig → Agent → Agent
unfolding take_plan
handle_ws_plan w asn node_id cfg a =
    take_plan w asn (if is_blank cfg.id then record cfg { id = node_id } else cfg) a
