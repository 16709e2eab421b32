-- ===== src/Tests/Network.antt =====
-- A network of three nodes, for the plans and the rules of pkg/topology and pkg/api.
use peer_wan.Prelude.{List, [], ◌∷◌, map, keep, ◌≡◌, refl}
use peer_wan.Prelude.Dict.{Dict, insert}
use mathlib.Core.List.{Perm}
use peer_wan.Model.{Node, no_node, HealthReport, PolicyRule}
use peer_wan.Topology.{build_peer_plan, candidates, peer_of, Scored}
use peer_wan.Topology.Allowed.{allowed_ips, IsAllowedList, allowed_ips_lem}
use peer_wan.Topology.Sort.{IsStableSort}
use peer_wan.Topology.Plan.{
  is_eligible, build_peer_plan-IsStableSort, build_peer_plan-perm, build_peer_plan-insert_target,
}
use peer_wan.Routing.{expand_policy_rules, rules_at, hop_rule}
use peer_wan.Routing.Deliveries.{inbox, deliveries_of, node_deliveries, expand_policy_rules_lem}
use peer_wan.Routing.Hops.{route, route-path}

abbrev pub detour : PolicyRule
detour = record { prefix = "10.9.0.0/16"; via_node = ""; path = "b" ∷ "c" ∷ []; domains = [] }

abbrev pub node_a : Node
node_a = record no_node {
  id = "a";
  public_key = "ka";
  overlay_ip = "10.10.1.2/32";
  cidrs = "10.1.0.0/16" ∷ [];
  policy_rules = detour ∷ [];
  private_key = "sa";
  provision_token = "ta";
}

abbrev pub node_b : Node
node_b = record no_node { id = "b"; public_key = "kb"; cidrs = "10.2.0.0/16" ∷ "10.2.0.0/16" ∷ [] }

abbrev pub node_c : Node
node_c = record no_node { id = "c"; public_key = "kc"; cidrs = "10.9.0.0/16" ∷ [] }

abbrev pub network : List Node
network = node_a ∷ node_b ∷ node_c ∷ []

abbrev pub report_b : HealthReport
report_b = record {
  node_id = "b";
  status = "ok";
  latency_ms = ("10.10.1.2", 40) ∷ ("10.10.1.4", 12) ∷ [];
  packet_loss = [];
  frr_state = ("10.10.1.2", "Established") ∷ ("10.10.1.4", "Idle") ∷ [];
  timestamp = 7;
}

abbrev pub health : Dict HealthReport
health = ("b", report_b) ∷ []

route-path_example : route "10.9.0.0/16" 3 "a" (expand_policy_rules network) ≡ "b" ∷ "c" ∷ []
unfolding deliveries_of node_deliveries hop_rule
route-path_example = route-path network "a" detour refl refl (refl, (refl, (refl, tt)))

expand_policy_rules_lem_example :
    rules_at "b" (expand_policy_rules network) ≡ inbox "b" (node_deliveries network)
expand_policy_rules_lem_example = expand_policy_rules_lem network "b"

build_peer_plan-IsStableSort_example :
    (l : List Scored) × (build_peer_plan "a" network health ≡ map (λ s. s.peer) l)
    × IsStableSort (candidates "a" network health) l
build_peer_plan-IsStableSort_example = build_peer_plan-IsStableSort "a" network health

build_peer_plan-perm_example :
    Perm (build_peer_plan "a" network health) (map peer_of (keep (is_eligible "a" health) network))
build_peer_plan-perm_example = build_peer_plan-perm "a" network health

allowed_ips_lem_example :
    IsAllowedList "10.10.1.3/32"
      ("10.2.0.0/16" ∷ "10.2.0.0/16" ∷ [])
      (allowed_ips "10.10.1.3/32" ("10.2.0.0/16" ∷ "10.2.0.0/16" ∷ []))
allowed_ips_lem_example = allowed_ips_lem "10.10.1.3/32" ("10.2.0.0/16" ∷ "10.2.0.0/16" ∷ [])

build_peer_plan-insert_target_example :
    build_peer_plan "a" network (insert "a" report_b health) ≡ build_peer_plan "a" network health
build_peer_plan-insert_target_example = build_peer_plan-insert_target "a" network health report_b
