-- ===== src/Tests/Stores.antt =====
-- A store with the small network, and the handlers of pkg/api/controller.go on it.
use peer_wan.Prelude.{not, is_blank, true, false, some, List, [], ◌∷◌, ◌≡◌, refl, arith, All}
use peer_wan.Prelude.Dict.{lookup, insert}
use peer_wan.Model.{Plan, Settings}
use peer_wan.Topology.{build_peer_plan}
use peer_wan.Routing.{expand_policy_rules, rules_at}
use peer_wan.Store.{
  MemoryStore, new_memory_store, get_node, get_plan, list_nodes, list_health, rollback_plan,
  save_plan,
}
use peer_wan.Store.Steps.{Call, exec_all}
use peer_wan.Store.Plans.{IsPlanned, exec_all-IsPlanned}
use peer_wan.Store.Kept.{HasVersion, upserts, exec_all-HasVersion}
use peer_wan.Store.Rollback.{save_plans, RollsBack, rollback_plan-save_plans}
use peer_wan.Controller.{Host, Controller, health_map, recompute_all_plans}
use peer_wan.Controller.Handlers.{register, accept, rollback, signature_of, Reply}
use peer_wan.Controller.Registration.{Registration, unchanged}
use peer_wan.Controller.Recompute.{HasPlan, recompute_all_plans-HasPlan}
use peer_wan.Controller.Safety.{
  Answers, may_register, KeepsSecrets, HasNoPolicy, register-Answers, register-KeepsSecrets,
  accept-HasNoPolicy,
}
use peer_wan.Controller.Rollback.{RolledBack, rollback-RolledBack, finish_rollback-mismatch}
use peer_wan.Tests.Network.{node_a, node_b, node_c}

abbrev pub no_settings : Settings
no_settings = record {
  geoip = record { source_v4 = ""; source_v6 = ""; cache_dir = ""; cache_ttl = "24h" };
  diag = record { ping_interval = "3s" };
}

abbrev pub host : Host
host = record { digest = λ s. s; seconds = λ s. 3; defaults = no_settings; build = "dev" }

abbrev plan_three : Plan
plan_three = record {
  node_id = "a";
  version = 3;
  config_version = "dynamic-v3";
  peers = [];
  routes = "10.1.0.0/16" ∷ [];
  created_at = 5;
  signature = "adynamic-v3";
  egress_peer_id = "";
  policy_rules = [];
  peer_endpoints = [];
  default_route = false;
  bypass_cidrs = [];
  default_route_next_hop = "";
}

abbrev plan_four : Plan
plan_four = record plan_three { version = 4; config_version = "dynamic-v4"; signature = "forged" }

abbrev calls : List Call
calls =
    Call.upserted node_a
    ∷ Call.upserted node_b
    ∷ Call.plan_saved plan_three
    ∷ Call.plan_saved plan_four
    ∷ Call.rolled_back "a" 3
    ∷ Call.upserted node_a
    ∷ []

abbrev pub small_store : MemoryStore
small_store = record (new_memory_store no_settings) {
  nodes = ("a", node_a) ∷ ("b", node_b) ∷ ("c", node_c) ∷ [];
  history = ("a", plan_four ∷ []) ∷ [];
}

abbrev pub controller : Controller
controller = record { store = small_store; plan_version = 4; sent = [] }

abbrev request : Registration
request = record {
  id = "a";
  public_key = "stub-public-key";
  endpoints = [];
  cidrs = [];
  listen_port = 0;
  overlay_ip = "10.10.1.1/32";
  asn = 0;
  router_id = "";
  peer_endpoints = ("b", "192.0.2.1:8082") ∷ [];
  provision_token = "ta";
  force = true;
}

exec_all-IsPlanned_example : IsPlanned "a" (exec_all calls (new_memory_store no_settings))
exec_all-IsPlanned_example = exec_all-IsPlanned "a" calls no_settings

exec_all-HasVersion_example :
    HasVersion "a"
      (get_node "a" (exec_all calls (new_memory_store no_settings)))
      (upserts "a" calls 0)
exec_all-HasVersion_example = exec_all-HasVersion "a" calls no_settings

rollback_plan-save_plans_example :
    RollsBack plan_three
      (save_plans (plan_four ∷ []) (save_plan plan_three (new_memory_store no_settings)))
unfolding lookup new_memory_store
rollback_plan-save_plans_example =
    rollback_plan-save_plans plan_three (plan_four ∷ []) (new_memory_store no_settings) refl
      (omega arith)

recompute_all_plans-HasPlan_example :
    All
      (λ n.
        HasPlan host n
          (build_peer_plan n.id
            (list_nodes controller.store)
            (health_map (list_health controller.store) []))
          (rules_at n.id (expand_policy_rules (list_nodes controller.store)))
          (get_plan n.id (recompute_all_plans host 9 controller).store))
      (list_nodes controller.store)
unfolding list_nodes
recompute_all_plans-HasPlan_example =
    recompute_all_plans-HasPlan host 9 controller (refl, (refl, (refl, tt)))

register-Answers_example :
    Answers
      (not (is_blank "a"))
      (may_register false (get_node "a" controller.store) "ta" "")
      controller
      (register host 9 false "" request controller)
register-Answers_example = register-Answers host 9 false "" request controller

register-KeepsSecrets_example :
    KeepsSecrets node_a (get_node "a" (register host 9 false "" request controller).1.store)
unfolding get_node lookup
register-KeepsSecrets_example =
    register-KeepsSecrets host 9 false "" request controller node_a refl refl

accept-HasNoPolicy_example :
    HasNoPolicy (get_node "a" (accept host 9 request "ta" controller).1.store)
unfolding get_node lookup unchanged
accept-HasNoPolicy_example = accept-HasNoPolicy host 9 request "ta" controller refl

rollback-RolledBack_example : RolledBack plan_three (
    rollback host 9 true "a" 3 (record controller {
      store = save_plans (plan_four ∷ []) (save_plan plan_three small_store);
    }))
unfolding signature_of lookup
rollback-RolledBack_example =
    rollback-RolledBack host 9 plan_three (plan_four ∷ []) small_store controller refl refl refl
      (omega arith)

finish_rollback-mismatch_example :
    ((rollback host 9 true "a" 4 controller).0 ≡ Reply.http_error 400 "rollback signature mismatch")
    × (get_plan "a" (rollback host 9 true "a" 4 controller).1.store ≡ some plan_four)
unfolding rollback_plan lookup insert new_memory_store signature_of
finish_rollback-mismatch_example =
    finish_rollback-mismatch host 9 "a" 4 controller plan_four
      (record small_store { plans = ("a", plan_four) ∷ []; global_plan_version = 4 }) refl refl refl
      refl
