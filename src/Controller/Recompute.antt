-- ===== src/Controller/Recompute.antt =====
-- `RecomputeAllPlans` of pkg/api/controller.go: the plan that each node has afterwards.
use peer_wan.Prelude.{
  ℕ, suc, String, ◌==◌, false, Option, none, some, List, [], ◌∷◌, contains, Distinct, All, ◌≡◌,
  refl, arith, ==_refl, if◌then◌else◌,
}
use peer_wan.Prelude.Dict.{Dict, lookup-insert}
use peer_wan.Model.{Node, Peer, Plan, PolicyRule, HealthReport}
use peer_wan.Topology.{build_peer_plan}
use peer_wan.Routing.{RuleMap, expand_policy_rules, rules_at}
use peer_wan.Store.{list_nodes, list_health, get_plan, save_plan, set_global_plan_version}
use peer_wan.Controller.{
  Host, Controller, sign_plan, plan_of, with_port, save_plan_with_rules, health_map, save_each,
  recompute_all_plans,
}

-- The plan `p` is the one of the node `n` with these peers and rules, signed.
abbrev pub IsPlanOf : Host → Node → List Peer → List PolicyRule → Plan → Type 0
IsPlanOf host n peers rules p =
    (p.node_id ≡ n.id)
    × (p.peers ≡ peers)
    × (p.policy_rules ≡ rules)
    × (p.routes ≡ n.cidrs)
    × (p.egress_peer_id ≡ n.egress_peer_id)
    × (p.default_route ≡ n.default_route)
    × (p.bypass_cidrs ≡ n.bypass_cidrs)
    × (p.default_route_next_hop ≡ n.default_route_next_hop)
    × (p.peer_endpoints ≡ n.peer_endpoints)
    × (p.signature ≡ sign_plan host n.id peers p.config_version)

abbrev pub HasPlan : Host → Node → List Peer → List PolicyRule → Option Plan → Type 0
HasPlan host n peers rules none = ⊥
HasPlan host n peers rules (some p) = IsPlanOf host n peers rules p

abbrev pub ids : List Node → List String
ids [] = []
ids (n ∷ nodes) = n.id ∷ ids nodes

with_port-id : (n : Node) → (with_port n).id ≡ n.id
unfolding with_port
with_port-id n = ground arith

pub plan_of-IsPlanOf :
    (host : Host) (now : ℕ) (n : Node) (peers : List Peer) (rules : List PolicyRule) (v : ℕ)
    → IsPlanOf host n peers rules (plan_of host now (with_port n) peers rules v)
unfolding plan_of with_port
plan_of-IsPlanOf host now n peers rules v = ground arith

-- What `savePlanWithRules` does to the plan of the node `k`.
pub get_plan-save_plan_with_rules :
    (host : Host) (now : ℕ) (k : String) (n : Node) (peers : List Peer) (rules : List PolicyRule)
    (c : Controller)
    → get_plan k (save_plan_with_rules host now n peers rules c).store ≡ (
        if n.id == k
        then some (plan_of host now (with_port n) peers rules (suc c.plan_version))
        else get_plan k c.store)
unfolding save_plan_with_rules get_plan save_plan set_global_plan_version plan_of
get_plan-save_plan_with_rules host now k n peers rules c =
    rw
      (lookup-insert (with_port n).id k
        (plan_of host now (with_port n) peers rules (suc c.plan_version)) c.store.plans)
      (rw (with_port-id n) refl)

module _ (host : Host) (now : ℕ) (all : List Node) (health : Dict HealthReport)
    (rules : RuleMap) where
  save_each-other :
      (k : String) (rest : List Node) (c : Controller)
      → contains (ids rest) k ≡ false
      → get_plan k (save_each host now all health rules rest c).store ≡ get_plan k c.store
  unfolding save_each
  save_each-other k [] c h = refl
  save_each-other k (n ∷ rest) c h =
      let c' : Controller =
        save_plan_with_rules host now n (build_peer_plan n.id all health) (rules_at n.id rules) c in
      ground (
        arith,
        h,
        get_plan-save_plan_with_rules host now k n (build_peer_plan n.id all health)
            (rules_at n.id rules) c,
        save_each-other k rest c',
      )

  save_each-HasPlan :
      (rest : List Node) (c : Controller)
      → Distinct (ids rest)
      → All
          (λ n.
            HasPlan host n
              (build_peer_plan n.id all health)
              (rules_at n.id rules)
              (get_plan n.id (save_each host now all health rules rest c).store))
          rest
  unfolding save_each
  save_each-HasPlan [] c d = tt
  save_each-HasPlan (n ∷ rest) c d =
      let peers : List Peer = build_peer_plan n.id all health in
      let mine : List PolicyRule = rules_at n.id rules in
      let c' : Controller = save_plan_with_rules host now n peers mine c in
      let head : HasPlan host n peers mine
          (get_plan n.id (save_each host now all health rules rest c').store) =
        rw (save_each-other n.id rest c' d.0) (
          rw (get_plan-save_plan_with_rules host now n.id n peers mine c)
            (rw (==_refl n.id) (plan_of-IsPlanOf host now n peers mine (suc c.plan_version)))) in
      (head, save_each-HasPlan rest c' d.1)

-- Where no two nodes have one ID, every node has, once all plans are recomputed, the plan with its
-- peers by `BuildPeerPlan`, the rules that the expansion of all policies gives it, its own networks,
-- egress, default route, bypasses and endpoints, and the signature that a rollback checks.
pub recompute_all_plans-HasPlan :
    (host : Host) (now : ℕ) (c : Controller)
    → Distinct (ids (list_nodes c.store))
    → All
        (λ n.
          HasPlan host n
            (build_peer_plan n.id (list_nodes c.store) (health_map (list_health c.store) []))
            (rules_at n.id (expand_policy_rules (list_nodes c.store)))
            (get_plan n.id (recompute_all_plans host now c).store))
        (list_nodes c.store)
unfolding recompute_all_plans
recompute_all_plans-HasPlan host now c d =
    save_each-HasPlan host now (list_nodes c.store) (health_map (list_health c.store) [])
      (expand_policy_rules (list_nodes c.store)) (list_nodes c.store) c d
