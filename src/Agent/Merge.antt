-- ===== src/Agent/Merge.antt =====
-- `mergePlanIntoNode` of pkg/agent/plan.go, over the plans that reach an agent.
use peer_wan.Prelude.{
  ℕ, suc, String, true, false, Option, none, some, List, [], ◌∷◌, ◌≡◌, refl, arith, is_blank,
  is_empty, last?, last?-append, Bool-cases, inl, inr, ◌⊎◌, if◌then◌else◌,
}
use peer_wan.Model.{Node, no_node, Peer, HealthReport, Plan, PolicyRule}
use peer_wan.Prelude.Dict.{insert}
use peer_wan.Topology.{build_peer_plan}
use peer_wan.Routing.{expand_policy_rules, rules_at}
use peer_wan.Store.{
  MemoryStore, list_nodes, save_health, append_audit, save_plan, set_global_plan_version,
}
use peer_wan.Controller.{
  Host, NodeConfig, Controller, config_of, with_port, plan_of, save_plan_with_rules,
  bump_plan_version,
}
use peer_wan.Controller.Handlers.{accept_health}
use peer_wan.Policy.{World}
use peer_wan.Agent.{
  Agent, merge_plan_into_node, take_plan, handle_ws_plan, given_text, given_number, given_list,
  merge_port,
}

given_text_twice : (new old : String) → given_text new (given_text new old) ≡ given_text new old
given_text_twice new old = ground arith

given_number_twice : (new old : ℕ) → given_number new (given_number new old) ≡ given_number new old
given_number_twice new old = ground arith

given_list_twice {ℓ} :
    {A : Type ℓ} (new old : List A) → given_list new (given_list new old) ≡ given_list new old
given_list_twice [] old = refl
given_list_twice (x ∷ xs) old = refl

merge_port_twice : (new old : ℕ) → merge_port new (merge_port new old) ≡ merge_port new old
merge_port_twice new old = ground arith

-- A configuration that is taken again, as the periodic self-check does, changes nothing.
pub merge_idem :
    (n : Node) (cfg : NodeConfig)
    → merge_plan_into_node (merge_plan_into_node n cfg) cfg ≡ merge_plan_into_node n cfg
unfolding merge_plan_into_node
merge_idem n cfg = rw (given_text_twice cfg.overlay_ip n.overlay_ip) (
    rw (merge_port_twice cfg.listen_port n.listen_port) (
      rw (given_number_twice cfg.asn n.asn) (
        rw (given_text_twice cfg.router_id n.router_id) (
          rw (given_list_twice cfg.routes n.cidrs) (
            rw (given_list_twice cfg.peer_endpoints n.peer_endpoints) (
              rw (given_text_twice cfg.egress_peer_id n.egress_peer_id) (
                rw (given_list_twice cfg.policy_rules n.policy_rules) (
                  rw (given_list_twice cfg.bypass_cidrs n.bypass_cidrs) (
                    rw (given_text_twice cfg.default_route_next_hop n.default_route_next_hop)
                      refl)))))))))

-- Plans in the order in which they arrive.
unfoldable pub take_plans : World → ℕ → String → List NodeConfig → Agent → Agent
unfolding handle_ws_plan
take_plans w asn id [] a = a
take_plans w asn id (cfg ∷ cfgs) a = take_plans w asn id cfgs (handle_ws_plan w asn id cfg a)

-- What the node has of policy rules, bypassed networks, an egress and a default next hop, the other
-- node has too.
abbrev pub HasStill : Node → Node → Type 0
HasStill old n =
    ((is_empty old.policy_rules ≡ true) ⊎ (is_empty n.policy_rules ≡ false))
    × ((is_empty old.bypass_cidrs ≡ true) ⊎ (is_empty n.bypass_cidrs ≡ false))
    × ((is_blank old.egress_peer_id ≡ true) ⊎ (is_blank n.egress_peer_id ≡ false))
    × ((is_blank old.default_route_next_hop ≡ true) ⊎ (is_blank n.default_route_next_hop ≡ false))

kept_list {ℓ} :
    {A : Type ℓ} (first old new : List A)
    → (is_empty first ≡ true) ⊎ (is_empty old ≡ false)
    → (is_empty first ≡ true) ⊎ (is_empty (given_list new old) ≡ false)
kept_list first old [] h = h
kept_list first old (x ∷ xs) h = inr refl

kept_text :
    (first old new : String)
    → (is_blank first ≡ true) ⊎ (is_blank old ≡ false)
    → (is_blank first ≡ true) ⊎ (is_blank (given_text new old) ≡ false)
kept_text first old new h = elim (Bool-cases (is_blank new)) [
  | inl b ↦
      (let r : (is_blank first ≡ true) ⊎ (is_blank (given_text new old) ≡ false) = rw b h in r)
  | inr nb ↦
      (let r : (is_blank first ≡ true) ⊎ (is_blank (given_text new old) ≡ false) = rw nb (inr nb) in
        r)
]

HasStill-merge :
    (first n : Node) (cfg : NodeConfig)
    → HasStill first n
    → HasStill first (merge_plan_into_node n cfg)
unfolding merge_plan_into_node
HasStill-merge first n cfg h = (
  kept_list first.policy_rules n.policy_rules cfg.policy_rules h.0,
  kept_list first.bypass_cidrs n.bypass_cidrs cfg.bypass_cidrs h.1,
  kept_text first.egress_peer_id n.egress_peer_id cfg.egress_peer_id h.2,
  kept_text first.default_route_next_hop n.default_route_next_hop cfg.default_route_next_hop h.3,
)

HasStill-handle_ws_plan :
    (w : World) (asn : ℕ) (id : String) (first : Node) (cfg : NodeConfig) (a : Agent)
    → HasStill first a.latest_node
    → HasStill first (handle_ws_plan w asn id cfg a).latest_node
unfolding handle_ws_plan take_plan
HasStill-handle_ws_plan w asn id first cfg a h =
    HasStill-merge first a.latest_node (if is_blank cfg.id then record cfg { id = id } else cfg) h

HasStill-take_plans :
    (w : World) (asn : ℕ) (id : String) (first : Node) (cfgs : List NodeConfig) (a : Agent)
    → HasStill first a.latest_node
    → HasStill first (take_plans w asn id cfgs a).latest_node
unfolding take_plans
HasStill-take_plans w asn id first [] a h = h
HasStill-take_plans w asn id first (cfg ∷ cfgs) a h =
    HasStill-take_plans w asn id first cfgs (handle_ws_plan w asn id cfg a)
      (HasStill-handle_ws_plan w asn id first cfg a h)

either_empty {ℓ} : {A : Type ℓ} (xs : List A) → (is_empty xs ≡ true) ⊎ (is_empty xs ≡ false)
either_empty [] = inl refl
either_empty (x ∷ xs) = inr refl

HasStill-refl : (n : Node) → HasStill n n
HasStill-refl n = (
  either_empty n.policy_rules,
  either_empty n.bypass_cidrs,
  Bool-cases (is_blank n.egress_peer_id),
  Bool-cases (is_blank n.default_route_next_hop),
)

-- No plans make an agent give up all of its policy rules, all of its bypassed networks, its egress or its
-- default next hop: what it has of one of these it may replace, and never loses, also where the
-- controller's node has none any more.
pub take_plans-HasStill :
    (w : World) (asn : ℕ) (id : String) (cfgs : List NodeConfig) (a : Agent)
    → HasStill a.latest_node (take_plans w asn id cfgs a).latest_node
take_plans-HasStill w asn id cfgs a =
    HasStill-take_plans w asn id a.latest_node cfgs a (HasStill-refl a.latest_node)

latest_node-handle_ws_plan :
    (w : World) (asn : ℕ) (id : String) (cfg : NodeConfig) (a : Agent)
    → (handle_ws_plan w asn id cfg a).latest_node ≡ merge_plan_into_node a.latest_node cfg
unfolding handle_ws_plan take_plan merge_plan_into_node
latest_node-handle_ws_plan w asn id cfg a = elim (Bool-cases (is_blank cfg.id)) [
  | inl b ↦
      (let r : (handle_ws_plan w asn id cfg a).latest_node
            ≡ merge_plan_into_node a.latest_node cfg =
          rw b refl in
        r)
  | inr b ↦
      (let r : (handle_ws_plan w asn id cfg a).latest_node
            ≡ merge_plan_into_node a.latest_node cfg =
          rw b refl in
        r)
]

-- The node lost its default route and its own port, and kept every other field but the rules.
abbrev pub IsReset : Node → List PolicyRule → Node → Type 0
IsReset old rules n =
    (n.default_route ≡ false)
    × (n.listen_port ≡ 8082)
    × (n.policy_rules ≡ (if is_empty rules then old.policy_rules else rules))
    × (n.egress_peer_id ≡ old.egress_peer_id)
    × (n.default_route_next_hop ≡ old.default_route_next_hop)
    × (n.bypass_cidrs ≡ old.bypass_cidrs)
    × (n.cidrs ≡ old.cidrs)
    × (n.overlay_ip ≡ old.overlay_ip)
    × (n.id ≡ old.id)
    × (n.public_key ≡ old.public_key)
    × (n.endpoints ≡ old.endpoints)
    × (n.config_version ≡ old.config_version)
    × (n.version ≡ old.version)
    × (n.asn ≡ old.asn)
    × (n.router_id ≡ old.router_id)
    × (n.private_key ≡ old.private_key)
    × (n.provision_token ≡ old.provision_token)
    × (n.peer_endpoints ≡ old.peer_endpoints)

abbrev pub Resets : World → ℕ → String → Agent → List PolicyRule → Option NodeConfig → Type 0
Resets w asn id a rules none = ⊥
Resets w asn id a rules (some cfg) =
    IsReset a.latest_node rules (handle_ws_plan w asn id cfg a).latest_node

-- Each health report makes the controller push a configuration, as the last one sent, that switches the
-- agent's default route off and its port to 8082, whatever the controller has stored for the node. The
-- rules are the node's share of the stored ones, or the old rules where it has none; the rest is kept.
pub accept_health-Resets :
    (host : Host) (now : ℕ) (r : HealthReport) (c : Controller) (w : World) (asn : ℕ) (id : String)
    (a : Agent)
    → Resets w asn id a
        (rules_at r.node_id (expand_policy_rules (list_nodes c.store)))
        (last? (accept_health host now r c).sent)
unfolding accept_health bump_plan_version append_audit save_health list_nodes save_plan_with_rules
    config_of with_port merge_plan_into_node
accept_health-Resets host now r c w asn id a =
    let n : Node = with_port (record no_node { id = r.node_id }) in
    let peers : List Peer =
      build_peer_plan r.node_id (list_nodes c.store)
        (insert r.node_id (record r { timestamp = now }) []) in
    let rules : List PolicyRule = rules_at r.node_id (expand_policy_rules (list_nodes c.store)) in
    let p : Plan = plan_of host now n peers rules (suc c.plan_version) in
    let st : MemoryStore =
      set_global_plan_version (suc c.plan_version)
        (save_plan p (save_health now (record r { timestamp = now }) c.store)) in
    let cfg : NodeConfig =
      config_of host st n p.config_version peers rules ("", "") "ws plan push" in
    rw (last?-append c.sent cfg) (
      rw (latest_node-handle_ws_plan w asn id cfg a) (
        refl, refl, refl, refl, refl, refl, refl, refl, refl, refl, refl, refl, refl, refl, refl,
        refl, refl, refl,
      ))
