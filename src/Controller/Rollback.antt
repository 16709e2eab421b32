-- ===== src/Controller/Rollback.antt =====
-- Health reports and rollbacks of pkg/api/controller.go: the plans that they leave.
use peer_wan.Prelude.{
  ℕ, suc, ◌<◌, String, ◌==◌, true, false, not, ◌&&◌, Option, none, some, List, [], inl, inr, ◌≡◌,
  refl, subst, arith, ==_refl, eq_iff, Bool-cases, is_blank, find_first, length,
}
use peer_wan.Prelude.Dict.{insert, lookup-insert}
use peer_wan.Model.{Node, no_node, Peer, Plan, PolicyRule, HealthReport}
use peer_wan.Topology.{build_peer_plan}
use peer_wan.Topology.Plan.{build_peer_plan-insert_target}
use peer_wan.Routing.{expand_policy_rules, rules_at}
use peer_wan.Store.{
  MemoryStore, list_nodes, list_at, get_plan, save_plan, save_health, set_global_plan_version,
  append_audit, rollback_plan,
}
use peer_wan.Store.Rollback.{
  save_plans, has_version, RollsBack, Leaves, rollback_plan-Leaves, rollback_plan-save_plans,
}
use peer_wan.Controller.{
  Host, Controller, save_plan_with_rules, bump_plan_version, plan_of, with_port,
}
use peer_wan.Controller.Handlers.{Reply, accept_health, rollback, finish_rollback, signature_of}

-- A plan with peers and rules but without what the node itself configures.
abbrev pub IsBarePlan : String → List Peer → List PolicyRule → Option Plan → Type 0
IsBarePlan id peers rules none = ⊥
IsBarePlan id peers rules (some p) =
    (p.node_id ≡ id)
    × (p.peers ≡ peers)
    × (p.policy_rules ≡ rules)
    × (p.routes ≡ [])
    × (p.egress_peer_id ≡ "")
    × (p.default_route ≡ false)
    × (p.bypass_cidrs ≡ [])
    × (p.peer_endpoints ≡ [])

-- The plan that a health report leads to names no networks, egress, default route, bypasses or
-- endpoints of its node, whatever is stored for it; its peers are those of a network without any
-- health report.
pub accept_health-IsBarePlan :
    (host : Host) (now : ℕ) (r : HealthReport) (c : Controller)
    → IsBarePlan r.node_id
        (build_peer_plan r.node_id (list_nodes c.store) [])
        (rules_at r.node_id (expand_policy_rules (list_nodes c.store)))
        (get_plan r.node_id (accept_health host now r c).store)
unfolding accept_health bump_plan_version append_audit save_health list_nodes get_plan save_plan
    save_plan_with_rules set_global_plan_version plan_of with_port
accept_health-IsBarePlan host now r c =
    let report : HealthReport = record r { timestamp = now } in
    let nodes : List Node = list_nodes c.store in
    let peers : List Peer = build_peer_plan r.node_id nodes (insert r.node_id report []) in
    let p : Plan =
      plan_of host now (with_port (record no_node { id = r.node_id })) peers
        (rules_at r.node_id (expand_policy_rules nodes)) (suc c.plan_version) in
    rw (lookup-insert r.node_id r.node_id p c.store.plans) (
      rw (==_refl r.node_id) (
        refl,
        build_peer_plan-insert_target r.node_id nodes [] report,
        refl,
        refl,
        refl,
        refl,
        refl,
        refl,
      ))

signature_of-plan_of :
    (host : Host) (now : ℕ) (n : Node) (peers : List Peer) (rules : List PolicyRule) (v : ℕ)
    → signature_of host (plan_of host now n peers rules v)
      ≡ (plan_of host now n peers rules v).signature
unfolding signature_of plan_of
signature_of-plan_of host now n peers rules v = refl

-- What a rollback to the plan `p` answers, and the versions and the plan that it leaves.
abbrev pub RolledBack : Plan → Reply Plan × Controller → Type 0
RolledBack p (Reply.replied q, c) =
    (q ≡ p)
    × (c.plan_version ≡ p.version)
    × (c.store.global_plan_version ≡ p.version)
    × (get_plan p.node_id c.store ≡ some p)
RolledBack p (Reply.http_error code text, c) = ⊥

finish_rollback-RolledBack :
    (host : Host) (now : ℕ) (c : Controller) (p : Plan) (st : MemoryStore)
    → p.signature ≡ signature_of host p
    → get_plan p.node_id st ≡ some p
    → RolledBack p (finish_rollback host now c (some (p, st)))
unfolding finish_rollback append_audit set_global_plan_version get_plan
finish_rollback-RolledBack host now c p st signed stored =
    elim (Bool-cases (not (is_blank p.signature) && not (p.signature == signature_of host p))) [
      | inl t ↦ absurd (ground (arith, t, eq_iff p.signature (signature_of host p), signed))
      | inr f ↦
          (let r : RolledBack p (finish_rollback host now c (some (p, st))) =
              rw f (refl, refl, refl, stored) in
            r)
    ]

-- A plan of a named node with the signature that the controller computes is rolled back to by a
-- request with a session, as long as its version was new in the node's history and fewer than 20
-- plans, for any nodes, were saved since: the rollback answers this plan, makes it the plan of
-- its node, and the counter of the controller and the global version take its version.
pub rollback-RolledBack :
    (host : Host) (now : ℕ) (p : Plan) (ps : List Plan) (s : MemoryStore) (c : Controller)
    → p.signature ≡ signature_of host p
    → is_blank p.node_id ≡ false
    → find_first (has_version p.version) (list_at p.node_id s.history) ≡ none
    → length ps < 20
    → RolledBack p (
        rollback host now true p.node_id p.version
          (record c { store = save_plans ps (save_plan p s) }))
unfolding rollback
rollback-RolledBack host now p ps s c signed named new few =
    let c' : Controller = record c { store = save_plans ps (save_plan p s) } in
    let found : RollsBack p c'.store = rollback_plan-save_plans p ps s new few in
    rw named (rw found.1 (finish_rollback-RolledBack host now c' p found.0 signed found.2))

-- A rollback of a named node, with a session, that finds a plan whose signature is given and is
-- not the one that the controller computes is refused with the code 400, and leaves the refused
-- plan as the plan of the node.
pub finish_rollback-mismatch :
    (host : Host) (now : ℕ) (id : String) (v : ℕ) (c : Controller) (p : Plan) (st : MemoryStore)
    → rollback_plan id v c.store ≡ some (p, st)
    → is_blank id ≡ false
    → is_blank p.signature ≡ false
    → (p.signature == signature_of host p) ≡ false
    → ((rollback host now true id v c).0 ≡ Reply.http_error 400 "rollback signature mismatch")
      × (get_plan id (rollback host now true id v c).1.store ≡ some p)
unfolding rollback finish_rollback
finish_rollback-mismatch host now id v c p st found named signed wrong =
    let left : get_plan id st ≡ some p =
      subst (Leaves id) found (rollback_plan-Leaves id v c.store) in
    rw named (rw found (rw (signed, wrong) (refl, left)))
