-- ===== src/Status/Safety.antt =====
-- `diagnoseNode` of pkg/api/diagnose.go on the plans that the controller makes: the index into a peer's
-- addresses is in range.
use peer_wan.Prelude.{
  ℕ, String, ◌==◌, true, false, ◌||◌, Option, none, some, is_some, List, [], ◌∷◌, ◌≡◌, refl, arith,
  All, map, contains, Distinct, eq_iff, ltb, is_empty, is_blank, Bool-cases, inl, inr,
}
use peer_wan.Prelude.Dict.{Dict, lookup}
use peer_wan.Model.{Node, Peer, Plan, PolicyRule, HealthReport}
use peer_wan.Topology.{
  Scored, peer_of, with_score, candidate, push, candidates, insert_stable, sort_stable,
  build_peer_plan, score_of,
}
use peer_wan.Topology.Allowed.{allowed_ips, allowed_ips_lem}
use peer_wan.Routing.{expand_policy_rules, rules_at}
use peer_wan.Store.{list_nodes, list_health, get_plan}
use peer_wan.Controller.{Host, Controller, health_map, recompute_all_plans}
use peer_wan.Controller.Recompute.{HasPlan, recompute_all_plans-HasPlan, ids}
use peer_wan.Policy.{World}
use peer_wan.Status.{plan_peers, diagnose_node}
use peer_wan.Status.Severity.{HasAddress, diagnose_node-Answers}

has_some : (xs : List String) (a : String) → contains xs a ≡ true → is_empty xs ≡ false
has_some [] a h = absurd (ground (arith, h))
has_some (x ∷ xs) a h = refl

allowed_ips-HasSome :
    (overlay : String) (cidrs : List String)
    → is_empty cidrs ≡ false
    → is_empty (allowed_ips overlay cidrs) ≡ false
allowed_ips-HasSome overlay [] h = absurd (ground (arith, h))
allowed_ips-HasSome overlay (c ∷ cidrs) h =
    has_some (allowed_ips overlay (c ∷ cidrs)) c
      (ground (arith, (allowed_ips_lem overlay (c ∷ cidrs)).members c, eq_iff c c))

abbrev HasOne : Scored → Type 0
HasOne s = is_empty s.peer.allowed_ips ≡ false

push-HasOne :
    (n : Node) (o : Option ℕ) (rest : List Scored)
    → is_empty n.cidrs ≡ false
    → All HasOne rest
    → All HasOne (push (with_score n o) rest)
unfolding peer_of
push-HasOne n none rest h a = a
push-HasOne n (some k) rest h a = (allowed_ips-HasSome n.overlay_ip n.cidrs h, a)

candidates-HasOne :
    (target : String) (nodes : List Node) (health : Dict HealthReport)
    → All HasOne (candidates target nodes health)
unfolding candidates candidate
candidates-HasOne target [] health = tt
candidates-HasOne target (n ∷ nodes) health =
    let rest : All HasOne (candidates target nodes health) =
      candidates-HasOne target nodes health in
    elim (Bool-cases (n.id == target)) [
      | inl own ↦ (let r : All HasOne (candidates target (n ∷ nodes) health) = rw own rest in r)
      | inr other ↦ elim (Bool-cases (is_empty n.cidrs || is_blank n.public_key)) [
        | inl skip ↦
            (let r : All HasOne (candidates target (n ∷ nodes) health) = rw other (rw skip rest) in
              r)
        | inr take ↦
            (let some_cidr : is_empty n.cidrs ≡ false = ground (arith, take) in
              let r : All HasOne (candidates target (n ∷ nodes) health) = rw other (
                rw take (
                  push-HasOne n (score_of (lookup n.id health)) (candidates target nodes health)
                    some_cidr rest)) in
              r)
      ]
    ]

insert_stable-HasOne :
    (s : Scored) (l : List Scored) → HasOne s → All HasOne l → All HasOne (insert_stable s l)
unfolding insert_stable
insert_stable-HasOne s [] h a = (h, tt)
insert_stable-HasOne s (t ∷ rest) h a = elim (Bool-cases (ltb t.score s.score)) [
  | inl l ↦
      (let r : All HasOne (insert_stable s (t ∷ rest)) =
          rw l (a.0, insert_stable-HasOne s rest h a.1) in
        r)
  | inr g ↦ (let r : All HasOne (insert_stable s (t ∷ rest)) = rw g (h, a) in r)
]

sort_stable-HasOne : (l : List Scored) → All HasOne l → All HasOne (sort_stable l)
unfolding sort_stable
sort_stable-HasOne [] a = tt
sort_stable-HasOne (s ∷ rest) a =
    insert_stable-HasOne s (sort_stable rest) a.0 (sort_stable-HasOne rest a.1)

HasAddress-map : (l : List Scored) → All HasOne l → HasAddress (map (λ s. s.peer) l)
HasAddress-map [] a = tt
HasAddress-map (s ∷ rest) a = (a.0, HasAddress-map rest a.1)

build_peer_plan-HasAddress :
    (target : String) (nodes : List Node) (health : Dict HealthReport)
    → HasAddress (build_peer_plan target nodes health)
unfolding build_peer_plan
build_peer_plan-HasAddress target nodes health =
    HasAddress-map (sort_stable (candidates target nodes health))
      (sort_stable-HasOne (candidates target nodes health) (candidates-HasOne target nodes health))

HasPlan-HasAddress :
    (host : Host) (n : Node) (peers : List Peer) (rules : List PolicyRule) (o : Option Plan)
    → HasAddress peers
    → HasPlan host n peers rules o
    → HasAddress (plan_peers o)
HasPlan-HasAddress host n peers rules none a h = absurd h
HasPlan-HasAddress host n peers rules (some p) a h = rw h.1 a

module _ (w : World) (host : Host) (seconds_text : ℕ → String) (now later : ℕ)
    (c : Controller) where
  answers_each :
      (all : List Node) (health : Dict HealthReport) (some_nodes : List Node) (d : Controller)
      → All
          (λ n.
            HasPlan host n
              (build_peer_plan n.id all health)
              (rules_at n.id (expand_policy_rules all))
              (get_plan n.id d.store))
          some_nodes
      → All (λ n. is_some (diagnose_node w host seconds_text later n.id d.store) ≡ true) some_nodes
  answers_each all health [] d h = tt
  answers_each all health (n ∷ rest) d h = (
    diagnose_node-Answers w host seconds_text later n.id d.store (
        HasPlan-HasAddress host n (build_peer_plan n.id all health)
          (rules_at n.id (expand_policy_rules all)) (get_plan n.id d.store)
          (build_peer_plan-HasAddress n.id all health) h.0),
    answers_each all health rest d h.1,
  )

-- Where no two nodes have one ID, the diagnosis of any stored node answers after all plans have been
-- recomputed: it does not look for the first address of a peer that has none, which would be a panic.
pub recompute_all_plans-Answers :
    (w : World) (host : Host) (seconds_text : ℕ → String) (now later : ℕ) (c : Controller)
    → Distinct (ids (list_nodes c.store))
    → All
        (λ n.
          is_some
            (diagnose_node w host seconds_text later n.id (recompute_all_plans host now c).store)
          ≡ true)
        (list_nodes c.store)
recompute_all_plans-Answers w host seconds_text now later c d =
    answers_each w host seconds_text now later c (list_nodes c.store)
      (health_map (list_health c.store) []) (list_nodes c.store) (recompute_all_plans host now c)
      (recompute_all_plans-HasPlan host now c d)
