-- ===== src/Topology/Plan.antt =====
-- What a peer plan of pkg/topology/plan.go holds, in which order, and what it depends on.
use mathlib.Core.List.{Perm}
use mathlib.Core.List.Perm
use peer_wan.Prelude.{
  ℕ, ◌+◌, ◌*◌, ◌≤◌, ◌⊎◌, String, ◌==◌, eq_iff, Bool, false, not, ◌&&◌, none, some, List, [], ◌∷◌,
  map, ◌≡◌, refl, arith, keep, All, Any, is_empty, is_blank, ltb, if◌then◌else◌, Bool-cases, inl,
  inr,
}
use peer_wan.Prelude.Dict.{Dict, lookup, insert, values, lookup-insert}
use peer_wan.Model.{Node, HealthReport}
use peer_wan.Topology.{
  Scored, score_of, min_latency, frr_penalty, peer_of, candidate, push, candidates, sort_stable,
  build_peer_plan,
}
use peer_wan.Topology.Sort.{IsStableSort, sort_stable-IsStableSort}

-- The plan lists the candidates from the lowest score to the highest; candidates of one score keep
-- the order of the nodes.
pub build_peer_plan-IsStableSort :
    (target : String) (nodes : List Node) (health : Dict HealthReport)
    → (l : List Scored) × (build_peer_plan target nodes health ≡ map (λ s. s.peer) l)
      × IsStableSort (candidates target nodes health) l
unfolding build_peer_plan
build_peer_plan-IsStableSort target nodes health =
    (sort_stable (candidates target nodes health), refl, sort_stable-IsStableSort _)

abbrev pub reported_down : Dict HealthReport → String → Bool
reported_down health id = elim (lookup id health) [ none ↦ false | some h ↦ h.status == "down" ]

-- A node that another node can peer with.
abbrev pub is_eligible : String → Dict HealthReport → Node → Bool
is_eligible target health n =
    not (n.id == target)
    && not (is_empty n.cidrs)
    && not (is_blank n.public_key)
    && not (reported_down health n.id)

candidate-eligible :
    (target : String) (health : Dict HealthReport) (n : Node) (rest : List Scored)
    → map (λ s. s.peer) (push (candidate target health n) rest) ≡ (
        if is_eligible target health n
        then peer_of n ∷ map (λ s. s.peer) rest
        else map (λ s. s.peer) rest)
unfolding candidate score_of
candidate-eligible target health n rest = ground arith

candidates-eligible :
    (target : String) (nodes : List Node) (health : Dict HealthReport)
    → map (λ s. s.peer) (candidates target nodes health)
      ≡ map peer_of (keep (is_eligible target health) nodes)
unfolding candidates
candidates-eligible target [] health = refl
candidates-eligible target (n ∷ nodes) health = ground (
  arith,
  candidate-eligible target health n (candidates target nodes health),
  candidates-eligible target nodes health,
)

-- The plan holds exactly one peer for each node that is not the target, has a CIDR and a public
-- key and is not reported down, and no other peer.
pub build_peer_plan-perm :
    (target : String) (nodes : List Node) (health : Dict HealthReport)
    → Perm
        (build_peer_plan target nodes health)
        (map peer_of (keep (is_eligible target health) nodes))
build_peer_plan-perm target nodes health =
    let (l, e, sorted) = build_peer_plan-IsStableSort target nodes health in
    rw (e, ← candidates-eligible target nodes health) (Perm.map (λ s. s.peer) sorted.perm)

pub not_established : Dict String → ℕ
not_established [] = 0
not_established ((_, st) ∷ rest) = not_established rest + (if st == "Established" then 0 else 1)

frr_penalty_lem :
    (score : ℕ) (states : Dict String)
    → frr_penalty score states ≡ score + 10000 * not_established states
unfolding frr_penalty not_established
frr_penalty_lem score [] = omega arith
frr_penalty_lem score ((k, st) ∷ rest) =
    ground (arith, frr_penalty_lem score rest, frr_penalty_lem (score + 10000) rest)

-- The best latency of a report: `cap`, or one of the latencies, and below all of these.
pub record IsBest (cap : ℕ) (latencies : List ℕ) (best : ℕ) : Type 0 where
  pub below_cap : best ≤ cap
  pub below_all : All (λ ms. best ≤ ms) latencies
  pub reached : (best ≡ cap) ⊎ Any (λ ms. best ≡ ms) latencies

min_latency-IsBest :
    (cap : ℕ) (latencies : Dict ℕ) → IsBest cap (values latencies) (min_latency cap latencies)
unfolding min_latency
min_latency-IsBest cap [] = record { below_cap = omega arith; below_all = tt; reached = inl refl }
min_latency-IsBest cap ((k, ms) ∷ rest) = elim (Bool-cases (ltb ms cap)) [
  | inl h ↦
      let ih = min_latency-IsBest ms rest in
      rw h (record {
        below_cap = ground (arith, ih.below_cap);
        below_all = (ih.below_cap, ih.below_all);
        reached = inr ih.reached;
      })
  | inr h ↦
      let ih = min_latency-IsBest cap rest in
      rw h (record {
        below_cap = ih.below_cap;
        below_all = (ground (arith, ih.below_cap), ih.below_all);
        reached = elim ih.reached [ inl e ↦ inl e | inr a ↦ inr (inr a) ];
      })
]

-- The score of a node with a report that is not "down": the least of its latencies and 100000,
-- and 10000 more for each FRR session that is not established.
pub score_of_lem :
    (h : HealthReport)
    → (h.status == "down") ≡ false
    → (best : ℕ) × IsBest 100000 (values h.latency_ms) best
      × (score_of (some h) ≡ some (best + 10000 * not_established h.frr_state))
unfolding score_of
score_of_lem h up = (
  min_latency 100000 h.latency_ms,
  min_latency-IsBest 100000 h.latency_ms,
  rw up (rw (frr_penalty_lem (min_latency 100000 h.latency_ms) h.frr_state)),
)

candidate-insert_target :
    (target : String) (health : Dict HealthReport) (r : HealthReport) (n : Node)
    → candidate target (insert target r health) n ≡ candidate target health n
unfolding candidate
candidate-insert_target target health r n =
    ground (arith, lookup-insert target n.id r health, eq_iff n.id target, eq_iff target n.id)

candidates-insert_target :
    (target : String) (nodes : List Node) (health : Dict HealthReport) (r : HealthReport)
    → candidates target nodes (insert target r health) ≡ candidates target nodes health
unfolding candidates
candidates-insert_target target [] health r = refl
candidates-insert_target target (n ∷ nodes) health r =
    rw (candidate-insert_target target health r n, candidates-insert_target target nodes health r)

-- A node's own health report has no influence on its peer plan.
pub build_peer_plan-insert_target :
    (target : String) (nodes : List Node) (health : Dict HealthReport) (r : HealthReport)
    → build_peer_plan target nodes (insert target r health) ≡ build_peer_plan target nodes health
unfolding build_peer_plan
build_peer_plan-insert_target target nodes health r =
    rw (candidates-insert_target target nodes health r)
