-- ===== src/Topology.antt =====
-- pkg/topology/plan.go: the peer plan of one node. The loop body of `BuildPeerPlan` is `candidate`;
-- `sort.SliceStable` is a stable insertion sort by score.
pub mod Allowed
pub mod Sort
pub mod Plan
use Allowed.{allowed_ips}
use peer_wan.Prelude.{
  ℕ, zero, ◌+◌, String, ◌==◌, Bool, not, Option, none, some, List, [], ◌∷◌, map, is_empty, is_blank,
  ltb, ◌||◌, if◌then◌else◌,
}
use peer_wan.Prelude.Dict.{Dict, lookup}
use peer_wan.Model.{Node, Peer, HealthReport}

pub record Scored : Type 0 where
  pub peer : Peer
  pub score : ℕ

-- `for _, ms := range h.LatencyMs { if ms < score { score = ms } }`
unfoldable pub min_latency : ℕ → Dict ℕ → ℕ
min_latency score [] = score
min_latency score ((_, ms) ∷ rest) = min_latency (if ltb ms score then ms else score) rest

-- `for _, st := range h.FRRState { if st != "Established" { score += 10000 } }`
unfoldable pub frr_penalty : ℕ → Dict String → ℕ
frr_penalty score [] = score
frr_penalty score ((_, st) ∷ rest) =
    frr_penalty (if st == "Established" then score else score + 10000) rest

-- `none`: the node is skipped as unhealthy
unfoldable pub score_of : Option HealthReport → Option ℕ
unfolding min_latency frr_penalty
score_of none = some 100000
score_of (some h) =
    if h.status == "down"
    then none
    else some (frr_penalty (min_latency 100000 h.latency_ms) h.frr_state)

unfoldable pub first_endpoint : List String → String
first_endpoint [] = ""
first_endpoint (e ∷ _) = e

unfoldable pub peer_of : Node → Peer
unfolding first_endpoint allowed_ips
peer_of n = record {
  id = n.id;
  public_key = n.public_key;
  endpoint = first_endpoint n.endpoints;
  allowed_ips = allowed_ips n.overlay_ip n.cidrs;
  keepalive = 25;
}

abbrev pub with_score : Node → Option ℕ → Option Scored
with_score n none = none
with_score n (some s) = some (record { peer = peer_of n; score = s })

-- One round of the loop over the nodes: `none` is a `continue`.
unfoldable pub candidate : String → Dict HealthReport → Node → Option Scored
candidate target health n =
    if n.id == target
    then none
    else if is_empty n.cidrs || is_blank n.public_key
    then none
    else with_score n (score_of (lookup n.id health))

abbrev pub push : Option Scored → List Scored → List Scored
push none rest = rest
push (some s) rest = s ∷ rest

unfoldable pub candidates : String → List Node → Dict HealthReport → List Scored
unfolding candidate
candidates target [] health = []
candidates target (n ∷ nodes) health =
    push (candidate target health n) (candidates target nodes health)

-- A stable sort: an element stays before the later ones of the same score.
unfoldable pub insert_stable : Scored → List Scored → List Scored
insert_stable s [] = s ∷ []
insert_stable s (t ∷ rest) = if ltb t.score s.score then t ∷ insert_stable s rest else s ∷ t ∷ rest

unfoldable pub sort_stable : List Scored → List Scored
unfolding insert_stable
sort_stable [] = []
sort_stable (s ∷ rest) = insert_stable s (sort_stable rest)

unfoldable pub build_peer_plan : String → List Node → Dict HealthReport → List Peer
unfolding candidates sort_stable
build_peer_plan target nodes health =
    map (λ s. s.peer) (sort_stable (candidates target nodes health))
