-- ===== src/Routing/Hops.antt =====
-- Following the hop-by-hop rules of pkg/api/controller.go from node to node.
use mathlib.Core.List.{append_assoc}
use mathlib.Core.Option
use peer_wan.Prelude.{
  ℕ, zero, suc, String, ◌==◌, eq_iff, false, Option, none, some, List, [], ◌∷◌, ◌++◌, ◌≡◌, refl,
  sym, ap, ◌∙◌, arith, keep, length, find_first, is_empty, All, ==_refl, Distinct, contains,
}
use peer_wan.Model.{Node, PolicyRule}
use peer_wan.Routing.{RuleMap, rules_at, hop_rule, expand_policy_rules}
use peer_wan.Routing.Deliveries.{
  Delivery, along, deliveries_of, node_deliveries, inbox, expand_policy_rules_lem,
}

abbrev first_hop : List String → String → String
first_hop [] via = via
first_hop (hop ∷ hops) via = hop

-- Where an agent sends the packets of a rule: to the first hop of its path, and to `viaNode` only where it
-- has no path.
abbrev pub hop_of : PolicyRule → String
hop_of r = first_hop r.path r.via_node

-- The next hop that a node's rules give for a prefix: the first rule counts.
unfoldable pub via_for : String → List PolicyRule → Option String
via_for prefix rules = Option.map hop_of (find_first (λ r. r.prefix == prefix) rules)

-- The nodes that a packet for the prefix passes, from hop to hop.
unfoldable pub route : String → ℕ → String → RuleMap → List String
unfolding via_for
route prefix zero at out = []
route prefix (suc fuel) at out = elim (via_for prefix (rules_at at out)) [
  | none ↦ []
  | some via ↦ via ∷ route prefix fuel via out
]

-- The deliveries of rules for one prefix.
abbrev pub for_prefix : String → List Delivery → List Delivery
for_prefix prefix = keep (λ d. d.rule.prefix == prefix)

abbrev head_via : List PolicyRule → Option String
head_via [] = none
head_via (r ∷ _) = some (hop_of r)

via_for-inbox :
    (prefix at : String) (ds : List Delivery)
    → via_for prefix (inbox at ds) ≡ head_via (inbox at (for_prefix prefix ds))
unfolding via_for inbox
via_for-inbox prefix at [] = refl
via_for-inbox prefix at (d ∷ ds) = ground (arith, via_for-inbox prefix at ds)

inbox-append_absent :
    (at : String) (pre ds : List Delivery) → inbox at pre ≡ [] → inbox at (pre ++ ds) ≡ inbox at ds
unfolding inbox
inbox-append_absent at [] ds h = refl
inbox-append_absent at (d ∷ pre) ds h = ground (arith, inbox-append_absent at pre ds)

abbrev Absent : List Delivery → List String → Type 0
Absent pre = All (λ k. inbox k pre ≡ [])

inbox-snoc :
    (at k : String) (pre : List Delivery) (r : PolicyRule)
    → inbox k pre ≡ []
    → (at == k) ≡ false
    → inbox k (pre ++ record { to = at; rule = r } ∷ []) ≡ []
unfolding inbox
inbox-snoc at k [] r h ne = ground arith
inbox-snoc at k (d ∷ pre) r h ne = ground (arith, inbox-snoc at k pre r)

Absent-snoc :
    (at : String) (pre : List Delivery) (r : PolicyRule) (ks : List String)
    → Absent pre ks
    → contains ks at ≡ false
    → Absent (pre ++ record { to = at; rule = r } ∷ []) ks
Absent-snoc at pre r [] a c = tt
Absent-snoc at pre r (k ∷ ks) a c = (
  inbox-snoc at k pre r a.0 (ground (arith, eq_iff k at, eq_iff at k)),
  Absent-snoc at pre r ks a.1 (ground arith),
)

route_stop :
    (prefix : String) (fuel : ℕ) (at : String) (out : RuleMap)
    → via_for prefix (rules_at at out) ≡ none
    → route prefix (suc fuel) at out ≡ []
unfolding route
route_stop prefix fuel at out h = ground arith

route_go :
    (prefix : String) (fuel : ℕ) (at via : String) (out : RuleMap)
    → via_for prefix (rules_at at out) ≡ some via
    → route prefix (suc fuel) at out ≡ via ∷ route prefix fuel via out
unfolding route
route_go prefix fuel at via out h = ground arith

module _ (prefix : String) (out : RuleMap) (ds : List Delivery)
    (vias : (at : String) → via_for prefix (rules_at at out) ≡ head_via (inbox at ds))
    (pr : PolicyRule) where
  route-along :
      (pre : List Delivery) (at : String) (hops : List String)
      → Absent pre (at ∷ hops)
      → Distinct (at ∷ hops)
      → ds ≡ pre ++ along pr at hops
      → route prefix (suc (length hops)) at out ≡ hops
  unfolding along inbox
  route-along pre at [] a d e =
      route_stop prefix 0 at out (vias at ∙ rw e (rw (inbox-append_absent at pre [] a.0)))
  route-along pre at (hop ∷ hops) a d e =
      route_go prefix (suc (length hops)) at hop out (
        vias at
        ∙ rw e (
            rw (inbox-append_absent at pre (along pr at (hop ∷ hops)) a.0, inbox)
              (unfold hop_rule in rw (==_refl at))))
      ∙ ap (◌∷◌ hop) (
          route-along (pre ++ record { to = at; rule = hop_rule pr hop } ∷ []) hop hops
            (Absent-snoc at pre (hop_rule pr hop) (hop ∷ hops) a.1 d.0) d.1
            (e ∙ sym (append_assoc pre _ (along pr hop hops))))

-- Where the rule is the only one for its prefix, and its path is not empty and visits no node
-- twice and not the source, a packet for the prefix that leaves the source follows the hop-by-hop
-- rules along exactly the path and stops at the path's last node, which has no further rule for
-- it.
pub route-path :
    (nodes : List Node) (id : String) (pr : PolicyRule)
    → for_prefix pr.prefix (node_deliveries nodes) ≡ deliveries_of id pr
    → is_empty pr.path ≡ false
    → Distinct (id ∷ pr.path)
    → route pr.prefix (suc (length pr.path)) id (expand_policy_rules nodes) ≡ pr.path
unfolding deliveries_of
route-path nodes id pr only has_path distinct = go pr.path has_path distinct only
  where
    ds : List Delivery
    ds = for_prefix pr.prefix (node_deliveries nodes)

    vias :
        (at : String)
        → via_for pr.prefix (rules_at at (expand_policy_rules nodes)) ≡ head_via (inbox at ds)
    vias at =
        rw (expand_policy_rules_lem nodes at) (via_for-inbox pr.prefix at (node_deliveries nodes))

    nothing : (ks : List String) → Absent [] ks
    nothing [] = tt
    nothing (k ∷ ks) = (unfold inbox in refl, nothing ks)

    go :
        (path : List String)
        → is_empty path ≡ false
        → Distinct (id ∷ path)
        → ds ≡ elim path [
          | [] ↦ record { to = id; rule = pr } ∷ []
          | hop ∷ hops ↦ along pr id (hop ∷ hops)
        ]
        → route pr.prefix (suc (length path)) id (expand_policy_rules nodes) ≡ path
    go [] h d e = cc
    go (hop ∷ hops) h d e =
        route-along pr.prefix (expand_policy_rules nodes) ds vias pr [] id (hop ∷ hops)
          (nothing (id ∷ hop ∷ hops)) d e
