-- ===== src/Routing/Deliveries.antt =====
-- `expandPolicyRules` against a list of deliveries: which rule goes to which node, in order.
use mathlib.Core.List.{append-nil, append_assoc}
use peer_wan.Prelude.{
  String, ◌==◌, eq_iff, List, [], ◌∷◌, ◌++◌, ◌≡◌, refl, sym, ◌∙◌, arith, if◌then◌else◌,
}
use peer_wan.Prelude.Dict.{lookup, lookup-insert}
use peer_wan.Model.{Node, PolicyRule}
use peer_wan.Routing.{
  RuleMap, rules_at, append_at, hop_rule, forward_hops, expand_rule, expand_rules, expand_nodes,
  expand_policy_rules, default_via,
}

pub record Delivery : Type 0 where
  pub to : String
  pub rule : PolicyRule

abbrev deliver : String → PolicyRule → Delivery
deliver to rule = record { to = to; rule = rule }

-- From `at`, one delivery for each further hop: the node before it is told to use it.
unfoldable pub along : PolicyRule → String → List String → List Delivery
along pr at [] = []
along pr at (hop ∷ hops) = deliver at (hop_rule pr hop) ∷ along pr hop hops

-- A rule with a path is spread over the path, one without goes to its node as it is. The rule's
-- own via node plays no part where there is a path.
unfoldable pub deliveries_of : String → PolicyRule → List Delivery
unfolding along
deliveries_of id pr = elim pr.path [
  | [] ↦ deliver id pr ∷ []
  | hop ∷ hops ↦ along pr id (hop ∷ hops)
]

unfoldable pub rule_deliveries : String → List PolicyRule → List Delivery
unfolding deliveries_of
rule_deliveries id [] = []
rule_deliveries id (pr ∷ rest) = deliveries_of id pr ++ rule_deliveries id rest

unfoldable pub node_deliveries : List Node → List Delivery
unfolding rule_deliveries
node_deliveries [] = []
node_deliveries (n ∷ nodes) = rule_deliveries n.id n.policy_rules ++ node_deliveries nodes

-- What arrives at one node.
unfoldable pub inbox : String → List Delivery → List PolicyRule
inbox k [] = []
inbox k (d ∷ ds) = if d.to == k then d.rule ∷ inbox k ds else inbox k ds

inbox-append : (k : String) (xs ys : List Delivery) → inbox k (xs ++ ys) ≡ inbox k xs ++ inbox k ys
unfolding inbox
inbox-append k [] ys = refl
inbox-append k (x ∷ xs) ys = ground (arith, inbox-append k xs ys)

rules_at-append_at :
    (k j : String) (r : PolicyRule) (out : RuleMap)
    → rules_at j (append_at k r out) ≡ rules_at j out ++ inbox j (deliver k r ∷ [])
unfolding rules_at append_at inbox
rules_at-append_at k j r out = ground (
  arith,
  lookup-insert k j (rules_at k out ++ r ∷ []) out,
  eq_iff k j,
  append-nil (rules_at j out),
)

-- The via node that is filled in is overwritten by every hop's rule.
hop_rule-default_via : (pr : PolicyRule) (v : String) → hop_rule (default_via pr) v ≡ hop_rule pr v
unfolding hop_rule default_via
hop_rule-default_via pr v = ground arith

forward_hops-along :
    (pr : PolicyRule) (at : String) (hops : List String) (j : String) (out : RuleMap)
    → rules_at j (forward_hops (default_via pr) at hops out)
      ≡ rules_at j out ++ inbox j (along pr at hops)
unfolding forward_hops along
forward_hops-along pr at [] j out = unfold inbox in sym (append-nil (rules_at j out))
forward_hops-along pr at (hop ∷ hops) j out =
    forward_hops-along pr hop hops j (append_at at (hop_rule (default_via pr) hop) out)
    ∙ rw
        (
          rules_at-append_at at j (hop_rule (default_via pr) hop) out,
          hop_rule-default_via pr hop,
          inbox-append j (deliver at (hop_rule pr hop) ∷ []) (along pr hop hops),
        )
        (append_assoc (rules_at j out) (inbox j (deliver at (hop_rule pr hop) ∷ [])) _)

expand_rule-deliveries_of :
    (id : String) (pr : PolicyRule) (j : String) (out : RuleMap)
    → rules_at j (expand_rule id pr out) ≡ rules_at j out ++ inbox j (deliveries_of id pr)
unfolding expand_rule deliveries_of
expand_rule-deliveries_of id pr j out = go pr.path
  where
    go :
        (path : List String)
        → rules_at j (elim path [
          | [] ↦ append_at id pr out
          | hop ∷ hops ↦
              forward_hops
                (default_via pr)
                hop
                hops
                (append_at id (hop_rule (default_via pr) hop) out)
        ])
          ≡ rules_at j out
            ++ inbox j
                (elim path [ [] ↦ deliver id pr ∷ [] | hop ∷ hops ↦ along pr id (hop ∷ hops) ])
    go [] = rules_at-append_at id j pr out
    go (hop ∷ hops) = forward_hops-along pr id (hop ∷ hops) j out

expand_rules-rule_deliveries :
    (id : String) (rules : List PolicyRule) (j : String) (out : RuleMap)
    → rules_at j (expand_rules id rules out) ≡ rules_at j out ++ inbox j (rule_deliveries id rules)
unfolding expand_rules rule_deliveries
expand_rules-rule_deliveries id [] j out = unfold inbox in sym (append-nil (rules_at j out))
expand_rules-rule_deliveries id (pr ∷ rest) j out =
    expand_rules-rule_deliveries id rest j (expand_rule id pr out)
    ∙ rw
        (
          expand_rule-deliveries_of id pr j out,
          inbox-append j (deliveries_of id pr) (rule_deliveries id rest),
        )
        (append_assoc (rules_at j out) (inbox j (deliveries_of id pr)) _)

expand_nodes-node_deliveries :
    (nodes : List Node) (j : String) (out : RuleMap)
    → rules_at j (expand_nodes nodes out) ≡ rules_at j out ++ inbox j (node_deliveries nodes)
unfolding expand_nodes node_deliveries
expand_nodes-node_deliveries [] j out = unfold inbox in sym (append-nil (rules_at j out))
expand_nodes-node_deliveries (n ∷ nodes) j out =
    expand_nodes-node_deliveries nodes j (expand_rules n.id n.policy_rules out)
    ∙ rw
        (
          expand_rules-rule_deliveries n.id n.policy_rules j out,
          inbox-append j (rule_deliveries n.id n.policy_rules) (node_deliveries nodes),
        )
        (append_assoc (rules_at j out) (inbox j (rule_deliveries n.id n.policy_rules)) _)

-- For all nodes and every key, the rules that `expandPolicyRules` files under the key are exactly
-- the rules delivered to it, in the order of the nodes, of their rules and of the hops.
pub expand_policy_rules_lem :
    (nodes : List Node) (j : String)
    → rules_at j (expand_policy_rules nodes) ≡ inbox j (node_deliveries nodes)
unfolding expand_policy_rules rules_at lookup
expand_policy_rules_lem nodes j = expand_nodes-node_deliveries nodes j []
