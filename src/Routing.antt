-- ===== src/Routing.antt =====
-- `expandPolicyRules` of pkg/api/controller.go: the policy rules of all nodes are turned into the
-- hop-by-hop rules that each node installs. The map `out` is a `Dict`; `out[k] = append(out[k], r)`
-- is `append_at`.
pub mod Deliveries
pub mod Hops
use peer_wan.Prelude.{
  String, Bool, Option, none, some, List, [], ◌∷◌, ◌++◌, is_blank, last?, if◌then◌else◌,
}
use peer_wan.Prelude.Dict.{Dict, lookup, insert}
use peer_wan.Model.{Node, PolicyRule}

abbrev pub RuleMap : Type 0
RuleMap = Dict (List PolicyRule)

abbrev or_nil : Option (List PolicyRule) → List PolicyRule
or_nil none = []
or_nil (some l) = l

-- `out[k]`: the empty list where the key is missing
unfoldable pub rules_at : String → RuleMap → List PolicyRule
rules_at k out = or_nil (lookup k out)

unfoldable pub append_at : String → PolicyRule → RuleMap → RuleMap
unfolding rules_at
append_at k r out = insert k (rules_at k out ++ r ∷ []) out

abbrev pub or_blank : Option String → String
or_blank none = ""
or_blank (some s) = s

-- `if pr.ViaNode == "" { pr.ViaNode = pr.Path[len(pr.Path)-1] }`
unfoldable pub default_via : PolicyRule → PolicyRule
default_via pr =
    if is_blank pr.via_node then record pr { via_node = or_blank (last? pr.path) } else pr

-- `srcRule` and `hopRule`
unfoldable pub hop_rule : PolicyRule → String → PolicyRule
hop_rule pr via = record pr { via_node = via; path = [] }

-- `for i := 1; i < len(hops); i++`, with `at` for `hops[i-1]`
unfoldable pub forward_hops : PolicyRule → String → List String → RuleMap → RuleMap
unfolding append_at hop_rule
forward_hops pr at [] out = out
forward_hops pr at (hop ∷ hops) out = forward_hops pr hop hops (append_at at (hop_rule pr hop) out)

-- The body of the loop over one node's rules.
unfoldable pub expand_rule : String → PolicyRule → RuleMap → RuleMap
unfolding append_at default_via hop_rule forward_hops
expand_rule id pr out = elim pr.path [
  | [] ↦ append_at id pr out
  | hop ∷ hops ↦
      forward_hops (default_via pr) hop hops (append_at id (hop_rule (default_via pr) hop) out)
]

unfoldable pub expand_rules : String → List PolicyRule → RuleMap → RuleMap
unfolding expand_rule
expand_rules id [] out = out
expand_rules id (pr ∷ rest) out = expand_rules id rest (expand_rule id pr out)

unfoldable pub expand_nodes : List Node → RuleMap → RuleMap
unfolding expand_rules
expand_nodes [] out = out
expand_nodes (n ∷ nodes) out = expand_nodes nodes (expand_rules n.id n.policy_rules out)

unfoldable pub expand_policy_rules : List Node → RuleMap
unfolding expand_nodes
expand_policy_rules nodes = expand_nodes nodes []
