-- ===== src/Controller/PolicyUpdates.antt =====
-- What the handler `/api/v1/policy` of pkg/api/policy.go answers and changes.
use peer_wan.Prelude.Strings.{strip_end, strip_start}
use peer_wan.Policy.{is_white, trim_space}
use peer_wan.Routing.{or_blank, default_via}
use peer_wan.Prelude.{
  List, map, last?, ℕ, suc, String, ◌==◌, Bool, true, false, not, ◌&&◌, ◌||◌, Option, none, some,
  is_some, [], ◌∷◌, ◌≡◌, refl, ap, arith, eqb, is_blank, is_empty, Bool-cases, inl, inr,
  if◌then◌else◌, ==_refl,
}
use peer_wan.Prelude.Dict.{lookup, insert, lookup-insert}
use peer_wan.Model.{Node, PolicyRule, validate}
use peer_wan.Store.{PolicyUpdate, with_policy, put_policy, update_policy, save_task, get_node}
use peer_wan.Controller.{Controller, bump_plan_version}
use peer_wan.Controller.Handlers.{Reply}
use peer_wan.Controller.Policies.{
  Answer, count_valid, normalize, normalize_each, normalized, after_policy, post_policy, view,
}

-- The stored plans and what has been pushed stay.
abbrev pub KeepsPlans : Controller → Controller → Type 0
KeepsPlans c d =
    (d.store.plans ≡ c.store.plans) × (d.store.history ≡ c.store.history) × (d.sent ≡ c.sent)

abbrev pub holding : PolicyUpdate → Node → Node
holding u n = record n {
  egress_peer_id = u.egress_peer;
  policy_rules = u.rules;
  default_route = u.default_route;
  bypass_cidrs = u.bypass;
  default_route_next_hop = u.next_hop;
}

-- The node has the policy, in its own fields and no others, and so has the reply; a task to apply it is
-- handed to the hub.
abbrev pub HasPolicy : String → String → PolicyUpdate → Controller → Answer → Type 0
HasPolicy uuid id u c a =
    (n : Node) × (get_node id c.store ≡ some n)
    × ((k : String)
        → get_node k a.1.store ≡ (if id == k then some (holding u n) else get_node k c.store))
    × (a.0 ≡ Reply.replied (some u))
    × (a.2 ≡ record { node_id = id; task_id = uuid; kind = "policy_apply" } ∷ [])
    × (a.1.plan_version ≡ suc c.plan_version)

abbrev pub IsError : Reply (Option PolicyUpdate) → Type 0
IsError (Reply.replied v) = ⊥
IsError (Reply.http_error code text) = Unit

-- An error changes nothing and hands nothing to the hub.
abbrev pub IsOutcome : Bool → String → String → PolicyUpdate → Controller → Answer → Type 0
IsOutcome false uuid id u c a = IsError a.0 × (a.1 ≡ c) × (a.2 ≡ [])
IsOutcome true uuid id u c a = HasPolicy uuid id u c a × KeepsPlans c a.1

-- The text without the white space at its two ends.
abbrev trimmed : String → String
trimmed s = strip_end is_white (strip_start is_white s)

-- The last of a path, blank where there is none.
abbrev end_of : List String → String
end_of [] = ""
end_of (node ∷ []) = node
end_of (node ∷ next ∷ path) = end_of (next ∷ path)

-- The rule as it is stored: its prefix trimmed, and a missing `viaNode` read off the path.
abbrev pub settled : PolicyRule → PolicyRule
settled r = record r {
  prefix = trimmed r.prefix;
  via_node = if is_blank r.via_node then end_of r.path else r.via_node;
}

-- Whether one of the rules has a domain or a prefix that is not just white space, and a `viaNode` or a path.
abbrev pub some_usable : List PolicyRule → Bool
some_usable [] = false
some_usable (r ∷ rules) =
    ((not (is_blank (trimmed r.prefix)) || not (is_empty r.domains))
      && (not (is_blank r.via_node) || not (is_empty r.path)))
    || some_usable rules

-- What a policy must meet.
abbrev pub accepts : Bool → String → PolicyUpdate → Controller → Bool
accepts auth id u c =
    auth
    && (not (is_blank id)
        && ((is_empty u.rules || some_usable u.rules) && is_some (get_node id c.store)))

last-end_of : (path : List String) → or_blank (last? path) ≡ end_of path
last-end_of [] = refl
last-end_of (node ∷ []) = refl
last-end_of (node ∷ next ∷ path) = last-end_of (next ∷ path)

normalize-settled : (r : PolicyRule) → normalize r ≡ settled r
unfolding normalize default_via trim_space
normalize-settled r = elim (Bool-cases (is_blank r.via_node)) [
  | inl b ↦ (let e : normalize r ≡ settled r = rw b (rw (last-end_of r.path) refl) in e)
  | inr nb ↦ (let e : normalize r ≡ settled r = rw nb refl in e)
]

normalize_each-settled : (rules : List PolicyRule) → normalize_each rules ≡ map settled rules
normalize_each-settled [] = refl
normalize_each-settled (r ∷ rules) =
    rw (normalize-settled r) (rw (normalize_each-settled rules) refl)

-- The policy as it is stored.
abbrev pub settled_all : PolicyUpdate → PolicyUpdate
settled_all u = record u { rules = map settled u.rules }

validate-settled :
    (r : PolicyRule)
    → validate (settled r) ≡ (
        (not (is_blank (trimmed r.prefix)) || not (is_empty r.domains))
        && (not (is_blank r.via_node) || not (is_empty r.path)))
unfolding validate
validate-settled r = ground (arith, end_blank r.path)
  where
    end_blank : (path : List String) → is_empty path ≡ true → is_blank (end_of path) ≡ true
    end_blank [] h = refl
    end_blank (node ∷ path) h = absurd (ground (arith, h))

count_valid-settled :
    (rules : List PolicyRule) → not (eqb (count_valid (map settled rules)) 0) ≡ some_usable rules
unfolding count_valid
count_valid-settled [] = refl
count_valid-settled (r ∷ rules) = ground (arith, validate-settled r, count_valid-settled rules)

module _ (now : ℕ) (uuid id : String) (u : PolicyUpdate) (c : Controller) where
  put_policy-IsOutcome :
      (o : Option Node)
      → get_node id c.store ≡ o
      → IsOutcome (is_some o) uuid id u c (after_policy now uuid id c (put_policy id u c.store o))
  unfolding after_policy put_policy bump_plan_version save_task get_node view with_policy
  put_policy-IsOutcome none e = (tt, refl, refl)
  put_policy-IsOutcome (some n) e =
      let seen : lookup id (insert id (with_policy u n) c.store.nodes) ≡ some (with_policy u n) =
        rw (lookup-insert id id (with_policy u n) c.store.nodes) (rw (==_refl id) refl) in
      (
        (
          n,
          e,
          (λ k. lookup-insert id k (with_policy u n) c.store.nodes),
          ap (λ o. Reply.replied (view o)) seen,
          refl,
          refl,
        ),
        (refl, refl, refl),
      )

-- A policy is taken where the user is signed in, the node is stored and named, and the policy either has
-- no rules or has one with a domain or a prefix that is not just white space and with a `viaNode` or a path.
-- It then is the node's policy with all of its rules, the others too, their prefixes trimmed and missing
-- `viaNode`s filled in with the last of the path; no other field or node is changed, and one task is handed
-- to the hub; no plan is made, pushed or saved to the history. Else the answer is an error and nothing
-- changes.
pub post_policy-IsOutcome :
    (now : ℕ) (uuid id : String) (u : PolicyUpdate) (c : Controller) (auth : Bool)
    → IsOutcome (accepts auth id u c) uuid id (settled_all u) c (post_policy now uuid auth id u c)
unfolding post_policy update_policy get_node normalized
post_policy-IsOutcome now uuid id u c auth =
    let few : Bool = not (is_empty u.rules) && eqb (count_valid (map settled u.rules)) 0 in
    elim (Bool-cases auth) [
      | inr f ↦
          (let r : IsOutcome (accepts auth id u c) uuid id (settled_all u) c
                (post_policy now uuid auth id u c) =
              rw f (tt, refl, refl) in
            r)
      | inl t ↦ elim (Bool-cases (is_blank id)) [
        | inl b ↦
            (let r : IsOutcome (accepts auth id u c) uuid id (settled_all u) c
                  (post_policy now uuid auth id u c) =
                rw t (rw b (tt, refl, refl)) in
              r)
        | inr nb ↦ elim (Bool-cases few) [
          | inl none_valid ↦
              (let no : (is_empty u.rules || some_usable u.rules) ≡ false =
                  ground (arith, none_valid, count_valid-settled u.rules) in
                let r : IsOutcome (accepts auth id u c) uuid id (settled_all u) c
                    (post_policy now uuid auth id u c) =
                  rw (normalize_each-settled u.rules)
                    (rw t (rw nb (rw no (rw none_valid (tt, refl, refl))))) in
                r)
          | inr enough ↦
              (let yes : (is_empty u.rules || some_usable u.rules) ≡ true =
                  ground (arith, enough, count_valid-settled u.rules) in
                let r : IsOutcome (accepts auth id u c) uuid id (settled_all u) c
                    (post_policy now uuid auth id u c) =
                  rw (normalize_each-settled u.rules) (
                    rw t (
                      rw nb (
                        rw yes (
                          rw enough (
                            put_policy-IsOutcome now uuid id (settled_all u) c (get_node id c.store)
                              refl))))) in
                r)
        ]
      ]
    ]
