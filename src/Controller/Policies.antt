-- ===== src/Controller/Policies.antt =====
-- pkg/api/policy.go: the handlers that store a node's policy, answer with it and pass commands on. The
-- identifier that `uuid` makes is a parameter. What the hub is handed for the agents is in the result.
use peer_wan.Prelude.{
  ℕ, suc, String, Bool, not, ◌&&◌, ◌||◌, Option, none, some, List, [], ◌∷◌, eqb, is_blank, is_empty,
  if◌then◌else◌,
}
use peer_wan.Model.{Node, PolicyRule, validate, Task, TaskStep}
use peer_wan.Routing.{default_via}
use peer_wan.Store.{MemoryStore, PolicyUpdate, update_policy, save_task, get_node}
use peer_wan.Controller.{Controller, bump_plan_version}
use peer_wan.Controller.Handlers.{Reply}
use peer_wan.Policy.{trim_space}

-- What a task tells an agent.
pub record TaskMessage : Type 0 where
  pub node_id : String
  pub task_id : String
  pub kind : String

-- One rule of the loop.
unfoldable pub normalize : PolicyRule → PolicyRule
unfolding trim_space default_via
normalize pr = default_via (record pr { prefix = trim_space pr.prefix })

abbrev pub normalize_each : List PolicyRule → List PolicyRule
normalize_each [] = []
normalize_each (pr ∷ rules) = normalize pr ∷ normalize_each rules

-- `valid`, of the rules after the loop
unfoldable pub count_valid : List PolicyRule → ℕ
unfolding validate
count_valid [] = 0
count_valid (pr ∷ rules) = if validate pr then suc (count_valid rules) else count_valid rules

unfoldable pub normalized : PolicyUpdate → PolicyUpdate
unfolding normalize
normalized u = record u { rules = normalize_each u.rules }

abbrev pub dispatch_step : ℕ → TaskStep
dispatch_step now = record {
  name = "dispatch";
  status = "running";
  message = "sending to agent";
  node_id = "";
  timestamp = now;
}

abbrev pub apply_task : ℕ → String → String → Task
apply_task now uuid id = record {
  id = uuid;
  node_id = id;
  targets = [];
  kind = "policy_apply";
  status = "running";
  overall_status = "";
  steps = dispatch_step now ∷ [];
  created_at = now;
  updated_at = now;
}

-- The fields of the reply; `none` where there is no node.
unfoldable pub view : Option Node → Option PolicyUpdate
view none = none
view (some n) = some (record {
  egress_peer = n.egress_peer_id;
  rules = n.policy_rules;
  default_route = n.default_route;
  bypass = n.bypass_cidrs;
  next_hop = n.default_route_next_hop;
})

abbrev pub Answer : Type 0
Answer = Reply (Option PolicyUpdate) × Controller × List TaskMessage

unfoldable pub after_policy : ℕ → String → String → Controller → Option MemoryStore → Answer
unfolding bump_plan_version save_task get_node view
after_policy now uuid id c none = (Reply.http_error 500 "failed to update policy", c, [])
after_policy now uuid id c (some s) =
    let st : MemoryStore = save_task now (apply_task now uuid id) s in
    (
      Reply.replied (view (get_node id st)),
      bump_plan_version (record c { store = st }),
      record { node_id = id; task_id = uuid; kind = "policy_apply" } ∷ [],
    )

-- `/api/v1/policy`, POST, for a body that has been decoded
unfoldable pub post_policy : ℕ → String → Bool → String → PolicyUpdate → Controller → Answer
unfolding after_policy normalized count_valid update_policy
post_policy now uuid auth id u c =
    if not auth
    then (Reply.http_error 401 "unauthorized", c, [])
    else if is_blank id
    then (Reply.http_error 400 "invalid payload", c, [])
    else if not (is_empty u.rules) && eqb (count_valid (normalized u).rules) 0
    then (Reply.http_error 400 "no valid policy rules", c, [])
    else after_policy now uuid id c (update_policy id (normalized u) c.store)

-- `/api/v1/policy`, GET
unfoldable pub shown : Option Node → Reply (Option PolicyUpdate)
unfolding view
shown none = Reply.http_error 404 "node not found"
shown (some n) = Reply.replied (view (some n))

unfoldable pub get_policy : Bool → String → Controller → Reply (Option PolicyUpdate)
unfolding shown get_node
get_policy auth id c =
    if not auth
    then Reply.http_error 401 "unauthorized"
    else if is_blank id
    then Reply.http_error 400 "nodeId is required"
    else shown (get_node id c.store)

-- `/api/v1/policy/command`, POST: what is handed to the hub, for a hub that is there
unfoldable pub post_command : Bool → String → String → Reply String × List (String × String)
post_command auth id action =
    if not auth
    then (Reply.http_error 401 "unauthorized", [])
    else if is_blank id || is_blank action
    then (Reply.http_error 400 "invalid payload", [])
    else (Reply.replied "sent", (id, action) ∷ [])
