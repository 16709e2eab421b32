-- ===== src/Controller/Reports.antt =====
-- The handlers that keep what agents report of their policies (pkg/api/policy.go) and those that answer
-- with plans, histories and the audit (pkg/api/controller.go). `limit` and `hours` are the numbers read
-- from the query, `none` where it has none above 0. A plan is answered without waiting for a version.
use peer_wan.Prelude.{
  ℕ, ◌-◌, ◌*◌, String, ◌==◌, ◌⧺◌, Bool, not, ◌&&◌, ◌||◌, Option, none, some, List, [], decimal, eqb,
  is_blank, find_first, if◌then◌else◌,
}
use peer_wan.Model.{
  Node, no_node, Peer, PolicyRule, PolicyInstallLog, PolicyDiagReport, Plan, HealthReport,
  AuditEntry,
}
use peer_wan.Topology.{build_peer_plan}
use peer_wan.Routing.{expand_policy_rules, rules_at}
use peer_wan.Store.{
  MemoryStore, list_nodes, list_health, save_policy_status, list_policy_status, save_policy_diag,
  list_policy_diag, list_plan_history, list_health_history, list_audit, stamp,
}
use peer_wan.Controller.{Host, Controller, NodeConfig, health_map, save_plan_with_rules, config_of}
use peer_wan.Controller.Handlers.{Reply, agent_authorized}

abbrev pub or_default : ℕ → Option ℕ → ℕ
or_default usual none = usual
or_default usual (some n) = n

-- `/api/v1/policy/status`, POST
unfoldable pub post_status : ℕ → Bool → PolicyInstallLog → MemoryStore → Reply String × MemoryStore
unfolding save_policy_status
post_status now auth l s =
    if not auth
    then (Reply.http_error 401 "unauthorized", s)
    else if is_blank l.node_id || is_blank l.status
    then (Reply.http_error 400 "invalid payload", s)
    else (
      Reply.replied "ok",
      save_policy_status now (record l { timestamp = stamp now l.timestamp }) s,
    )

-- `/api/v1/policy/status`, GET
unfoldable pub get_status : Bool → String → Option ℕ → MemoryStore → Reply (List PolicyInstallLog)
unfolding list_policy_status
get_status auth id limit s =
    if not auth
    then Reply.http_error 401 "unauthorized"
    else if is_blank id
    then Reply.http_error 400 "nodeId is required"
    else Reply.replied (list_policy_status id (or_default 20 limit) s)

-- `/api/v1/policy/diag`, POST
unfoldable pub post_diag : ℕ → Bool → PolicyDiagReport → MemoryStore → Reply String × MemoryStore
unfolding save_policy_diag
post_diag now auth d s =
    if not auth
    then (Reply.http_error 401 "unauthorized", s)
    else if is_blank d.node_id
    then (Reply.http_error 400 "invalid payload", s)
    else (
      Reply.replied "ok",
      save_policy_diag now (record d { timestamp = stamp now d.timestamp }) s,
    )

-- `/api/v1/policy/diag`, GET
unfoldable pub get_diag : Bool → String → Option ℕ → MemoryStore → Reply (List PolicyDiagReport)
unfolding list_policy_diag
get_diag auth id limit s =
    if not auth
    then Reply.http_error 401 "unauthorized"
    else if is_blank id
    then Reply.http_error 400 "nodeId is required"
    else Reply.replied (list_policy_diag id (or_default 10 limit) s)

-- `/api/v1/plan/history`
unfoldable pub get_plan_history : Bool → String → MemoryStore → Reply (List Plan)
unfolding list_plan_history
get_plan_history auth id s =
    if not auth
    then Reply.http_error 401 "unauthorized"
    else if is_blank id
    then Reply.http_error 400 "nodeId is required"
    else Reply.replied (list_plan_history id 20 s)

-- `/api/v1/health/history`; a time of before 1970 counts as 1970
unfoldable pub get_health_history :
    ℕ → Bool → String → Option ℕ → MemoryStore → Reply (List HealthReport)
unfolding list_health_history
get_health_history now auth id hours s =
    if not auth
    then Reply.http_error 401 "unauthorized"
    else if is_blank id
    then Reply.http_error 400 "nodeId is required"
    else Reply.replied (list_health_history id (now - or_default 24 hours * 3600000000000) s)

-- `/api/v1/audit`
unfoldable pub get_audit : Bool → MemoryStore → Reply (List AuditEntry)
unfolding list_audit
get_audit auth s =
    if not auth then Reply.http_error 401 "unauthorized" else Reply.replied (list_audit 50 s)

abbrev pub or_no_node : Option Node → Node
or_no_node none = no_node
or_no_node (some n) = n

-- `version`: the counter before the plan is saved; `time` is the time as text.
unfoldable pub answered_version : String → ℕ → String
answered_version time v = if eqb v 0 then "dynamic-" ⧺ time else "dynamic-v" ⧺ decimal v

unfoldable pub serve_plan : Host → ℕ → String → String → Controller → NodeConfig × Controller
unfolding answered_version save_plan_with_rules config_of health_map
serve_plan host now time id c =
    let nodes : List Node = list_nodes c.store in
    let peers : List Peer = build_peer_plan id nodes (health_map (list_health c.store) []) in
    let rules : List PolicyRule = rules_at id (expand_policy_rules nodes) in
    let target : Node = or_no_node (find_first (λ n. n.id == id) nodes) in
    let after : Controller = save_plan_with_rules host now target peers rules c in
    (
      record (config_of host after.store target (answered_version time c.plan_version) peers rules
          ("", "") "dynamic plan based on current health") { id = id },
      after,
    )

-- `/api/v1/plan`
unfoldable pub get_node_plan :
    Host → ℕ → String → Bool → String → String → Controller → Reply NodeConfig × Controller
unfolding serve_plan agent_authorized
get_node_plan host now time auth header id c =
    if is_blank id
    then (Reply.http_error 400 "nodeId is required", c)
    else if not auth && not (agent_authorized c.store id header)
    then (Reply.http_error 401 "unauthorized", c)
    else (let served = serve_plan host now time id c in (Reply.replied served.0, served.1))
