-- ===== src/Controller/Handlers.antt =====
-- The handlers `/api/v1/nodes/register`, `/api/v1/health` (POST) and `/api/v1/plan/rollback` of
-- pkg/api/controller.go, after their requests have been decoded.
use peer_wan.Prelude.{
  ℕ, String, ◌==◌, ◌⧺◌, Bool, false, not, ◌&&◌, ◌||◌, Option, none, some, List, [], decimal,
  is_blank, if◌then◌else◌,
}
use peer_wan.Prelude.Dict.{insert}
use peer_wan.Model.{Node, no_node, Peer, HealthReport, Plan, AuditEntry}
use peer_wan.Topology.{build_peer_plan}
use peer_wan.Routing.{expand_policy_rules, rules_at}
use peer_wan.Store.{
  MemoryStore, list_nodes, list_health, get_node, append_audit, save_health, rollback_plan,
  set_global_plan_version,
}
use peer_wan.Controller.{
  Host, NodeConfig, Controller, save_plan_with_rules, recompute_all_plans, bump_plan_version,
  health_map, config_of, sign_plan,
}
use peer_wan.Controller.Registration.{Registration, registered, persist, or_text}

-- A reply: the value that is written as JSON, or the code and text of `http.Error`.
pub data Reply {ℓ} (A : Type ℓ) : Type ℓ where
  replied : A → Reply A
  http_error : ℕ → String → Reply A

abbrev register_audit : ℕ → String → AuditEntry
register_audit now id = record {
  actor = "controller";
  action = "register";
  target = id;
  detail = "node registered/updated";
  timestamp = now;
}

-- What follows the guards of the register handler.
unfoldable pub accept :
    Host → ℕ → Registration → String → Controller → Reply NodeConfig × Controller
unfolding registered persist get_node append_audit recompute_all_plans bump_plan_version config_of
accept host now req token c =
    let existing : Option Node = get_node req.id c.store in
    let kept : Node × MemoryStore = persist existing req (registered existing req token) c.store in
    let st : MemoryStore = append_audit (register_audit now kept.0.id) kept.1 in
    let nodes : List Node = list_nodes st in
    let plan : List Peer = build_peer_plan kept.0.id nodes (health_map (list_health st) []) in
    let after : Controller =
      bump_plan_version (recompute_all_plans host now (record c { store = st })) in
    (
      Reply.replied (
          config_of host after.store kept.0 (or_text kept.0.config_version host.build) plan
            (rules_at kept.0.id (expand_policy_rules nodes)) (kept.0.private_key, kept.0.public_key)
            "registered; peer plan derived from currently known nodes"),
      after,
    )

-- The node may use this token: it has one, and it is the same.
unfoldable pub token_matches : Option Node → String → Bool
token_matches none token = false
token_matches (some e) token = not (is_blank e.provision_token) && (e.provision_token == token)

-- `/api/v1/nodes/register`; `auth` is the check of the user's session, `header` the header
-- `X-Provision-Token`
unfoldable pub register :
    Host → ℕ → Bool → String → Registration → Controller → Reply NodeConfig × Controller
unfolding accept token_matches get_node
register host now auth header req c =
    let token : String = or_text req.provision_token header in
    if is_blank req.id
    then (Reply.http_error 400 "id is required", c)
    else if is_blank token && not auth
    then (Reply.http_error 401 "unauthorized", c)
    else if not (is_blank token) && not (token_matches (get_node req.id c.store) token)
    then (Reply.http_error 401 "invalid provision token", c)
    else accept host now req token c

unfoldable pub agent_authorized : MemoryStore → String → String → Bool
unfolding token_matches get_node
agent_authorized s id token =
    if is_blank id || is_blank token then false else token_matches (get_node id s) token

abbrev health_audit : ℕ → String → AuditEntry
health_audit now id = record {
  actor = id;
  action = "health_report";
  target = "self";
  detail = "";
  timestamp = now;
}

-- What follows the guards of the health handler.
unfoldable pub accept_health : Host → ℕ → HealthReport → Controller → Controller
unfolding save_health save_plan_with_rules bump_plan_version append_audit
accept_health host now r c =
    let report : HealthReport = record r { timestamp = now } in
    let st : MemoryStore = save_health now report c.store in
    let nodes : List Node = list_nodes st in
    let peers : List Peer =
      build_peer_plan report.node_id nodes (insert report.node_id report []) in
    let after : Controller = bump_plan_version (
      save_plan_with_rules host now (record no_node { id = report.node_id }) peers
        (rules_at report.node_id (expand_policy_rules nodes)) (record c { store = st })) in
    record after { store = append_audit (health_audit now report.node_id) after.store }

-- `/api/v1/health`, POST
unfoldable pub post_health :
    Host → ℕ → Bool → String → HealthReport → Controller → Reply String × Controller
unfolding accept_health agent_authorized
post_health host now auth header r c =
    if is_blank r.node_id
    then (Reply.http_error 400 "nodeId is required", c)
    else if not auth && not (agent_authorized c.store r.node_id header)
    then (Reply.http_error 401 "unauthorized", c)
    else (Reply.replied "ok", accept_health host now r c)

abbrev rollback_audit : ℕ → Plan → AuditEntry
rollback_audit now p = record {
  actor = "controller";
  action = "rollback_plan";
  target = p.node_id;
  detail = "rollback to version " ⧺ decimal p.version;
  timestamp = now;
}

-- The signature that the rollback computes for a stored plan.
unfoldable pub signature_of : Host → Plan → String
unfolding sign_plan
signature_of host p = sign_plan host p.node_id p.peers p.config_version

unfoldable pub finish_rollback :
    Host → ℕ → Controller → Option (Plan × MemoryStore) → Reply Plan × Controller
unfolding signature_of append_audit set_global_plan_version
finish_rollback host now c none = (Reply.http_error 500 "rollback failed", c)
finish_rollback host now c (some (p, st)) =
    if not (is_blank p.signature) && not (p.signature == signature_of host p)
    then (Reply.http_error 400 "rollback signature mismatch", record c { store = st })
    else (
      Reply.replied p,
      record c {
        store = append_audit (rollback_audit now p) (set_global_plan_version p.version st);
        plan_version = p.version;
      },
    )

-- `/api/v1/plan/rollback`
unfoldable pub rollback : Host → ℕ → Bool → String → ℕ → Controller → Reply Plan × Controller
unfolding finish_rollback rollback_plan
rollback host now auth id version c =
    if not auth
    then (Reply.http_error 401 "unauthorized", c)
    else if is_blank id
    then (Reply.http_error 400 "invalid payload", c)
    else finish_rollback host now c (rollback_plan id version c.store)
