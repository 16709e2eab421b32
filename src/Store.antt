-- ===== src/Store.antt =====
-- pkg/store/memory.go: `MemoryStore`. Each method is a function of the store; the mutex makes every
-- one of them a single step. `now` is the time that `time.Now()` gives inside the call. A Go map is a
-- `Dict`, which lists its values in the order of their first insertion where Go's order is arbitrary.
-- A limit of 0 stands for Go's `limit <= 0`.
pub mod Steps
pub mod Plans
pub mod Kept
pub mod Rollback
use peer_wan.Prelude.{
  ℕ, suc, ◌+◌, ◌-◌, String, ◌==◌, ◌⧺◌, Bool, true, false, ◌||◌, Option, none, some, List, [], ◌∷◌,
  ◌++◌, decimal, length, drop, keep, find_first, ltb, leb, eqb, is_blank, if◌then◌else◌,
}
use peer_wan.Prelude.Dict.{Dict, lookup, insert, values}
use peer_wan.Model.{
  Node, HealthReport, PolicyInstallLog, PolicyDiagReport, Task, AuditEntry, Plan, PolicyRule,
  Settings,
}

pub record MemoryStore : Type 0 where
  pub nodes : Dict Node
  pub version : Dict ℕ
  pub health : Dict HealthReport
  pub health_history : Dict (List HealthReport)
  pub policy_status : Dict (List PolicyInstallLog)
  pub policy_diag : Dict (List PolicyDiagReport)
  pub tasks : Dict Task
  pub audit : List AuditEntry
  pub plans : Dict Plan
  pub history : Dict (List Plan)
  pub global_plan_version : ℕ
  pub settings : Settings

-- `NewMemoryStore`; the default settings come from the environment and are a parameter
unfoldable pub new_memory_store : Settings → MemoryStore
new_memory_store defaults = record {
  nodes = [];
  version = [];
  health = [];
  health_history = [];
  policy_status = [];
  policy_diag = [];
  tasks = [];
  audit = [];
  plans = [];
  history = [];
  global_plan_version = 0;
  settings = defaults;
}

abbrev or_empty_list {ℓ} : {A : Type ℓ} → Option (List A) → List A
or_empty_list none = []
or_empty_list (some l) = l

-- `m[k]` of a map of slices
abbrev pub list_at {ℓ} : {A : Type ℓ} → String → Dict (List A) → List A
list_at k m = or_empty_list (lookup k m)

abbrev or_zero : Option ℕ → ℕ
or_zero none = 0
or_zero (some n) = n

unfoldable pub version_at : String → MemoryStore → ℕ
version_at id s = or_zero (lookup id s.version)

-- `list[len(list)-n:]` where the list is longer
unfoldable pub keep_last {ℓ} : {A : Type ℓ} → ℕ → List A → List A
keep_last n l = if ltb n (length l) then drop (length l - n) l else l

-- The last `limit` entries; all of them where the limit is 0 or too large.
unfoldable pub limited {ℓ} : {A : Type ℓ} → ℕ → List A → List A
limited limit l = if eqb limit 0 || ltb (length l) limit then l else drop (length l - limit) l

unfoldable pub version_string : ℕ → String
version_string v = "v0.0." ⧺ decimal v

unfoldable pub with_version : String → Node → Node
with_version v n = record n { version = v; config_version = v }

unfoldable pub upsert_node : Node → MemoryStore → Node × MemoryStore
unfolding version_at version_string with_version
upsert_node n s =
    let next : ℕ = suc (version_at n.id s) in
    let saved : Node = with_version (version_string next) n in
    (saved, record s { nodes = insert n.id saved s.nodes; version = insert n.id next s.version })

unfoldable pub list_nodes : MemoryStore → List Node
list_nodes s = values s.nodes

unfoldable pub get_node : String → MemoryStore → Option Node
get_node id s = lookup id s.nodes

abbrev pub day : ℕ
day = 86400000000000

-- The history keeps the reports of the last 24 hours.
unfoldable pub save_health : ℕ → HealthReport → MemoryStore → MemoryStore
save_health now h s = record s {
  health = insert h.node_id h s.health;
  health_history =
      insert h.node_id
        (keep (λ item. ltb (now - day) item.timestamp)
          (list_at h.node_id s.health_history ++ h ∷ []))
        s.health_history;
}

unfoldable pub list_health : MemoryStore → List HealthReport
list_health s = values s.health

unfoldable pub list_health_history : String → ℕ → MemoryStore → List HealthReport
list_health_history id since s = keep (λ h. leb since h.timestamp) (list_at id s.health_history)

unfoldable pub prune_each : ℕ → Dict (List HealthReport) → Dict (List HealthReport)
prune_each cutoff [] = []
prune_each cutoff ((id, hist) ∷ rest) =
    (id, keep (λ h. leb cutoff h.timestamp) hist) ∷ prune_each cutoff rest

unfoldable pub prune_health_before : ℕ → MemoryStore → MemoryStore
unfolding prune_each
prune_health_before cutoff s = record s { health_history = prune_each cutoff s.health_history }

unfoldable pub append_audit : AuditEntry → MemoryStore → MemoryStore
append_audit entry s = record s { audit = s.audit ++ entry ∷ [] }

unfoldable pub list_audit : ℕ → MemoryStore → List AuditEntry
unfolding limited
list_audit limit s = limited limit s.audit

-- `if l.Timestamp.IsZero() { l.Timestamp = time.Now() }`
abbrev pub stamp : ℕ → ℕ → ℕ
stamp now t = if eqb t 0 then now else t

unfoldable pub save_policy_status : ℕ → PolicyInstallLog → MemoryStore → MemoryStore
unfolding keep_last
save_policy_status now l s = record s {
  policy_status =
      insert l.node_id
        (keep_last 50 (
          list_at l.node_id s.policy_status ++ record l { timestamp = stamp now l.timestamp } ∷ []))
        s.policy_status;
}

unfoldable pub list_policy_status : String → ℕ → MemoryStore → List PolicyInstallLog
unfolding limited
list_policy_status id limit s = limited limit (list_at id s.policy_status)

unfoldable pub save_policy_diag : ℕ → PolicyDiagReport → MemoryStore → MemoryStore
unfolding keep_last
save_policy_diag now d s = record s {
  policy_diag =
      insert d.node_id
        (keep_last 20
          (list_at d.node_id s.policy_diag ++ record d { timestamp = stamp now d.timestamp } ∷ []))
        s.policy_diag;
}

unfoldable pub list_policy_diag : String → ℕ → MemoryStore → List PolicyDiagReport
unfolding limited
list_policy_diag id limit s = limited limit (list_at id s.policy_diag)

unfoldable pub save_task : ℕ → Task → MemoryStore → MemoryStore
save_task now t s = record s {
  tasks = insert t.id (record t { created_at = stamp now t.created_at; updated_at = now }) s.tasks;
}

unfoldable pub get_task : String → MemoryStore → Option Task
get_task id s = lookup id s.tasks

unfoldable pub insert_by_created : Task → List Task → List Task
insert_by_created t [] = t ∷ []
insert_by_created t (u ∷ rest) =
    if ltb u.created_at t.created_at then u ∷ insert_by_created t rest else t ∷ u ∷ rest

unfoldable pub sort_by_created : List Task → List Task
unfolding insert_by_created
sort_by_created [] = []
sort_by_created (t ∷ rest) = insert_by_created t (sort_by_created rest)

-- `sort.Slice` leaves the order of equal times open; here they stay as they were.
unfoldable pub list_tasks : String → ℕ → MemoryStore → List Task
unfolding limited sort_by_created
list_tasks id limit s =
    limited limit (sort_by_created (keep (λ t. is_blank id || (t.node_id == id)) (values s.tasks)))

unfoldable pub save_plan : Plan → MemoryStore → MemoryStore
unfolding keep_last
save_plan p s = record s {
  plans = insert p.node_id p s.plans;
  history = insert p.node_id (keep_last 20 (list_at p.node_id s.history ++ p ∷ [])) s.history;
}

unfoldable pub get_plan : String → MemoryStore → Option Plan
get_plan id s = lookup id s.plans

unfoldable pub list_plan_history : String → ℕ → MemoryStore → List Plan
unfolding limited
list_plan_history id limit s = limited limit (list_at id s.history)

unfoldable pub roll_to : String → ℕ → MemoryStore → Option Plan → Option (Plan × MemoryStore)
roll_to id v s none = none
roll_to id v s (some p) =
    some (p, record s { plans = insert id p s.plans; global_plan_version = v })

-- `RollbackPlan`: `none` is the error "version not found"
unfoldable pub rollback_plan : String → ℕ → MemoryStore → Option (Plan × MemoryStore)
unfolding roll_to
rollback_plan id v s = roll_to id v s (find_first (λ p. eqb p.version v) (list_at id s.history))

unfoldable pub set_global_plan_version : ℕ → MemoryStore → MemoryStore
set_global_plan_version v s = record s { global_plan_version = v }

-- What a policy update carries.
pub record PolicyUpdate : Type 0 where
  pub egress_peer : String
  pub rules : List PolicyRule
  pub default_route : Bool
  pub bypass : List String
  pub next_hop : String

unfoldable pub with_policy : PolicyUpdate → Node → Node
with_policy u n = record n {
  egress_peer_id = u.egress_peer;
  policy_rules = u.rules;
  default_route = u.default_route;
  bypass_cidrs = u.bypass;
  default_route_next_hop = u.next_hop;
}

unfoldable pub put_policy : String → PolicyUpdate → MemoryStore → Option Node → Option MemoryStore
unfolding with_policy
put_policy id u s none = none
put_policy id u s (some n) = some (record s { nodes = insert id (with_policy u n) s.nodes })

-- `UpdatePolicy`: `none` is the error "node not found"
unfoldable pub update_policy : String → PolicyUpdate → MemoryStore → Option MemoryStore
unfolding put_policy
update_policy id u s = put_policy id u s (lookup id s.nodes)

unfoldable pub update_settings : Settings → MemoryStore → MemoryStore
update_settings v s = record s { settings = v }
