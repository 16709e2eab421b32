-- ===== src/Store/Steps.antt =====
-- The runs of a store: any sequence of the methods of pkg/store/memory.go that change it.
use peer_wan.Prelude.{ℕ, String, List, [], ◌∷◌, Option, none, some}
use peer_wan.Model.{
  Node, HealthReport, PolicyInstallLog, PolicyDiagReport, Task, AuditEntry, Plan, Settings,
}
use peer_wan.Store.{
  MemoryStore, PolicyUpdate, upsert_node, save_health, prune_health_before, append_audit,
  save_policy_status, save_policy_diag, save_task, save_plan, rollback_plan,
  set_global_plan_version, update_policy, update_settings,
}

pub data Call : Type 0 where
  upserted : Node → Call
  reported : ℕ → HealthReport → Call
  pruned : ℕ → Call
  audited : AuditEntry → Call
  status_saved : ℕ → PolicyInstallLog → Call
  diag_saved : ℕ → PolicyDiagReport → Call
  task_saved : ℕ → Task → Call
  plan_saved : Plan → Call
  rolled_back : String → ℕ → Call
  version_set : ℕ → Call
  policy_updated : String → PolicyUpdate → Call
  settings_updated : Settings → Call

abbrev pub after_rollback : MemoryStore → Option (Plan × MemoryStore) → MemoryStore
after_rollback s none = s
after_rollback s (some r) = r.1

abbrev pub after_update : MemoryStore → Option MemoryStore → MemoryStore
after_update s none = s
after_update s (some t) = t

-- The store after one call; a call that fails leaves it as it was.
unfoldable pub exec : Call → MemoryStore → MemoryStore
unfolding upsert_node save_health prune_health_before append_audit save_policy_status
    save_policy_diag save_task save_plan rollback_plan set_global_plan_version update_policy
    update_settings
exec (Call.upserted n) s = (upsert_node n s).1
exec (Call.reported now h) s = save_health now h s
exec (Call.pruned cutoff) s = prune_health_before cutoff s
exec (Call.audited e) s = append_audit e s
exec (Call.status_saved now l) s = save_policy_status now l s
exec (Call.diag_saved now d) s = save_policy_diag now d s
exec (Call.task_saved now t) s = save_task now t s
exec (Call.plan_saved p) s = save_plan p s
exec (Call.rolled_back id v) s = after_rollback s (rollback_plan id v s)
exec (Call.version_set v) s = set_global_plan_version v s
exec (Call.policy_updated id u) s = after_update s (update_policy id u s)
exec (Call.settings_updated v) s = update_settings v s

unfoldable pub exec_all : List Call → MemoryStore → MemoryStore
unfolding exec
exec_all [] s = s
exec_all (c ∷ calls) s = exec_all calls (exec c s)
