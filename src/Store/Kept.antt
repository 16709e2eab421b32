-- ===== src/Store/Kept.antt =====
-- What every run of the store of pkg/store/memory.go keeps about the versions of the nodes and about
-- the logs of their policies.
use peer_wan.Prelude.{
  ℕ, suc, ◌<◌, String, ◌==◌, ◌⧺◌, decimal, Option, none, some, List, [], ◌∷◌, find_first, eqb, inl,
  inr, ◌≡◌, refl, sym, subst, arith, if◌then◌else◌, eq_of_==, Bool-cases,
}
use peer_wan.Prelude.Dict.{lookup, lookup-insert}
use peer_wan.Model.{Node, Plan, Settings}
use peer_wan.Store.{
  MemoryStore, PolicyUpdate, new_memory_store, list_at, version_at, version_string, with_version,
  with_policy, upsert_node, get_node, save_health, prune_health_before, append_audit,
  save_policy_status, save_policy_diag, save_task, save_plan, rollback_plan, roll_to,
  set_global_plan_version, update_policy, put_policy, update_settings,
}
use peer_wan.Store.Steps.{Call, exec, exec_all, after_rollback, after_update}

-- How many of the calls register the node `k`, counted on from `v`.
abbrev pub counted : String → Call → ℕ → ℕ
counted k (Call.upserted n) v = if n.id == k then suc v else v
counted k _ v = v

abbrev pub upserts : String → List Call → ℕ → ℕ
upserts k [] v = v
upserts k (c ∷ calls) v = upserts k calls (counted k c v)

-- A stored node has the key `k` and carries the version `v`, at least 1; without one, `v` is 0.
abbrev pub HasVersion : String → Option Node → ℕ → Type 0
HasVersion k none v = v ≡ 0
HasVersion k (some n) v =
    (n.id ≡ k)
    × (n.version ≡ ("v0.0." ⧺ decimal v))
    × (n.config_version ≡ ("v0.0." ⧺ decimal v))
    × (0 < v)

unfoldable IsVersioned : String → ℕ → MemoryStore → Type 0
unfolding get_node
IsVersioned k v s = HasVersion k (get_node k s) v × (version_at k s ≡ v)

upsert_node-IsVersioned :
    (k : String) (v : ℕ) (n : Node) (s : MemoryStore)
    → IsVersioned k v s
    → IsVersioned k (if n.id == k then suc v else v) (upsert_node n s).1
unfolding IsVersioned upsert_node get_node version_at with_version version_string
upsert_node-IsVersioned k v n s h = elim (Bool-cases (n.id == k)) [
  | inl t ↦
      (let e : version_at n.id s ≡ v = rw (eq_of_== n.id k t) h.1 in
        let r : IsVersioned k (if n.id == k then suc v else v) (upsert_node n s).1 =
          rw
            (lookup-insert n.id k (with_version (version_string (suc (version_at n.id s))) n)
              s.nodes)
            (rw (lookup-insert n.id k (suc (version_at n.id s)) s.version)
              (rw t (rw e ((eq_of_== n.id k t, refl, refl, omega arith), refl)))) in
        r)
  | inr f ↦
      (let r : IsVersioned k (if n.id == k then suc v else v) (upsert_node n s).1 =
          rw
            (lookup-insert n.id k (with_version (version_string (suc (version_at n.id s))) n)
              s.nodes)
            (rw (lookup-insert n.id k (suc (version_at n.id s)) s.version) (rw f h)) in
        r)
]

put_policy-IsVersioned :
    (k : String) (v : ℕ) (id : String) (u : PolicyUpdate) (s : MemoryStore) (o : Option Node)
    → o ≡ lookup id s.nodes
    → IsVersioned k v s
    → IsVersioned k v (after_update s (put_policy id u s o))
unfolding IsVersioned get_node put_policy version_at with_policy
put_policy-IsVersioned k v id u s none e h = h
put_policy-IsVersioned k v id u s (some n) e h = elim (Bool-cases (id == k)) [
  | inl t ↦
      (let here : HasVersion k (lookup id s.nodes) v = rw (eq_of_== id k t) h.0 in
        let old : HasVersion k (some n) v = subst (λ o. HasVersion k o v) (sym e) here in
        let r : IsVersioned k v (after_update s (put_policy id u s (some n))) =
          rw (lookup-insert id k (with_policy u n) s.nodes) (rw t (old, h.1)) in
        r)
  | inr f ↦
      (let r : IsVersioned k v (after_update s (put_policy id u s (some n))) =
          rw (lookup-insert id k (with_policy u n) s.nodes) (rw f h) in
        r)
]

roll_to-IsVersioned :
    (k : String) (w : ℕ) (id : String) (v : ℕ) (s : MemoryStore) (o : Option Plan)
    → IsVersioned k w s
    → IsVersioned k w (after_rollback s (roll_to id v s o))
unfolding IsVersioned get_node roll_to version_at
roll_to-IsVersioned k w id v s none h = h
roll_to-IsVersioned k w id v s (some p) h = h

exec-IsVersioned :
    (k : String) (c : Call) (v : ℕ) (s : MemoryStore)
    → IsVersioned k v s
    → IsVersioned k (counted k c v) (exec c s)
unfolding exec IsVersioned get_node version_at save_health prune_health_before append_audit
    save_policy_status save_policy_diag save_task save_plan set_global_plan_version update_policy
    update_settings rollback_plan
exec-IsVersioned k (Call.upserted n) v s h = upsert_node-IsVersioned k v n s h
exec-IsVersioned k (Call.reported now r) v s h = h
exec-IsVersioned k (Call.pruned cutoff) v s h = h
exec-IsVersioned k (Call.audited e) v s h = h
exec-IsVersioned k (Call.status_saved now l) v s h = h
exec-IsVersioned k (Call.diag_saved now d) v s h = h
exec-IsVersioned k (Call.task_saved now t) v s h = h
exec-IsVersioned k (Call.plan_saved p) v s h = h
exec-IsVersioned k (Call.rolled_back id w) v s h =
    roll_to-IsVersioned k v id w s (find_first (λ p. eqb p.version w) (list_at id s.history)) h
exec-IsVersioned k (Call.version_set w) v s h = h
exec-IsVersioned k (Call.policy_updated id u) v s h =
    put_policy-IsVersioned k v id u s (lookup id s.nodes) refl h
exec-IsVersioned k (Call.settings_updated d) v s h = h

exec_all-keeps :
    (k : String) (calls : List Call) (v : ℕ) (s : MemoryStore)
    → IsVersioned k v s
    → IsVersioned k (upserts k calls v) (exec_all calls s)
unfolding exec_all
exec_all-keeps k [] v s h = h
exec_all-keeps k (c ∷ calls) v s h =
    exec_all-keeps k calls (counted k c v) (exec c s) (exec-IsVersioned k c v s h)

-- After any calls on a new store, a node is stored under the key `k` just where one of the calls
-- registered it; it carries the ID `k`, and both its version fields read "v0.0." and the number of
-- its registrations: neither policy updates nor rollbacks count.
pub exec_all-HasVersion :
    (k : String) (calls : List Call) (defaults : Settings)
    → HasVersion k (get_node k (exec_all calls (new_memory_store defaults))) (upserts k calls 0)
unfolding new_memory_store get_node lookup IsVersioned version_at
exec_all-HasVersion k calls defaults =
    (exec_all-keeps k calls 0 (new_memory_store defaults) (refl, refl)).0
