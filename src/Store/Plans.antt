-- ===== src/Store/Plans.antt =====
-- What every run of the store keeps about the plans of a node: `SavePlan` and `RollbackPlan` of
-- pkg/store/memory.go.
use peer_wan.Prelude.{
  ℕ, zero, suc, ◌≤◌, ◌-◌, String, ◌==◌, Bool, Option, none, some, List, [], ◌∷◌, ◌++◌, length,
  length-append, length-drop, drop, All, All-append, All-drop, Any, inl, inr, ◌≡◌, refl, sym, arith,
  if◌then◌else◌, eq_of_==, Bool-cases, find_first, eqb, ltb,
}
use peer_wan.Prelude.Dict.{Dict, lookup, insert, lookup-insert}
use peer_wan.Model.{Node, Plan, Settings}
use peer_wan.Store.{
  MemoryStore, new_memory_store, list_at, keep_last, save_plan, rollback_plan, get_plan,
  PolicyUpdate, put_policy, roll_to, upsert_node, save_health, prune_health_before, append_audit,
  save_policy_status, save_policy_diag, save_task, set_global_plan_version, update_policy,
  update_settings,
}
use peer_wan.Store.Steps.{Call, exec, exec_all, after_rollback, after_update}

pub list_at-insert {ℓ} :
    {A : Type ℓ} (j k : String) (v : List A) (m : Dict (List A))
    → list_at k (insert j v m) ≡ (if j == k then v else list_at k m)
unfolding lookup
list_at-insert j k v m = ground (arith, lookup-insert j k v m)

pub length-keep_last {ℓ} : {A : Type ℓ} (n : ℕ) (l : List A) → length (keep_last n l) ≤ n
unfolding keep_last
length-keep_last n l = ground (arith, length-drop (length l - n) l)

All-keep_last {ℓ κ} :
    {A : Type ℓ} (P : A → Type κ) (n : ℕ) (l : List A) → All P l → All P (keep_last n l)
unfolding keep_last
All-keep_last P n l h = elim (Bool-cases (ltb n (length l))) [
  | inl t ↦ (let r : All P (keep_last n l) = rw t (All-drop P (length l - n) l h) in r)
  | inr f ↦ (let r : All P (keep_last n l) = rw f h in r)
]

abbrev pub Occurs : Plan → List Plan → Type 0
Occurs p l = Any (λ q. q ≡ p) l

Occurs-last : (p : Plan) (l : List Plan) → Occurs p (l ++ p ∷ [])
Occurs-last p [] = inl refl
Occurs-last p (q ∷ l) = inr (Occurs-last p l)

Occurs-drop-last :
    (p : Plan) (i : ℕ) (l : List Plan) → i ≤ length l → Occurs p (drop i (l ++ p ∷ []))
Occurs-drop-last p zero l h = Occurs-last p l
Occurs-drop-last p (suc i) [] h = absurd (omega (arith, h))
Occurs-drop-last p (suc i) (q ∷ l) h = Occurs-drop-last p i l (omega (arith, h))

Occurs-keep_last : (p : Plan) (l : List Plan) → Occurs p (keep_last 20 (l ++ p ∷ []))
unfolding keep_last
Occurs-keep_last p l = elim (Bool-cases (ltb 20 (length (l ++ p ∷ [])))) [
  | inl t ↦
      (let r : Occurs p (keep_last 20 (l ++ p ∷ [])) = rw t (
          Occurs-drop-last p (length (l ++ p ∷ []) - 20) l
            (omega (arith, length-append l (p ∷ [])))) in
        r)
  | inr f ↦ (let r : Occurs p (keep_last 20 (l ++ p ∷ [])) = rw f (Occurs-last p l) in r)
]

-- The plan of a node, where it has one, is in its history.
abbrev pub IsListed : Option Plan → List Plan → Type 0
IsListed none l = Unit
IsListed (some p) l = Occurs p l

-- The plan and the history of the node `k`.
unfoldable pub IsPlanned : String → MemoryStore → Type 0
unfolding get_plan
IsPlanned k s =
    IsListed (get_plan k s) (list_at k s.history)
    × All (λ p. p.node_id ≡ k) (list_at k s.history)
    × (length (list_at k s.history) ≤ 20)

saved_named :
    (k : String) (p : Plan) (s : MemoryStore)
    → p.node_id ≡ k
    → All (λ q. q.node_id ≡ k) (list_at k s.history)
    → All (λ q. q.node_id ≡ k) (keep_last 20 (list_at p.node_id s.history ++ p ∷ []))
saved_named k p s e h =
    let l : List Plan = list_at p.node_id s.history in
    let old : All (λ q. q.node_id ≡ k) l = rw e h in
    All-keep_last (λ q. q.node_id ≡ k) 20 (l ++ p ∷ [])
      (All-append (λ q. q.node_id ≡ k) l (p ∷ []) old (e, tt))

save_plan-IsPlanned :
    (k : String) (p : Plan) (s : MemoryStore) → IsPlanned k s → IsPlanned k (save_plan p s)
unfolding IsPlanned save_plan get_plan
save_plan-IsPlanned k p s h = elim (Bool-cases (p.node_id == k)) [
  | inl t ↦
      (let l : List Plan = list_at p.node_id s.history in
        let r : IsPlanned k (save_plan p s) =
          rw (lookup-insert p.node_id k p s.plans) rw
            (list_at-insert p.node_id k (keep_last 20 (l ++ p ∷ [])) s.history) rw t
            (
              Occurs-keep_last p l,
              saved_named k p s (eq_of_== p.node_id k t) h.1,
              length-keep_last 20 (l ++ p ∷ []),
            ) in
        r)
  | inr f ↦
      (let r : IsPlanned k (save_plan p s) =
          rw (lookup-insert p.node_id k p s.plans) rw
            (list_at-insert p.node_id k (keep_last 20 (list_at p.node_id s.history ++ p ∷ []))
              s.history)
            rw f h in
        r)
]

IsListed-cons : (q : Plan) (o : Option Plan) (l : List Plan) → IsListed o l → IsListed o (q ∷ l)
IsListed-cons q none l h = tt
IsListed-cons q (some p) l h = inr h

find_first-IsListed : (f : Plan → Bool) (l : List Plan) → IsListed (find_first f l) l
find_first-IsListed f [] = tt
find_first-IsListed f (q ∷ l) = elim (Bool-cases (f q)) [
  | inl t ↦ (let r : IsListed (find_first f (q ∷ l)) (q ∷ l) = rw t (inl refl) in r)
  | inr e ↦
      (let r : IsListed (find_first f (q ∷ l)) (q ∷ l) =
          rw e (IsListed-cons q (find_first f l) l (find_first-IsListed f l)) in
        r)
]

put_policy-IsPlanned :
    (k id : String) (u : PolicyUpdate) (s : MemoryStore) (o : Option Node)
    → IsPlanned k s
    → IsPlanned k (after_update s (put_policy id u s o))
unfolding IsPlanned get_plan put_policy
put_policy-IsPlanned k id u s none h = h
put_policy-IsPlanned k id u s (some n) h = h

roll_to-IsPlanned :
    (k id : String) (v : ℕ) (s : MemoryStore) (o : Option Plan)
    → IsListed o (list_at id s.history)
    → IsPlanned k s
    → IsPlanned k (after_rollback s (roll_to id v s o))
unfolding IsPlanned get_plan roll_to
roll_to-IsPlanned k id v s none found h = h
roll_to-IsPlanned k id v s (some p) found h = elim (Bool-cases (id == k)) [
  | inl t ↦
      (let here : Occurs p (list_at k s.history) = rw (sym (eq_of_== id k t)) found in
        let r : IsPlanned k (after_rollback s (roll_to id v s (some p))) =
          rw (lookup-insert id k p s.plans) (rw t (here, h.1, h.2)) in
        r)
  | inr f ↦
      (let r : IsPlanned k (after_rollback s (roll_to id v s (some p))) =
          rw (lookup-insert id k p s.plans) (rw f h) in
        r)
]

exec-IsPlanned : (k : String) (c : Call) (s : MemoryStore) → IsPlanned k s → IsPlanned k (exec c s)
unfolding exec IsPlanned get_plan upsert_node save_health prune_health_before append_audit
    save_policy_status save_policy_diag save_task set_global_plan_version update_policy
    update_settings rollback_plan
exec-IsPlanned k (Call.upserted n) s h = h
exec-IsPlanned k (Call.reported now r) s h = h
exec-IsPlanned k (Call.pruned cutoff) s h = h
exec-IsPlanned k (Call.audited e) s h = h
exec-IsPlanned k (Call.status_saved now l) s h = h
exec-IsPlanned k (Call.diag_saved now d) s h = h
exec-IsPlanned k (Call.task_saved now t) s h = h
exec-IsPlanned k (Call.plan_saved p) s h = save_plan-IsPlanned k p s h
exec-IsPlanned k (Call.rolled_back id v) s h =
    roll_to-IsPlanned k id v s (find_first (λ p. eqb p.version v) (list_at id s.history))
      (find_first-IsListed (λ p. eqb p.version v) (list_at id s.history)) h
exec-IsPlanned k (Call.version_set v) s h = h
exec-IsPlanned k (Call.policy_updated id u) s h =
    put_policy-IsPlanned k id u s (lookup id s.nodes) h
exec-IsPlanned k (Call.settings_updated v) s h = h

exec_all-keeps :
    (k : String) (calls : List Call) (s : MemoryStore)
    → IsPlanned k s
    → IsPlanned k (exec_all calls s)
unfolding exec_all
exec_all-keeps k [] s h = h
exec_all-keeps k (c ∷ calls) s h = exec_all-keeps k calls (exec c s) (exec-IsPlanned k c s h)

-- After any calls on a new store, the plan that a node has, saved or rolled back to, is in the
-- history of that node, which holds plans of that node only and 20 of them at most.
pub exec_all-IsPlanned :
    (k : String) (calls : List Call) (defaults : Settings)
    → IsPlanned k (exec_all calls (new_memory_store defaults))
unfolding IsPlanned new_memory_store get_plan lookup
exec_all-IsPlanned k calls defaults =
    exec_all-keeps k calls (new_memory_store defaults) (tt, tt, omega arith)
