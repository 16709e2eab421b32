-- ===== src/Store/Rollback.antt =====
-- `RollbackPlan` of pkg/store/memory.go against the plans saved before it.
use peer_wan.Prelude.{
  ℕ, zero, suc, ◌+◌, ◌-◌, ◌≤◌, ◌<◌, String, ◌==◌, Bool, false, Option, none, some, List, [], ◌∷◌,
  ◌++◌, length, length-append, drop, find_first, eqb, eqb_refl, ltb, inl, inr, ◌⊎◌, ◌≡◌, refl,
  arith, ==_refl, eq_of_==, Bool-cases,
}
use peer_wan.Prelude.Dict.{insert, lookup-insert}
use peer_wan.Model.{Plan}
use peer_wan.Store.{MemoryStore, list_at, keep_last, save_plan, rollback_plan, get_plan, roll_to}
use peer_wan.Store.Plans.{list_at-insert}

unfoldable pub save_plans : List Plan → MemoryStore → MemoryStore
unfolding save_plan
save_plans [] s = s
save_plans (p ∷ ps) s = save_plans ps (save_plan p s)

-- `true` at the version that a rollback looks for
abbrev pub has_version : ℕ → Plan → Bool
has_version v p = eqb p.version v

-- The list holds `p`, with `n` entries after it at most and none of its version before it.
abbrev Held : Plan → ℕ → List Plan → Type 0
Held p n [] = ⊥
Held p n (q ∷ l) = ((q ≡ p) × (length l ≤ n)) ⊎ ((has_version p.version q ≡ false) × Held p n l)

Held-append : (p q : Plan) (n : ℕ) (l : List Plan) → Held p n l → Held p (suc n) (l ++ q ∷ [])
Held-append p q n [] h = absurd h
Held-append p q n (r ∷ l) (inl h) = inl (h.0, omega (arith, length-append l (q ∷ []), h.1))
Held-append p q n (r ∷ l) (inr h) = inr (h.0, Held-append p q n l h.1)

Held-drop :
    (p : Plan) (n i : ℕ) (l : List Plan) → i + suc n ≤ length l → Held p n l → Held p n (drop i l)
Held-drop p n zero l le h = h
Held-drop p n (suc i) [] le h = absurd h
Held-drop p n (suc i) (q ∷ l) le (inl h) = absurd (omega (arith, h.1, le))
Held-drop p n (suc i) (q ∷ l) le (inr h) = Held-drop p n i l (omega (arith, le)) h.1

Held-keep_last :
    (p : Plan) (n : ℕ) (l : List Plan) → n < 20 → Held p n l → Held p n (keep_last 20 l)
unfolding keep_last
Held-keep_last p n l lt h = elim (Bool-cases (ltb 20 (length l))) [
  | inl t ↦
      (let r : Held p n (keep_last 20 l) =
          rw t (Held-drop p n (length l - 20) l (ground (arith, lt, t)) h) in
        r)
  | inr f ↦ (let r : Held p n (keep_last 20 l) = rw f h in r)
]

Held-none :
    (p : Plan) (l : List Plan)
    → find_first (has_version p.version) l ≡ none
    → Held p 0 (l ++ p ∷ [])
Held-none p [] e = inl (refl, omega arith)
Held-none p (q ∷ l) e = elim (Bool-cases (has_version p.version q)) [
  | inl t ↦ absurd (ground (arith, t, e))
  | inr f ↦ inr (f, Held-none p l (ground (arith, f, e)))
]

find_first-Held :
    (p : Plan) (n : ℕ) (l : List Plan) → Held p n l → find_first (has_version p.version) l ≡ some p
find_first-Held p n [] h = absurd h
find_first-Held p n (q ∷ l) (inl h) = rw h.0 (rw (eqb_refl p.version) refl)
find_first-Held p n (q ∷ l) (inr h) = rw h.0 (find_first-Held p n l h.1)

Held-suc : (p : Plan) (n : ℕ) (l : List Plan) → Held p n l → Held p (suc n) l
Held-suc p n [] h = absurd h
Held-suc p n (q ∷ l) (inl h) = inl (h.0, omega (arith, h.1))
Held-suc p n (q ∷ l) (inr h) = inr (h.0, Held-suc p n l h.1)

plus_zero : (n : ℕ) → n + 0 ≡ n
plus_zero n = omega arith

plus_suc : (n m : ℕ) → n + suc m ≡ suc n + m
plus_suc n m = omega arith

save_plan-Held :
    (p q : Plan) (n : ℕ) (s : MemoryStore)
    → suc n < 20
    → Held p n (list_at p.node_id s.history)
    → Held p (suc n) (list_at p.node_id (save_plan q s).history)
unfolding save_plan
save_plan-Held p q n s lt h = elim (Bool-cases (q.node_id == p.node_id)) [
  | inl t ↦
      (let old : Held p n (list_at q.node_id s.history) = rw (eq_of_== q.node_id p.node_id t) h in
        let l : List Plan = list_at q.node_id s.history ++ q ∷ [] in
        let r : Held p (suc n) (list_at p.node_id (save_plan q s).history) =
          rw (list_at-insert q.node_id p.node_id (keep_last 20 l) s.history) (
            rw t (
              Held-keep_last p (suc n) l lt
                (Held-append p q n (list_at q.node_id s.history) old))) in
        r)
  | inr f ↦
      (let l : List Plan = list_at q.node_id s.history ++ q ∷ [] in
        let r : Held p (suc n) (list_at p.node_id (save_plan q s).history) =
          rw (list_at-insert q.node_id p.node_id (keep_last 20 l) s.history)
            (rw f (Held-suc p n (list_at p.node_id s.history) h)) in
        r)
]

save_plans-Held :
    (p : Plan) (n : ℕ) (ps : List Plan) (s : MemoryStore)
    → n + length ps < 20
    → Held p n (list_at p.node_id s.history)
    → Held p (n + length ps) (list_at p.node_id (save_plans ps s).history)
unfolding save_plans
save_plans-Held p n [] s lt h = rw (plus_zero n) h
save_plans-Held p n (q ∷ ps) s lt h = rw (plus_suc n (length ps)) (
    save_plans-Held p (suc n) ps (save_plan q s) (omega (arith, lt))
      (save_plan-Held p q n s (omega (arith, lt)) h))

first_save-Held :
    (p : Plan) (s : MemoryStore)
    → find_first (has_version p.version) (list_at p.node_id s.history) ≡ none
    → Held p 0 (list_at p.node_id (save_plan p s).history)
unfolding save_plan
first_save-Held p s e =
    let l : List Plan = list_at p.node_id s.history ++ p ∷ [] in
    rw (list_at-insert p.node_id p.node_id (keep_last 20 l) s.history) (
      rw (==_refl p.node_id)
        (Held-keep_last p 0 l (omega arith) (Held-none p (list_at p.node_id s.history) e)))

-- A rollback of the node of `p` to the version of `p` that gives `p`, and after which `p` is the
-- node's plan and its version the global one.
abbrev pub RollsBack : Plan → MemoryStore → Type 0
RollsBack p s =
    (t : MemoryStore) × (rollback_plan p.node_id p.version s ≡ some (p, t))
    × (get_plan p.node_id t ≡ some p)
    × (t.global_plan_version ≡ p.version)

-- A plan whose version is new in the history of its node can be rolled back to as long as fewer than
-- 20 plans, for whichever nodes, were saved after it: the rollback finds this plan, and not one that
-- was saved later under the same version.
pub rollback_plan-save_plans :
    (p : Plan) (ps : List Plan) (s : MemoryStore)
    → find_first (has_version p.version) (list_at p.node_id s.history) ≡ none
    → length ps < 20
    → RollsBack p (save_plans ps (save_plan p s))
unfolding rollback_plan roll_to get_plan
rollback_plan-save_plans p ps s new few =
    let t : MemoryStore = save_plans ps (save_plan p s) in
    let held : Held p (0 + length ps) (list_at p.node_id t.history) =
      save_plans-Held p 0 ps (save_plan p s) (omega (arith, few)) (first_save-Held p s new) in
    let r : RollsBack p t =
      rw (find_first-Held p (0 + length ps) (list_at p.node_id t.history) held) (
        record t { plans = insert p.node_id p t.plans; global_plan_version = p.version },
        refl,
        rw (lookup-insert p.node_id p.node_id p t.plans) (rw (==_refl p.node_id) refl),
        refl,
      ) in
    r

abbrev pub Leaves : String → Option (Plan × MemoryStore) → Type 0
Leaves id none = Unit
Leaves id (some (p, st)) = get_plan id st ≡ some p

roll_to-Leaves :
    (id : String) (v : ℕ) (s : MemoryStore) (o : Option Plan) → Leaves id (roll_to id v s o)
unfolding roll_to get_plan
roll_to-Leaves id v s none = tt
roll_to-Leaves id v s (some p) = rw (lookup-insert id id p s.plans) (rw (==_refl id) refl)

-- The plan that a rollback gives is the plan of the node after it.
pub rollback_plan-Leaves :
    (id : String) (v : ℕ) (s : MemoryStore) → Leaves id (rollback_plan id v s)
unfolding rollback_plan
rollback_plan-Leaves id v s =
    roll_to-Leaves id v s (find_first (has_version v) (list_at id s.history))
