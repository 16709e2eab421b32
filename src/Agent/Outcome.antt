-- ===== src/Agent/Outcome.antt =====
-- What a task's status is once agents have reported: `handleWSTask` of pkg/agent/plan.go against
-- `handleTaskStep` of pkg/api/ws.go.
use peer_wan.Prelude.{
  ℕ, String, ◌==◌, Bool, false, ◌||◌, Option, none, some, is_some, List, [], ◌∷◌, ◌++◌, ◌≡◌, refl,
  sym, ap, ◌∙◌, All, All-append, is_blank, Bool-cases, inl, inr, if◌then◌else◌, ==_refl,
}
use peer_wan.Prelude.Dict.{lookup-insert}
use peer_wan.Model.{Task, TaskStep}
use peer_wan.Store.{MemoryStore, save_task, get_task, stamp}
use peer_wan.Policy.{World}
use peer_wan.Agent.{Agent, take_plan}
use peer_wan.Agent.Pipeline.{
  Machine, run_curl_verify, step, complete, verify_steps, apply_steps, kind_steps, applies,
  targets_for, handle_ws_task,
}
use peer_wan.Hub.Tasks.{StepMessage, Board, step_of, with_step, store_step, handle_task_step}

-- A message as the hub meets it: its time, and the connection's node.
pub record Arrival : Type 0 where
  pub now : ℕ
  pub node : String
  pub message : StepMessage

unfoldable pub handle_arrivals : List Arrival → Board → Board
unfolding handle_task_step
handle_arrivals [] b = b
handle_arrivals (a ∷ rest) b = handle_arrivals rest (handle_task_step a.now a.node a.message b)

-- The stored task has these steps and this status, twice.
abbrev pub IsTaskAt : String → List TaskStep → String → Option Task → Type 0
IsTaskAt k steps status none = ⊥
IsTaskAt k steps status (some t) =
    (t.id ≡ k) × (t.steps ≡ steps) × (t.status ≡ status) × (t.overall_status ≡ status)

abbrev pub steps_of : List Arrival → List TaskStep
steps_of [] = []
steps_of (a ∷ rest) = step_of a.now a.node a.message ∷ steps_of rest

abbrev pub last_status : String → List Arrival → String
last_status old [] = old
last_status old (a ∷ rest) = last_status a.message.status rest

abbrev pub IsAbout : String → List Arrival → Type 0
IsAbout k arrivals = All (λ a. a.message.task_id ≡ k) arrivals

append_nil {ℓ} : {A : Type ℓ} (xs : List A) → xs ++ [] ≡ xs
append_nil [] = refl
append_nil (x ∷ xs) = ap (λ l. x ∷ l) (append_nil xs)

append_assoc {ℓ} :
    {A : Type ℓ} (xs : List A) (y : A) (ys : List A) → (xs ++ y ∷ []) ++ ys ≡ xs ++ y ∷ ys
append_assoc [] y ys = refl
append_assoc (x ∷ xs) y ys = ap (λ l. x ∷ l) (append_assoc xs y ys)

save_task-IsTaskAt :
    (now : ℕ) (k : String) (t : Task) (s : MemoryStore)
    → t.id ≡ k
    → t.status ≡ t.overall_status
    → IsTaskAt k t.steps t.overall_status (get_task k (save_task now t s))
unfolding get_task save_task
save_task-IsTaskAt now k t s e same =
    rw
      (lookup-insert t.id k (record t { created_at = stamp now t.created_at; updated_at = now })
        s.tasks)
      (rw e (rw (==_refl k) (refl, refl, same, refl)))

store_step-IsTaskAt :
    (now : ℕ) (node k status : String) (steps : List TaskStep) (m : StepMessage) (s : MemoryStore)
    (o : Option Task)
    → IsTaskAt k steps status o
    → IsTaskAt k
        (steps ++ step_of now node m ∷ [])
        m.status
        (get_task k (store_step now node m s o))
unfolding store_step with_step step_of
store_step-IsTaskAt now node k status steps m s none h = absurd h
store_step-IsTaskAt now node k status steps m s (some t) h =
    rw (sym h.1) (save_task-IsTaskAt now k (with_step now (step_of now node m) t) s h.0 refl)

handle_task_step-IsTaskAt :
    (k status : String) (steps : List TaskStep) (a : Arrival) (b : Board)
    → is_blank k ≡ false
    → a.message.task_id ≡ k
    → IsTaskAt k steps status (get_task k b.store)
    → IsTaskAt k
        (steps ++ step_of a.now a.node a.message ∷ [])
        a.message.status
        (get_task k (handle_task_step a.now a.node a.message b).store)
unfolding handle_task_step
handle_task_step-IsTaskAt k status steps a b nb e h = rw e (
    rw nb
      (store_step-IsTaskAt a.now a.node k status steps a.message b.store (get_task k b.store) h))

-- The reports on a task, from any agents in any order, are all added to the steps of the stored task, as
-- they come; its status and its overall status are both that of the last report.
pub handle_arrivals-IsTaskAt :
    (k status : String) (steps : List TaskStep) (arrivals : List Arrival) (b : Board)
    → is_blank k ≡ false
    → IsAbout k arrivals
    → IsTaskAt k steps status (get_task k b.store)
    → IsTaskAt k
        (steps ++ steps_of arrivals)
        (last_status status arrivals)
        (get_task k (handle_arrivals arrivals b).store)
unfolding handle_arrivals
handle_arrivals-IsTaskAt k status steps [] b nb about h = rw (append_nil steps) h
handle_arrivals-IsTaskAt k status steps (a ∷ rest) b nb about h =
    rw (sym (append_assoc steps (step_of a.now a.node a.message) (steps_of rest))) (
      handle_arrivals-IsTaskAt k a.message.status (steps ++ step_of a.now a.node a.message ∷ [])
        rest (handle_task_step a.now a.node a.message b) nb about.1
        (handle_task_step-IsTaskAt k status steps a b nb about.0 h))

-- The messages of an agent, as the hub meets them.
abbrev pub arrive : (StepMessage → ℕ) → String → List StepMessage → List Arrival
arrive clock node [] = []
arrive clock node (m ∷ ms) =
    record { now = clock m; node = node; message = m } ∷ arrive clock node ms

-- Whether the agent fails the task.
abbrev pub fails : String → Option String → Option String → Bool
fails kind applied v =
    if kind == "policy_diag"
    then false
    else if kind == "verify"
    then is_some v
    else is_some applied || is_some v

abbrev pub outcome : Bool → String
outcome b = if b then "fail" else "success"

last_status-append :
    (old : String) (xs ys : List Arrival)
    → last_status old (xs ++ ys) ≡ last_status (last_status old xs) ys
last_status-append old [] ys = refl
last_status-append old (x ∷ xs) ys = last_status-append x.message.status xs ys

-- Messages about the task that end with this status.
abbrev EndsIn : (StepMessage → ℕ) → String → String → String → List StepMessage → Type 0
EndsIn clock node k status ms =
    IsAbout k (arrive clock node ms)
    × ((old : String) → last_status old (arrive clock node ms) ≡ status)

module _ (clock : StepMessage → ℕ) (node k : String) (m : Machine) where
  verify_steps-EndsIn :
      (good : String) (v : Option String)
      → EndsIn clock node k (outcome (is_some v)) (verify_steps m k good v)
  unfolding verify_steps step complete
  verify_steps-EndsIn good none = ((refl, (refl, (refl, tt))), (λ old. refl))
  verify_steps-EndsIn good (some e) = ((refl, (refl, tt)), (λ old. refl))

  apply_steps-EndsIn :
      (applied v : Option String)
      → EndsIn clock node k (outcome (is_some applied || is_some v)) (apply_steps m k applied v)
  unfolding apply_steps step
  apply_steps-EndsIn (some e) v = ((refl, (refl, tt)), (λ old. refl))
  apply_steps-EndsIn none v =
      let rest : EndsIn clock node k (outcome (is_some v)) (verify_steps m k "curl 验证通过" v) =
        verify_steps-EndsIn "curl 验证通过" v in
      ((refl, (refl, (refl, (refl, rest.0)))), (λ old. rest.1 "success"))

  kind_steps-EndsIn :
      (kind : String) (applied v : Option String)
      → EndsIn clock node k (outcome (fails kind applied v)) (kind_steps m k kind applied v)
  unfolding kind_steps step complete
  kind_steps-EndsIn kind applied v = elim (Bool-cases (kind == "policy_diag")) [
    | inl d ↦
        (let r : EndsIn clock node k (outcome (fails kind applied v))
              (kind_steps m k kind applied v) =
            rw d ((refl, (refl, (refl, tt))), (λ old. refl)) in
          r)
    | inr nd ↦ elim (Bool-cases (kind == "verify")) [
      | inl t ↦
          (let r : EndsIn clock node k (outcome (fails kind applied v))
                (kind_steps m k kind applied v) =
              rw nd (rw t (verify_steps-EndsIn "目标验证通过" v)) in
            r)
      | inr nt ↦
          (let r : EndsIn clock node k (outcome (fails kind applied v))
                (kind_steps m k kind applied v) =
              rw nd (rw nt (apply_steps-EndsIn applied v)) in
            r)
    ]
  ]

-- What the agent's own work on the task comes to.
unfoldable pub task_fails : World → Machine → ℕ → String → List String → Agent → Bool
unfolding run_curl_verify take_plan
task_fails w m asn kind given a =
    fails kind (m.write_and_apply (if applies kind then take_plan w asn a.latest_cfg a else a))
      (run_curl_verify m.curl (targets_for w a given))

handle_ws_task-EndsIn :
    (clock : StepMessage → ℕ) (node k kind : String) (w : World) (m : Machine) (asn : ℕ)
    (given : List String) (a : Agent)
    → is_blank k ≡ false
    → is_blank kind ≡ false
    → EndsIn clock node k
        (outcome (task_fails w m asn kind given a))
        (handle_ws_task w m asn k kind given a).1
unfolding handle_ws_task task_fails step
handle_ws_task-EndsIn clock node k kind w m asn given a nb nk =
    let after : Agent = if applies kind then take_plan w asn a.latest_cfg a else a in
    let rest : EndsIn clock node k (outcome (task_fails w m asn kind given a)) (
        kind_steps m k kind (m.write_and_apply after)
          (run_curl_verify m.curl (targets_for w a given))) =
      kind_steps-EndsIn clock node k m kind (m.write_and_apply after)
        (run_curl_verify m.curl (targets_for w a given)) in
    rw nb (rw nk ((refl, (refl, rest.0)), (λ old. rest.1 "success")))

-- Once an agent that was handed a stored task has worked on it, and its messages have arrived last, the
-- task is no longer running: its overall status is `fail` where applying or verifying failed at this agent,
-- for the kinds of task that do it, and else `success`. What other agents had reported, failures too,
-- has no part in it.
pub handle_ws_task-outcome :
    (clock : StepMessage → ℕ) (node k kind status : String) (steps : List TaskStep)
    (before : List Arrival) (b : Board) (w : World) (m : Machine) (asn : ℕ) (given : List String)
    (a : Agent)
    → is_blank k ≡ false
    → is_blank kind ≡ false
    → IsAbout k before
    → IsTaskAt k steps status (get_task k b.store)
    → IsTaskAt k
        (steps ++ steps_of (before ++ arrive clock node (handle_ws_task w m asn k kind given a).1))
        (outcome (task_fails w m asn kind given a))
        (get_task k
          (handle_arrivals
            (before ++ arrive clock node (handle_ws_task w m asn k kind given a).1)
            b).store)
handle_ws_task-outcome clock node k kind status steps before b w m asn given a nb nk about h =
    let sent : List Arrival = arrive clock node (handle_ws_task w m asn k kind given a).1 in
    let ends : EndsIn clock node k (outcome (task_fails w m asn kind given a))
        (handle_ws_task w m asn k kind given a).1 =
      handle_ws_task-EndsIn clock node k kind w m asn given a nb nk in
    let last : last_status status (before ++ sent) ≡ outcome (task_fails w m asn kind given a) =
      last_status-append status before sent ∙ ends.1 (last_status status before) in
    rw (sym last) (
      handle_arrivals-IsTaskAt k status steps (before ++ sent) b nb
        (All-append (λ x. x.message.task_id ≡ k) before sent about ends.0) h)
