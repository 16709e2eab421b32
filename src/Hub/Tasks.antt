-- ===== src/Hub/Tasks.antt =====
-- Tasks: the handler `/api/v1/tasks` of pkg/api/tasks.go and `handleTaskStep` of pkg/api/ws.go. The
-- identifier that `uuid` makes is a parameter; what is handed to `Send` is in the result. A request's
-- free-form `data`, which is passed on as it is, is left out.
use peer_wan.Prelude.{
  ℕ, ◌*◌, String, Bool, not, ◌&&◌, Option, none, some, List, [], ◌∷◌, ◌++◌, eqb, is_blank, is_empty,
  if◌then◌else◌,
}
use peer_wan.Prelude.Dict.{Dict, lookup, insert}
use peer_wan.Model.{Task, TaskStep}
use peer_wan.Store.{MemoryStore, save_task, get_task, list_tasks}
use peer_wan.Controller.Handlers.{Reply}

-- The payload of a `task_step` message; a field that is missing or of another type is blank or 0.
pub record StepMessage : Type 0 where
  pub task_id : String
  pub name : String
  pub status : String
  pub message : String
  pub ts : ℕ

-- The store, and `taskUpd`.
pub record Board : Type 0 where
  pub store : MemoryStore
  pub updates : Dict (List StepMessage)

abbrev or_none : Option (List StepMessage) → List StepMessage
or_none none = []
or_none (some ms) = ms

unfoldable pub step_of : ℕ → String → StepMessage → TaskStep
step_of now node m = record {
  name = m.name;
  status = m.status;
  message = m.message;
  node_id = node;
  timestamp = if eqb m.ts 0 then now else m.ts * 1000000000;
}

unfoldable pub with_step : ℕ → TaskStep → Task → Task
with_step now step t = record t {
  steps = t.steps ++ step ∷ [];
  status = step.status;
  overall_status = step.status;
  updated_at = now;
}

unfoldable pub store_step : ℕ → String → StepMessage → MemoryStore → Option Task → MemoryStore
unfolding with_step step_of save_task
store_step now node m s none = s
store_step now node m s (some t) = save_task now (with_step now (step_of now node m) t) s

-- `handleTaskStep`, for a message of an agent's connection
unfoldable pub handle_task_step : ℕ → String → StepMessage → Board → Board
unfolding store_step get_task
handle_task_step now node m b = if is_blank m.task_id then b else record {
  store = store_step now node m b.store (get_task m.task_id b.store);
  updates = insert m.task_id (or_none (lookup m.task_id b.updates) ++ m ∷ []) b.updates;
}

-- The body of a POST.
pub record TaskRequest : Type 0 where
  pub node_id : String
  pub targets : List String
  pub kind : String
  pub verify_targets : List String

-- What a target is sent.
pub record Dispatch : Type 0 where
  pub node_id : String
  pub task_id : String
  pub kind : String
  pub verify_targets : List String

unfoldable pub task_targets : TaskRequest → List String
task_targets req =
    if is_empty req.targets && not (is_blank req.node_id) then req.node_id ∷ [] else req.targets

unfoldable pub new_task : ℕ → String → TaskRequest → List String → Task
new_task now uuid req targets = record {
  id = uuid;
  node_id = req.node_id;
  targets = targets;
  kind = req.kind;
  status = "running";
  overall_status = "running";
  steps =
      record {
        name = "dispatch";
        status = "running";
        message = "sending to agents";
        node_id = "";
        timestamp = now;
      }
      ∷ [];
  created_at = now;
  updated_at = now;
}

unfoldable pub dispatches : String → TaskRequest → List String → List Dispatch
dispatches uuid req [] = []
dispatches uuid req (t ∷ rest) =
    record { node_id = t; task_id = uuid; kind = req.kind; verify_targets = req.verify_targets }
    ∷ dispatches uuid req rest

-- `/api/v1/tasks`, POST
unfoldable pub post_task :
    ℕ → String → Bool → TaskRequest → MemoryStore → Reply Task × MemoryStore × List Dispatch
unfolding task_targets new_task dispatches save_task
post_task now uuid auth req s =
    if not auth
    then (Reply.http_error 401 "unauthorized", s, [])
    else if is_blank req.kind
    then (Reply.http_error 400 "invalid payload", s, [])
    else if is_empty (task_targets req)
    then (Reply.http_error 400 "targets required", s, [])
    else (
      Reply.replied (new_task now uuid req (task_targets req)),
      save_task now (new_task now uuid req (task_targets req)) s,
      dispatches uuid req (task_targets req),
    )

-- `/api/v1/tasks`, GET
unfoldable pub get_tasks : Bool → String → MemoryStore → Reply (List Task)
unfolding list_tasks
get_tasks auth node s =
    if not auth then Reply.http_error 401 "unauthorized" else Reply.replied (list_tasks node 50 s)
