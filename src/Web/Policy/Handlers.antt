-- ===== src/Web/Policy/Handlers.antt =====
-- The handlers of components/PolicyDrawer.jsx that talk to the controller. `JSON.parse` of each
-- endpoint's answer, `encodeURIComponent` and the network are parameters.
use peer_wan.Prelude.{
  String, Bool, true, false, Option, none, some, List, [], ◌∷◌, ◌⧺◌, is_blank, last?, join,
  if◌then◌else◌,
}
use peer_wan.Web.Js.{
  UiRule, Json, Toast, shown, Act, pure, try_catch, finally_do, detached, set_own, toast, gets,
  ◌>>=◌, ◌>>◌,
}
use peer_wan.Web.Api.{Net, Answer, Reply, object, plain, api, post_json, no_options}
use peer_wan.Web.Policy.{
  PolicyReply, no_reply, LogItem, DiagItem, TaskItem, PolicyForm, Drawer, comma_list,
}

-- Reading the JSON text of each endpoint's answer. `items` is `res.items`, missing or `null` being
-- `none`; an answer that is `null` itself makes the field access throw, so it is `failed`.
pub record Codec : Type 0 where
  pub policy : String → Answer PolicyReply
  pub logs : String → Answer (Option (List LogItem))
  pub tasks : String → Answer (Option (List TaskItem))
  pub diag : String → Answer (Option (List DiagItem))
  pub any : String → Answer (Unit {0})

abbrev pub policy_of : Reply PolicyReply → PolicyReply
policy_of (object r) = r
policy_of (plain _) = no_reply

-- `res.items || []`
abbrev pub items_of : {A : Type 0} → Reply (Option (List A)) → List A
items_of (object (some items)) = items
items_of (object none) = []
items_of (plain _) = []

abbrev pub or_list : {A : Type 0} → Option (List A) → List A
or_list none = []
or_list (some l) = l

abbrev pub or_text : Option String → String
or_text none = ""
or_text (some s) = s

abbrev pub or_false : Option Bool → Bool
or_false none = false
or_false (some b) = b

-- `s || undefined`
abbrev pub or_undefined : Option String → Option String
or_undefined none = none
or_undefined (some s) = if is_blank s then none else some s

-- The form after `load`.
unfoldable pub form_of : PolicyReply → PolicyForm
form_of r = record {
  egress_peer_id = r.egress_peer_id;
  default_route = or_false r.default_route;
  bypass_cidrs = some (join "," (or_list r.bypass_cidrs));
  default_route_next_hop = or_undefined r.default_route_next_hop;
}

-- The object that `submit` sends.
unfoldable pub payload : String → PolicyForm → List UiRule → List (String × Json)
payload id f rules =
    ("nodeId", Json.text id)
    ∷ ("egressPeerId", Json.text (or_text f.egress_peer_id))
    ∷ ("defaultRoute", Json.flag f.default_route)
    ∷ ("bypassCidrs", Json.texts (comma_list f.bypass_cidrs))
    ∷ ("defaultRouteNextHop", Json.text (or_text f.default_route_next_hop))
    ∷ ("policyRules", Json.rules rules)
    ∷ []

module _ (net : Net) (encode : String → String) (codec : Codec) where
  -- `load`, for the node of the drawer
  unfoldable pub load : String → Act Drawer (Unit {0})
  unfolding api form_of
  load id =
      try_catch
        (do
          res ← api net codec.policy ("/api/v1/policy?nodeId=" ⧺ encode id) no_options
          set_own (λ d. record d {
            form = form_of (policy_of res);
            rules = or_list (policy_of res).policy_rules;
          }))
        (λ e. toast (Toast.failure "加载策略失败"))

  -- `loadLogs`
  unfoldable pub load_logs : Option String → Act Drawer (Unit {0})
  unfolding api
  load_logs none = pure tt
  load_logs (some id) = do
    set_own (λ d. record d { logs_loading = true })
    finally_do
        (try_catch
          (do
            res ←
                api net codec.logs ("/api/v1/policy/status?nodeId=" ⧺ encode id ⧺ "&limit=40")
                  no_options
            set_own (λ d. record d { install_logs = items_of res }))
          (λ e. pure tt))
        (λ p. record p { own = record p.own { logs_loading = false } })

  -- `loadTasks`
  unfoldable pub load_tasks : Option String → Act Drawer (Unit {0})
  unfolding api
  load_tasks none = pure tt
  load_tasks (some id) =
      try_catch
        (do
          res ← api net codec.tasks ("/api/v1/tasks?nodeId=" ⧺ encode id) no_options
          set_own (λ d. record d { tasks = items_of res }))
        (λ e. pure tt)

  -- the command that `loadDiag` sends first
  unfoldable pub order_diag : String → Act Drawer (Unit {0})
  unfolding api
  order_diag id =
      try_catch
        (do
          api net codec.any "/api/v1/policy/command"
              (post_json (("nodeId", Json.text id) ∷ ("action", Json.text "diag") ∷ []))
          pure tt)
        (λ e. toast (Toast.failure ("下发诊断指令失败: " ⧺ shown e)))

  -- the rest of `loadDiag`
  unfoldable pub fetch_diag : String → Act Drawer (Unit {0})
  unfolding api
  fetch_diag id = do
    set_own (λ d. record d { diag_loading = true })
    finally_do
        (try_catch
          (do
            res ←
                api net codec.diag ("/api/v1/policy/diag?nodeId=" ⧺ encode id ⧺ "&limit=1")
                  no_options
            set_own (λ d. record d { diag = last? (items_of res) }))
          (λ e. toast (Toast.failure ("获取诊断失败: " ⧺ shown e))))
        (λ p. record p { own = record p.own { diag_loading = false } })

  -- `loadDiag`
  unfoldable pub load_diag : Option String → Act Drawer (Unit {0})
  unfolding order_diag fetch_diag
  load_diag none = pure tt
  load_diag (some id) = do order_diag id; fetch_diag id

  -- `runVerify`
  unfoldable pub run_verify : Option String → Act Drawer (Unit {0})
  unfolding api load_tasks
  run_verify none = pure tt
  run_verify (some id) = do
    set_own (λ d. record d { verify_loading = true })
    finally_do
        (try_catch
          (do
            api net codec.any "/api/v1/tasks"
                (post_json (("nodeId", Json.text id) ∷ ("type", Json.text "verify") ∷ []))
            toast (Toast.success "已触发验证")
            detached (load_tasks (some id)))
          (λ e. toast (Toast.failure ("触发验证失败: " ⧺ shown e))))
        (λ p. record p { own = record p.own { verify_loading = false } })

  -- `viewPolicy`
  unfoldable pub view_policy : Option String → Act Drawer (Unit {0})
  unfolding api
  view_policy none = pure tt
  view_policy (some id) =
      try_catch
        (do
          res ← api net codec.policy ("/api/v1/policy?nodeId=" ⧺ encode id) no_options
          set_own (λ d. record d { raw_policy = some res; view_modal = true }))
        (λ e. toast (Toast.failure ("查看策略失败: " ⧺ shown e)))

  -- `submit`, with the caller's `reloadNodes` as an action
  unfoldable pub submit : String → Act Drawer (Unit {0}) → Act Drawer (Unit {0})
  unfolding api payload
  submit id reload_nodes = do
    d ← gets (λ p. p.own)
    try_catch
        (do
          api net codec.any "/api/v1/policy" (post_json (payload id d.form d.rules))
          toast (Toast.success "策略已提交")
          detached reload_nodes)
        (λ e. toast (Toast.failure ("提交失败: " ⧺ shown e)))

  -- The effects that run when the drawer opens for a node: the policy, the logs and the tasks are
  -- loaded; the last two again every four seconds, as `poll`.
  unfoldable pub poll : Option String → Act Drawer (Unit {0})
  unfolding load_logs load_tasks
  poll node = do detached (load_logs node); detached (load_tasks node)

  unfoldable pub opened : Bool → Option String → Act Drawer (Unit {0})
  unfolding load poll
  opened false _ = pure tt
  opened true none = pure tt
  opened true (some id) = do detached (load id); poll (some id)
