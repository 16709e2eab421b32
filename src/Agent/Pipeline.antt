-- ===== src/Agent/Pipeline.antt =====
-- pkg/agent/plan.go and verify.go: how an agent carries a task out. What `curl` and the writing and
-- applying of files answer, `none` for no error, and the clock, by the step that is reported, are
-- parameters. Diagnosis, whose result no step reports, is left out.
use peer_wan.Prelude.{
  ℕ, String, ◌==◌, ◌⧺◌, Bool, not, ◌||◌, Option, none, some, List, [], ◌∷◌, is_blank, is_empty,
  if◌then◌else◌,
}
use peer_wan.Prelude.Strings.{includes}
use peer_wan.Model.{PolicyRule}
use peer_wan.Policy.{World, Geoip, add_new, trim_space, expand}
use peer_wan.Agent.{Agent, take_plan}
use peer_wan.Agent.Render.{host_of}
use peer_wan.Hub.Tasks.{StepMessage}

unfoldable pub verify_domains : List String → List String → List String
unfolding add_new trim_space
verify_domains [] out = out
verify_domains (d ∷ ds) out =
    verify_domains ds (if is_blank (trim_space d) then out else add_new (trim_space d) out)

unfoldable pub verify_prefixes : List String → List String → List String
unfolding add_new host_of
verify_prefixes [] out = out
verify_prefixes (p ∷ ps) out = verify_prefixes ps (add_new (host_of p) out)

unfoldable pub verify_rules : World → Geoip → List PolicyRule → List String → List String
unfolding verify_domains verify_prefixes add_new host_of expand
verify_rules w g [] out = out
verify_rules w g (pr ∷ rest) out =
    let named : List String = if is_blank pr.prefix then out else add_new (host_of pr.prefix) out in
    verify_rules w g rest (verify_prefixes (expand w g pr) (verify_domains pr.domains named))

-- `collectVerifyTargets`
unfoldable pub collect_verify_targets : World → Geoip → List PolicyRule → List String
unfolding verify_rules
collect_verify_targets w g rules = verify_rules w g rules []

abbrev pub url_of : String → String
url_of t = if includes t "://" then t else "http://" ⧺ t

abbrev pub or_next : String → Option String → Option String → Option String
or_next arg none later = later
or_next arg (some e) later = some ("curl " ⧺ (arg ⧺ (" failed: " ⧺ e)))

-- `runCurlVerify`: the first failure
unfoldable pub run_curl_verify : (String → Option String) → List String → Option String
unfolding includes
run_curl_verify curl [] = none
run_curl_verify curl (t ∷ rest) =
    let later = run_curl_verify curl rest in or_next (url_of t) (curl (url_of t)) later

-- What surrounds an agent while it works on a task.
pub record Machine : Type 0 where
  pub curl : String → Option String
  -- what `RenderAndWrite` and `ApplyConfigs` answer for the agent's state
  pub write_and_apply : Agent → Option String
  pub clock : String → String → ℕ

-- `step`
unfoldable pub step : Machine → String → String → String → String → StepMessage
step m task name status text = record {
  task_id = task;
  name = name;
  status = status;
  message = text;
  ts = m.clock name status;
}

unfoldable pub complete : Machine → String → List StepMessage
unfolding step
complete m task = step m task "complete" "success" "任务完成" ∷ []

unfoldable pub verify_steps : Machine → String → String → Option String → List StepMessage
unfolding step complete
verify_steps m task good (some e) =
    step m task "verify" "running" "出口验证" ∷ step m task "verify" "fail" e ∷ []
verify_steps m task good none =
    step m task "verify" "running" "出口验证" ∷ step m task "verify" "success" good ∷ complete m task

-- The default case; the first argument after the task is the error of applying.
unfoldable pub apply_steps : Machine → String → Option String → Option String → List StepMessage
unfolding step verify_steps
apply_steps m task (some e) v =
    step m task "apply" "running" "应用策略" ∷ step m task "apply" "fail" e ∷ []
apply_steps m task none v =
    step m task "apply" "running" "应用策略"
    ∷ step m task "apply" "success" "策略应用完成"
    ∷ step m task "self_test" "running" "自检验证"
    ∷ step m task "self_test" "success" "自检完成"
    ∷ verify_steps m task "curl 验证通过" v

unfoldable pub kind_steps :
    Machine → String → String → Option String → Option String → List StepMessage
unfolding step complete verify_steps apply_steps
kind_steps m task kind applied v =
    if kind == "policy_diag"
    then step m task "diag" "running" "策略诊断" ∷ step m task "diag" "success" "诊断完成" ∷ complete m task
    else if kind == "verify"
    then verify_steps m task "目标验证通过" v
    else apply_steps m task applied v

-- Whether the task makes the agent apply its configuration again.
abbrev pub applies : String → Bool
applies kind = not (kind == "policy_diag" || kind == "verify")

abbrev pub targets_for : World → Agent → List String → List String
targets_for w a given =
    if is_empty given then collect_verify_targets w a.geoip a.latest_cfg.policy_rules else given

-- `handleWSTask`: the agent's state, and what it sends
unfoldable pub handle_ws_task :
    World → Machine → ℕ → String → String → List String → Agent → Agent × List StepMessage
unfolding step kind_steps run_curl_verify take_plan
handle_ws_task w m asn task kind given a =
    let after : Agent = if applies kind then take_plan w asn a.latest_cfg a else a in
    if is_blank task || is_blank kind then (a, []) else (
      after,
      step m task "environment_check" "running" "检查环境"
          ∷ step m task "environment_check" "success" "环境检查完成"
          ∷ kind_steps m task kind (m.write_and_apply after)
              (run_curl_verify m.curl (targets_for w a given)),
    )
