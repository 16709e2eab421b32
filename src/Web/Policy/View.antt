-- ===== src/Web/Policy/View.antt =====
-- What components/PolicyDrawer.jsx shows of its state.
use peer_wan.Prelude.{
  String, ◌==◌, true, Option, none, some, List, [], ◌∷◌, ◌⧺◌, map, last?, join, is_blank, is_empty,
  contains, eq_iff, ◌≡◌, ◌⊎◌, inl, inr, refl, arith, if◌then◌else◌,
}
use mathlib.Core.List.{reverse}
use peer_wan.Prelude.Strings.{includes}
use peer_wan.Web.Js.{UiRule}
use peer_wan.Web.Policy.{Drawer, LogItem, Check, TaskItem, StepItem, or_empty}

-- `statusColor`
unfoldable pub status_color : String → String
status_color s =
    if s == "success"
    then "green"
    else if s == "failed"
    then "red"
    else if s == "applying"
    then "blue"
    else if s == "checking"
    then "orange"
    else "default"

-- `latest`
unfoldable pub latest : Drawer → Option LogItem
latest d = last? d.install_logs

abbrev or_dash : String → Option String → String
or_dash other none = other
or_dash other (some s) = if is_blank s then other else s

abbrev domains_part : Option (List String) → String
domains_part none = ""
domains_part (some []) = ""
domains_part (some (d ∷ ds)) = "[" ⧺ join "," (d ∷ ds) ⧺ "]"

abbrev path_part : Option (List String) → String
path_part none = ""
path_part (some []) = ""
path_part (some (h ∷ hs)) = " 路径: " ⧺ join " → " (h ∷ hs)

-- The line of one rule in `RuleList`.
unfoldable pub rule_line : UiRule → String
rule_line r =
    or_dash "(域名)" r.prefix
    ⧺ " "
    ⧺ domains_part r.domains
    ⧺ " → "
    ⧺ or_empty r.via_node
    ⧺ path_part r.path

-- `RuleList`; `none` is the text that there are no rules
unfoldable pub rule_lines : List UiRule → Option (List String)
unfolding rule_line
rule_lines [] = none
rule_lines (r ∷ rules) = some (map rule_line (r ∷ rules))

-- The line `当前路径`.
unfoldable pub path_line : String → List String → String
path_line id [] = "未选择，默认直达出口节点"
path_line id (hop ∷ hops) = join " → " (id ∷ hop ∷ hops)

-- A coloured tag and the texts beside it.
pub record TagLine : Type 0 where
  pub color : String
  pub tag : String
  pub texts : List String

abbrev version_part : Option String → String
version_part none = ""
version_part (some v) = if is_blank v then "" else "(版本 " ⧺ v ⧺ ")"

abbrev logs_part : Option (List String) → String
logs_part none = ""
logs_part (some l) = join " | " l

-- One entry of the installation log, without its time.
unfoldable pub log_line : LogItem → TagLine
unfolding status_color
log_line item = record {
  color = status_color item.status;
  tag = item.status;
  texts = or_dash "-" item.message ∷ version_part item.version ∷ logs_part item.logs ∷ [];
}

-- The installation log is shown newest first.
unfoldable pub log_view : Drawer → List TagLine
unfolding log_line
log_view d = map log_line (reverse d.install_logs)

-- The tag of the diagnosis: by what its summary mentions.
unfoldable pub diag_color : String → String
unfolding status_color includes
diag_color summary = status_color (
    if includes summary "错误" then "failed" else if includes summary "警告" then "warn" else "success")

unfoldable pub check_line : Check → TagLine
unfolding status_color
check_line c = record {
  color = status_color c.status;
  tag = c.status;
  texts = c.name ∷ or_empty c.detail ∷ [];
}

unfoldable pub step_line : StepItem → TagLine
unfolding status_color
step_line s = record {
  color = status_color s.status;
  tag = s.name;
  texts = or_empty s.message ∷ [];
}

abbrev steps_or_none : Option (List StepItem) → List StepItem
steps_or_none none = []
steps_or_none (some l) = l

-- The steps of one task of the timeline.
unfoldable pub task_lines : TaskItem → List TagLine
unfolding step_line
task_lines t = map step_line (steps_or_none t.steps)

-- The statuses that the controller and the agents give to diagnostic checks and to task steps.
abbrev pub check_statuses : List String
check_statuses = "ok" ∷ "warn" ∷ "fail" ∷ "info" ∷ []

-- What the agent log shows.
unfoldable pub agent_log : Drawer → String
agent_log d = if is_empty d.log_lines then "等待日志..." else join "\n" d.log_lines

check_statuses-cases :
    (s : String)
    → contains check_statuses s ≡ true
    → (s ≡ "ok") ⊎ ((s ≡ "warn") ⊎ ((s ≡ "fail") ⊎ (s ≡ "info")))
check_statuses-cases s known =
    ground (arith, eq_iff "ok" s, eq_iff "warn" s, eq_iff "fail" s, eq_iff "info" s)

status_color-default :
    (s k : String) → s ≡ k → status_color k ≡ "default" → status_color s ≡ "default"
status_color-default s k e d = rw e d

-- `status_color` knows none of the statuses of a diagnostic check.
status_color-check_statuses :
    (s : String) → contains check_statuses s ≡ true → status_color s ≡ "default"
unfolding status_color
status_color-check_statuses s known = elim (check_statuses-cases s known) [
  | inl h ↦ status_color-default s "ok" h refl
  | inr (inl h) ↦ status_color-default s "warn" h refl
  | inr (inr (inl h)) ↦ status_color-default s "fail" h refl
  | inr (inr (inr h)) ↦ status_color-default s "info" h refl
]

-- A diagnostic check whose status is `ok`, `warn`, `fail` or `info`, which are the statuses that
-- the agents report, is shown in the default colour, a failed one too.
pub check_line-color :
    (c : Check) → contains check_statuses c.status ≡ true → (check_line c).color ≡ "default"
unfolding check_line
check_line-color c known = status_color-check_statuses c.status known
