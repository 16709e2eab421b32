-- ===== src/Web/Policy.antt =====
-- frontend/src/components/PolicyDrawer.jsx: the editor of one node's routing policy. Its state,
-- its handlers for rules and paths, and what it asks the controller.
pub mod Paths
pub mod Handlers
pub mod View
pub mod Editing
pub mod Loads
use peer_wan.Prelude.{
  ℕ, zero, suc, String, ◌==◌, Bool, true, false, ◌&&◌, ◌||◌, not, Option, none, some, List, [], ◌∷◌,
  ◌++◌, ◌⧺◌, map, keep, take, is_blank, is_empty, last?, find_first, eqb, leb, if◌then◌else◌,
}
use peer_wan.Prelude.Strings.{strip_end, strip_start, split_commas}
use peer_wan.Web.Js.{UiRule}
use peer_wan.Web.Api.{Reply}
use peer_wan.Web.Mesh.{Link}

-- What `/api/v1/policy` answers; a field that is missing or `null` is `none`.
pub record PolicyReply : Type 0 where
  pub egress_peer_id : Option String
  pub policy_rules : Option (List UiRule)
  pub default_route : Option Bool
  pub bypass_cidrs : Option (List String)
  pub default_route_next_hop : Option String

abbrev pub no_reply : PolicyReply
no_reply = record {
  egress_peer_id = none;
  policy_rules = none;
  default_route = none;
  bypass_cidrs = none;
  default_route_next_hop = none;
}

pub record LogItem : Type 0 where
  pub status : String
  pub message : Option String
  pub version : Option String
  pub logs : Option (List String)

pub record Check : Type 0 where
  pub name : String
  pub status : String
  pub detail : Option String

pub record DiagItem : Type 0 where
  pub summary : String
  pub checks : Option (List Check)

pub record StepItem : Type 0 where
  pub name : String
  pub status : String
  pub message : Option String

pub record TaskItem : Type 0 where
  pub kind : String
  pub id : Option String
  pub steps : Option (List StepItem)

-- The fields of the antd form.
pub record PolicyForm : Type 0 where
  pub egress_peer_id : Option String
  pub default_route : Bool
  pub bypass_cidrs : Option String
  pub default_route_next_hop : Option String

-- The values of `useState`.
pub record Drawer : Type 0 where
  pub form : PolicyForm
  pub rules : List UiRule
  pub raw_policy : Option (Reply PolicyReply)
  pub view_modal : Bool
  pub install_logs : List LogItem
  pub logs_loading : Bool
  pub diag : Option DiagItem
  pub diag_loading : Bool
  pub verify_loading : Bool
  pub log_lines : List String
  pub tasks : List TaskItem
  pub path_modal : Bool
  pub current_path : List String

-- The characters that `trim` removes.
abbrev pub is_space : ℕ → Bool
is_space c =
    eqb c 32
    || (leb 9 c && leb c 13)
    || eqb c 160
    || eqb c 0x1680
    || (leb 0x2000 c && leb c 0x200a)
    || eqb c 0x2028
    || eqb c 0x2029
    || eqb c 0x202f
    || eqb c 0x205f
    || eqb c 0x3000
    || eqb c 0xfeff

-- `s.trim()`
unfoldable pub trim : String → String
unfolding strip_end strip_start
trim s = strip_end is_space (strip_start is_space s)

abbrev pub or_empty : Option String → String
or_empty none = ""
or_empty (some s) = s

-- `(s || '').split(',').map(s => s.trim()).filter(Boolean)`
unfoldable pub comma_list : Option String → List String
unfolding trim split_commas
comma_list s = keep (λ x. not (is_blank x)) (map trim (split_commas (or_empty s)))

-- What `RuleEditor`'s form holds.
pub record RuleForm : Type 0 where
  pub prefix : Option String
  pub domains : Option String
  pub via_node : Option String

abbrev pub is_given : Option String → Bool
is_given none = false
is_given (some s) = not (is_blank s)

-- `form.validateFields()`: a via node is required unless a path is selected.
unfoldable pub validates : Bool → RuleForm → Bool
validates path_selected v = path_selected || is_given v.via_node

-- `viaNode` and `path` of the rule that `addRule` makes
abbrev rule_via : List String → Option String → Option String
rule_via [] via = via
rule_via (hop ∷ hops) via = last? (hop ∷ hops)

abbrev rule_path : List String → Option (List String)
rule_path [] = none
rule_path (hop ∷ hops) = some (hop ∷ hops)

unfoldable pub make_rule : List String → RuleForm → UiRule
unfolding comma_list
make_rule current_path v = record {
  prefix = v.prefix;
  domains = some (comma_list v.domains);
  via_node = rule_via current_path v.via_node;
  path = rule_path current_path;
}

-- `addRule`
unfoldable pub add_rule : RuleForm → Drawer → Drawer
unfolding make_rule
add_rule v d = record d { rules = d.rules ++ make_rule d.current_path v ∷ []; current_path = [] }

-- `RuleEditor`'s `add`
unfoldable pub submit_rule : RuleForm → Drawer → Drawer
unfolding validates add_rule
submit_rule v d = if validates (not (is_empty d.current_path)) v then add_rule v d else d

-- `rules.filter((_, i) => i !== idx)`
unfoldable pub without_index : {A : Type 0} → ℕ → List A → List A
without_index i [] = []
without_index zero (x ∷ xs) = xs
without_index (suc i) (x ∷ xs) = x ∷ without_index i xs

-- `removeRule`: `shown` is the value of `rules` when the drawer was last drawn.
unfoldable pub remove_rule : List UiRule → ℕ → Drawer → Drawer
unfolding without_index
remove_rule shown idx d = record d { rules = without_index idx shown }

-- The handler of the agent's log messages; `time` is the current time of day as text.
unfoldable pub receive_lines : String → Option (List String) → Drawer → Drawer
receive_lines time none d = d
receive_lines time (some lines) d = record d {
  log_lines = take 200 (map (λ l. "[" ⧺ time ⧺ "] " ⧺ l) lines ++ d.log_lines);
}
