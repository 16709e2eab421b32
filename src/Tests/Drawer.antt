-- ===== src/Tests/Drawer.antt =====
-- The policy drawer of frontend/src/components/PolicyDrawer.jsx at concrete inputs.
use peer_wan.Prelude.{String, ◌⧺◌, true, false, none, some, [], ◌∷◌, ◌≡◌, ◌↔◌, ◌⊎◌, refl}
use peer_wan.Web.Js.{JsError, shown, returned, thrown, Toast, Page, pure, Act}
use peer_wan.Web.Api.{answered, Reply, api, no_options}
use peer_wan.Web.Api.Requests.{after_request, verdict}
use peer_wan.Web.Mesh.{Link}
use peer_wan.Web.Policy.{PolicyReply, Drawer, RuleForm, submit_rule}
use peer_wan.Web.Policy.Editing.{IsSubmitted, is_ready, submit_rule-IsAdded}
use peer_wan.Web.Policy.Paths.{IsSound, down_segments, down_segments_iff}
use peer_wan.Web.Policy.Handlers.{Codec, load, submit, payload}
use peer_wan.Web.Policy.Loads.{same_policy, policy_request, with_toast, payload-load, submit_lem}
use peer_wan.Tests.Console.{browser, closed, open_server, anything}

abbrev empty_drawer : Drawer
empty_drawer = record {
  form = record {
    egress_peer_id = none;
    default_route = false;
    bypass_cidrs = none;
    default_route_next_hop = none;
  };
  rules = [];
  raw_policy = none;
  view_modal = false;
  install_logs = [];
  logs_loading = false;
  diag = none;
  diag_loading = false;
  verify_loading = false;
  log_lines = [];
  tasks = [];
  path_modal = false;
  current_path = "b" ∷ "c" ∷ [];
}

abbrev page : Page Drawer
page = record { web = browser; own = empty_drawer }

abbrev stored_policy : PolicyReply
stored_policy = record {
  egress_peer_id = some "b";
  policy_rules = none;
  default_route = some true;
  bypass_cidrs = none;
  default_route_next_hop = none;
}

abbrev codec : Codec
codec = record {
  policy = λ body. answered stored_policy;
  logs = λ body. answered none;
  tasks = λ body. answered none;
  diag = λ body. answered none;
  any = anything;
}

abbrev encode : String → String
encode s = s

abbrev form : RuleForm
form = record { prefix = some "10.9.0.0/16"; domains = none; via_node = none }

abbrev down_link : Link
down_link = record { from = "c"; to = "b"; ok = false; reason = some "timeout" }

abbrev no_reload : Act Drawer (Unit {0})
no_reload = pure tt

submit_rule-IsAdded_example :
    IsSubmitted (is_ready ("b" ∷ "c" ∷ []) form) form empty_drawer (submit_rule form empty_drawer)
submit_rule-IsAdded_example = submit_rule-IsAdded form empty_drawer

down_segments_iff_example :
    (down_segments (down_link ∷ []) (some "a") ("b" ∷ "c" ∷ []) ≡ [])
    ↔ IsSound (down_link ∷ []) "a" ("b" ∷ "c" ∷ [])
down_segments_iff_example =
    down_segments_iff (down_link ∷ []) "a" ("b" ∷ "c" ∷ []) (refl, (refl, (refl, tt)))

payload-load_example :
    let after = (load open_server encode codec "a" page).1.own in
    payload "a" after.form after.rules ≡ same_policy "a" stored_policy
unfolding api
payload-load_example =
    payload-load open_server encode codec "a" page
      (api open_server codec.policy "/api/v1/policy?nodeId=a" no_options page).1 stored_policy refl
      tt

submit_lem_example :
    let sent = after_request (policy_request closed encode codec "a" page) page in
    let answer =
      verdict codec.any "/api/v1/policy"
        (closed (policy_request closed encode codec "a" page ∷ [])) in
    ((reply : Reply (Unit {0})) × (answer ≡ returned reply)
      × (submit closed encode codec "a" no_reload page ≡ (
        returned tt,
        (no_reload (with_toast closed encode codec (Toast.success "策略已提交") sent)).1,
      )))
    ⊎ ((e : JsError) × (answer ≡ thrown e)
        × (submit closed encode codec "a" no_reload page ≡ (
          returned tt,
          with_toast closed encode codec (Toast.failure ("提交失败: " ⧺ shown e)) sent,
        )))
submit_lem_example = submit_lem closed encode codec "a" no_reload page
