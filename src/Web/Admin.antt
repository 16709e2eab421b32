-- ===== src/Web/Admin.antt =====
-- frontend/src/pages/Admin.jsx: the console's page, its menu and its modals.
pub mod Install
use peer_wan.Prelude.{
  String, ◌==◌, Bool, true, false, not, Option, none, some, List, [], ◌∷◌, ◌⧺◌, is_blank,
  if◌then◌else◌,
}
use peer_wan.Web.Js.{
  Json, Toast, shown, Browser, Page, Act, pure, try_catch, set_own, set_web, toast, ◌>>=◌, ◌>>◌,
}
use peer_wan.Web.Api.{Net, Answer, Reply, object, plain, api, post_json, set_token, set_base}

pub record InstallModal : Type 0 where
  pub shown_modal : Bool
  pub text : String

-- The values of `useState`; the nodes that the modals are about go by their ID.
pub record Admin : Type 0 where
  pub policy_node : Option String
  pub install_modal : InstallModal
  pub endpoint_node : Option String
  pub settings_open : Bool
  pub menu_key : String
  pub history_node : Option String
  pub diag_node : Option String
  pub show_node_form : Bool

abbrev pub initial_admin : Admin
initial_admin = record {
  policy_node = none;
  install_modal = record { shown_modal = false; text = "" };
  endpoint_node = none;
  settings_open = false;
  menu_key = "status";
  history_node = none;
  diag_node = none;
  show_node_form = false;
}

-- The clicks that only change the page.
pub data Click : Type 0 where
  menu : String → Click
  policy endpoints history diagnose : Option String → Click
  settings node_form : Bool → Click
  close_install : Click

unfoldable pub click : Click → Admin → Admin
click (menu k) s = record s { menu_key = k }
click (policy n) s = record s { policy_node = n }
click (endpoints n) s = record s { endpoint_node = n }
click (history n) s = record s { history_node = n }
click (diagnose n) s = record s { diag_node = n }
click (settings b) s = record s { settings_open = b }
click (node_form b) s = record s { show_node_form = b }
click close_install s = record s { install_modal = record { shown_modal = false; text = "" } }

pub data Content : Type 0 where
  nodes_table mesh_status : Content

-- `content`
unfoldable pub content : Admin → Content
content s = if s.menu_key == "nodes" then nodes_table else mesh_status

-- `storage.token=''; window.location.reload()`: the page starts anew
unfoldable pub sign_out : Page Admin → Page Admin
unfolding set_token
sign_out p = record { web = set_token "" p.web; own = initial_admin }

-- `res.command || ''`
abbrev pub command_of : Reply (Option String) → String
command_of (object (some c)) = c
command_of (object none) = ""
command_of (plain _) = ""

module _ (net : Net) where
  -- `showInstall`; the copy to the clipboard is tried where the browser has one, which is always so
  -- here, and its failure is ignored
  unfoldable pub show_install : (String → Answer (Option String)) → String → Act Admin (Unit {0})
  unfolding api
  show_install parse id =
      try_catch
        (do
          res ← api net parse "/api/v1/nodes/prepare" (post_json (("id", Json.text id) ∷ []))
          set_own (λ s. record s {
            install_modal = record { shown_modal = true; text = command_of res };
          })
          set_web (λ w. record w { clipboard = some (command_of res) }))
        (λ e. toast (Toast.failure ("生成安装命令失败: " ⧺ shown e)))
