-- ===== src/Web/Admin/Install.antt =====
-- The install command and the end of a session in pages/Admin.jsx.
use peer_wan.Prelude.{
  String, true, false, Option, some, [], ◌∷◌, ◌++◌, ◌⧺◌, ◌≡◌, refl, is_blank, if◌then◌else◌,
}
use peer_wan.Prelude.Dict.{lookup-insert}
use peer_wan.Web.Js.{Json, Toast, JsError, shown, returned, thrown, Page, Browser}
use peer_wan.Web.Api.{
  Net, Answer, Reply, api, post_json, get_admin_set, set_token, set_admin_set, set_base,
}
use peer_wan.Web.Auth.{app, login, register, initial_view}
use peer_wan.Web.Admin.{Admin, initial_admin, sign_out, show_install, command_of}

-- After signing out the page shows the login if an administrator has been set up, and the
-- registration if not; every modal is closed.
pub initial_view-sign_out :
    (p : Page Admin)
    → (initial_view (sign_out p).web ≡ (if get_admin_set p.web then login else register))
      × ((sign_out p).own ≡ initial_admin)
unfolding initial_view sign_out
initial_view-sign_out p = (simp lookup-insert, refl)

-- After a login the page shows the console when it is loaded again.
pub initial_view-signed_in :
    (w : Browser) (base token : String)
    → is_blank token ≡ false
    → initial_view (set_admin_set true (set_token token (set_base base w))) ≡ app
unfolding initial_view set_admin_set set_token set_base
initial_view-signed_in w base token given = simp lookup-insert (rw (given, given))

module _ (net : Net) (parse : String → Answer (Option String)) where
  -- The modal opens with the command that the controller gives, and the command is copied, exactly
  -- when the request succeeds; otherwise the error is said and the page's own state is kept.
  pub show_install_lem :
      (id : String) (p q : Page Admin)
      → ((reply : Reply (Option String))
          → api net parse "/api/v1/nodes/prepare" (post_json (("id", Json.text id) ∷ [])) p
            ≡ (returned reply, q)
          → show_install net parse id p ≡ (
            returned tt,
            record {
              web = record q.web { clipboard = some (command_of reply) };
              own = record q.own {
                install_modal = record { shown_modal = true; text = command_of reply };
              };
            },
          ))
        × ((e : JsError)
            → api net parse "/api/v1/nodes/prepare" (post_json (("id", Json.text id) ∷ [])) p
              ≡ (thrown e, q)
            → show_install net parse id p ≡ (
              returned tt,
              record q {
                web = record q.web {
                  toasts = q.web.toasts ++ Toast.failure ("生成安装命令失败: " ⧺ shown e) ∷ [];
                };
              },
            ))
  unfolding show_install
  show_install_lem id p q = (λ reply h. rw h refl, λ e h. rw h refl)
