-- ===== src/Web/Auth.antt =====
-- frontend/src/App.jsx, pages/Login.jsx and pages/Register.jsx: which view is shown, and the two
-- forms that lead to the console. Their `submit` handlers differ in the path and in two messages.
pub mod Session
use peer_wan.Prelude.{
  String, Bool, true, false, not, Option, none, some, List, [], ◌∷◌, ◌⧺◌, decimal, is_blank,
  if◌then◌else◌,
}
use peer_wan.Web.Js.{
  Browser, Request, Response, Json, Toast, JsError, new_error, message_of, Outcome, returned,
  thrown, Page, Act, pure, throw, try_catch, finally_do, set_own, set_web, toast, ◌>>=◌, ◌>>◌,
}
use peer_wan.Web.Api.{
  Net, Answer, failed, answered, get_token, get_admin_set, set_base, set_token, set_admin_set,
  no_end_slashes, fetch, is_ok, or_throw,
}

pub data View : Type 0 where
  app login register : View

-- `initialView`
unfoldable pub initial_view : Browser → View
unfolding get_token get_admin_set
initial_view w =
    if not (is_blank (get_token w)) then app else if get_admin_set w then login else register

-- The state of the form's page, `loading`, and `App`'s `view`.
pub record AuthPage : Type 0 where
  pub loading : Bool
  pub view : View

-- `onSwitch`
unfoldable pub switch_view : AuthPage → AuthPage
switch_view s = record s { view = elim s.view [ login ↦ register | register ↦ login | app ↦ app ] }

-- What the form validates to.
pub record Credentials : Type 0 where
  pub base : String
  pub user : String
  pub pass : String

-- What distinguishes the two forms.
pub record FormText : Type 0 where
  pub path : String
  pub refused : String
  pub fallback : String

abbrev pub login_form : FormText
login_form = record { path = "/api/v1/auth/login"; refused = "认证失败 "; fallback = "登录失败" }

abbrev pub register_form : FormText
register_form = record { path = "/api/v1/auth/register"; refused = "注册失败 "; fallback = "注册失败" }

abbrev pub auth_request : FormText → Credentials → Request
auth_request t v = record {
  method = "POST";
  url = no_end_slashes v.base ⧺ t.path;
  headers = ("Content-Type", "application/json") ∷ [];
  body = ("username", Json.text v.user) ∷ ("password", Json.text v.pass) ∷ [];
}

abbrev check_ok : FormText → Response → Act AuthPage (Unit {0})
check_ok t res =
    if is_ok res.status then pure tt else throw (new_error (t.refused ⧺ decimal res.status))

-- `data.token`, where a missing or empty one is refused
abbrev check_token : Option String → Act AuthPage String
check_token none = throw (new_error "未返回 token")
check_token (some token) = if is_blank token then throw (new_error "未返回 token") else pure token

-- `storage.base = …; storage.token = …; storage.adminSet = true; onAuthed()`
abbrev sign_in : String → String → Page AuthPage → Page AuthPage
sign_in base token p = record {
  web = set_admin_set true (set_token token (set_base base p.web));
  own = record p.own { view = app };
}

abbrev pub fallback_to : Option String → String → String
fallback_to none d = d
fallback_to (some m) d = if is_blank m then d else m

-- The part of `submit` in the `try` block.
unfoldable pub authenticate :
    Net → (String → Answer (Option String)) → FormText → Credentials → Act AuthPage (Unit {0})
unfolding fetch set_admin_set set_token set_base
authenticate net parse t v = do
  res ← fetch net (auth_request t v)
  check_ok t res
  found ← or_throw (parse res.body)
  token ← check_token found
  λ p. (returned tt, sign_in (no_end_slashes v.base) token p)

-- `submit`; `none` is a form that does not validate
unfoldable pub submit :
    Net
    → (String → Answer (Option String))
    → FormText
    → Option Credentials
    → Act AuthPage (Unit {0})
unfolding authenticate
submit net parse t none = throw (new_error "validation")
submit net parse t (some v) = do
  set_own (λ s. record s { loading = true })
  finally_do
      (try_catch (authenticate net parse t v)
        (λ e. toast (Toast.failure (fallback_to (message_of e) t.fallback))))
      (λ p. record p { own = record p.own { loading = false } })
