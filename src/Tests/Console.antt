-- ===== src/Tests/Console.antt =====
-- The console of frontend/src against a server whose answers are written out.
use peer_wan.Prelude.{String, false, Option, none, some, [], ◌∷◌, ◌≡◌, ◌⊎◌}
use peer_wan.Web.Js.{returned, Response, Browser, Page}
use peer_wan.Web.Api.{Net, Answer, answered, api, no_options}
use peer_wan.Web.Api.Requests.{after_request, verdict, call_of, api_lem}
use peer_wan.Web.Auth.{
  AuthPage, Credentials, login, register, login_form, initial_view, auth_request,
}
use peer_wan.Web.Auth.Session.{Granted, signed_in, refused, submit-Granted}

abbrev pub browser : Browser
browser = record {
  local = ("peerwan_token", "t0") ∷ ("peerwan_base", "http://wan.example/") ∷ [];
  origin = "http://localhost";
  sent = [];
  toasts = [];
  clipboard = none;
}

abbrev refusal : Response
refusal = record { status = 401; content_type = none; body = "" }

-- A server that lets nobody in, and one that grants whatever is asked.
abbrev pub closed : Net
closed sent = answered refusal

abbrev pub open_server : Net
open_server sent =
    answered (record { status = 200; content_type = some "application/json"; body = "token" })

abbrev token_in : String → Answer (Option String)
token_in body = answered (some body)

abbrev pub anything : String → Answer (Unit {0})
anything body = answered tt

abbrev console : Page (Unit {0})
console = record { web = browser; own = tt }

abbrev sign_in_page : Page AuthPage
sign_in_page = record { web = browser; own = record { loading = false; view = login } }

abbrev credentials : Credentials
credentials = record { base = "http://wan.example/"; user = "admin"; pass = "secret" }

api_lem_example : api closed anything "/api/v1/nodes" no_options console ≡ (
  verdict anything "/api/v1/nodes" (closed (call_of browser "/api/v1/nodes" no_options ∷ [])),
  after_request (call_of browser "/api/v1/nodes" no_options) console,
)
api_lem_example = api_lem closed anything "/api/v1/nodes" no_options console

submit-Granted_example :
    ((token : String) × Granted token_in
        (open_server (auth_request login_form credentials ∷ []))
        token
      × (peer_wan.Web.Auth.submit open_server token_in login_form (some credentials) sign_in_page
          ≡ (returned tt, signed_in login_form credentials token sign_in_page)))
    ⊎ ((message : String) × ((token : String)
          → ¬ Granted token_in (open_server (auth_request login_form credentials ∷ [])) token)
        × (peer_wan.Web.Auth.submit open_server token_in login_form (some credentials) sign_in_page
            ≡ (returned tt, refused login_form credentials message sign_in_page)))
submit-Granted_example = submit-Granted open_server token_in login_form credentials sign_in_page
