-- ===== src/Web/Auth/Session.antt =====
-- What a login or a registration (pages/Login.jsx, pages/Register.jsx) leaves behind.
use peer_wan.Prelude.{
  String, true, false, Option, none, some, [], ◌∷◌, ◌++◌, ◌⧺◌, ◌≡◌, ◌↔◌, ◌⊎◌, inl, inr, refl, arith,
  is_blank, decimal, if◌then◌else◌,
}
use peer_wan.Web.Js.{Response, Toast, returned, Page}
use peer_wan.Web.Api.{
  Net, Answer, failed, answered, set_base, set_token, set_admin_set, no_end_slashes, is_ok,
}
use peer_wan.Web.Auth.{fallback_to, app, AuthPage, Credentials, FormText, submit, auth_request}

-- The server let the user in, with this token.
abbrev pub Granted : (String → Answer (Option String)) → Answer Response → String → Type 0
Granted parse (failed _ _) token = ⊥
Granted parse (answered res) token =
    (is_ok res.status ≡ true) × (parse res.body ≡ answered (some token)) × (is_blank token ≡ false)

-- The page once the request is out and the user is in.
abbrev pub signed_in : FormText → Credentials → String → Page AuthPage → Page AuthPage
signed_in t v token p = record {
  web = set_admin_set true (
      set_token token (
        set_base (no_end_slashes v.base)
          (record p.web { sent = p.web.sent ++ auth_request t v ∷ [] })));
  own = record { loading = false; view = app };
}

-- The page once the request is out and refused: the message is shown, and that is all.
abbrev pub refused : FormText → Credentials → String → Page AuthPage → Page AuthPage
refused t v message p = record {
  web = record p.web {
    sent = p.web.sent ++ auth_request t v ∷ [];
    toasts = p.web.toasts ++ Toast.failure message ∷ [];
  };
  own = record p.own { loading = false };
}

-- What the server's answer comes to: the token, or the message to show.
data Verdict : Type 0 where
  granted denied : String → Verdict

unfoldable verdict_token : FormText → Option String → Verdict
verdict_token t none = denied (fallback_to (some "未返回 token") t.fallback)
verdict_token t (some token) =
    if is_blank token then denied (fallback_to (some "未返回 token") t.fallback) else granted token

unfoldable verdict_parsed : FormText → Answer (Option String) → Verdict
unfolding verdict_token
verdict_parsed t (failed name m) = denied (fallback_to (some m) t.fallback)
verdict_parsed t (answered found) = verdict_token t found

unfoldable verdict : (String → Answer (Option String)) → FormText → Answer Response → Verdict
unfolding verdict_parsed
verdict parse t (failed name m) = denied (fallback_to (some m) t.fallback)
verdict parse t (answered res) =
    if is_ok res.status
    then verdict_parsed t (parse res.body)
    else denied (fallback_to (some (t.refused ⧺ decimal res.status)) t.fallback)

abbrev settled : FormText → Credentials → Verdict → Page AuthPage → Page AuthPage
settled t v (granted token) p = signed_in t v token p
settled t v (denied message) p = refused t v message p

submit-verdict :
    (net : Net) (parse : String → Answer (Option String)) (t : FormText) (v : Credentials)
    (p : Page AuthPage)
    → submit net parse t (some v) p
      ≡ (returned tt, settled t v (verdict parse t (net (p.web.sent ++ auth_request t v ∷ []))) p)
unfolding submit verdict
submit-verdict net parse t v p = ground arith

Granted-iff :
    (parse : String → Answer (Option String)) (t : FormText) (a : Answer Response) (token : String)
    → Granted parse a token ↔ (verdict parse t a ≡ granted token)
unfolding verdict
Granted-iff parse t (failed name m) token = ground arith
Granted-iff parse t (answered res) token = ground arith

-- A submitted form sends one request. If the server grants a token, the token and the address are
-- stored and the console is shown; otherwise the stored settings and the view stay and one
-- error is shown. Either way the handler returns and `loading` is false.
pub submit-Granted :
    (net : Net) (parse : String → Answer (Option String)) (t : FormText) (v : Credentials)
    (p : Page AuthPage)
    → ((token : String) × Granted parse (net (p.web.sent ++ auth_request t v ∷ [])) token
        × (submit net parse t (some v) p ≡ (returned tt, signed_in t v token p)))
      ⊎ ((message : String) × ((token : String)
            → ¬ Granted parse (net (p.web.sent ++ auth_request t v ∷ [])) token)
          × (submit net parse t (some v) p ≡ (returned tt, refused t v message p)))
submit-Granted net parse t v p =
    go (verdict parse t (net (p.web.sent ++ auth_request t v ∷ []))) refl
  where
    answer : Answer Response
    answer = net (p.web.sent ++ auth_request t v ∷ [])

    go :
        (d : Verdict)
        → verdict parse t answer ≡ d
        → ((token : String) × Granted parse answer token
            × (submit net parse t (some v) p ≡ (returned tt, signed_in t v token p)))
          ⊎ ((message : String) × ((token : String) → ¬ Granted parse answer token)
              × (submit net parse t (some v) p ≡ (returned tt, refused t v message p)))
    go (granted token) e =
        inl
          (token, (Granted-iff parse t answer token).1 e, rw e at (submit-verdict net parse t v p))
    go (denied message) e = inr (
      message,
      (λ token g. cc (e, (Granted-iff parse t answer token).0 g)),
      rw e at (submit-verdict net parse t v p),
    )
