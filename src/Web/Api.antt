-- ===== src/Web/Api.antt =====
-- frontend/src/api.js: the stored settings, and the one way to the controller's HTTP API.
pub mod Requests
use peer_wan.Prelude.{
  ℕ, String, ◌==◌, Bool, true, false, ◌&&◌, ◌||◌, not, Option, none, some, List, [], ◌∷◌, ◌++◌, ◌⧺◌,
  leb, ltb, eqb, decimal, is_blank, if◌then◌else◌,
}
use peer_wan.Prelude.Strings.{strip_end, includes}
use peer_wan.Prelude.Dict.{Dict, lookup, insert}
use peer_wan.Web.Js.{
  Browser, Request, Response, Json, JsError, error, new_error, unauthorized, Outcome, returned,
  thrown, Page, Act, pure, throw, gets, set_web, ◌>>=◌, ◌>>◌,
}

-- `localStorage.getItem(k) || d`
abbrev pub or_else : Option String → String → String
or_else none d = d
or_else (some v) d = if is_blank v then d else v

unfoldable pub get_base : Browser → String
get_base w =
    or_else (lookup "peerwan_base" w.local) (or_else (some w.origin) "http://127.0.0.1:8080")

unfoldable pub set_base : String → Browser → Browser
set_base v w = record w { local = insert "peerwan_base" v w.local }

unfoldable pub get_token : Browser → String
get_token w = or_else (lookup "peerwan_token" w.local) ""

unfoldable pub set_token : String → Browser → Browser
set_token v w = record w { local = insert "peerwan_token" v w.local }

abbrev is_text : String → Option String → Bool
is_text s none = false
is_text s (some v) = v == s

unfoldable pub get_admin_set : Browser → Bool
get_admin_set w = is_text "true" (lookup "peerwan_admin_set" w.local)

unfoldable pub set_admin_set : Bool → Browser → Browser
set_admin_set v w = record w {
  local = insert "peerwan_admin_set" (if v then "true" else "false") w.local;
}

abbrev pub is_slash : ℕ → Bool
is_slash c = eqb c b'/'

-- `s.replace(/\/+$/, '')`
abbrev pub no_end_slashes : String → String
no_end_slashes = strip_end is_slash

-- What a call of foreign code gives: a value, or the name and the message of the error
-- that it throws.
pub data Answer {ℓ} (A : Type ℓ) : Type ℓ where
  failed : String → String → Answer A
  answered : A → Answer A

-- What `fetch` gives, as a function of all requests so far, the one to be answered last.
abbrev pub Net : Type 0
Net = List Request → Answer Response

abbrev pub or_throw : {S A : Type 0} → Answer A → Act S A
or_throw (failed name m) = throw (error name m)
or_throw (answered a) = pure a

unfoldable pub fetch : {S : Type 0} → Net → Request → Act S Response
fetch net r p =
    or_throw (net (p.web.sent ++ r ∷ []))
      (record p { web = record p.web { sent = p.web.sent ++ r ∷ [] } })

-- The `options` argument of `api`.
pub record Options : Type 0 where
  pub base : Option String
  pub method : String
  pub headers : Dict String
  pub body : Dict Json

abbrev pub no_options : Options
no_options = record { base = none; method = "GET"; headers = []; body = [] }

-- The options of every call that sends an object as JSON.
abbrev pub post_json : Dict Json → Options
post_json body = record {
  base = none;
  method = "POST";
  headers = ("Content-Type", "application/json") ∷ [];
  body = body;
}

unfoldable pub request_of : Browser → String → Options → Request
unfolding get_base get_token strip_end
request_of w path o = record {
  method = o.method;
  url = no_end_slashes (or_else o.base (get_base w)) ⧺ path;
  headers =
      if is_blank (get_token w)
      then o.headers
      else insert "Authorization" ("Bearer " ⧺ get_token w) o.headers;
  body = o.body;
}

-- `res.json()` or `res.text()`: an object, or a text, whose fields are all `undefined`
pub data Reply {ℓ} (A : Type ℓ) : Type ℓ where
  object : A → Reply A
  plain : String → Reply A

abbrev to_object : {S A : Type 0} → Answer A → Act S (Reply A)
to_object (failed name m) = throw (error name m)
to_object (answered a) = pure (object a)

-- `res.ok`
abbrev pub is_ok : ℕ → Bool
is_ok status = leb 200 status && ltb status 300

abbrev content_type : Response → String
content_type res = or_else res.content_type ""

-- What `api` does with the response to a request for `path`.
unfoldable pub read_response :
    {S A : Type 0} → (String → Answer A) → String → Response → Act S (Reply A)
unfolding includes
read_response parse path res =
    if eqb res.status 401
    then throw unauthorized
    else if not (is_ok res.status)
    then throw (new_error (path ⧺ " " ⧺ decimal res.status ⧺ " " ⧺ res.body))
    else if includes (content_type res) "application/json"
    then to_object (parse res.body)
    else pure (plain res.body)

-- `api(path, options)`, with the reading of the JSON object that the caller uses
unfoldable pub api : {S A : Type 0} → Net → (String → Answer A) → String → Options → Act S (Reply A)
unfolding fetch request_of read_response
api net parse path o = do
  r ← gets (λ p. request_of p.web path o)
  res ← fetch net r
  read_response parse path res
