-- ===== src/Web/Api/Requests.antt =====
-- What one call of `api` (frontend/src/api.js) sends, changes and reports.
use peer_wan.Prelude.{
  String, ◌==◌, Bool, true, false, Option, none, some, List, eqb, leb, ◌||◌, decimal, ◌∙◌, [], ◌∷◌,
  ◌++◌, ◌⧺◌, ◌≡◌, ◌↔◌, refl, arith, Bool-cases, inl, inr, is_blank, if◌then◌else◌,
}
use peer_wan.Prelude.Strings.{includes, strip_end, ends_clear, strip_end-ends_clear}
use peer_wan.Prelude.Dict.{Dict, insert, lookup, lookup-insert}
use peer_wan.Web.Js.{
  Browser, Request, Response, Page, Outcome, returned, thrown, error, unauthorized,
}
use peer_wan.Web.Api.{
  Answer, failed, answered, Net, Options, Reply, object, plain, get_base, set_base, get_token,
  set_token, get_admin_set, set_admin_set, or_else, request_of, read_response, api, no_end_slashes,
  is_slash,
}

-- The page after one more request: nothing else has changed.
abbrev pub after_request : {S : Type 0} → Request → Page S → Page S
after_request r p = record p { web = record p.web { sent = p.web.sent ++ r ∷ [] } }

abbrev pub outcome_of :
    {S A : Type 0} → (String → Answer A) → String → Answer Response → Page S → Outcome (Reply A)
outcome_of parse path (failed name m) p = thrown (error name m)
outcome_of parse path (answered res) p = (read_response parse path res p).0

request_once :
    {S A : Type 0} (net : Net) (parse : String → Answer A) (path : String) (o : Options)
    (p : Page S)
    → api net parse path o p ≡ (
      outcome_of parse path (net (p.web.sent ++ request_of p.web path o ∷ [])) p,
      after_request (request_of p.web path o) p,
    )
unfolding api read_response
request_once net parse path o p = ground arith

-- The first of the texts that is given and not blank.
abbrev pub first_given : List (Option String) → String
first_given [] = ""
first_given (none ∷ more) = first_given more
first_given (some String.[] ∷ more) = first_given more
first_given (some (String.◌∷◌ c s) ∷ more) = String.◌∷◌ c s

abbrev bearing : String → Dict String → Dict String
bearing String.[] headers = headers
bearing (String.◌∷◌ c s) headers = insert "Authorization" ("Bearer " ⧺ String.◌∷◌ c s) headers

-- The request of a call: to the path, at the base of the options, the stored base, the page's origin or the
-- local one, the first that is given counting, without the slashes at its end; with the stored token, where
-- there is one, as a bearer token.
abbrev pub call_of : Browser → String → Options → Request
call_of w path o = record {
  method = o.method;
  url =
      strip_end (λ c. eqb c b'/')
        (first_given (
          o.base
          ∷ lookup "peerwan_base" w.local
          ∷ some w.origin
          ∷ some "http://127.0.0.1:8080"
          ∷ []))
      ⧺ path;
  headers = bearing (first_given (lookup "peerwan_token" w.local ∷ [])) o.headers;
  body = o.body;
}

abbrev parsed : {A : Type 0} → Answer A → Outcome (Reply A)
parsed (failed name m) = thrown (error name m)
parsed (answered a) = returned (object a)

abbrev says_json : Option String → Bool
says_json none = false
says_json (some t) = includes t "application/json"

-- What a call gives for the answer of the network.
abbrev pub verdict :
    {A : Type 0} → (String → Answer A) → String → Answer Response → Outcome (Reply A)
verdict parse path (failed name m) = thrown (error name m)
verdict parse path (answered res) =
    if eqb res.status 401
    then thrown unauthorized
    else if leb res.status 199 || leb 300 res.status
    then thrown (error "Error" (path ⧺ " " ⧺ decimal res.status ⧺ " " ⧺ res.body))
    else if says_json res.content_type
    then parsed (parse res.body)
    else returned (plain res.body)

or_else-first_given : (o : Option String) (d : String) → or_else o d ≡ first_given (o ∷ some d ∷ [])
or_else-first_given none String.[] = refl
or_else-first_given none (String.◌∷◌ c s) = refl
or_else-first_given (some String.[]) String.[] = refl
or_else-first_given (some String.[]) (String.◌∷◌ c s) = refl
or_else-first_given (some (String.◌∷◌ c s)) d = refl

base_given :
    (a b : Option String) (origin : String)
    → or_else a (or_else b (or_else (some origin) "http://127.0.0.1:8080"))
      ≡ first_given (a ∷ b ∷ some origin ∷ some "http://127.0.0.1:8080" ∷ [])
base_given (some (String.◌∷◌ c s)) b origin = refl
base_given none (some (String.◌∷◌ c s)) origin = refl
base_given (some String.[]) (some (String.◌∷◌ c s)) origin = refl
base_given none none String.[] = refl
base_given none none (String.◌∷◌ c s) = refl
base_given none (some String.[]) String.[] = refl
base_given none (some String.[]) (String.◌∷◌ c s) = refl
base_given (some String.[]) none String.[] = refl
base_given (some String.[]) none (String.◌∷◌ c s) = refl
base_given (some String.[]) (some String.[]) String.[] = refl
base_given (some String.[]) (some String.[]) (String.◌∷◌ c s) = refl

headers_given :
    (t : Option String) (headers : Dict String)
    → (if is_blank (or_else t "")
        then headers
        else insert "Authorization" ("Bearer " ⧺ or_else t "") headers)
      ≡ bearing (first_given (t ∷ [])) headers
headers_given none headers = refl
headers_given (some String.[]) headers = refl
headers_given (some (String.◌∷◌ c s)) headers = refl

request_of-call_of :
    (w : Browser) (path : String) (o : Options) → request_of w path o ≡ call_of w path o
unfolding request_of get_base get_token
request_of-call_of w path o =
    rw (base_given o.base (lookup "peerwan_base" w.local) w.origin)
      (rw (headers_given (lookup "peerwan_token" w.local) o.headers) refl)

json_type : (t : Option String) → includes (or_else t "") "application/json" ≡ says_json t
unfolding includes
json_type none = refl
json_type (some String.[]) = refl
json_type (some (String.◌∷◌ c s)) = refl

outcome_of-verdict :
    {S A : Type 0} (parse : String → Answer A) (path : String) (a : Answer Response) (p : Page S)
    → outcome_of parse path a p ≡ verdict parse path a
unfolding read_response
outcome_of-verdict parse path (failed name m) p = refl
outcome_of-verdict parse path (answered res) p = ground (arith, json_type res.content_type)

-- A call of `api` sends exactly one request, changes nothing else in the page or the browser, and gives what
-- the answer says: a failure of the network is thrown; the status 401 is thrown as "unauthorized", any other
-- status outside 200 to 299 as an error with the path, the status and the body; and else the body is
-- returned, read as JSON, whose errors are thrown, where the content type says so. The request goes to the
-- path at the first base that is given, of the options, stored, or of the page, without the slashes at its
-- end, and carries the stored token, where there is one, as a bearer token.
pub api_lem :
    {S A : Type 0} (net : Net) (parse : String → Answer A) (path : String) (o : Options)
    (p : Page S)
    → api net parse path o p ≡ (
      verdict parse path (net (p.web.sent ++ call_of p.web path o ∷ [])),
      after_request (call_of p.web path o) p,
    )
api_lem net parse path o p =
    request_once net parse path o p
    ∙ rw (outcome_of-verdict parse path (net (p.web.sent ++ request_of p.web path o ∷ [])) p)
        (rw (request_of-call_of p.web path o) refl)

-- `api` throws "unauthorized" exactly when there is an answer and its status is 401.
pub unauthorized_iff :
    {S A : Type 0} (parse : String → Answer A) (path : String) (res : Response) (p : Page S)
    → ((read_response parse path res p).0 ≡ thrown unauthorized) ↔ (res.status ≡ 401)
unfolding read_response
unauthorized_iff parse path res p = ground arith

-- The address of a request ends its base in no slash, and the request carries the stored token as a
-- bearer token exactly when one is stored; a header of the caller's is kept.
pub request_of_lem :
    (w : Browser) (path : String) (o : Options)
    → (base : String) × ((request_of w path o).url ≡ base ⧺ path)
      × (ends_clear is_slash base ≡ true)
      × (lookup "Authorization" (request_of w path o).headers ≡ (
          if is_blank (get_token w)
          then lookup "Authorization" o.headers
          else some ("Bearer " ⧺ get_token w)))
      × (lookup "Content-Type" (request_of w path o).headers ≡ lookup "Content-Type" o.headers)
unfolding request_of
request_of_lem w path o = elim (Bool-cases (is_blank (get_token w))) [
  | inl e ↦ (base, refl, strip_end-ends_clear is_slash (or_else o.base (get_base w)), rw e, rw e)
  | inr e ↦ (
    base,
    refl,
    strip_end-ends_clear is_slash (or_else o.base (get_base w)),
    rw e (rw lookup-insert),
    rw e (rw lookup-insert),
  )
]
  where
    base : String
    base = no_end_slashes (or_else o.base (get_base w))

admin_text : (admin : Bool) → ((if admin then "true" else "false") == "true") ≡ admin
admin_text true = refl
admin_text false = refl

-- A base address that is not blank, a token and the mark of a set-up administrator are read back
-- as they were written, one after the other, and none of them touches the others.
pub storage_lem :
    (w : Browser) (base token : String) (admin : Bool)
    → is_blank base ≡ false
    → (get_base (set_admin_set admin (set_token token (set_base base w))) ≡ base)
      × (get_token (set_admin_set admin (set_token token (set_base base w))) ≡ token)
      × (get_admin_set (set_admin_set admin (set_token token (set_base base w))) ≡ admin)
unfolding get_base get_token get_admin_set set_base set_token set_admin_set
storage_lem w base token admin given = (
  simp lookup-insert (rw given),
  simp lookup-insert (ground arith),
  simp lookup-insert (admin_text admin),
)
