-- ===== src/Web/Hooks.antt =====
-- frontend/src/api.js (`useAsync`) and hooks/useWS.js: the two hooks.
pub mod Traces
use peer_wan.Prelude.{
  String, Bool, true, false, Option, none, some, List, [], ◌∷◌, ◌⧺◌, is_blank, text_of, code, eqb,
  ◌&&◌, if◌then◌else◌,
}
use peer_wan.Prelude.Strings.{strip_end, begins_with}
use peer_wan.Web.Js.{Browser, JsError}
use peer_wan.Web.Api.{Answer, failed, answered, get_base, no_end_slashes}

-- The state of `useAsync`.
pub record Async {ℓ} (A : Type ℓ) : Type ℓ where
  pub loading : Bool
  pub error : Option JsError
  pub content : Option A

abbrev pub idle {ℓ} : {A : Type ℓ} → Async A
idle = record { loading = false; error = none; content = none }

-- What happens to it: a call of `run` begins, or one that has begun ends. Several may be under way.
pub data Event {ℓ} (A : Type ℓ) : Type ℓ where
  begun : Event A
  resolved : A → Event A
  rejected : JsError → Event A

module _ {ℓ} {A : Type ℓ} where
  unfoldable pub step : Event A → Async A → Async A
  step begun s = record s { loading = true; error = none }
  step (resolved d) s = record s { loading = false; content = some d }
  step (rejected e) s = record s { loading = false; error = some e }

  -- the events in the order in which they happen
  unfoldable pub run : List (Event A) → Async A → Async A
  unfolding step
  run [] s = s
  run (e ∷ es) s = run es (step e s)

-- `s.replace(/^http/, 'ws')`
unfoldable pub ws_scheme : String → String
ws_scheme (String.◌∷◌ h (String.◌∷◌ t (String.◌∷◌ u (String.◌∷◌ p rest)))) =
    if eqb (code h) b'h' && eqb (code t) b't' && eqb (code u) b't' && eqb (code p) b'p'
    then "ws" ⧺ rest
    else text_of h (text_of t (text_of u (text_of p rest)))
ws_scheme s = s

-- The address of the socket that `useWS` opens; `none` where it opens none.
unfoldable pub ws_url : Browser → Option String → Option String
unfolding ws_scheme get_base strip_end
ws_url w none = none
ws_url w (some path) =
    if is_blank path then none else some (no_end_slashes (ws_scheme (get_base w)) ⧺ path)

-- `ws.onmessage`: a message that is no JSON is dropped.
unfoldable pub on_socket_message :
    {S A : Type 0} → (String → Answer A) → Option (A → S → S) → String → S → S
on_socket_message parse none text s = s
on_socket_message parse (some f) text s = elim (parse text) [
  | failed name message ↦ s
  | answered a ↦ f a s
]
