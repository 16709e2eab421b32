-- ===== src/Web/Js.antt =====
-- What the handlers of frontend/src run on: an action of a page reads and writes the page's own
-- state (`S`) and the browser around it, and may throw. An `await` is a bind; between two awaits of
-- one handler no other handler runs.
pub mod Laws
use peer_wan.Prelude.{ℕ, String, Bool, true, false, Option, none, some, List, [], ◌∷◌, ◌++◌, ◌⧺◌}
use peer_wan.Prelude.Dict.{Dict}

-- What is thrown, as far as a handler can show it.
pub data JsError : Type 0 where
  -- `throw { unauthorized: true }`
  unauthorized : JsError
  -- an error object with its name and message; `fetch`, `JSON.parse` and others throw these too
  error : String → String → JsError

-- `new Error(m)`
abbrev pub new_error : String → JsError
new_error m = error "Error" m

-- `'' + e`
abbrev pub shown : JsError → String
shown unauthorized = "[object Object]"
shown (error name m) = name ⧺ ": " ⧺ m

-- `e.message`, `undefined` where there is none
abbrev pub message_of : JsError → Option String
message_of unauthorized = none
message_of (error name m) = some m

pub data Outcome {ℓ} (A : Type ℓ) : Type ℓ where
  returned : A → Outcome A
  thrown : JsError → Outcome A

-- antd's `message.success`, `message.warning`, `message.error`
pub data Toast : Type 0 where
  success warning failure : String → Toast

-- A policy rule as the console holds and sends it; an absent field is `undefined`.
pub record UiRule : Type 0 where
  pub prefix : Option String
  pub domains : Option (List String)
  pub via_node : Option String
  pub path : Option (List String)

-- The value of a field of the object that `JSON.stringify` is given for a request's body.
pub data Json : Type 0 where
  text : String → Json
  number : ℕ → Json
  flag : Bool → Json
  texts : List String → Json
  table : Dict String → Json
  rules : List UiRule → Json

-- A request as `fetch` gets it; the body is the object that is stringified, field by field.
pub record Request : Type 0 where
  pub method : String
  pub url : String
  pub headers : Dict String
  pub body : Dict Json

pub record Response : Type 0 where
  pub status : ℕ
  pub content_type : Option String
  pub body : String

pub record Browser : Type 0 where
  pub local : Dict String
  pub origin : String
  pub sent : List Request
  pub toasts : List Toast
  pub clipboard : Option String

pub record Page {ℓ} (S : Type ℓ) : Type ℓ where
  pub web : Browser
  pub own : S

abbrev pub Act {ℓ} : Type ℓ → Type ℓ → Type ℓ
Act S A = Page S → Outcome A × Page S

module _ {ℓ} {S A : Type ℓ} where
  abbrev pub pure : A → Act S A
  pure a p = (returned a, p)

  abbrev pub throw : JsError → Act S A
  throw e p = (thrown e, p)

  abbrev handle : Outcome A × Page S → (JsError → Act S A) → Outcome A × Page S
  handle (returned a, p) h = (returned a, p)
  handle (thrown e, p) h = h e p

  -- `try { m } catch (e) { h(e) }`
  abbrev pub try_catch : Act S A → (JsError → Act S A) → Act S A
  try_catch m h p = handle (m p) h

  -- `try { m } finally { f }`, where `f` only writes state
  abbrev pub finally_do : Act S A → (Page S → Page S) → Act S A
  finally_do m f p = let (r, p') = m p in (r, f p')

  abbrev pub gets : (Page S → A) → Act S A
  gets f p = (returned (f p), p)

module _ {ℓ} {S A B : Type ℓ} where
  abbrev continue : Outcome A × Page S → (A → Act S B) → Outcome B × Page S
  continue (returned a, p) f = f a p
  continue (thrown e, p) f = (thrown e, p)

  infixl 10 ◌>>=◌ ◌>>◌
  abbrev pub ◌>>=◌ : Act S A → (A → Act S B) → Act S B
  ◌>>=◌ m f p = continue (m p) f

  abbrev pub ◌>>◌ : Act S A → Act S B → Act S B
  ◌>>◌ m k = m >>= λ _. k

module _ {S : Type 0} where
  -- a call of one of the component's `useState` setters
  abbrev pub set_own : (S → S) → Act S (Unit {0})
  set_own f p = (returned tt, record p { own = f p.own })

  abbrev pub set_web : (Browser → Browser) → Act S (Unit {0})
  set_web f p = (returned tt, record p { web = f p.web })

  abbrev pub toast : Toast → Act S (Unit {0})
  toast t = set_web (λ w. record w { toasts = w.toasts ++ t ∷ [] })

  -- `const v = await form.validateFields()`: an incomplete form ends the handler
  abbrev pub when_valid : {V : Type 0} → Option V → (V → Act S (Unit {0})) → Act S (Unit {0})
  when_valid none k = throw (new_error "validation")
  when_valid (some v) k = k v

  -- an asynchronous call that is not awaited: what it throws is lost
  abbrev pub detached : Act S (Unit {0}) → Act S (Unit {0})
  detached m p = (returned tt, (m p).1)

  abbrev pub when_true : Bool → Act S (Unit {0}) → Act S (Unit {0})
  when_true true m = m
  when_true false m = pure tt
