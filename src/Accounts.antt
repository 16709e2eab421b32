-- ===== src/Accounts.antt =====
-- pkg/api/auth.go, pkg/auth/jwt.go and pkg/api/deps.go: the first user, sign-in, and the check of a request's
-- token. The database, bcrypt and the JWT library are outside: the table is the list of its users in the
-- order of their creation, `hash` is `none` where `GenerateFromPassword` fails, of which the code takes
-- the empty hash. Times are in seconds, as in a token.
pub mod SignIn
use peer_wan.Prelude.{
  ℕ, suc, ◌+◌, String, ◌==◌, Bool, true, false, not, ◌&&◌, ◌||◌, Option, none, some, List, [], ◌∷◌,
  ◌++◌, is_blank, is_empty, length, find_first, if◌then◌else◌,
}
use peer_wan.Controller.Handlers.{Reply}
use peer_wan.Policy.{cut_prefix}

-- `model.User`; the identifier is the place in the table, from 1
pub record User : Type 0 where
  pub id : ℕ
  pub username : String
  pub password_hash : String
  pub is_admin : Bool

-- `auth.Claims`
pub record Claims : Type 0 where
  pub user_id : ℕ
  pub username : String
  pub expires_at : ℕ
  pub issued_at : ℕ

pub record Crypto : Type 0 where
  pub hash : String → Option String
  pub matches : String → String → Bool
  -- the variable `JWT_SECRET`
  pub jwt_secret : String
  -- `SignedString` of a token with these claims, for a secret
  pub sign : String → Claims → String
  -- whether `jwt.ParseWithClaims` takes the token at the time, for a secret
  pub verify : ℕ → String → String → Bool

-- `secret`
unfoldable pub secret : Crypto → String
secret k = if is_blank k.jwt_secret then "change-me-secret" else k.jwt_secret

-- `auth.Generate`, at the time
unfoldable pub generate : Crypto → ℕ → String → ℕ → ℕ → String
unfolding secret
generate k id name ttl now =
    k.sign (secret k)
      (record { user_id = id; username = name; expires_at = now + ttl; issued_at = now })

-- `auth.Parse`, at the time: whether it gives claims
unfoldable pub parse : Crypto → ℕ → String → Bool
unfolding secret
parse k now token = k.verify now (secret k) token

abbrev pub or_no_hash : Option String → String
or_no_hash none = ""
or_no_hash (some h) = h

unfoldable pub new_user : Crypto → String → String → List User → User
new_user k name password users = record {
  id = suc (length users);
  username = name;
  password_hash = or_no_hash (k.hash password);
  is_admin = true;
}

-- `handleRegister`, for a POST, with a database that answers
unfoldable pub handle_register : Crypto → ℕ → String → String → List User → Reply String × List User
unfolding new_user generate
handle_register k now name password users =
    let user : User = new_user k name password users in
    if is_blank name || is_blank password
    then (Reply.http_error 400 "invalid payload", users)
    else if not (is_empty users)
    then (Reply.http_error 403 "registration closed", users)
    else (Reply.replied (generate k user.id user.username 86400 now), users ++ user ∷ [])

unfoldable pub checked : Crypto → ℕ → String → Option User → Reply String
unfolding generate
checked k now password none = Reply.http_error 401 "invalid credentials"
checked k now password (some u) =
    if k.matches u.password_hash password
    then Reply.replied (generate k u.id u.username 86400 now)
    else Reply.http_error 401 "invalid credentials"

-- `handleLogin`, for a POST
unfoldable pub handle_login : Crypto → ℕ → String → String → List User → Reply String
unfolding checked
handle_login k now name password users =
    if is_blank name || is_blank password
    then Reply.http_error 400 "invalid payload"
    else checked k now password (find_first (λ u. u.username == name) users)

abbrev pub parses : Crypto → ℕ → Option String → Bool
unfolding parse
parses k now none = false
parses k now (some token) = parse k now token

-- `authFuncJWT`: whether a request has a session, by its header `Authorization`
unfoldable pub auth_func_jwt : Crypto → ℕ → String → Bool
unfolding cut_prefix parses
auth_func_jwt k now header = parses k now (cut_prefix "Bearer " header)

-- Requests to register, one after another: name and password.
unfoldable pub register_all : Crypto → ℕ → List (String × String) → List User → List User
unfolding handle_register
register_all k now [] users = users
register_all k now (r ∷ rest) users =
    register_all k now rest (handle_register k now r.0 r.1 users).1
