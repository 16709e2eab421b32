-- ===== src/Accounts/SignIn.antt =====
-- The first user of pkg/api/auth.go: that there is only one, and that he gets in.
use peer_wan.Prelude.{
  ℕ, ◌≤◌, ◌+◌, ltb, String, ◌⧺◌, true, false, some, List, [], ◌∷◌, ◌≡◌, refl, arith, is_blank,
  length, Bool-cases, inl, inr, ==_refl,
}
use peer_wan.Controller.Handlers.{Reply}
use peer_wan.WireGuard.Reading.{cut_prefix-append}
use peer_wan.Accounts.{
  User, Crypto, new_user, handle_register, handle_login, Claims, secret, generate, parse, parses,
  checked, auth_func_jwt, register_all,
}

one_more :
    (k : Crypto) (now : ℕ) (name password : String) (users : List User)
    → length users ≤ 1
    → length (handle_register k now name password users).1 ≤ 1
unfolding handle_register
one_more k now name password [] le = ground arith
one_more k now name password (u ∷ users) le = ground (arith, le)

-- Requests that are handled one after another leave one user at most.
pub register_all-le :
    (k : Crypto) (now : ℕ) (requests : List (String × String)) (users : List User)
    → length users ≤ 1
    → length (register_all k now requests users) ≤ 1
unfolding register_all
register_all-le k now [] users le = le
register_all-le k now (r ∷ rest) users le =
    register_all-le k now rest (handle_register k now r.0 r.1 users).1
      (one_more k now r.0 r.1 users le)

-- The answer is a token, and a request with it has a session at the second time exactly where that
-- comes before the end of the token's 24 hours, which begin at the first.
abbrev pub IsPass : Crypto → ℕ → ℕ → Reply String → Type 0
IsPass k made at (Reply.replied token) =
    auth_func_jwt k at ("Bearer " ⧺ token) ≡ ltb at (made + 86400)
IsPass k made at (Reply.http_error code text) = ⊥

-- An error.
abbrev pub IsRefused : Reply String → Type 0
IsRefused (Reply.replied token) = ⊥
IsRefused (Reply.http_error code text) = Unit

module _ (k : Crypto)
    (expires : (at : ℕ) (key : String) (c : Claims)
      → k.verify at key (k.sign key c) ≡ ltb at c.expires_at) where
  bearer :
      (id : ℕ) (name : String) (made at : ℕ)
      → auth_func_jwt k at ("Bearer " ⧺ generate k id name 86400 made) ≡ ltb at (made + 86400)
  unfolding auth_func_jwt parses parse generate
  bearer id name made at =
      let claims : Claims = record {
        user_id = id;
        username = name;
        expires_at = made + 86400;
        issued_at = made;
      } in
      rw (cut_prefix-append "Bearer " (k.sign (secret k) claims)) (expires at (secret k) claims)

-- The user that is created with this hash.
abbrev first_user : String → String → User
first_user name h = record { id = 1; username = name; password_hash = h; is_admin = true }

module _ (k : Crypto) (now : ℕ) (name h : String) (nn : is_blank name ≡ false) where
  first_registered :
      (password : String)
      → is_blank password ≡ false
      → k.hash password ≡ some h
      → handle_register k now name password []
        ≡ (Reply.replied (generate k 1 name 86400 now), first_user name h ∷ [])
  unfolding handle_register new_user
  first_registered password np hp = rw nn (rw np (rw hp refl))

  signed_in :
      (password : String)
      → is_blank password ≡ false
      → k.matches h password ≡ true
      → handle_login k now name password (first_user name h ∷ [])
        ≡ Reply.replied (generate k 1 name 86400 now)
  unfolding handle_login checked
  signed_in password np mp = rw nn (rw np (rw (==_refl name) (rw mp refl)))

  sent_away :
      (password : String)
      → k.matches h password ≡ false
      → IsRefused (handle_login k now name password (first_user name h ∷ []))
  unfolding handle_login checked
  sent_away password mo = elim (Bool-cases (is_blank password)) [
    | inl b ↦
        (let r : IsRefused (handle_login k now name password (first_user name h ∷ [])) =
            rw nn (rw b tt) in
          r)
    | inr nb ↦
        (let r : IsRefused (handle_login k now name password (first_user name h ∷ [])) =
            rw nn (rw nb (rw (==_refl name) (rw mo tt))) in
          r)
  ]

module _ (k : Crypto) (now later at : ℕ) (name password h : String) where
  -- The first user registers with a password that can be hashed and a name, both not blank. Requests with the
  -- token that is answered have a session for the next 24 hours and no longer, and so have requests with the
  -- token of a later sign-in with the same name and password, counted from that sign-in, where a hash matches
  -- its password and the JWT library takes a token that was signed with the same secret exactly until it
  -- expires. Any other password, which the hash does not match, is refused.
  pub handle_login-handle_register :
      (other : String)
      → is_blank name ≡ false
      → is_blank password ≡ false
      → k.hash password ≡ some h
      → k.matches h password ≡ true
      → k.matches h other ≡ false
      → ((t : ℕ) (key : String) (c : Claims) → k.verify t key (k.sign key c) ≡ ltb t c.expires_at)
      → IsPass k now at (handle_register k now name password []).0
        × IsPass k later at
            (handle_login k later name password (handle_register k now name password []).1)
        × IsRefused (handle_login k later name other (handle_register k now name password []).1)
  handle_login-handle_register other nn np hp mp mo expires =
      rw (first_registered k now name h nn password np hp) (
        bearer k expires 1 name now at,
        rw (signed_in k later name h nn password np mp) (bearer k expires 1 name later at),
        sent_away k later name h nn other mo,
      )
