-- ===== src/WireGuard/Reading.antt =====
-- The text of pkg/wireguard/render.go as a program reads it that knows the format of `wg-quick`.
use peer_wan.Prelude.{
  ℕ, code, String, ◌⧺◌, Bool, true, false, not, ◌||◌, Option, none, some, List, [], ◌∷◌, ◌++◌, ◌≡◌,
  refl, ap, ◌∙◌, arith, All, eqb, eqb_refl, Bool-cases, inl, inr,
}
use text.Mathlib.TextLemmas.{nil-append, cons-append}
use peer_wan.Prelude.Strings.{no_char}
use peer_wan.Policy.{lines, cut_prefix}
use peer_wan.WireGuard.{unlines}

-- What a section assigns; a key that is missing is blank.
pub record Section : Type 0 where
  pub address : String
  pub listen_port : String
  pub private_key : String
  pub public_key : String
  pub endpoint : String
  pub allowed_ips : String
  pub keepalive : String

abbrev pub no_section : Section
no_section = record {
  address = "";
  listen_port = "";
  private_key = "";
  public_key = "";
  endpoint = "";
  allowed_ips = "";
  keepalive = "";
}

abbrev pick : Option String → (String → Section) → Section → Section
pick none f other = other
pick (some v) f other = f v

unfoldable pub set_field : String → Section → Section
unfolding cut_prefix
set_field l s =
    pick (cut_prefix "Address = " l) (λ v. record s { address = v })
      (pick (cut_prefix "ListenPort = " l) (λ v. record s { listen_port = v })
        (pick (cut_prefix "PrivateKey = " l) (λ v. record s { private_key = v })
          (pick (cut_prefix "PublicKey = " l) (λ v. record s { public_key = v })
            (pick (cut_prefix "Endpoint = " l) (λ v. record s { endpoint = v })
              (pick (cut_prefix "AllowedIPs = " l) (λ v. record s { allowed_ips = v })
                (pick (cut_prefix "PersistentKeepalive = " l) (λ v. record s { keepalive = v })
                  s))))))

unfoldable start_or : Option String → String → Section × List Section → Section × List Section
unfolding set_field
start_or none l (s, peers) = (set_field l s, peers)
start_or (some v) l (s, peers) = (no_section, s ∷ peers)

-- The first section of the lines, and the peers after it.
unfoldable pub read_lines : List String → Section × List Section
unfolding start_or cut_prefix
read_lines [] = (no_section, [])
read_lines (l ∷ ls) = let rest = read_lines ls in start_or (cut_prefix "[Peer]" l) l rest

unfoldable pub read_config : String → Section × List Section
unfolding read_lines lines
read_config text = read_lines (lines text)

unfoldable pub is_newline : ℕ → Bool
is_newline c = eqb c 10

abbrev pub IsLine : String → Type 0
IsLine l = no_char is_newline l ≡ true

lines-line : (l s : String) → IsLine l → lines (l ⧺ ("\n" ⧺ s)) ≡ l ∷ lines s
unfolding lines no_char is_newline
lines-line String.[] s h = rw nil-append (rw cons-append (rw nil-append refl))
lines-line (String.◌∷◌ c l) s h =
    let rest : lines (l ⧺ ("\n" ⧺ s)) ≡ l ∷ lines s = lines-line l s (ground (arith, h)) in
    let own : eqb (code c) 10 ≡ false = ground (arith, h) in rw cons-append (rw rest (rw own refl))

pub lines-unlines : (ls : List String) → All IsLine ls → lines (unlines ls) ≡ ls ++ "" ∷ []
unfolding lines unlines
lines-unlines [] h = refl
lines-unlines (l ∷ ls) h =
    lines-line l (unlines ls) h.0 ∙ ap (λ rest. l ∷ rest) (lines-unlines ls h.1)

pub cut_prefix-append : (p v : String) → cut_prefix p (p ⧺ v) ≡ some v
unfolding cut_prefix
cut_prefix-append String.[] v = rw nil-append refl
cut_prefix-append (String.◌∷◌ c p) v =
    rw cons-append (rw (eqb_refl (code c)) (cut_prefix-append p v))

-- The texts differ before either ends.
abbrev differ : String → String → Bool
differ String.[] q = false
differ (String.◌∷◌ c p) String.[] = false
differ (String.◌∷◌ c p) (String.◌∷◌ d q) = not (eqb (code c) (code d)) || differ p q

cut_prefix-differ : (p q v : String) → differ p q ≡ true → cut_prefix p (q ⧺ v) ≡ none
unfolding cut_prefix
cut_prefix-differ String.[] q v h = absurd (ground (arith, h))
cut_prefix-differ (String.◌∷◌ c p) String.[] v h = absurd (ground (arith, h))
cut_prefix-differ (String.◌∷◌ c p) (String.◌∷◌ d q) v h =
    elim (Bool-cases (eqb (code c) (code d))) [
      | inl same ↦
          (let later : differ p q ≡ true = ground (arith, h, same) in
            let r : cut_prefix (String.◌∷◌ c p) ((String.◌∷◌ d q) ⧺ v) ≡ none =
              rw cons-append (rw same (cut_prefix-differ p q v later)) in
            r)
      | inr other ↦
          (let r : cut_prefix (String.◌∷◌ c p) ((String.◌∷◌ d q) ⧺ v) ≡ none =
              rw cons-append (rw other refl) in
            r)
    ]

pub read-address :
    (v : String) (s : Section) (peers : List Section) (ls : List String)
    → read_lines ls ≡ (s, peers)
    → read_lines (("Address = " ⧺ v) ∷ ls) ≡ (record s { address = v }, peers)
unfolding read_lines start_or set_field
read-address v s peers ls e = rw e (
    rw (cut_prefix-differ "[Peer]" "Address = " v refl)
      (rw (cut_prefix-append "Address = " v) refl))

pub read-listen_port :
    (v : String) (s : Section) (peers : List Section) (ls : List String)
    → read_lines ls ≡ (s, peers)
    → read_lines (("ListenPort = " ⧺ v) ∷ ls) ≡ (record s { listen_port = v }, peers)
unfolding read_lines start_or set_field
read-listen_port v s peers ls e = rw e (
    rw (cut_prefix-differ "[Peer]" "ListenPort = " v refl) (
      rw (cut_prefix-differ "Address = " "ListenPort = " v refl)
        (rw (cut_prefix-append "ListenPort = " v) refl)))

pub read-private_key :
    (v : String) (s : Section) (peers : List Section) (ls : List String)
    → read_lines ls ≡ (s, peers)
    → read_lines (("PrivateKey = " ⧺ v) ∷ ls) ≡ (record s { private_key = v }, peers)
unfolding read_lines start_or set_field
read-private_key v s peers ls e = rw e (
    rw (cut_prefix-differ "[Peer]" "PrivateKey = " v refl) (
      rw (cut_prefix-differ "Address = " "PrivateKey = " v refl) (
        rw (cut_prefix-differ "ListenPort = " "PrivateKey = " v refl)
          (rw (cut_prefix-append "PrivateKey = " v) refl))))

pub read-public_key :
    (v : String) (s : Section) (peers : List Section) (ls : List String)
    → read_lines ls ≡ (s, peers)
    → read_lines (("PublicKey = " ⧺ v) ∷ ls) ≡ (record s { public_key = v }, peers)
unfolding read_lines start_or set_field
read-public_key v s peers ls e = rw e (
    rw (cut_prefix-differ "[Peer]" "PublicKey = " v refl) (
      rw (cut_prefix-differ "Address = " "PublicKey = " v refl) (
        rw (cut_prefix-differ "ListenPort = " "PublicKey = " v refl) (
          rw (cut_prefix-differ "PrivateKey = " "PublicKey = " v refl)
            (rw (cut_prefix-append "PublicKey = " v) refl)))))

pub read-endpoint :
    (v : String) (s : Section) (peers : List Section) (ls : List String)
    → read_lines ls ≡ (s, peers)
    → read_lines (("Endpoint = " ⧺ v) ∷ ls) ≡ (record s { endpoint = v }, peers)
unfolding read_lines start_or set_field
read-endpoint v s peers ls e = rw e (
    rw (cut_prefix-differ "[Peer]" "Endpoint = " v refl) (
      rw (cut_prefix-differ "Address = " "Endpoint = " v refl) (
        rw (cut_prefix-differ "ListenPort = " "Endpoint = " v refl) (
          rw (cut_prefix-differ "PrivateKey = " "Endpoint = " v refl) (
            rw (cut_prefix-differ "PublicKey = " "Endpoint = " v refl)
              (rw (cut_prefix-append "Endpoint = " v) refl))))))

pub read-allowed_ips :
    (v : String) (s : Section) (peers : List Section) (ls : List String)
    → read_lines ls ≡ (s, peers)
    → read_lines (("AllowedIPs = " ⧺ v) ∷ ls) ≡ (record s { allowed_ips = v }, peers)
unfolding read_lines start_or set_field
read-allowed_ips v s peers ls e = rw e (
    rw (cut_prefix-differ "[Peer]" "AllowedIPs = " v refl) (
      rw (cut_prefix-differ "Address = " "AllowedIPs = " v refl) (
        rw (cut_prefix-differ "ListenPort = " "AllowedIPs = " v refl) (
          rw (cut_prefix-differ "PrivateKey = " "AllowedIPs = " v refl) (
            rw (cut_prefix-differ "PublicKey = " "AllowedIPs = " v refl) (
              rw (cut_prefix-differ "Endpoint = " "AllowedIPs = " v refl)
                (rw (cut_prefix-append "AllowedIPs = " v) refl)))))))

pub read-keepalive :
    (v : String) (s : Section) (peers : List Section) (ls : List String)
    → read_lines ls ≡ (s, peers)
    → read_lines (("PersistentKeepalive = " ⧺ v) ∷ ls) ≡ (record s { keepalive = v }, peers)
unfolding read_lines start_or set_field
read-keepalive v s peers ls e = rw e (
    rw (cut_prefix-differ "[Peer]" "PersistentKeepalive = " v refl) (
      rw (cut_prefix-differ "Address = " "PersistentKeepalive = " v refl) (
        rw (cut_prefix-differ "ListenPort = " "PersistentKeepalive = " v refl) (
          rw (cut_prefix-differ "PrivateKey = " "PersistentKeepalive = " v refl) (
            rw (cut_prefix-differ "PublicKey = " "PersistentKeepalive = " v refl) (
              rw (cut_prefix-differ "Endpoint = " "PersistentKeepalive = " v refl) (
                rw (cut_prefix-differ "AllowedIPs = " "PersistentKeepalive = " v refl)
                  (rw (cut_prefix-append "PersistentKeepalive = " v) refl))))))))

pub read-blank :
    (s : Section) (peers : List Section) (ls : List String)
    → read_lines ls ≡ (s, peers)
    → read_lines ("" ∷ ls) ≡ (s, peers)
unfolding read_lines start_or set_field cut_prefix
read-blank s peers ls e = rw e refl

pub read-interface :
    (s : Section) (peers : List Section) (ls : List String)
    → read_lines ls ≡ (s, peers)
    → read_lines ("[Interface]" ∷ ls) ≡ (s, peers)
unfolding read_lines start_or set_field cut_prefix
read-interface s peers ls e = rw e refl

pub read-peer :
    (s : Section) (peers : List Section) (ls : List String)
    → read_lines ls ≡ (s, peers)
    → read_lines ("[Peer]" ∷ ls) ≡ (no_section, s ∷ peers)
unfolding read_lines start_or cut_prefix
read-peer s peers ls e = rw e refl
