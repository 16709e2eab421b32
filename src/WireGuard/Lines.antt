-- ===== src/WireGuard/Lines.antt =====
-- The lines that pkg/wireguard/render.go writes: which of them have no line break in them.
use peer_wan.Prelude.{
  ℕ, zero, suc, ◌/◌, ◌%◌, Char, code, String, ◌⧺◌, text_of, Bool, true, false, not, List, [], ◌∷◌,
  ◌≡◌, refl, arith, All, All-append, decimal, join, eqb, is_blank, is_empty, Bool-cases, inl, inr,
  if◌then◌else◌,
}
use text.Mathlib.TextLemmas.{nil-append, cons-append}
use peer_wan.Prelude.Strings.{no_char, decimal_digits, digit_char}
use peer_wan.Model.{Node, Peer}
use peer_wan.WireGuard.{line_if, endpoint_of, interface_lines, peer_lines, peers_lines}
use peer_wan.WireGuard.Reading.{is_newline, IsLine}

no_char-join2 :
    (q : ℕ → Bool) (a b : String)
    → no_char q a ≡ true
    → no_char q b ≡ true
    → no_char q (a ⧺ b) ≡ true
unfolding no_char
no_char-join2 q String.[] b ha hb = rw nil-append hb
no_char-join2 q (String.◌∷◌ c a) b ha hb =
    rw cons-append (ground (arith, no_char-join2 q a b, ha, hb))

IsLine-join : (ips : List String) → All IsLine ips → IsLine (join ", " ips)
unfolding join no_char is_newline
IsLine-join [] h = refl
IsLine-join (x ∷ []) h = h.0
IsLine-join (x ∷ y ∷ ys) h =
    no_char-join2 is_newline x (", " ⧺ join ", " (y ∷ ys)) h.0
      (no_char-join2 is_newline ", " (join ", " (y ∷ ys)) refl (IsLine-join (y ∷ ys) h.1))

abbrev IsInk : Char → Type 0
IsInk c = is_newline (code c) ≡ false

either_digit : (b : Bool) (c d : Char) → IsInk c → IsInk d → IsInk (if b then c else d)
either_digit true c d hc hd = hc
either_digit false c d hc hd = hd

code-digit_char : (d : ℕ) → IsInk (digit_char d)
unfolding is_newline
code-digit_char d = either_digit (eqb d 0) "0" _ refl (
    either_digit (eqb d 1) "1" _ refl (
      either_digit (eqb d 2) "2" _ refl (
        either_digit (eqb d 3) "3" _ refl (
          either_digit (eqb d 4) "4" _ refl (
            either_digit (eqb d 5) "5" _ refl (
              either_digit (eqb d 6) "6" _ refl
                (either_digit (eqb d 7) "7" _ refl (either_digit (eqb d 8) "8" "9" refl refl))))))))

IsLine-decimal_digits :
    (fuel n : ℕ) (acc : String) → IsLine acc → IsLine (decimal_digits fuel n acc)
unfolding decimal_digits no_char
IsLine-decimal_digits zero n acc h = h
IsLine-decimal_digits (suc fuel) n acc h = elim (Bool-cases (eqb n 0)) [
  | inl z ↦ (let r : IsLine (decimal_digits (suc fuel) n acc) = rw z h in r)
  | inr p ↦
      (let more : IsLine (text_of (digit_char (n % 10)) acc) =
          ground (arith, h, code-digit_char (n % 10)) in
        let r : IsLine (decimal_digits (suc fuel) n acc) =
          rw p (IsLine-decimal_digits fuel (n / 10) (text_of (digit_char (n % 10)) acc) more) in
        r)
]

IsLine-decimal : (n : ℕ) → IsLine (decimal n)
unfolding decimal
IsLine-decimal n = elim (Bool-cases (eqb n 0)) [
  | inl z ↦ (let r : IsLine (decimal n) = rw z (unfold no_char is_newline in refl) in r)
  | inr p ↦
      (let r : IsLine (decimal n) = rw p (IsLine-decimal_digits n n "" (unfold no_char in refl)) in
        r)
]

-- The texts that are written for a peer have no line breaks.
abbrev pub IsPlain : Node → Peer → Type 0
IsPlain n p = IsLine p.public_key × IsLine (endpoint_of n p) × All IsLine p.allowed_ips

IsLine-append : (a b : String) → IsLine a → IsLine b → IsLine (a ⧺ b)
IsLine-append a b ha hb = no_char-join2 is_newline a b ha hb

All-line_if :
    (b : Bool) (l : String) (ls : List String)
    → IsLine l
    → All IsLine ls
    → All IsLine (line_if b l ls)
All-line_if true l ls h hs = (h, hs)
All-line_if false l ls h hs = hs

All-peer_lines : (n : Node) (p : Peer) → IsPlain n p → All IsLine (peer_lines n p)
unfolding peer_lines no_char is_newline
All-peer_lines n p h =
    let pings : List String =
      line_if (not (eqb p.keepalive 0)) ("PersistentKeepalive = " ⧺ decimal p.keepalive)
        ("" ∷ []) in
    let ips : List String =
      line_if (not (is_empty p.allowed_ips)) ("AllowedIPs = " ⧺ join ", " p.allowed_ips) pings in
    (
      refl,
      (
        IsLine-append "PublicKey = " p.public_key refl h.0,
        All-line_if (not (is_blank (endpoint_of n p))) ("Endpoint = " ⧺ endpoint_of n p) ips
            (IsLine-append "Endpoint = " (endpoint_of n p) refl h.1)
            (All-line_if (not (is_empty p.allowed_ips)) ("AllowedIPs = " ⧺ join ", " p.allowed_ips)
              pings
              (IsLine-append "AllowedIPs = " (join ", " p.allowed_ips) refl
                (IsLine-join p.allowed_ips h.2))
              (All-line_if (not (eqb p.keepalive 0))
                ("PersistentKeepalive = " ⧺ decimal p.keepalive) ("" ∷ [])
                (IsLine-append "PersistentKeepalive = " (decimal p.keepalive) refl
                  (IsLine-decimal p.keepalive))
                (refl, tt))),
      ),
    )

pub All-peers_lines :
    (n : Node) (peers : List Peer) → All (IsPlain n) peers → All IsLine (peers_lines n peers)
unfolding peers_lines
All-peers_lines n [] h = tt
All-peers_lines n (p ∷ peers) h =
    All-append IsLine (peer_lines n p) (peers_lines n peers) (All-peer_lines n p h.0)
      (All-peers_lines n peers h.1)

pub All-interface_lines :
    (n : Node) (key : String)
    → IsLine n.overlay_ip
    → IsLine key
    → All IsLine (interface_lines n key)
unfolding interface_lines no_char is_newline
All-interface_lines n key ho hk =
    let keys : List String = line_if (not (is_blank key)) ("PrivateKey = " ⧺ key) ("" ∷ []) in
    let ports : List String =
      line_if (not (eqb n.listen_port 0)) ("ListenPort = " ⧺ decimal n.listen_port) keys in
    (
      refl,
      All-line_if (not (is_blank n.overlay_ip)) ("Address = " ⧺ n.overlay_ip) ports
          (IsLine-append "Address = " n.overlay_ip refl ho)
          (All-line_if (not (eqb n.listen_port 0)) ("ListenPort = " ⧺ decimal n.listen_port) keys
            (IsLine-append "ListenPort = " (decimal n.listen_port) refl
              (IsLine-decimal n.listen_port))
            (All-line_if (not (is_blank key)) ("PrivateKey = " ⧺ key) ("" ∷ [])
              (IsLine-append "PrivateKey = " key refl hk) (refl, tt))),
    )
