-- ===== src/WireGuard/RoundTrip.antt =====
-- What is read of the configuration that pkg/wireguard/render.go writes.
use peer_wan.Prelude.{
  ℕ, String, ◌⧺◌, Bool, true, false, not, List, [], ◌∷◌, ◌++◌, ◌≡◌, refl, sym, ap, Option, none,
  some, ◌∙◌, arith, All, All-append, decimal, join, eqb, is_blank, is_empty, map, Bool-cases, inl,
  inr, if◌then◌else◌,
}
use mathlib.Core.List.{append_assoc}
use peer_wan.Prelude.Dict.{lookup}
use peer_wan.Model.{Node, Peer}
use peer_wan.WireGuard.{
  line_if, override_or, endpoint_of, interface_lines, peer_lines, peers_lines, render_config,
}
use peer_wan.WireGuard.Lines.{IsPlain, All-peers_lines, All-interface_lines}
use peer_wan.WireGuard.Reading.{
  Section, no_section, read_lines, read_config, IsLine, lines-unlines, read-address,
  read-listen_port, read-private_key, read-public_key, read-endpoint, read-allowed_ips,
  read-keepalive, read-blank, read-interface, read-peer,
}

-- A number as it is written, and nothing for 0.
abbrev pub number_text : ℕ → String
number_text n = if eqb n 0 then "" else decimal n

abbrev unless_blank : Option String → String → String
unless_blank none given = given
unless_blank (some String.[]) given = given
unless_blank (some (String.◌∷◌ c rest)) given = String.◌∷◌ c rest

-- The endpoint that counts for a peer: what the node has set for that peer, where it has set something, and
-- otherwise the peer's own.
unfoldable pub own_endpoint : Node → Peer → String
unfolding lookup
own_endpoint n p = unless_blank (lookup p.id n.peer_endpoints) p.endpoint

-- What the peer's section assigns.
unfoldable pub section_of : Node → Peer → Section
unfolding own_endpoint
section_of n p = record no_section {
  public_key = p.public_key;
  endpoint = own_endpoint n p;
  allowed_ips = join ", " p.allowed_ips;
  keepalive = number_text p.keepalive;
}

-- What the interface's section assigns.
unfoldable pub interface_of : Node → String → Section
interface_of n key = record no_section {
  address = n.overlay_ip;
  listen_port = number_text n.listen_port;
  private_key = key;
}

endpoint_of-own : (n : Node) (p : Peer) → endpoint_of n p ≡ own_endpoint n p
unfolding endpoint_of own_endpoint
endpoint_of-own n p = over (lookup p.id n.peer_endpoints)
  where
    over : (o : Option String) → override_or o p.endpoint ≡ unless_blank o p.endpoint
    over none = refl
    over (some String.[]) = refl
    over (some (String.◌∷◌ c s)) = refl

blank_text : (v : String) → is_blank v ≡ true → v ≡ ""
blank_text String.[] h = refl
blank_text (String.◌∷◌ c s) h = absurd (ground (arith, h))

three_lines :
    (a b c : Bool) (k l m : String) (rest : List String)
    → line_if a k (line_if b l (line_if c m ("" ∷ []))) ++ rest
      ≡ line_if a k (line_if b l (line_if c m ("" ∷ rest)))
three_lines true true true k l m rest = refl
three_lines true true false k l m rest = refl
three_lines true false true k l m rest = refl
three_lines true false false k l m rest = refl
three_lines false true true k l m rest = refl
three_lines false true false k l m rest = refl
three_lines false false true k l m rest = refl
three_lines false false false k l m rest = refl

module _ (peers : List Section) (ls : List String) where
  if-keepalive :
      (k : ℕ)
      → read_lines ls ≡ (no_section, peers)
      → read_lines (line_if (not (eqb k 0)) ("PersistentKeepalive = " ⧺ decimal k) ls)
        ≡ (record no_section { keepalive = number_text k }, peers)
  if-keepalive k e = elim (Bool-cases (eqb k 0)) [
    | inl z ↦ rw z e
    | inr p ↦ rw p (read-keepalive (decimal k) no_section peers ls e)
  ]

  if-allowed_ips :
      (ips : List String) (k : String)
      → read_lines ls ≡ (record no_section { keepalive = k }, peers)
      → read_lines (line_if (not (is_empty ips)) ("AllowedIPs = " ⧺ join ", " ips) ls)
        ≡ (record no_section { allowed_ips = join ", " ips; keepalive = k }, peers)
  unfolding join
  if-allowed_ips [] k e = e
  if-allowed_ips (x ∷ xs) k e =
      read-allowed_ips (join ", " (x ∷ xs)) (record no_section { keepalive = k }) peers ls e

  if-endpoint :
      (v ips k : String)
      → read_lines ls ≡ (record no_section { allowed_ips = ips; keepalive = k }, peers)
      → read_lines (line_if (not (is_blank v)) ("Endpoint = " ⧺ v) ls)
        ≡ (record no_section { endpoint = v; allowed_ips = ips; keepalive = k }, peers)
  if-endpoint v ips k e = elim (Bool-cases (is_blank v)) [
    | inl b ↦ (let none_given : v ≡ "" = blank_text v b in rw none_given e)
    | inr nb ↦
        rw nb (read-endpoint v (record no_section { allowed_ips = ips; keepalive = k }) peers ls e)
  ]

  if-private_key :
      (v : String)
      → read_lines ls ≡ (no_section, peers)
      → read_lines (line_if (not (is_blank v)) ("PrivateKey = " ⧺ v) ls)
        ≡ (record no_section { private_key = v }, peers)
  if-private_key v e = elim (Bool-cases (is_blank v)) [
    | inl b ↦ (let none_given : v ≡ "" = blank_text v b in rw none_given e)
    | inr nb ↦ rw nb (read-private_key v no_section peers ls e)
  ]

  if-listen_port :
      (k : ℕ) (key : String)
      → read_lines ls ≡ (record no_section { private_key = key }, peers)
      → read_lines (line_if (not (eqb k 0)) ("ListenPort = " ⧺ decimal k) ls)
        ≡ (record no_section { listen_port = number_text k; private_key = key }, peers)
  if-listen_port k key e = elim (Bool-cases (eqb k 0)) [
    | inl z ↦ rw z e
    | inr p ↦
        rw p (read-listen_port (decimal k) (record no_section { private_key = key }) peers ls e)
  ]

  if-address :
      (v port key : String)
      → read_lines ls ≡ (record no_section { listen_port = port; private_key = key }, peers)
      → read_lines (line_if (not (is_blank v)) ("Address = " ⧺ v) ls)
        ≡ (record no_section { address = v; listen_port = port; private_key = key }, peers)
  if-address v port key e = elim (Bool-cases (is_blank v)) [
    | inl b ↦ (let none_given : v ≡ "" = blank_text v b in rw none_given e)
    | inr nb ↦
        rw nb
          (read-address v (record no_section { listen_port = port; private_key = key }) peers ls e)
  ]

peer_lines-append :
    (n : Node) (p : Peer) (rest : List String)
    → peer_lines n p ++ rest
      ≡ "[Peer]"
        ∷ ("PublicKey = " ⧺ p.public_key)
        ∷ line_if (not (is_blank (endpoint_of n p))) ("Endpoint = " ⧺ endpoint_of n p) (
            line_if (not (is_empty p.allowed_ips)) ("AllowedIPs = " ⧺ join ", " p.allowed_ips) (
              line_if
                (not (eqb p.keepalive 0))
                ("PersistentKeepalive = " ⧺ decimal p.keepalive)
                ("" ∷ rest)))
unfolding peer_lines
peer_lines-append n p rest =
    ap (λ more. "[Peer]" ∷ ("PublicKey = " ⧺ p.public_key) ∷ more)
      (three_lines (not (is_blank (endpoint_of n p))) (not (is_empty p.allowed_ips))
        (not (eqb p.keepalive 0)) ("Endpoint = " ⧺ endpoint_of n p)
        ("AllowedIPs = " ⧺ join ", " p.allowed_ips) ("PersistentKeepalive = " ⧺ decimal p.keepalive)
        rest)

read-peer_lines :
    (n : Node) (p : Peer) (peers : List Section) (rest : List String)
    → read_lines rest ≡ (no_section, peers)
    → read_lines (peer_lines n p ++ rest) ≡ (no_section, section_of n p ∷ peers)
unfolding section_of
read-peer_lines n p peers rest e =
    let pings : List String =
      line_if (not (eqb p.keepalive 0)) ("PersistentKeepalive = " ⧺ decimal p.keepalive)
        ("" ∷ rest) in
    let ips : List String =
      line_if (not (is_empty p.allowed_ips)) ("AllowedIPs = " ⧺ join ", " p.allowed_ips) pings in
    let ends : List String =
      line_if (not (is_blank (endpoint_of n p))) ("Endpoint = " ⧺ endpoint_of n p) ips in
    let assigned : Section = record no_section {
      endpoint = endpoint_of n p;
      allowed_ips = join ", " p.allowed_ips;
      keepalive = number_text p.keepalive;
    } in
    let e1 : read_lines pings ≡ (record no_section { keepalive = number_text p.keepalive }, peers) =
      if-keepalive peers ("" ∷ rest) p.keepalive (read-blank no_section peers rest e) in
    let e2 : read_lines ips ≡ (
      record no_section {
        allowed_ips = join ", " p.allowed_ips;
        keepalive = number_text p.keepalive;
      },
      peers,
    ) =
      if-allowed_ips peers pings p.allowed_ips (number_text p.keepalive) e1 in
    let e3 : read_lines ends ≡ (assigned, peers) =
      if-endpoint peers ips (endpoint_of n p) (join ", " p.allowed_ips) (number_text p.keepalive)
        e2 in
    rw (peer_lines-append n p rest) (
      rw (sym (endpoint_of-own n p)) (
        read-peer (record assigned { public_key = p.public_key }) peers
          (("PublicKey = " ⧺ p.public_key) ∷ ends)
          (read-public_key p.public_key assigned peers ends e3)))

read-peers_lines :
    (n : Node) (peers : List Peer) (rest : List String)
    → read_lines rest ≡ (no_section, [])
    → read_lines (peers_lines n peers ++ rest) ≡ (no_section, map (section_of n) peers)
unfolding peers_lines
read-peers_lines n [] rest e = e
read-peers_lines n (p ∷ peers) rest e =
    rw (append_assoc (peer_lines n p) (peers_lines n peers) rest) (
      read-peer_lines n p (map (section_of n) peers) (peers_lines n peers ++ rest)
        (read-peers_lines n peers rest e))

read-interface_lines :
    (n : Node) (key : String) (peers : List Section) (rest : List String)
    → read_lines rest ≡ (no_section, peers)
    → read_lines (interface_lines n key ++ rest) ≡ (interface_of n key, peers)
unfolding interface_lines interface_of
read-interface_lines n key peers rest e =
    let keys : List String = line_if (not (is_blank key)) ("PrivateKey = " ⧺ key) ("" ∷ rest) in
    let ports : List String =
      line_if (not (eqb n.listen_port 0)) ("ListenPort = " ⧺ decimal n.listen_port) keys in
    let all : List String =
      line_if (not (is_blank n.overlay_ip)) ("Address = " ⧺ n.overlay_ip) ports in
    let e1 : read_lines keys ≡ (record no_section { private_key = key }, peers) =
      if-private_key peers ("" ∷ rest) key (read-blank no_section peers rest e) in
    let e2 : read_lines ports ≡ (
      record no_section { listen_port = number_text n.listen_port; private_key = key },
      peers,
    ) =
      if-listen_port peers keys n.listen_port key e1 in
    let e3 : read_lines all ≡ (interface_of n key, peers) =
      if-address peers ports n.overlay_ip (number_text n.listen_port) key e2 in
    rw
      (three_lines (not (is_blank n.overlay_ip)) (not (eqb n.listen_port 0)) (not (is_blank key))
        ("Address = " ⧺ n.overlay_ip) ("ListenPort = " ⧺ decimal n.listen_port)
        ("PrivateKey = " ⧺ key) rest)
      (read-interface (interface_of n key) peers all e3)

-- The configuration that is written for a node reads back, where no text in it has a line break: as the
-- node's address, port and key, and for each peer, in order, its key, its endpoint, which is the node's
-- own for that peer where it has one, its AllowedIPs separated by commas, and its keepalive.
pub read_config-render_config :
    (n : Node) (peers : List Peer) (key : String)
    → IsLine n.overlay_ip
    → IsLine key
    → All (IsPlain n) peers
    → read_config (render_config n peers key) ≡ (interface_of n key, map (section_of n) peers)
unfolding read_config render_config
read_config-render_config n peers key ho hk hp =
    let all : All IsLine (interface_lines n key ++ peers_lines n peers) =
      All-append IsLine (interface_lines n key) (peers_lines n peers)
        (All-interface_lines n key ho hk) (All-peers_lines n peers hp) in
    ap read_lines (lines-unlines (interface_lines n key ++ peers_lines n peers) all)
    ∙ (ap read_lines (append_assoc (interface_lines n key) (peers_lines n peers) ("" ∷ []))
        ∙ read-interface_lines n key (map (section_of n) peers) (peers_lines n peers ++ "" ∷ []) (
            read-peers_lines n peers ("" ∷ [])
              (read-blank no_section [] [] (unfold read_lines in refl))))
