-- ===== src/Agent/Carried.antt =====
-- Which peer accepts a prefix and is at an address, after `augmentEgressAllowedIPs` of pkg/agent/render.go.
use peer_wan.Prelude.{
  String, ◌==◌, true, false, Option, none, some, List, [], ◌∷◌, ◌≡◌, refl, sym, ◌∙◌, arith,
  is_blank, contains, All, Any, eq_iff, Bool-cases, inl, inr, ◌⊎◌, eq_of_==, ◌||◌,
}
use peer_wan.Prelude.Dict.{lookup}
use peer_wan.Model.{Node, Peer, PolicyRule}
use peer_wan.Policy.{World, Geoip, add_new, expand}
use peer_wan.Routing.Hops.{hop_of}
use peer_wan.Agent.Render.{
  next_id, Targets, targets_of, add_wanted, with_wanted, augment_peer, augment_each,
  overlay_for_peer, or_later, host_of, Command,
}
use peer_wan.Agent.AllowedIps.{sends, augment_peer_lem}

-- The peer is reached at the address, which is the first that it accepts.
abbrev pub IsAt : String → List String → Type 0
IsAt ip [] = ⊥
IsAt ip (first ∷ ips) = host_of first ≡ ip

-- Some peer is at the address and accepts the prefix.
abbrev pub IsCarried : List Peer → String → String → Type 0
IsCarried peers ip pfx =
    Any (λ p. IsAt ip p.allowed_ips × (contains p.allowed_ips pfx ≡ true)) peers

-- Some rule that goes out locally, `viaNode` being "local" or "main", has the prefix.
abbrev pub IsOwn : World → Geoip → List PolicyRule → String → Type 0
IsOwn w g rules pfx =
    Any
      (λ r. ((r.via_node ≡ "local") ⊎ (r.via_node ≡ "main")) × (contains (expand w g r) pfx ≡ true))
      rules

-- A route into the tunnel for a prefix is carried; a rule or route past the tunnel for a prefix is there
-- for a rule that goes out locally. The other commands are not for a prefix of a policy rule, or
-- only repeat the main table's priority for one that is carried.
abbrev pub IsServed : World → Geoip → List PolicyRule → List Peer → Command → Type 0
IsServed w g rules peers (Command.main_route pfx ip) = IsCarried peers ip pfx
IsServed w g rules peers (Command.table_route pfx ip) = IsCarried peers ip pfx
IsServed w g rules peers (Command.local_rule pfx) = IsOwn w g rules pfx
IsServed w g rules peers (Command.local_route pfx) = IsOwn w g rules pfx
IsServed w g rules peers (Command.link_route ip) = Unit
IsServed w g rules peers (Command.default_via ip) = Unit
IsServed w g rules peers (Command.bypass_rule c) = Unit
IsServed w g rules peers Command.lookup_100 = Unit
IsServed w g rules peers (Command.prefer_main pfx) = Unit

IsAt-add_new : (ip p : String) (ips : List String) → IsAt ip ips → IsAt ip (add_new p ips)
unfolding add_new
IsAt-add_new ip p [] h = absurd h
IsAt-add_new ip p (first ∷ ips) h = elim (Bool-cases (contains (first ∷ ips) p)) [
  | inl t ↦ (let r : IsAt ip (add_new p (first ∷ ips)) = rw t h in r)
  | inr f ↦ (let r : IsAt ip (add_new p (first ∷ ips)) = rw f h in r)
]

IsAt-add_wanted :
    (ip : String) (want ips : List String) → IsAt ip ips → IsAt ip (add_wanted want ips)
unfolding add_wanted
IsAt-add_wanted ip [] ips h = h
IsAt-add_wanted ip (p ∷ want) ips h =
    IsAt-add_wanted ip want (add_new p ips) (IsAt-add_new ip p ips h)

IsAt-with_wanted :
    (ip : String) (o : Option (List String)) (p : Peer)
    → IsAt ip p.allowed_ips
    → IsAt ip (with_wanted o p).allowed_ips
unfolding with_wanted
IsAt-with_wanted ip none p h = h
IsAt-with_wanted ip (some want) p h = IsAt-add_wanted ip want p.allowed_ips h

IsAt-augment_peer :
    (ip : String) (t : Targets) (p : Peer)
    → IsAt ip p.allowed_ips
    → IsAt ip (augment_peer t p).allowed_ips
unfolding augment_peer
IsAt-augment_peer ip t p h = IsAt-with_wanted ip (lookup p.id t) p h

or_later_cases :
    (ips : List String) (later : String)
    → is_blank (or_later ips later) ≡ false
    → IsAt (host_of (or_later ips later)) ips ⊎ (or_later ips later ≡ later)
or_later_cases [] later h = inr refl
or_later_cases (ip ∷ ips) later h = inl refl

-- The plan's peers have identifiers.
abbrev pub HasNames : List Peer → Type 0
HasNames peers = All (λ p. is_blank p.id ≡ false) peers

pub named :
    (id : String) (peers : List Peer)
    → HasNames peers
    → is_blank (overlay_for_peer id peers) ≡ false
    → is_blank id ≡ false
unfolding overlay_for_peer
named id [] h nb = absurd (ground (arith, nb))
named id (p ∷ ps) h nb = elim (Bool-cases (p.id == id)) [
  | inl e ↦
      (let same : p.id ≡ id = (eq_iff p.id id).0 e in
        let r : is_blank id ≡ false = rw (sym same) h.0 in r)
  | inr d ↦
      (let later : is_blank (overlay_for_peer id ps) ≡ false = ground (arith, nb, d) in
        named id ps h.1 later)
]

readdressed :
    (peers : List Peer) (nh later pfx : String)
    → nh ≡ later
    → IsCarried peers (host_of later) pfx
    → IsCarried peers (host_of nh) pfx
readdressed peers nh later pfx e h = rw e h

module _ (w : World) (g : Geoip) (n : Node) where
  accepts-sent :
      (p : Peer) (pfx : String)
      → sends w g n.policy_rules p.id pfx ≡ true
      → contains (augment_peer (targets_of w g n) p).allowed_ips pfx ≡ true
  accepts-sent p pfx h = ground (arith, augment_peer_lem w g n p pfx, h)

  pub carried :
      (id pfx : String) (peers : List Peer)
      → sends w g n.policy_rules id pfx ≡ true
      → is_blank (overlay_for_peer id peers) ≡ false
      → IsCarried (augment_each (targets_of w g n) peers) (host_of (overlay_for_peer id peers)) pfx
  unfolding overlay_for_peer
  carried id pfx [] s nb = absurd (ground (arith, nb))
  carried id pfx (p ∷ ps) s nb = elim (Bool-cases (p.id == id)) [
    | inl e ↦
        (let chosen : overlay_for_peer id (p ∷ ps)
              ≡ or_later p.allowed_ips (overlay_for_peer id ps) =
            rw e refl in
          let here : is_blank (or_later p.allowed_ips (overlay_for_peer id ps)) ≡ false =
            rw (sym chosen) nb in
          let same : p.id ≡ id = (eq_iff p.id id).0 e in
          let sent : sends w g n.policy_rules p.id pfx ≡ true = rw same s in
          elim (or_later_cases p.allowed_ips (overlay_for_peer id ps) here) [
            | inl at ↦
                readdressed (augment_each (targets_of w g n) (p ∷ ps))
                  (overlay_for_peer id (p ∷ ps)) (or_later p.allowed_ips (overlay_for_peer id ps))
                  pfx chosen
                  (inl (
                    IsAt-augment_peer (host_of (or_later p.allowed_ips (overlay_for_peer id ps)))
                        (targets_of w g n) p at,
                    accepts-sent p pfx sent,
                  ))
            | inr later ↦
                (let nb2 : is_blank (overlay_for_peer id ps) ≡ false = rw (sym later) here in
                  readdressed (augment_each (targets_of w g n) (p ∷ ps))
                    (overlay_for_peer id (p ∷ ps)) (overlay_for_peer id ps) pfx (chosen ∙ later)
                    (inr (carried id pfx ps s nb2)))
          ])
    | inr d ↦
        (let skipped : overlay_for_peer id (p ∷ ps) ≡ overlay_for_peer id ps = rw d refl in
          let nb2 : is_blank (overlay_for_peer id ps) ≡ false = rw (sym skipped) nb in
          readdressed (augment_each (targets_of w g n) (p ∷ ps)) (overlay_for_peer id (p ∷ ps))
            (overlay_for_peer id ps) pfx skipped (inr (carried id pfx ps s nb2)))
  ]

pub hop_of-next_id : (pr : PolicyRule) → hop_of pr ≡ next_id pr
unfolding next_id
hop_of-next_id pr = at_hops pr.path
  where
    at_hops :
        (path : List String)
        → hop_of (record pr { path = path }) ≡ next_id (record pr { path = path })
    at_hops [] = refl
    at_hops (hop ∷ hops) = refl

pub goes_out :
    (via : String) → (via == "local" || via == "main") ≡ true → (via ≡ "local") ⊎ (via ≡ "main")
goes_out via h = elim (Bool-cases (via == "local")) [
  | inl t ↦ inl (eq_of_== via "local" t)
  | inr f ↦ inr (eq_of_== via "main" (ground (arith, h, f)))
]
