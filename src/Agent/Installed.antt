-- ===== src/Agent/Installed.antt =====
-- That `applyStaticRoutes` of pkg/agent/render.go installs a route for each policy prefix.
use peer_wan.Prelude.{
  String, ◌==◌, Bool, true, false, not, ◌&&◌, ◌||◌, List, [], ◌∷◌, ◌++◌, ◌≡◌, refl, sym, subst,
  arith, is_blank, is_empty, contains, All, Any, eq_iff, Bool-cases, inl, inr, ◌⊎◌, if◌then◌else◌,
}
use peer_wan.Model.{Node, Peer, PolicyRule, validate}
use peer_wan.Routing.Hops.{hop_of}
use peer_wan.Policy.{World, Geoip, expand}
use peer_wan.Policy.Expansion.{is_complete, expand_lem}
use peer_wan.Agent.Render.{
  next_id, overlay_for_peer, or_later, Command, apply_prefix, apply_each, rule_commands,
  policy_commands, default_commands, apply_static_routes,
}
use peer_wan.Agent.Carried.{goes_out, hop_of-next_id}

abbrev first_text : List String → String
first_text [] = ""
first_text (ip ∷ ips) = ip

-- The first address of the first peer with this identifier that has one.
abbrev pub address_of : String → List Peer → String
address_of id [] = ""
address_of id (p ∷ ps) =
    if (p.id == id) && not (is_empty p.allowed_ips)
    then first_text p.allowed_ips
    else address_of id ps

abbrev pub IsRouteFor : String → Command → Type 0
IsRouteFor pfx (Command.main_route q ip) = q ≡ pfx
IsRouteFor pfx _ = ⊥

-- Each prefix of the rule has a route into the tunnel, unless the rule has nothing to match or nowhere to
-- send it, goes out locally, or the peer that is its first hop has no address.
abbrev pub IsInstalled : World → Geoip → List Peer → List Command → PolicyRule → Type 0
IsInstalled w g peers cmds pr =
    (is_complete pr ≡ false)
    ⊎ (((pr.via_node ≡ "local") ⊎ (pr.via_node ≡ "main"))
        ⊎ ((is_blank (address_of (hop_of pr) peers) ≡ true)
            ⊎ All (λ pfx. Any (IsRouteFor pfx) cmds) (expand w g pr)))

first_or_later :
    (same : Bool) (ips : List String) (later : String)
    → (if same then or_later ips later else later)
      ≡ (if same && not (is_empty ips) then first_text ips else later)
first_or_later true [] later = refl
first_or_later true (ip ∷ ips) later = refl
first_or_later false ips later = refl

overlay_for_peer-address_of :
    (id : String) (peers : List Peer) → overlay_for_peer id peers ≡ address_of id peers
unfolding overlay_for_peer
overlay_for_peer-address_of id [] = refl
overlay_for_peer-address_of id (p ∷ ps) =
    rw (overlay_for_peer-address_of id ps)
      (first_or_later (p.id == id) p.allowed_ips (address_of id ps))

module _ {A : Type 0} (f : A → Type 0) where
  Any-left : (xs ys : List A) → Any f xs → Any f (xs ++ ys)
  Any-left [] ys h = absurd h
  Any-left (x ∷ xs) ys (inl h) = inl h
  Any-left (x ∷ xs) ys (inr h) = inr (Any-left xs ys h)

  Any-right : (xs ys : List A) → Any f ys → Any f (xs ++ ys)
  Any-right [] ys h = h
  Any-right (x ∷ xs) ys h = inr (Any-right xs ys h)

-- Each of these prefixes has a route among the commands.
abbrev Routed : List Command → List String → Type 0
Routed cmds = All (λ pfx. Any (IsRouteFor pfx) cmds)

Routed-left : (a b : List Command) (ps : List String) → Routed a ps → Routed (a ++ b) ps
Routed-left a b [] h = tt
Routed-left a b (p ∷ ps) h = (Any-left (IsRouteFor p) a b h.0, Routed-left a b ps h.1)

Routed-right : (a b : List Command) (ps : List String) → Routed b ps → Routed (a ++ b) ps
Routed-right a b [] h = tt
Routed-right a b (p ∷ ps) h = (Any-right (IsRouteFor p) a b h.0, Routed-right a b ps h.1)

module _ (ok : Command → Bool) (nh : String) (nb : is_blank nh ≡ false) where
  apply_prefix-routes :
      (pfx : String) → is_blank pfx ≡ false → Any (IsRouteFor pfx) (apply_prefix ok nh pfx)
  unfolding apply_prefix
  apply_prefix-routes pfx given = rw given (rw nb (inr (inl refl)))

  apply_each-Routed : (ps : List String) → contains ps "" ≡ false → Routed (apply_each ok nh ps) ps
  unfolding apply_each
  apply_each-Routed [] h = tt
  apply_each-Routed (pfx ∷ ps) h = (
    Any-left (IsRouteFor pfx) (apply_prefix ok nh pfx) (apply_each ok nh ps)
        (apply_prefix-routes pfx (not_blank pfx (ground (arith, h)))),
    Routed-right (apply_prefix ok nh pfx) (apply_each ok nh ps) ps
        (apply_each-Routed ps (ground (arith, h))),
  )
    where
      not_blank : (s : String) → (s == "") ≡ false → is_blank s ≡ false
      not_blank String.[] e = absurd (ground (arith, e, eq_iff "" ""))
      not_blank (String.◌∷◌ c s) e = refl

module _ (w : World) (g : Geoip) (ok : Command → Bool) (gw : String × String)
    (peers : List Peer) where
  rule_commands-IsInstalled :
      (pr : PolicyRule) → IsInstalled w g peers (rule_commands ok gw peers (expand w g pr) pr) pr
  unfolding rule_commands validate
  rule_commands-IsInstalled pr = elim (Bool-cases (is_complete pr)) [
    | inr bad ↦ inl bad
    | inl good ↦ elim (Bool-cases (pr.via_node == "local" || pr.via_node == "main")) [
      | inl own ↦ inr (inl (goes_out pr.via_node own))
      | inr far ↦ elim (Bool-cases (is_blank (overlay_for_peer (next_id pr) peers))) [
        | inl b ↦
            (let e : overlay_for_peer (next_id pr) peers ≡ address_of (hop_of pr) peers =
                rw (sym (hop_of-next_id pr)) (overlay_for_peer-address_of (hop_of pr) peers) in
              inr (inr (inl (subst (λ a. is_blank a ≡ true) e b))))
        | inr nb ↦
            (let routed : Routed (rule_commands ok gw peers (expand w g pr) pr) (expand w g pr) =
                rw good (
                  rw far (
                    rw nb (
                      apply_each-Routed ok (overlay_for_peer (next_id pr) peers) nb (expand w g pr)
                        (expand_lem w g pr).0.1))) in
              inr (inr (inr routed)))
      ]
    ]
  ]

  IsInstalled-carry :
      (a b : List Command) (pr : PolicyRule)
      → ((ps : List String) → Routed a ps → Routed b ps)
      → IsInstalled w g peers a pr
      → IsInstalled w g peers b pr
  IsInstalled-carry a b pr f (inl h) = inl h
  IsInstalled-carry a b pr f (inr (inl h)) = inr (inl h)
  IsInstalled-carry a b pr f (inr (inr (inl h))) = inr (inr (inl h))
  IsInstalled-carry a b pr f (inr (inr (inr h))) = inr (inr (inr (f (expand w g pr) h)))

  All-carry :
      (a b : List Command)
      → ((ps : List String) → Routed a ps → Routed b ps)
      → (rules : List PolicyRule) → All (IsInstalled w g peers a) rules
      → All (IsInstalled w g peers b) rules
  All-carry a b f [] h = tt
  All-carry a b f (pr ∷ rules) h = (IsInstalled-carry a b pr f h.0, All-carry a b f rules h.1)

  policy_commands-IsInstalled :
      (rules : List PolicyRule)
      → All (IsInstalled w g peers (policy_commands w g ok gw peers rules)) rules
  unfolding policy_commands
  policy_commands-IsInstalled [] = tt
  policy_commands-IsInstalled (pr ∷ rest) =
      let first : List Command = rule_commands ok gw peers (expand w g pr) pr in
      let later : List Command = policy_commands w g ok gw peers rest in
      (
        IsInstalled-carry first (first ++ later) pr (Routed-left first later)
            (rule_commands-IsInstalled pr),
        All-carry later (first ++ later) (Routed-right first later) rest
            (policy_commands-IsInstalled rest),
      )

  pub apply_static_routes-IsInstalled :
      (n : Node)
      → All (IsInstalled w g peers (apply_static_routes w g ok gw peers n)) n.policy_rules
  unfolding apply_static_routes
  apply_static_routes-IsInstalled n =
      let first : List Command = default_commands peers n in
      let later : List Command = policy_commands w g ok gw peers n.policy_rules in
      All-carry later (first ++ later) (Routed-right first later) n.policy_rules
        (policy_commands-IsInstalled n.policy_rules)
