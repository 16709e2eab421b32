-- ===== src/Agent/Forwarding.antt =====
-- The routes that `applyStaticRoutes` of pkg/agent/render.go installs, against the peers of the WireGuard
-- configuration that is written with them.
use peer_wan.Prelude.{
  String, ◌==◌, Bool, true, false, not, ◌&&◌, ◌||◌, List, [], ◌∷◌, ◌≡◌, refl, arith, is_blank,
  contains, All, All-append, Any, eq_iff, ==_refl, Bool-cases, inl, inr, ◌⊎◌,
}
use peer_wan.Model.{Node, Peer, PolicyRule, validate}
use peer_wan.Policy.{World, Geoip, expand}
use peer_wan.Agent.Render.{
  next_id, targets_of, augment_each, augment_egress_allowed_ips, overlay_for_peer, bypass_each,
  host_of, Command, apply_prefix, apply_each, local_each, rule_commands, policy_commands,
  default_peer, default_commands, apply_static_routes,
}
use peer_wan.Routing.Hops.{hop_of}
use peer_wan.Agent.AllowedIps.{sends}
use peer_wan.Agent.Installed.{IsInstalled, apply_static_routes-IsInstalled}
use peer_wan.Agent.Carried.{
  IsCarried, IsOwn, IsServed, HasNames, named, carried, goes_out, hop_of-next_id,
}

only_first :
    (p : PolicyRule → Type 0) (pr : PolicyRule) (rest : List PolicyRule)
    → Any p (pr ∷ [])
    → Any p (pr ∷ rest)
only_first p pr rest (inl h) = inl h
only_first p pr rest (inr h) = absurd h

module _ (w : World) (g : Geoip) (rules : List PolicyRule) (peers : List Peer) where
  apply_prefix-IsServed :
      (ok : Command → Bool) (nh pfx : String)
      → IsCarried peers (host_of nh) pfx
      → All (IsServed w g rules peers) (apply_prefix ok nh pfx)
  unfolding apply_prefix
  apply_prefix-IsServed ok nh pfx h = elim (Bool-cases (is_blank pfx || is_blank nh)) [
    | inl b ↦ (let r : All (IsServed w g rules peers) (apply_prefix ok nh pfx) = rw b (tt, tt) in r)
    | inr f ↦ elim (Bool-cases (ok (Command.main_route pfx (host_of nh)))) [
      | inl one ↦ elim (Bool-cases (ok (Command.table_route pfx (host_of nh)))) [
        | inl two ↦
            (let r : All (IsServed w g rules peers) (apply_prefix ok nh pfx) =
                rw f (rw one (rw two (tt, (h, (h, (tt, tt)))))) in
              r)
        | inr two ↦
            (let r : All (IsServed w g rules peers) (apply_prefix ok nh pfx) =
                rw f (rw one (rw two (tt, (h, (h, tt))))) in
              r)
      ]
      | inr one ↦
          (let r : All (IsServed w g rules peers) (apply_prefix ok nh pfx) =
              rw f (rw one (tt, (h, tt))) in
            r)
    ]
  ]

  apply_each-IsServed :
      (ok : Command → Bool) (nh : String) (ps : List String)
      → ((pfx : String) → contains ps pfx ≡ true → IsCarried peers (host_of nh) pfx)
      → All (IsServed w g rules peers) (apply_each ok nh ps)
  unfolding apply_each
  apply_each-IsServed ok nh [] h = tt
  apply_each-IsServed ok nh (pfx ∷ ps) h =
      All-append (IsServed w g rules peers) (apply_prefix ok nh pfx) (apply_each ok nh ps)
        (apply_prefix-IsServed ok nh pfx (h pfx (ground (arith, eq_iff pfx pfx))))
        (apply_each-IsServed ok nh ps (λ q. λ e. h q (ground (arith, e))))

  local_each-IsServed :
      (gw : String × String) (ps : List String)
      → ((pfx : String) → contains ps pfx ≡ true → IsOwn w g rules pfx)
      → All (IsServed w g rules peers) (local_each gw ps)
  unfolding local_each
  local_each-IsServed gw [] h = tt
  local_each-IsServed gw (pfx ∷ ps) h =
      let here : IsOwn w g rules pfx = h pfx (ground (arith, ==_refl pfx)) in
      let later : All (IsServed w g rules peers) (local_each gw ps) =
        local_each-IsServed gw ps (λ q. λ e. h q (ground (arith, e))) in
      elim (Bool-cases (is_blank gw.0 || is_blank gw.1)) [
        | inl t ↦
            (let r : All (IsServed w g rules peers) (local_each gw (pfx ∷ ps)) =
                rw t (here, later) in
              r)
        | inr f ↦
            (let r : All (IsServed w g rules peers) (local_each gw (pfx ∷ ps)) =
                rw f (here, (here, later)) in
              r)
      ]

  bypass_each-IsServed : (cs : List String) → All (IsServed w g rules peers) (bypass_each cs)
  bypass_each-IsServed [] = (tt, tt)
  bypass_each-IsServed (c ∷ cs) = (tt, bypass_each-IsServed cs)

  default_commands-IsServed :
      (ps : List Peer) (n : Node) → All (IsServed w g rules peers) (default_commands ps n)
  unfolding default_commands
  default_commands-IsServed ps n =
      elim (Bool-cases (n.default_route && not (is_blank (overlay_for_peer (default_peer n) ps)))) [
        | inl t ↦
            (let r : All (IsServed w g rules peers) (default_commands ps n) =
                rw t (tt, bypass_each-IsServed n.bypass_cidrs) in
              r)
        | inr f ↦ (let r : All (IsServed w g rules peers) (default_commands ps n) = rw f tt in r)
      ]

module _ (w : World) (g : Geoip) where
  sends_first :
      (pr : PolicyRule) (id pfx : String)
      → hop_of pr ≡ id
      → is_blank id ≡ false
      → contains (expand w g pr) pfx ≡ true
      → sends w g (pr ∷ []) id pfx ≡ true
  sends_first pr id pfx at nb e = rw at (rw nb (rw e (rw (==_refl id) refl)))

module _ (w : World) (g : Geoip) (n : Node) (ok : Command → Bool) (gw : String × String)
    (peers : List Peer) (names : HasNames peers) where
  rule_commands-IsServed :
      (pr : PolicyRule)
      → ((id pfx : String)
          → sends w g (pr ∷ []) id pfx ≡ true
          → sends w g n.policy_rules id pfx ≡ true)
      → ((pfx : String) → IsOwn w g (pr ∷ []) pfx → IsOwn w g n.policy_rules pfx)
      → All
          (IsServed w g n.policy_rules (augment_each (targets_of w g n) peers))
          (rule_commands ok gw peers (expand w g pr) pr)
  unfolding rule_commands
  rule_commands-IsServed pr h own_too =
      let carried_all : List Peer = augment_each (targets_of w g n) peers in
      let nh : String = overlay_for_peer (next_id pr) peers in
      elim (Bool-cases (validate pr)) [
        | inr bad ↦
            (let r : All (IsServed w g n.policy_rules carried_all)
                  (rule_commands ok gw peers (expand w g pr) pr) =
                rw bad tt in
              r)
        | inl good ↦ elim (Bool-cases (pr.via_node == "local" || pr.via_node == "main")) [
          | inl own ↦
              (let mine : (pfx : String)
                    → contains (expand w g pr) pfx ≡ true
                    → IsOwn w g n.policy_rules pfx =
                  λ pfx. λ e. own_too pfx (inl (goes_out pr.via_node own, e)) in
                let r : All (IsServed w g n.policy_rules carried_all)
                    (rule_commands ok gw peers (expand w g pr) pr) =
                  rw good (
                    rw own (
                      local_each-IsServed w g n.policy_rules carried_all gw (expand w g pr)
                        mine)) in
                r)
          | inr far ↦ elim (Bool-cases (is_blank nh)) [
            | inl b ↦
                (let r : All (IsServed w g n.policy_rules carried_all)
                      (rule_commands ok gw peers (expand w g pr) pr) =
                    rw good (rw far (rw b tt)) in
                  r)
            | inr nb ↦
                (let id : is_blank (next_id pr) ≡ false = named (next_id pr) peers names nb in
                  let each : (pfx : String)
                      → contains (expand w g pr) pfx ≡ true
                      → IsCarried carried_all (host_of nh) pfx =
                    λ pfx. λ e.
                      carried w g n (next_id pr) pfx peers
                        (h (next_id pr) pfx
                          (sends_first w g pr (next_id pr) pfx (hop_of-next_id pr) id e))
                        nb in
                  let r : All (IsServed w g n.policy_rules carried_all)
                      (rule_commands ok gw peers (expand w g pr) pr) =
                    rw good (
                      rw far (
                        rw nb (
                          apply_each-IsServed w g n.policy_rules carried_all ok nh (expand w g pr)
                            each))) in
                  r)
          ]
        ]
      ]

  policy_commands-IsServed :
      (rules : List PolicyRule)
      → ((id pfx : String) → sends w g rules id pfx ≡ true → sends w g n.policy_rules id pfx ≡ true)
      → ((pfx : String) → IsOwn w g rules pfx → IsOwn w g n.policy_rules pfx)
      → All
          (IsServed w g n.policy_rules (augment_each (targets_of w g n) peers))
          (policy_commands w g ok gw peers rules)
  unfolding policy_commands
  policy_commands-IsServed [] h own_too = tt
  policy_commands-IsServed (pr ∷ rest) h own_too =
      All-append (IsServed w g n.policy_rules (augment_each (targets_of w g n) peers))
        (rule_commands ok gw peers (expand w g pr) pr) (policy_commands w g ok gw peers rest)
        (rule_commands-IsServed pr (λ id. λ pfx. λ e. h id pfx (ground (arith, e)))
          (λ pfx. λ e. own_too pfx (
            only_first
              (λ r.
                ((r.via_node ≡ "local") ⊎ (r.via_node ≡ "main"))
                × (contains (expand w g r) pfx ≡ true))
              pr rest e)))
        (policy_commands-IsServed rest (λ id. λ pfx. λ e. h id pfx (ground (arith, e)))
          (λ pfx. λ e. own_too pfx (inr e)))

-- Every prefix of a policy rule that has something to match and somewhere to send it, does not go out locally
-- by the `viaNode` "local" or "main", and the first hop of which is a peer with an address, gets a route into
-- the tunnel. Every route into the tunnel that is installed for a prefix, in the main table or in
-- table 100, goes to the address of a peer that accepts that prefix in the WireGuard configuration written
-- with it, and a route through the primary gateway, or a rule past table 100 at priority 150, is installed
-- only for a prefix of a policy rule with the `viaNode` "local" or "main". The peers have identifiers, and
-- names and country lists resolve the same both times.
pub apply_static_routes-IsServed :
    (w : World) (g : Geoip) (ok : Command → Bool) (gw : String × String) (peers : List Peer)
    (n : Node)
    → HasNames peers
    → All
        (IsServed w g n.policy_rules (augment_egress_allowed_ips w g peers n))
        (apply_static_routes w g ok gw peers n)
      × All (IsInstalled w g peers (apply_static_routes w g ok gw peers n)) n.policy_rules
unfolding augment_egress_allowed_ips apply_static_routes
apply_static_routes-IsServed w g ok gw peers n names =
    let carried_all : List Peer = augment_each (targets_of w g n) peers in
    (
      All-append (IsServed w g n.policy_rules carried_all) (default_commands peers n)
          (policy_commands w g ok gw peers n.policy_rules)
          (default_commands-IsServed w g n.policy_rules carried_all peers n)
          (policy_commands-IsServed w g n ok gw peers names n.policy_rules (λ id. λ pfx. λ e. e)
            (λ pfx. λ e. e)),
      apply_static_routes-IsInstalled w g ok gw peers n,
    )
