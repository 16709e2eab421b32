-- ===== src/Agent/AllowedIps.antt =====
-- The prefixes that each peer accepts after `augmentEgressAllowedIPs` of pkg/agent/render.go.
use peer_wan.Prelude.{
  String, ◌==◌, Bool, true, false, not, ◌&&◌, ◌||◌, Option, none, some, List, [], ◌∷◌, ◌++◌, ◌≡◌,
  refl, sym, arith, is_blank, is_empty, contains, contains-append, eq_iff, Bool-cases, inl, inr,
}
use peer_wan.Prelude.Dict.{lookup, lookup-insert}
use peer_wan.Model.{Node, Peer, PolicyRule}
use peer_wan.Policy.{World, Geoip, add_new, expand}
use peer_wan.Routing.Hops.{hop_of}
use peer_wan.Agent.Render.{
  Targets, targets_at, append_targets, target_of, collect, targets_of, add_wanted, with_wanted,
  augment_peer,
}

contains-add_new :
    (p : String) (out : List String) (a : String)
    → contains (add_new p out) a ≡ (contains out a || (p == a))
unfolding add_new
contains-add_new p out a = ground (arith, contains-append out (p ∷ []) a, eq_iff p a)

contains-add_wanted :
    (want ips : List String) (a : String)
    → contains (add_wanted want ips) a ≡ (contains ips a || contains want a)
unfolding add_wanted
contains-add_wanted [] ips a = ground arith
contains-add_wanted (p ∷ want) ips a =
    ground (arith, contains-add_wanted want (add_new p ips) a, contains-add_new p ips a)

contains-append_targets :
    (j id : String) (pfx : List String) (t : Targets) (a : String)
    → contains (targets_at id (append_targets j pfx t)) a
      ≡ (contains (targets_at id t) a || ((j == id) && contains pfx a))
unfolding append_targets targets_at
contains-append_targets j id pfx t a = elim (Bool-cases (j == id)) [
  | inl e ↦
      (let same : j ≡ id = (eq_iff j id).0 e in
        let r : contains (targets_at id (append_targets j pfx t)) a
            ≡ (contains (targets_at id t) a || ((j == id) && contains pfx a)) =
          rw (lookup-insert j id (targets_at j t ++ pfx) t)
            (rw e (rw same (contains-append (targets_at id t) pfx a))) in
        r)
  | inr d ↦
      (let r : contains (targets_at id (append_targets j pfx t)) a
            ≡ (contains (targets_at id t) a || ((j == id) && contains pfx a)) =
          rw (lookup-insert j id (targets_at j t ++ pfx) t) (rw d (ground arith)) in
        r)
]

-- Whether one of the rules sends the prefix to the peer.
abbrev pub sends : World → Geoip → List PolicyRule → String → String → Bool
sends w g [] id a = false
sends w g (pr ∷ rest) id a =
    (not (is_blank (hop_of pr)) && ((hop_of pr == id) && contains (expand w g pr) a))
    || sends w g rest id a

hop_of-target_of : (pr : PolicyRule) → target_of pr ≡ hop_of pr
unfolding target_of
hop_of-target_of pr = at_hops pr.path
  where
    at_hops :
        (path : List String)
        → target_of (record pr { path = path }) ≡ hop_of (record pr { path = path })
    at_hops [] = refl
    at_hops (hop ∷ hops) = refl

none_of : (ps : List String) (a : String) → is_empty ps ≡ true → contains ps a ≡ false
none_of [] a h = refl
none_of (p ∷ ps) a h = absurd (ground (arith, h))

or_false : (b : Bool) → b ≡ (b || false)
or_false b = ground arith

skipped :
    (old blank same later : Bool) (pfx : List String) (a : String)
    → (is_empty pfx || blank) ≡ true
    → (old || later) ≡ (old || ((not blank && (same && contains pfx a)) || later))
skipped old blank same later pfx a h = ground (arith, none_of pfx a)

taken :
    (old blank same later empty has : Bool)
    → (empty || blank) ≡ false
    → ((old || (same && has)) || later) ≡ (old || ((not blank && (same && has)) || later))
taken old blank same later empty has h = ground arith

contains-collect :
    (w : World) (g : Geoip) (rules : List PolicyRule) (t : Targets) (id a : String)
    → contains (targets_at id (collect w g rules t)) a
      ≡ (contains (targets_at id t) a || sends w g rules id a)
unfolding collect
contains-collect w g [] t id a = or_false (contains (targets_at id t) a)
contains-collect w g (pr ∷ rest) t id a =
    let pfx : List String = expand w g pr in
    elim (Bool-cases (is_empty pfx || is_blank (hop_of pr))) [
      | inl skip ↦
          (let r : contains (targets_at id (collect w g (pr ∷ rest) t)) a
                ≡ (contains (targets_at id t) a || sends w g (pr ∷ rest) id a) =
              rw (hop_of-target_of pr) (
                rw skip (
                  rw (contains-collect w g rest t id a) (
                    skipped (contains (targets_at id t) a) (is_blank (hop_of pr)) (hop_of pr == id)
                      (sends w g rest id a) pfx a skip))) in
            r)
      | inr take ↦
          (let r : contains (targets_at id (collect w g (pr ∷ rest) t)) a
                ≡ (contains (targets_at id t) a || sends w g (pr ∷ rest) id a) =
              rw (hop_of-target_of pr) (
                rw take (
                  rw (contains-collect w g rest (append_targets (hop_of pr) pfx t) id a) (
                    rw (contains-append_targets (hop_of pr) id pfx t a) (
                      taken (contains (targets_at id t) a) (is_blank (hop_of pr)) (hop_of pr == id)
                        (sends w g rest id a) (is_empty pfx) (contains pfx a) take)))) in
            r)
    ]

contains-targets_of :
    (w : World) (g : Geoip) (n : Node) (id a : String)
    → contains (targets_at id (targets_of w g n)) a ≡ (
        sends w g n.policy_rules id a
        || ((n.default_route && not (is_blank n.egress_peer_id))
            && ((n.egress_peer_id == id) && ("0.0.0.0/0" == a))))
unfolding targets_of targets_at lookup
contains-targets_of w g n id a = ground (
  arith,
  contains-collect w g n.policy_rules [] id a,
  contains-append_targets n.egress_peer_id id ("0.0.0.0/0" ∷ []) (collect w g n.policy_rules []) a,
)

abbrev or_nothing : Option (List String) → List String
or_nothing none = []
or_nothing (some ps) = ps

contains-with_wanted :
    (o : Option (List String)) (p : Peer) (a : String)
    → contains (with_wanted o p).allowed_ips a
      ≡ (contains p.allowed_ips a || contains (or_nothing o) a)
unfolding with_wanted
contains-with_wanted none p a = or_false (contains p.allowed_ips a)
contains-with_wanted (some want) p a = contains-add_wanted want p.allowed_ips a

at_lookup :
    (o : Option (List String)) (id : String) (t : Targets)
    → lookup id t ≡ o
    → targets_at id t ≡ or_nothing o
unfolding targets_at
at_lookup none id t e = rw e refl
at_lookup (some ps) id t e = rw e refl

-- A peer then accepts exactly this: what it accepted before; the prefixes of each policy rule that is
-- sent to it, as the first hop of the rule's path or, without a path, its `viaNode`; and 0.0.0.0/0 where the
-- node takes a default route and names this peer as its egress. A default next hop plays no part.
pub augment_peer_lem :
    (w : World) (g : Geoip) (n : Node) (p : Peer) (a : String)
    → contains (augment_peer (targets_of w g n) p).allowed_ips a ≡ (
        contains p.allowed_ips a
        || (sends w g n.policy_rules p.id a
            || ((n.default_route && not (is_blank n.egress_peer_id))
                && ((n.egress_peer_id == p.id) && ("0.0.0.0/0" == a)))))
unfolding augment_peer
augment_peer_lem w g n p a =
    let t : Targets = targets_of w g n in
    rw (contains-with_wanted (lookup p.id t) p a) (
      rw (sym (at_lookup (lookup p.id t) p.id t refl)) (rw (contains-targets_of w g n p.id a) refl))
