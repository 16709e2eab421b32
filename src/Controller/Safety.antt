-- ===== src/Controller/Safety.antt =====
-- Who may change what through the handlers of pkg/api/controller.go.
use peer_wan.Prelude.{
  ℕ, suc, String, Bool, true, false, Option, none, some, List, [], ◌∷◌, ◌⊎◌, inl, inr, ◌≡◌, refl,
  arith, sym, subst, not, eq_iff, ◌==◌, ==_refl, Bool-cases, is_blank, if◌then◌else◌,
}
use peer_wan.Prelude.Dict.{Dict, lookup-insert}
use peer_wan.Model.{Node, HealthReport}
use peer_wan.Topology.{build_peer_plan}
use peer_wan.Routing.{RuleMap, expand_policy_rules, rules_at}
use peer_wan.Store.{
  MemoryStore, list_nodes, list_health, get_node, upsert_node, with_version, version_string,
  version_at, save_plan, set_global_plan_version, append_audit,
}
use peer_wan.Controller.{
  Host, Controller, save_plan_with_rules, health_map, save_each, recompute_all_plans,
  bump_plan_version,
}
use peer_wan.Controller.Handlers.{Reply, register, accept, token_matches}
use peer_wan.Controller.Registration.{
  Registration, registered, merge, merged_overlay, unchanged, persist, node_of, with_router_id,
}

abbrev token_of : String → String → String
token_of s header = if is_blank s then header else s

abbrev owns : Option Node → String → Bool
owns none token = false
owns (some n) token = n.provision_token == token

-- Who may register a node: with a token, whoever has the one of the stored node; without one, whoever is
-- signed in.
abbrev pub may_register : Bool → Option Node → String → String → Bool
may_register auth existing sent header =
    let token : String = token_of sent header in
    if is_blank token then auth else owns existing token

-- What the request with or without an identifier gets: an answer, where it may, and otherwise an error that
-- leaves the controller as it was.
abbrev pub Answers {ℓ} : {A : Type ℓ} → Bool → Bool → Controller → Reply A × Controller → Type 0
Answers true true c (Reply.replied x, c') = Unit
Answers true true c (Reply.http_error code text, c') = ⊥
Answers true false c (Reply.replied x, c') = ⊥
Answers true false c (Reply.http_error code text, c') = (code ≡ 401) × (c' ≡ c)
Answers false may c (Reply.replied x, c') = ⊥
Answers false may c (Reply.http_error code text, c') = (code ≡ 400) × (c' ≡ c)

blank_or : (t s : String) → is_blank s ≡ true → is_blank t ≡ false → (s == t) ≡ false
blank_or t s b nb = elim (Bool-cases (s == t)) [
  | inl e ↦
      (let same : s ≡ t = (eq_iff s t).0 e in
        let blank : is_blank t ≡ true = subst (λ x. is_blank x ≡ true) same b in
        absurd (ground (arith, blank, nb)))
  | inr f ↦ f
]

token_matches-owns :
    (o : Option Node) (token : String)
    → is_blank token ≡ false
    → token_matches o token ≡ owns o token
unfolding token_matches
token_matches-owns none token nb = refl
token_matches-owns (some n) token nb = elim (Bool-cases (is_blank n.provision_token)) [
  | inl b ↦
      (let r : token_matches (some n) token ≡ owns (some n) token =
          rw b (sym (blank_or token n.provision_token b nb)) in
        r)
  | inr f ↦ (let r : token_matches (some n) token ≡ owns (some n) token = rw f refl in r)
]

-- A registration without an identifier is refused with the code 400. One with an identifier is answered
-- exactly where its token, of the request or else of the header, is the one that is stored with the node, or
-- where it has no token and the user is signed in; otherwise it is refused with the code 401. So a session
-- does not help against a wrong token, and a node that is not stored registers with a session only. A
-- refused registration leaves the controller as it was.
pub register-Answers :
    (host : Host) (now : ℕ) (auth : Bool) (header : String) (req : Registration) (c : Controller)
    → Answers
        (not (is_blank req.id))
        (may_register auth (get_node req.id c.store) req.provision_token header)
        c
        (register host now auth header req c)
unfolding register accept
register-Answers host now auth header req c =
    let token : String = token_of req.provision_token header in
    let Goal : Type 0 =
      Answers (not (is_blank req.id))
        (may_register auth (get_node req.id c.store) req.provision_token header) c
        (register host now auth header req c) in
    elim (Bool-cases (is_blank req.id)) [
      | inl b ↦ (let r : Goal = rw b (refl, refl) in r)
      | inr nb ↦ elim (Bool-cases (is_blank token)) [
        | inl t ↦ elim (Bool-cases auth) [
          | inl a ↦ (let r : Goal = rw nb (rw t (rw a tt)) in r)
          | inr a ↦ (let r : Goal = rw nb (rw t (rw a (refl, refl))) in r)
        ]
        | inr t ↦
            (let same : token_matches (get_node req.id c.store) token
                  ≡ owns (get_node req.id c.store) token =
                token_matches-owns (get_node req.id c.store) token t in
              elim (Bool-cases (owns (get_node req.id c.store) token)) [
                | inl o ↦ (let r : Goal = rw nb (rw t (rw same (rw o tt))) in r)
                | inr o ↦ (let r : Goal = rw nb (rw t (rw same (rw o (refl, refl)))) in r)
              ])
      ]
    ]

save_each-nodes :
    (host : Host) (now : ℕ) (all : List Node) (health : Dict HealthReport) (rules : RuleMap)
    (rest : List Node) (c : Controller)
    → (save_each host now all health rules rest c).store.nodes ≡ c.store.nodes
unfolding save_each save_plan_with_rules save_plan set_global_plan_version
save_each-nodes host now all health rules [] c = refl
save_each-nodes host now all health rules (n ∷ rest) c =
    save_each-nodes host now all health rules rest
      (save_plan_with_rules host now n (build_peer_plan n.id all health) (rules_at n.id rules) c)

recompute_all_plans-nodes :
    (host : Host) (now : ℕ) (c : Controller)
    → (recompute_all_plans host now c).store.nodes ≡ c.store.nodes
unfolding recompute_all_plans
recompute_all_plans-nodes host now c =
    save_each-nodes host now (list_nodes c.store) (health_map (list_health c.store) [])
      (expand_policy_rules (list_nodes c.store)) (list_nodes c.store) c

accept-nodes :
    (host : Host) (now : ℕ) (req : Registration) (token : String) (c : Controller)
    → (accept host now req token c).1.store.nodes
      ≡ (persist
          (get_node req.id c.store)
          req
          (registered (get_node req.id c.store) req token)
          c.store).1.nodes
unfolding accept bump_plan_version append_audit
accept-nodes host now req token c = recompute_all_plans-nodes host now _

registered-id :
    (o : Option Node) (req : Registration) (token : String) → (registered o req token).id ≡ req.id
unfolding registered with_router_id merge node_of
registered-id none req token = ground arith
registered-id (some e) req token = ground arith

-- What a registration leaves of the stored node `e`.
abbrev pub KeepsSecrets : Node → Option Node → Type 0
KeepsSecrets e none = ⊥
KeepsSecrets e (some n) =
    (n.provision_token ≡ e.provision_token)
    × (n.private_key ≡ e.private_key)
    × (n.overlay_ip ≡ e.overlay_ip)

registered-KeepsSecrets :
    (e : Node) (req : Registration) (token v : String)
    → is_blank e.overlay_ip ≡ false
    → KeepsSecrets e (some (with_version v (registered (some e) req token)))
unfolding registered with_router_id merge merged_overlay node_of with_version
registered-KeepsSecrets e req token v h = ground (arith, h)

persist-KeepsSecrets :
    (e : Node) (req : Registration) (token : String) (s : MemoryStore)
    → get_node req.id s ≡ some e
    → is_blank e.overlay_ip ≡ false
    → KeepsSecrets e (get_node req.id (persist (some e) req (registered (some e) req token) s).1)
unfolding persist upsert_node get_node
persist-KeepsSecrets e req token s stored h =
    elim (Bool-cases (unchanged (some e) req (registered (some e) req token))) [
      | inl t ↦
          (let r : KeepsSecrets e
                (get_node req.id (persist (some e) req (registered (some e) req token) s).1) =
              rw t (rw stored (refl, refl, refl)) in
            r)
      | inr f ↦
          (let n : Node = registered (some e) req token in
            let saved : Node = with_version (version_string (suc (version_at n.id s))) n in
            let r : KeepsSecrets e
                (get_node req.id (persist (some e) req (registered (some e) req token) s).1) =
              rw f (
                rw (lookup-insert n.id req.id saved s.nodes) (
                  rw (registered-id (some e) req token) (
                    rw (==_refl req.id) (
                      registered-KeepsSecrets e req token (version_string (suc (version_at n.id s)))
                        h)))) in
            r)
    ]

register-cases :
    (host : Host) (now : ℕ) (auth : Bool) (header : String) (req : Registration) (c : Controller)
    → ((register host now auth header req c).1 ≡ c)
      ⊎ ((register host now auth header req c).1
          ≡ (accept host now req (token_of req.provision_token header) c).1)
unfolding register
register-cases host now auth header req c = ground arith

accept-KeepsSecrets :
    (host : Host) (now : ℕ) (req : Registration) (token : String) (c : Controller) (e : Node)
    → get_node req.id c.store ≡ some e
    → is_blank e.overlay_ip ≡ false
    → KeepsSecrets e (get_node req.id (accept host now req token c).1.store)
unfolding get_node
accept-KeepsSecrets host now req token c e stored h =
    let kept : KeepsSecrets e
        (get_node req.id (persist (some e) req (registered (some e) req token) c.store).1) =
      persist-KeepsSecrets e req token c.store stored h in
    rw (accept-nodes host now req token c) (rw stored kept)

-- A registration, taken or refused, changes neither the provision token nor the private key nor
-- the overlay address of a stored node that has an overlay address.
pub register-KeepsSecrets :
    (host : Host) (now : ℕ) (auth : Bool) (header : String) (req : Registration) (c : Controller)
    (e : Node)
    → get_node req.id c.store ≡ some e
    → is_blank e.overlay_ip ≡ false
    → KeepsSecrets e (get_node req.id (register host now auth header req c).1.store)
register-KeepsSecrets host now auth header req c e stored h =
    elim (register-cases host now auth header req c) [
      | inl same ↦
          (let r : KeepsSecrets e (get_node req.id (register host now auth header req c).1.store) =
              rw same (rw stored (refl, refl, refl)) in
            r)
      | inr took ↦
          (let r : KeepsSecrets e (get_node req.id (register host now auth header req c).1.store) =
              rw took (
                accept-KeepsSecrets host now req (token_of req.provision_token header) c e stored
                  h) in
            r)
    ]

-- No policy of its own.
abbrev pub HasNoPolicy : Option Node → Type 0
HasNoPolicy none = ⊥
HasNoPolicy (some n) =
    (n.policy_rules ≡ [])
    × (n.egress_peer_id ≡ "")
    × (n.default_route ≡ false)
    × (n.bypass_cidrs ≡ [])
    × (n.default_route_next_hop ≡ "")

registered-HasNoPolicy :
    (o : Option Node) (req : Registration) (token v : String)
    → HasNoPolicy (some (with_version v (registered o req token)))
unfolding registered with_router_id merge node_of with_version
registered-HasNoPolicy none req token v = ground arith
registered-HasNoPolicy (some e) req token v = ground arith

persist-HasNoPolicy :
    (o : Option Node) (req : Registration) (token : String) (s : MemoryStore)
    → unchanged o req (registered o req token) ≡ false
    → HasNoPolicy (get_node req.id (persist o req (registered o req token) s).1)
unfolding persist upsert_node get_node
persist-HasNoPolicy o req token s h =
    let n : Node = registered o req token in
    let v : String = version_string (suc (version_at n.id s)) in
    rw h (
      rw (lookup-insert n.id req.id (with_version v n) s.nodes) (
        rw (registered-id o req token)
          (rw (==_refl req.id) (registered-HasNoPolicy o req token v))))

-- A registration that is taken and writes the node, because it is forced or changes something,
-- leaves a node without any policy, whatever policy the stored node had.
pub accept-HasNoPolicy :
    (host : Host) (now : ℕ) (req : Registration) (token : String) (c : Controller)
    → unchanged (get_node req.id c.store) req (registered (get_node req.id c.store) req token)
      ≡ false
    → HasNoPolicy (get_node req.id (accept host now req token c).1.store)
unfolding get_node
accept-HasNoPolicy host now req token c h =
    rw (accept-nodes host now req token c)
      (persist-HasNoPolicy (get_node req.id c.store) req token c.store h)
