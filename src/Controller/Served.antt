-- ===== src/Controller/Served.antt =====
-- What the handlers of pkg/api/policy.go and controller.go answer after a report or for a plan.
use peer_wan.Prelude.{
  ℕ, zero, suc, ◌-◌, ◌≤◌, ◌<◌, String, ◌==◌, ◌⧺◌, true, false, ◌||◌, Option, none, some, List, [],
  ◌∷◌, ◌++◌, ◌≡◌, refl, arith, decimal, eqb, ltb, is_blank, length, length-append, length-drop,
  drop, last?, last?-append, find_first, Bool-cases, inl, inr, ==_refl,
}
use peer_wan.Model.{Node, Peer, PolicyRule, PolicyInstallLog, Plan}
use peer_wan.Topology.{build_peer_plan}
use peer_wan.Routing.{expand_policy_rules, rules_at}
use peer_wan.Store.{
  MemoryStore, list_nodes, list_health, keep_last, limited, list_at, save_policy_status,
  list_policy_status, stamp, get_plan,
}
use peer_wan.Store.Plans.{list_at-insert}
use peer_wan.Controller.{Host, Controller, NodeConfig, health_map, config_of, plan_of}
use peer_wan.Controller.Recompute.{get_plan-save_plan_with_rules}
use peer_wan.Controller.Handlers.{Reply}
use peer_wan.Controller.Reports.{
  or_default, post_status, get_status, or_no_node, answered_version, serve_plan,
}

module _ {ℓ} {A : Type ℓ} where
  last?-drop :
      (n : ℕ) (xs : List A) (y : A) → n ≤ length xs → last? (drop n (xs ++ y ∷ [])) ≡ some y
  last?-drop zero xs y le = last?-append xs y
  last?-drop (suc n) [] y le = absurd (omega (arith, le))
  last?-drop (suc n) (x ∷ xs) y le = last?-drop n xs y (omega (arith, le))

  -- The shortened list is some list and the new element.
  ends_with : (n : ℕ) (xs : List A) (y : A) → 1 ≤ n → last? (keep_last n (xs ++ y ∷ [])) ≡ some y
  unfolding keep_last
  ends_with n xs y le = elim (Bool-cases (ltb n (length (xs ++ y ∷ [])))) [
    | inl t ↦
        (let r : last? (keep_last n (xs ++ y ∷ [])) ≡ some y = rw t (
            last?-drop (length (xs ++ y ∷ []) - n) xs y
              (omega (arith, length-append xs (y ∷ []), le))) in
          r)
    | inr f ↦ (let r : last? (keep_last n (xs ++ y ∷ [])) ≡ some y = rw f (last?-append xs y) in r)
  ]

  last?-tail :
      (n : ℕ) (xs : List A) (y : A) → last? xs ≡ some y → n < length xs → last? (drop n xs) ≡ some y
  last?-tail zero xs y e lt = e
  last?-tail (suc n) [] y e lt = absurd (omega (arith, lt))
  last?-tail (suc n) (x ∷ []) y e lt = absurd (omega (arith, lt))
  last?-tail (suc n) (x ∷ z ∷ xs) y e lt = last?-tail n (z ∷ xs) y e (omega (arith, lt))

  some-length : (xs : List A) (y : A) → last? xs ≡ some y → 1 ≤ length xs
  some-length [] y e = absurd (ground (arith, e))
  some-length (x ∷ xs) y e = omega arith

  last?-limited :
      (n : ℕ) (xs : List A) (y : A) → 1 ≤ n → last? xs ≡ some y → last? (limited n xs) ≡ some y
  unfolding limited
  last?-limited n xs y le e = elim (Bool-cases (eqb n 0 || ltb (length xs) n)) [
    | inl t ↦ (let r : last? (limited n xs) ≡ some y = rw t e in r)
    | inr f ↦
        (let r : last? (limited n xs) ≡ some y =
            rw f (last?-tail (length xs - n) xs y e (omega (arith, some-length xs y e, le))) in
          r)
  ]

  length-limited : (n : ℕ) (xs : List A) → 1 ≤ n → length (limited n xs) ≤ n
  unfolding limited
  length-limited n xs le = ground (arith, length-drop (length xs - n) xs)

-- The answer is a list of at most `n` entries, the last of which is this one.
abbrev pub IsLatest : ℕ → PolicyInstallLog → Reply (List PolicyInstallLog) → Type 0
IsLatest n l (Reply.replied items) = (last? items ≡ some l) × (length items ≤ n)
IsLatest n l (Reply.http_error code text) = ⊥

stamp_twice : (now t : ℕ) → stamp now (stamp now t) ≡ stamp now t
stamp_twice now t = ground arith

-- A status that an agent may report, for a named node and not blank, is the last of the entries that are
-- answered for this node next; of these there are at most as many as asked for, or 20.
pub get_status-post_status :
    (now : ℕ) (l : PolicyInstallLog) (s : MemoryStore) (limit : Option ℕ)
    → is_blank l.node_id ≡ false
    → is_blank l.status ≡ false
    → 1 ≤ or_default 20 limit
    → IsLatest
        (or_default 20 limit)
        (record l { timestamp = stamp now l.timestamp })
        (get_status true l.node_id limit (post_status now true l s).1)
unfolding get_status post_status list_policy_status save_policy_status
get_status-post_status now l s limit ni ns le =
    let stamped : PolicyInstallLog = record l { timestamp = stamp now l.timestamp } in
    let items : List PolicyInstallLog =
      keep_last 50 (list_at l.node_id s.policy_status ++ stamped ∷ []) in
    rw ni (
      rw ns (
        rw (stamp_twice now l.timestamp) (
          rw (list_at-insert l.node_id l.node_id items s.policy_status) (
            rw (==_refl l.node_id) (
              last?-limited (or_default 20 limit) items stamped le
                  (ends_with 50 (list_at l.node_id s.policy_status) stamped (omega arith)),
              length-limited (or_default 20 limit) items le,
            )))))

-- The stored plan, next to the answer that was given with it.
abbrev pub IsBehind : ℕ → NodeConfig → Option Plan → Type 0
IsBehind v cfg none = ⊥
IsBehind v cfg (some p) =
    (p.peers ≡ cfg.wire_guard_peers)
    × (p.policy_rules ≡ cfg.policy_rules)
    × (p.version ≡ suc v)
    × (p.config_version ≡ "dynamic-v" ⧺ decimal (suc v))
    × (cfg.config_version ≡ "dynamic-v" ⧺ decimal v)

-- The plan that is stored for an asking node has the peers and rules of the answer, and is one version
-- further than the answer says, once the counter has left 0.
pub serve_plan-IsBehind :
    (host : Host) (now : ℕ) (time id : String) (c : Controller)
    → eqb c.plan_version 0 ≡ false
    → IsBehind c.plan_version (serve_plan host now time id c).0 (
        get_plan
          (or_no_node (find_first (λ n. n.id == id) (list_nodes c.store))).id
          (serve_plan host now time id c).1.store)
unfolding serve_plan answered_version config_of plan_of
serve_plan-IsBehind host now time id c h =
    let target : Node = or_no_node (find_first (λ n. n.id == id) (list_nodes c.store)) in
    let peers : List Peer =
      build_peer_plan id (list_nodes c.store) (health_map (list_health c.store) []) in
    let rules : List PolicyRule = rules_at id (expand_policy_rules (list_nodes c.store)) in
    rw (get_plan-save_plan_with_rules host now target.id target peers rules c)
      (rw (==_refl target.id) (rw h (refl, refl, refl, refl, refl)))
