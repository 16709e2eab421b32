-- ===== src/Status/Severity.antt =====
-- The summary of a diagnosis in pkg/api/diagnose.go, and when the diagnosis answers at all.
use peer_wan.Prelude.{
  ℕ, ◌-◌, ◌≤◌, String, ◌==◌, Bool, true, false, ◌||◌, Option, none, some, is_some, List, [], ◌∷◌,
  ◌≡◌, refl, arith, All, any_of, eqb, ltb, is_empty, find_first, if◌then◌else◌,
}
use peer_wan.Prelude.Dict.{lookup}
use peer_wan.Prepare.{ip_without_mask}
use peer_wan.Model.{Node, Peer, HealthReport}
use peer_wan.Store.{MemoryStore, get_node, get_plan, list_health}
use peer_wan.Controller.{Host}
use peer_wan.Policy.{World}
use peer_wan.Status.{
  Finding, or_zero, probe_at, probe_first, level, max_level, highest_severity, probe, plan_peers,
  plan_findings, concluded, diagnose_health, diagnose_stored, diagnose_node, heartbeat,
  endpoint_finding, frr_findings, stale_threshold,
}

abbrev pub has_severity : String → List Finding → Bool
has_severity s results = any_of (λ r. r.severity == s) results

level_le : (s : String) → level s ≤ 3
unfolding level
level_le s = ground arith

max_le : (a b : ℕ) → a ≤ 3 → b ≤ 3 → (if ltb a b then b else a) ≤ 3
max_le a b ha hb = ground arith

summary_of :
    (top : ℕ) (failed warned : Bool)
    → eqb top 3 ≡ failed
    → ltb 1 top ≡ (failed || warned)
    → top ≤ 3
    → ◌≡◌ {A = String}
        (if eqb top 3 then "发现阻断/错误" else if eqb top 2 then "存在警告，请排查" else "检查通过")
        (if failed then "发现阻断/错误" else if warned then "存在警告，请排查" else "检查通过")
summary_of top failed warned hf hw le = ground arith

-- The highest level so far, with what is known of the level of a text.
level_step :
    (most l top : ℕ) (is_fail is_warn later_fail later_warn : Bool)
    → (eqb l 3 ≡ is_fail)
    → (ltb 1 l ≡ (is_fail || is_warn))
    → (eqb top 3 ≡ (eqb (if ltb most l then l else most) 3 || later_fail))
    → (ltb 1 top ≡ (ltb 1 (if ltb most l then l else most) || (later_fail || later_warn)))
    → l ≤ 3
    → most ≤ 3
    → (eqb top 3 ≡ (eqb most 3 || (is_fail || later_fail)))
      × (ltb 1 top ≡ (ltb 1 most || ((is_fail || later_fail) || (is_warn || later_warn))))
level_step most l top is_fail is_warn later_fail later_warn f w hf hw le lm =
    (ground arith, ground arith)

level-fail : (s : String) → eqb (level s) 3 ≡ (s == "fail")
unfolding level
level-fail s = ground arith

level-warn : (s : String) → ltb 1 (level s) ≡ ((s == "fail") || (s == "warn"))
unfolding level
level-warn s = ground arith

max_level_lem :
    (most : ℕ) (results : List Finding)
    → most ≤ 3
    → ((eqb (max_level most results) 3 ≡ (eqb most 3 || has_severity "fail" results))
        × (ltb 1 (max_level most results)
            ≡ (ltb 1 most || (has_severity "fail" results || has_severity "warn" results))))
      × (max_level most results ≤ 3)
unfolding max_level
max_level_lem most [] le = ((ground arith, ground arith), le)
max_level_lem most (r ∷ rest) le =
    let l : ℕ = level r.severity in
    let h : ((eqb (max_level (if ltb most l then l else most) rest) 3
            ≡ (eqb (if ltb most l then l else most) 3 || has_severity "fail" rest))
          × (ltb 1 (max_level (if ltb most l then l else most) rest) ≡ (
              ltb 1 (if ltb most l then l else most)
              || (has_severity "fail" rest || has_severity "warn" rest))))
        × (max_level (if ltb most l then l else most) rest ≤ 3) =
      max_level_lem (if ltb most l then l else most) rest
        (max_le most l le (level_le r.severity)) in
    (
      level_step most l (max_level (if ltb most l then l else most) rest) (r.severity == "fail")
          (r.severity == "warn") (has_severity "fail" rest) (has_severity "warn" rest)
          (level-fail r.severity) (level-warn r.severity) h.0.0 h.0.1 (level_le r.severity) le,
      h.1,
    )

-- The summary speaks of an error exactly where a check failed, of a warning where none failed and one
-- warns, and else says that the checks are passed.
pub highest_severity_lem :
    (results : List Finding)
    → highest_severity results ≡ (
        if has_severity "fail" results
        then "发现阻断/错误"
        else if has_severity "warn" results
        then "存在警告，请排查"
        else "检查通过")
unfolding highest_severity
highest_severity_lem results =
    let top : ℕ = max_level 0 results in
    let h : ((eqb top 3 ≡ has_severity "fail" results)
          × (ltb 1 top ≡ (has_severity "fail" results || has_severity "warn" results)))
        × (top ≤ 3) =
      max_level_lem 0 results (omega arith) in
    summary_of top (has_severity "fail" results) (has_severity "warn" results) h.0.0 h.0.1 h.1

-- Each peer has an address that the diagnosis can look for.
abbrev pub HasAddress : List Peer → Type 0
HasAddress peers = All (λ p. is_empty p.allowed_ips ≡ false) peers

probe_at-Answers :
    (p : Peer) (loss : ℕ) (o : Option ℕ) (later : Option (List String × List String))
    → is_some later ≡ true
    → is_some (probe_at p loss o later) ≡ true
probe_at-Answers p loss none none h = h
probe_at-Answers p loss none (some x) h = refl
probe_at-Answers p loss (some ms) none h = h
probe_at-Answers p loss (some ms) (some x) h = refl

probe_first-Answers :
    (h : HealthReport) (p : Peer) (ips : List String) (later : Option (List String × List String))
    → is_empty ips ≡ false
    → is_some later ≡ true
    → is_some (probe_first h p ips later) ≡ true
unfolding probe_first
probe_first-Answers h p [] later ne s = absurd (ground (arith, ne))
probe_first-Answers h p (ip ∷ ips) later ne s =
    probe_at-Answers p (or_zero (lookup (ip_without_mask ip) h.packet_loss))
      (lookup (ip_without_mask ip) h.latency_ms) later s

probe-Answers :
    (h : HealthReport) (peers : List Peer) → HasAddress peers → is_some (probe h peers) ≡ true
unfolding probe
probe-Answers h [] a = refl
probe-Answers h (p ∷ peers) a =
    probe_first-Answers h p p.allowed_ips (probe h peers) a.0 (probe-Answers h peers a.1)

plan_findings-Answers :
    (peers : List Peer) (o : Option (List String × List String))
    → is_some o ≡ true
    → is_some (plan_findings peers o) ≡ true
plan_findings-Answers [] o h = refl
plan_findings-Answers (p ∷ peers) none h = h
plan_findings-Answers (p ∷ peers) (some x) h = refl

concluded-Answers :
    (id : String) (now : ℕ) (before after : List Finding) (mid : Option (List Finding))
    → is_some mid ≡ true
    → is_some (concluded id now before after mid) ≡ true
unfolding concluded
concluded-Answers id now before after none h = h
concluded-Answers id now before after (some mid) h = refl

module _ (w : World) (host : Host) (seconds_text : ℕ → String) (now : ℕ) (id : String) where
  diagnose_health-Answers :
      (threshold : ℕ) (n : Node) (peers : List Peer) (o : Option HealthReport)
      → HasAddress peers
      → is_some (diagnose_health w seconds_text now id threshold n peers o) ≡ true
  unfolding diagnose_health
  diagnose_health-Answers threshold n peers none a = refl
  diagnose_health-Answers threshold n peers (some h) a =
      concluded-Answers id now
        (heartbeat seconds_text threshold (now - h.timestamp) ∷ endpoint_finding n ∷ [])
        (frr_findings w h.frr_state) (plan_findings peers (probe h peers))
        (plan_findings-Answers peers (probe h peers) (probe-Answers h peers a))

  diagnose_stored-Answers :
      (s : MemoryStore) (o : Option Node)
      → HasAddress (plan_peers (get_plan id s))
      → is_some (diagnose_stored w host seconds_text now id s o) ≡ true
  unfolding diagnose_stored
  diagnose_stored-Answers s none a = refl
  diagnose_stored-Answers s (some n) a =
      diagnose_health-Answers (stale_threshold w host s) n (plan_peers (get_plan id s))
        (find_first (λ h. h.node_id == id) (list_health s)) a

  pub diagnose_node-Answers :
      (s : MemoryStore)
      → HasAddress (plan_peers (get_plan id s))
      → is_some (diagnose_node w host seconds_text now id s) ≡ true
  unfolding diagnose_node
  diagnose_node-Answers s a = diagnose_stored-Answers s (get_node id s) a
