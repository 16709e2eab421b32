-- ===== src/Status.antt =====
-- pkg/api/status.go and diagnose.go: the state of the links, and the diagnosis of a node. A text with
-- seconds in it is made by a parameter, as are `strings.ToLower` and the parser of durations, which are
-- in `World`. Geolocation is left out. Go goes through a map in any order; here it is the map's own.
pub mod Links
pub mod Severity
pub mod Safety
use peer_wan.Prelude.{
  ℕ, zero, suc, ◌+◌, ◌-◌, ◌*◌, String, ◌==◌, ◌⧺◌, Bool, true, false, not, ◌&&◌, ◌||◌, Option, none,
  some, List, [], ◌∷◌, ◌++◌, decimal, join, eqb, ltb, leb, is_blank, is_empty, find_first,
  if◌then◌else◌,
}
use peer_wan.Prelude.Dict.{Dict, lookup}
use peer_wan.Model.{Node, Peer, Plan, HealthReport}
use peer_wan.Store.{MemoryStore, list_nodes, list_health, get_node, get_plan}
use peer_wan.Controller.{Host, load_settings_or_default, health_map}
use peer_wan.Controller.Handlers.{Reply}
use peer_wan.Prepare.{ip_without_mask}
use peer_wan.Policy.{World}

abbrev pub or_zero : Option ℕ → ℕ
or_zero none = 0
or_zero (some n) = n

-- `DiagnoseResult`; `Severity` is the status.
pub record Finding : Type 0 where
  pub check : String
  pub severity : String
  pub detail : String

abbrev pub finding : String → String → String → Finding
finding check severity detail = record { check = check; severity = severity; detail = detail }

-- `DiagnoseResponse`
pub record DiagnoseResponse : Type 0 where
  pub node_id : String
  pub summary : String
  pub results : List Finding
  pub timestamp : ℕ

-- `level`, for the keys of the map; 0 for others
unfoldable pub level : String → ℕ
level s = if s == "fail" then 3 else if s == "warn" then 2 else if s == "ok" then 1 else 0

unfoldable pub max_level : ℕ → List Finding → ℕ
unfolding level
max_level most [] = most
max_level most (r ∷ rest) =
    max_level (if ltb most (level r.severity) then level r.severity else most) rest

-- `highestSeverity`
unfoldable pub highest_severity : List Finding → String
unfolding max_level
highest_severity results =
    if eqb (max_level 0 results) 3
    then "发现阻断/错误"
    else if eqb (max_level 0 results) 2
    then "存在警告，请排查"
    else "检查通过"

abbrev pub second : ℕ
second = 1000000000

abbrev pub positive : Option ℕ → ℕ
positive none = 3 * second
positive (some d) = if eqb d 0 then 3 * second else d

-- `staleThreshold`
unfoldable pub stale_threshold : World → Host → MemoryStore → ℕ
unfolding load_settings_or_default
stale_threshold w host s =
    let given : String = (load_settings_or_default host s).diag.ping_interval in
    let interval : ℕ = if is_blank given then 3 * second else positive (w.parse_duration given) in
    if ltb (interval * 5) (15 * second) then 15 * second else interval * 5

abbrev pub cons_missing :
    String → Option (List String × List String) → Option (List String × List String)
cons_missing id none = none
cons_missing id (some (missing, blocked)) = some (id ∷ missing, blocked)

abbrev pub cons_blocked :
    String → ℕ → Option (List String × List String) → Option (List String × List String)
cons_blocked id loss none = none
cons_blocked id loss (some (missing, blocked)) =
    some (
      missing,
      if ltb loss 100 then blocked else (id ⧺ ("(loss=" ⧺ (decimal loss ⧺ "%)"))) ∷ blocked,
    )

abbrev pub probe_at :
    Peer → ℕ → Option ℕ → Option (List String × List String) → Option (List String × List String)
probe_at p loss none later = cons_missing p.id later
probe_at p loss (some ms) later = cons_blocked p.id loss later

unfoldable pub probe_first :
    HealthReport
    → Peer
    → List String
    → Option (List String × List String)
    → Option (List String × List String)
unfolding ip_without_mask lookup
probe_first h p [] later = none
probe_first h p (ip ∷ ips) later =
    probe_at p (or_zero (lookup (ip_without_mask ip) h.packet_loss))
      (lookup (ip_without_mask ip) h.latency_ms) later

-- `missing` and `lossBlocked`; `none` where `p.AllowedIPs[0]` is out of range, which is a panic.
unfoldable pub probe : HealthReport → List Peer → Option (List String × List String)
unfolding probe_first
probe h [] = some ([], [])
probe h (p ∷ peers) = let later = probe h peers in probe_first h p p.allowed_ips later

abbrev pub reach_findings : List String → List String → List Finding
reach_findings missing blocked =
    (if is_empty blocked
      then []
      else finding "WireGuard/防火墙" "fail" ("探测到对端 100% 丢包: " ⧺ join ", " blocked) ∷ [])
    ++ (if is_empty missing
        then finding "WireGuard 链路" "ok" "已收到对端延迟/丢包数据"
        else finding "WireGuard 链路" "warn" ("未收到对这些节点的延迟数据，可能 WG 未握手或防火墙阻断: " ⧺ join ", " missing))
      ∷ []

unfoldable pub bad_neighbors : World → Dict String → List String
bad_neighbors w [] = []
bad_neighbors w ((nbr, st) ∷ rest) =
    if w.lower st == "established"
    then bad_neighbors w rest
    else (nbr ⧺ ("=" ⧺ st)) ∷ bad_neighbors w rest

abbrev pub frr_findings : World → Dict String → List Finding
unfolding bad_neighbors
frr_findings w states =
    if is_empty states
    then []
    else (if is_empty (bad_neighbors w states)
        then finding "FRR 邻居" "ok" "BGP 邻居均已 Established"
        else finding "FRR 邻居" "warn" ("邻居状态异常: " ⧺ join "; " (bad_neighbors w states)))
      ∷ []

abbrev pub heartbeat : (ℕ → String) → ℕ → ℕ → Finding
heartbeat seconds_text threshold age =
    if ltb threshold age
    then finding "Agent 心跳" "warn" ("健康上报已滞后 " ⧺ (seconds_text age ⧺ "s，可能 agent 停止或网络阻断"))
    else finding "Agent 心跳" "ok" "上报正常"

abbrev pub endpoint_finding : Node → Finding
endpoint_finding n =
    if is_empty n.endpoints
    then finding "Endpoint 配置" "warn" "节点未配置 endpoint，可能无法被其他节点连接"
    else finding "Endpoint 配置" "ok" (join ", " n.endpoints)

-- The peers of the node's plan; none where it has no plan.
abbrev pub plan_peers : Option Plan → List Peer
plan_peers none = []
plan_peers (some p) = p.peers

abbrev pub plan_findings : List Peer → Option (List String × List String) → Option (List Finding)
plan_findings [] o = some (finding "拓扑计划" "warn" "未找到计划或无任何 peer，检查 controller 拓扑计算" ∷ [])
plan_findings (p ∷ peers) none = none
plan_findings (p ∷ peers) (some (missing, blocked)) = some (reach_findings missing blocked)

unfoldable pub concluded :
    String → ℕ → List Finding → List Finding → Option (List Finding) → Option DiagnoseResponse
unfolding highest_severity
concluded id now before after none = none
concluded id now before after (some mid) = some (record {
  node_id = id;
  summary = highest_severity (before ++ (mid ++ after));
  results = before ++ (mid ++ after);
  timestamp = now;
})

unfoldable pub diagnose_health :
    World
    → (ℕ → String)
    → ℕ
    → String
    → ℕ
    → Node
    → List Peer
    → Option HealthReport
    → Option DiagnoseResponse
unfolding probe bad_neighbors concluded
diagnose_health w seconds_text now id threshold n peers none = some (record {
  node_id = id;
  summary = "未收到健康上报";
  results = finding "Agent 心跳" "fail" "未收到健康上报，可能 agent 未安装/未运行" ∷ [];
  timestamp = now;
})
diagnose_health w seconds_text now id threshold n peers (some h) =
    concluded id now
      (heartbeat seconds_text threshold (now - h.timestamp) ∷ endpoint_finding n ∷ [])
      (frr_findings w h.frr_state) (plan_findings peers (probe h peers))

unfoldable pub diagnose_stored :
    World → Host → (ℕ → String) → ℕ → String → MemoryStore → Option Node → Option DiagnoseResponse
unfolding diagnose_health stale_threshold get_plan list_health
diagnose_stored w host seconds_text now id s none = some (record {
  node_id = id;
  summary = "节点不存在";
  results = finding "节点存在" "fail" "未找到节点" ∷ [];
  timestamp = now;
})
diagnose_stored w host seconds_text now id s (some n) =
    diagnose_health w seconds_text now id (stale_threshold w host s) n (plan_peers (get_plan id s))
      (find_first (λ h. h.node_id == id) (list_health s))

-- `diagnoseNode`; `none` is a panic
unfoldable pub diagnose_node :
    World → Host → (ℕ → String) → ℕ → String → MemoryStore → Option DiagnoseResponse
unfolding diagnose_stored get_node
diagnose_node w host seconds_text now id s =
    diagnose_stored w host seconds_text now id s (get_node id s)
