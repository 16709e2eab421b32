-- ===== src/Model.antt =====
-- pkg/model: the data that the controller, the store and the agents share.
-- A Go string, slice or map is a text, a list or a `Dict`; a `time.Time` is its Unix time in
-- nanoseconds, with 0 for the zero time; an `int` of the data model (ports, AS numbers, latencies
-- in milliseconds) is a natural number, and so is a packet loss, in whole percents rounded down.
use peer_wan.Prelude.{ℕ, String, Bool, ◌&&◌, ◌||◌, not, List, [], is_empty, is_blank}
use peer_wan.Prelude.Dict.{Dict}

-- policy.go
pub record PolicyRule : Type 0 where
  pub prefix : String
  pub via_node : String
  pub path : List String
  pub domains : List String

-- `Validate`: something to match, and somewhere to send it
unfoldable pub validate : PolicyRule → Bool
validate p =
    (not (is_blank p.prefix) || not (is_empty p.domains))
    && (not (is_blank p.via_node) || not (is_empty p.path))

-- node.go
pub record Node : Type 0 where
  pub id : String
  pub public_key : String
  pub endpoints : List String
  pub cidrs : List String
  pub config_version : String
  pub version : String
  pub listen_port : ℕ
  pub overlay_ip : String
  pub asn : ℕ
  pub router_id : String
  pub egress_peer_id : String
  pub policy_rules : List PolicyRule
  pub default_route : Bool
  pub bypass_cidrs : List String
  pub default_route_next_hop : String
  pub private_key : String
  pub provision_token : String
  pub peer_endpoints : Dict String

-- Go's zero value, `model.Node{}`
abbrev pub no_node : Node
no_node = record {
  id = "";
  public_key = "";
  endpoints = [];
  cidrs = [];
  config_version = "";
  version = "";
  listen_port = 0;
  overlay_ip = "";
  asn = 0;
  router_id = "";
  egress_peer_id = "";
  policy_rules = [];
  default_route = Bool.false;
  bypass_cidrs = [];
  default_route_next_hop = "";
  private_key = "";
  provision_token = "";
  peer_endpoints = [];
}

-- peer.go
pub record Peer : Type 0 where
  pub id : String
  pub public_key : String
  pub endpoint : String
  pub allowed_ips : List String
  pub keepalive : ℕ

-- health.go
pub record HealthReport : Type 0 where
  pub node_id : String
  pub status : String
  pub latency_ms : Dict ℕ
  pub packet_loss : Dict ℕ
  pub frr_state : Dict String
  pub timestamp : ℕ

-- plan.go
pub record Plan : Type 0 where
  pub node_id : String
  pub version : ℕ
  pub config_version : String
  pub peers : List Peer
  pub routes : List String
  pub created_at : ℕ
  pub signature : String
  pub egress_peer_id : String
  pub policy_rules : List PolicyRule
  pub peer_endpoints : Dict String
  pub default_route : Bool
  pub bypass_cidrs : List String
  pub default_route_next_hop : String

-- audit.go
pub record AuditEntry : Type 0 where
  pub actor : String
  pub action : String
  pub target : String
  pub detail : String
  pub timestamp : ℕ

-- policystatus.go
pub record PolicyInstallLog : Type 0 where
  pub node_id : String
  pub version : String
  pub status : String
  pub message : String
  pub logs : List String
  pub timestamp : ℕ

-- policydiag.go
pub record PolicyDiagCheck : Type 0 where
  pub name : String
  pub status : String
  pub detail : String

pub record PolicyDiagReport : Type 0 where
  pub node_id : String
  pub summary : String
  pub checks : List PolicyDiagCheck
  pub timestamp : ℕ

-- task.go
pub record TaskStep : Type 0 where
  pub name : String
  pub status : String
  pub message : String
  pub node_id : String
  pub timestamp : ℕ

pub record Task : Type 0 where
  pub id : String
  pub node_id : String
  pub targets : List String
  pub kind : String
  pub status : String
  pub overall_status : String
  pub steps : List TaskStep
  pub created_at : ℕ
  pub updated_at : ℕ

-- settings.go
pub record GeoipConfig : Type 0 where
  pub source_v4 : String
  pub source_v6 : String
  pub cache_dir : String
  pub cache_ttl : String

pub record DiagConfig : Type 0 where
  pub ping_interval : String

pub record Settings : Type 0 where
  pub geoip : GeoipConfig
  pub diag : DiagConfig
