-- ===== src/Tests/Agents.antt =====
-- An agent with one peer, its tasks and the plans that reach it: pkg/agent and pkg/policy.
use peer_wan.Prelude.{
  map, false, Distinct, String, ◌==◌, true, not, ◌&&◌, ◌||◌, none, some, [], ◌∷◌, ◌++◌, All,
  contains, is_blank, last?, ◌≡◌, refl,
}
use peer_wan.Prelude.Dict.{keys, lookup}
use peer_wan.Model.{Node, Peer, PolicyRule, Task}
use peer_wan.Routing.{expand_policy_rules, rules_at}
use peer_wan.Store.{list_nodes, get_task}
use peer_wan.Controller.{NodeConfig, config_of, with_port}
use peer_wan.Controller.Handlers.{accept_health}
use peer_wan.Policy.{World, Geoip, expand}
use peer_wan.Policy.Lists.{IsPrefixList}
use peer_wan.Policy.Expansion.{is_complete, in_field, names_host, expand_lem}
use peer_wan.Agent.{Agent}
use peer_wan.Agent.Render.{
  augment_peer, augment_egress_allowed_ips, apply_static_routes, targets_of,
}
use peer_wan.Agent.AllowedIps.{sends, augment_peer_lem}
use peer_wan.Agent.Installed.{IsInstalled}
use peer_wan.Agent.Carried.{IsServed}
use peer_wan.Agent.Forwarding.{apply_static_routes-IsServed}
use peer_wan.Agent.Merge.{HasStill, Resets, take_plans, take_plans-HasStill, accept_health-Resets}
use peer_wan.Agent.Tunnels.{Net, allocate_local_ports}
use peer_wan.Agent.Tunnels.Ports.{HasPort, numbered, different, hosts_of, allocate_local_ports_lem}
use peer_wan.Agent.Files.{render_and_write, written_peers, render_and_write_lem}
use peer_wan.Agent.Pipeline.{Machine, handle_ws_task}
use peer_wan.Agent.Outcome.{
  IsTaskAt, arrive, steps_of, outcome, task_fails, handle_arrivals, handle_ws_task-outcome,
}
use peer_wan.Hub.Tasks.{Board}
use peer_wan.Prelude.Strings.{no_char}
use peer_wan.WireGuard.{endpoint_of, render_config}
use peer_wan.WireGuard.Reading.{read_config, is_newline}
use peer_wan.WireGuard.RoundTrip.{section_of, interface_of, read_config-render_config}
use peer_wan.Tests.Network.{node_a, report_b}
use peer_wan.Tests.Stores.{host, small_store, controller}

abbrev pub world : World
world = record {
  lower = λ s. s;
  upper = λ s. s;
  sprintf = λ t. λ s. t;
  path_join = λ d. λ s. s;
  parse_duration = λ s. some 3000000000;
  parse_cidr = λ s. true;
  parse_ip = λ s. none;
  lookup_ip = λ d. some (some "192.0.2.9" ∷ none ∷ some "192.0.2.9" ∷ []);
  mkdir_all = λ d. true;
  fresh = λ f. λ t. none;
  http_get = λ u. none;
}

abbrev geoip : Geoip
geoip = record { cache_dir = ""; source_v4 = ""; source_v6 = ""; cache_ttl = 0 }

abbrev to_b : PolicyRule
to_b = record {
  prefix = "198.51.100.0/24";
  via_node = "b";
  path = [];
  domains = "example.org" ∷ [];
}

abbrev node : Node
node = record node_a {
  policy_rules = to_b ∷ [];
  default_route = true;
  egress_peer_id = "b";
  listen_port = 51820;
}

abbrev peer_b : Peer
peer_b = record {
  id = "b";
  public_key = "kb";
  endpoint = "192.0.2.1:8082";
  allowed_ips = "10.10.2.1/32" ∷ "10.2.0.0/16" ∷ [];
  keepalive = 25;
}

abbrev plan : NodeConfig
plan = config_of host small_store node_a "dynamic-v3" (peer_b ∷ []) [] ("", "") ""

abbrev agent : Agent
agent = record { latest_cfg = plan; latest_node = node; rendered_asn = 65000; geoip = geoip }

apply_static_routes-IsServed_example :
    All
      (IsServed world geoip node.policy_rules
        (augment_egress_allowed_ips world geoip (peer_b ∷ []) node))
      (apply_static_routes world geoip (λ c. true) ("192.0.2.254", "eth0") (peer_b ∷ []) node)
    × All
        (IsInstalled world geoip
          (peer_b ∷ [])
          (apply_static_routes world geoip (λ c. true) ("192.0.2.254", "eth0") (peer_b ∷ []) node))
        node.policy_rules
apply_static_routes-IsServed_example =
    apply_static_routes-IsServed world geoip (λ c. true) ("192.0.2.254", "eth0") (peer_b ∷ []) node
      (refl, tt)

augment_peer_lem_example :
    contains (augment_peer (targets_of world geoip node) peer_b).allowed_ips "0.0.0.0/0" ≡ (
      contains peer_b.allowed_ips "0.0.0.0/0"
      || (sends world geoip (to_b ∷ []) "b" "0.0.0.0/0"
          || ((true && not (is_blank "b")) && (("b" == "b") && ("0.0.0.0/0" == "0.0.0.0/0")))))
augment_peer_lem_example = augment_peer_lem world geoip node peer_b "0.0.0.0/0"

expand_lem_example :
    IsPrefixList (expand world geoip to_b)
    × ((a : String)
        → contains (expand world geoip to_b) a ≡ (
            is_complete to_b
            && (not (is_blank a)
                && (in_field world geoip "198.51.100.0/24" a
                    || names_host world ("example.org" ∷ []) a))))
expand_lem_example = expand_lem world geoip to_b

accept_health-Resets_example :
    Resets world 65000 "a" agent
      (rules_at "b" (expand_policy_rules (list_nodes controller.store)))
      (last? (accept_health host 9 report_b controller).sent)
accept_health-Resets_example = accept_health-Resets host 9 report_b controller world 65000 "a" agent

take_plans-HasStill_example :
    HasStill node (take_plans world 65000 "a" (plan ∷ plan ∷ []) agent).latest_node
take_plans-HasStill_example = take_plans-HasStill world 65000 "a" (plan ∷ plan ∷ []) agent

abbrev task : Task
task = record {
  id = "t";
  node_id = "a";
  targets = "a" ∷ [];
  kind = "verify";
  status = "running";
  overall_status = "running";
  steps = [];
  created_at = 1;
  updated_at = 1;
}

abbrev board : Board
board = record { store = record small_store { tasks = ("t", task) ∷ [] }; updates = [] }

abbrev machine : Machine
machine = record { curl = λ u. some "timeout"; write_and_apply = λ a. none; clock = λ n. λ s. 8 }

handle_ws_task-outcome_example :
    IsTaskAt "t"
      ([]
        ++ steps_of (
            []
            ++ arrive
                (λ m. 9)
                "a"
                (handle_ws_task world machine 65000 "t" "verify" ("example.org" ∷ []) agent).1))
      (outcome (task_fails world machine 65000 "verify" ("example.org" ∷ []) agent))
      (get_task "t"
        (handle_arrivals
          ([]
            ++ arrive
                (λ m. 9)
                "a"
                (handle_ws_task world machine 65000 "t" "verify" ("example.org" ∷ []) agent).1)
          board).store)
unfolding get_task lookup
handle_ws_task-outcome_example =
    handle_ws_task-outcome (λ m. 9) "a" "t" "verify" "running" [] [] board world machine 65000
      ("example.org" ∷ []) agent refl refl tt (refl, refl, refl, refl)

read_config-render_config_example :
    read_config (render_config node (peer_b ∷ []) "sa")
    ≡ (interface_of node "sa", section_of node peer_b ∷ [])
unfolding no_char is_newline endpoint_of lookup
read_config-render_config_example =
    read_config-render_config node (peer_b ∷ []) "sa" refl refl
      ((refl, refl, (refl, (refl, tt))), tt)

abbrev net : Net
net = record { split = λ ep. some "192.0.2.1"; is_number = λ s. false }

allocate_local_ports_lem_example :
    (allocate_local_ports net (peer_b ∷ peer_b ∷ []) 30000
      ≡ numbered 30000 (different [] (hosts_of net (peer_b ∷ peer_b ∷ []))))
    × All
        (HasPort net (allocate_local_ports net (peer_b ∷ peer_b ∷ []) 30000))
        (peer_b ∷ peer_b ∷ [])
    × Distinct (keys (allocate_local_ports net (peer_b ∷ peer_b ∷ []) 30000))
allocate_local_ports_lem_example = allocate_local_ports_lem net (peer_b ∷ peer_b ∷ []) 30000

render_and_write_lem_example :
    (read_config
        (render_and_write world geoip net
          (λ c. true)
          ("192.0.2.254", "eth0")
          node
          (peer_b ∷ [])
          "sa").0
      ≡ (
        interface_of (with_port node) "sa",
        map
            (section_of (with_port node))
            (written_peers world geoip net (with_port node) (peer_b ∷ [])),
      ))
    × All
        (IsServed world geoip
          (with_port node).policy_rules
          (written_peers world geoip net (with_port node) (peer_b ∷ [])))
        (render_and_write world geoip net
          (λ c. true)
          ("192.0.2.254", "eth0")
          node
          (peer_b ∷ [])
          "sa").1
    × All
        (IsInstalled world geoip
          (peer_b ∷ [])
          (render_and_write world geoip net
            (λ c. true)
            ("192.0.2.254", "eth0")
            node
            (peer_b ∷ [])
            "sa").1)
        (with_port node).policy_rules
unfolding no_char is_newline endpoint_of lookup written_peers with_port
render_and_write_lem_example =
    render_and_write_lem world geoip net (λ c. true) ("192.0.2.254", "eth0") node (peer_b ∷ []) "sa"
      (refl, tt) refl refl ((refl, refl, (refl, (refl, (refl, (refl, (refl, tt)))))), tt)
