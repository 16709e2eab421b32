-- ===== src/Lib.antt =====
-- peer-wan: a WireGuard overlay network with a controller (Go), agents (Go) and a console (React).
--
-- The controller keeps the nodes, their health, their policies and their plans in a store. When a
-- node registers it expands all nodes' policies into hop-by-hop rules, builds each node's peer plan
-- and stores and pushes the plans; agents report health, and a plan can be rolled back. The console
-- signs a user in and edits nodes, policies and settings through the controller's HTTP interface.
--
-- Files and the code that they model:
--   Model                 pkg/model: the records that all parts share
--   Topology              pkg/topology/plan.go: `BuildPeerPlan`; Topology/Allowed its AllowedIPs,
--                         Topology/Sort and Topology/Plan what is proved of it
--   Routing               pkg/api/controller.go: `expandPolicyRules`; Routing/Deliveries the list of
--                         rules that it files, Routing/Hops the way of a packet
--   Store                 pkg/store/memory.go: `MemoryStore`, a function for each method;
--                         Store/Steps the runs of a store, Store/Plans, Store/Kept and
--                         Store/Rollback what they keep
--   Controller            pkg/api/controller.go: `savePlanWithRules`, `RecomputeAllPlans`, `signPlan`,
--                         the settings' defaults; Controller/Registration the merge of a registered
--                         node, Controller/Handlers the handlers of registration, health reports
--                         and rollback; Controller/Recompute, Controller/Safety and
--                         Controller/Rollback what is proved of them;
--                         Controller/Policies and Controller/Reports the handlers of pkg/api/policy.go
--                         and those that answer with plans and histories, Controller/Options those
--                         of the settings, Controller/Waiting `waitForVersion`;
--                         Controller/PolicyUpdates and Controller/Served what is proved of them
--   Prepare               pkg/api/prepare.go: keys, token and overlay address of a new node;
--                         Prepare/Octets, Prepare/Overlays and Prepare/Sequence the addresses
--   Policy                pkg/policy/geoip.go: `Expand`; Policy/Lists and Policy/Expansion what it gives
--   Status                pkg/api/diagnose.go: `diagnoseNode`; Status/Links `buildLinkStatuses` of
--                         pkg/api/status.go, Status/Severity and Status/Safety the diagnosis
--   Agent                 pkg/agent/plan.go: `mergePlanIntoNode`; Agent/Render the AllowedIPs and routes of
--                         pkg/agent/render.go, Agent/Pipeline `handleWSTask`, Agent/Tunnels the local
--                         ports of pkg/agent/wstunnel.go; Agent/Files `RenderAndWrite`;
--                         Agent/Merge, Agent/AllowedIps, Agent/Carried, Agent/Installed,
--                         Agent/Forwarding, Agent/Outcome and Agent/Tunnels/Ports what is proved of them
--   WireGuard             pkg/wireguard/render.go: `RenderConfig`; WireGuard/Reading a reader of the format,
--                         WireGuard/Lines and WireGuard/RoundTrip what is read
--   Accounts              pkg/api/auth.go: users and sign-in; pkg/auth/jwt.go and `authFuncJWT` of
--                         pkg/api/deps.go: tokens; Accounts/SignIn the first user
--   Hub                   pkg/api/ws.go: the agents' connections and `Send`; Hub/Tasks the tasks of
--                         pkg/api/tasks.go and their steps, Hub/Logs the pages that follow a log;
--                         Hub/Reconnect which connection a message is written to, Hub/Following who
--                         follows a log
--   Web/Js                the actions of the console's handlers: page state, browser, thrown errors
--   Web/Api, Web/Hooks    frontend/src/api.js and hooks/useWS.js
--   Web/Auth, Web/Admin   frontend/src/App.jsx, pages/Login.jsx, Register.jsx and Admin.jsx
--   Web/Policy            frontend/src/components/PolicyDrawer.jsx
--   Web/Mesh              frontend/src/components/MeshStatus.jsx
--   Web/Settings          frontend/src/components/GeoIPCard.jsx and DiagCard.jsx
--   Web/Nodes             frontend/src/components/NodeFormModal.jsx, EndpointDrawer.jsx, NodesTable.jsx
--   Web/Health            frontend/src/components/HealthHistoryModal.jsx, DiagnoseModal.jsx, StatusCard.jsx
--   Prelude               shared notation and lemmas; Tests the theorems at concrete inputs
--
-- Conventions. A Go map is an association list that keeps the order of first insertions, where Go's
-- order is arbitrary. Times are numbers, 0 for the zero time, and an operation that reads the clock is
-- given its time. Integers are natural numbers without a bound: latencies, ports and versions are
-- never negative, and a version counter that is raised by one at a time does not reach 2^63. A store
-- method and a handler between two of its calls are single steps. Fuel is the number of hops that a packet
-- is followed for in Routing/Hops, one more than the length of the path, the digits of a decimal number
-- in Prelude/Strings, at most the number itself, and the rounds of `waitForVersion`, 41, which the 20
-- seconds and the pauses of half a second bound.
--
-- Parameters: SHA-256 and the reading of durations, the default settings and the build's version
-- (`Host` in Controller); parsers of addresses, letter case, name resolution, files and
-- downloads (`World` in Policy), and that they answer the same during one call; commands of the
-- agent's machine and its clock (`Machine` in Agent/Pipeline, the success of `ip` in
-- Agent/Render); the key pair, the identifiers of tasks; bcrypt, the JWT library and JWT_SECRET
-- (`Crypto` in Accounts); the network, the JSON readers and `encodeURIComponent` of the console;
-- the floating-point numbers of the map (`Numbers` in Web/Mesh).
--
-- Not modelled: `AuthMiddleware`, which nothing calls; the agent's health reports, processes of
-- tunnels, NAT and local database; the Consul store; the rendering of FRR files; geolocation;
-- styles and layout of the console; the built console under assets/web and the packages under
-- vendor.
pub mod Prelude
pub mod Model
pub mod Topology
pub mod Routing
pub mod Store
pub mod Controller
pub mod Prepare
pub mod Policy
pub mod Status
pub mod Agent
pub mod WireGuard
pub mod Accounts
pub mod Hub
pub mod Web
pub mod Tests
