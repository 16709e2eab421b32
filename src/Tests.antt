-- ===== src/Tests.antt =====
-- The theorems at concrete inputs: a small network, its store and its console.
pub mod Network
pub mod Stores
pub mod Console
pub mod Drawer
pub mod Hubs
pub mod Agents
pub mod Offices
