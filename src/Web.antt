-- ===== src/Web.antt =====
-- frontend/src: the console, a React application over the controller's HTTP API.
pub mod Js
pub mod Api
pub mod Auth
pub mod Mesh
pub mod Policy
pub mod Hooks
pub mod Settings
pub mod Nodes
pub mod Health
pub mod Admin
