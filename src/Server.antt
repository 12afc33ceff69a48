-- ===== src/Server.antt =====
-- The server: crates/apollo-mcp-server/src/server/.
pub mod Events
pub mod Catalog
pub mod Startup
pub mod States
pub mod Health
pub mod Notifications
pub mod HostValidation
pub mod Tools
pub mod Calls
pub mod Headers
