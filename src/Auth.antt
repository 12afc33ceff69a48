-- ===== src/Auth.antt =====
-- The OAuth middleware of the streamable HTTP transport (crates/apollo-mcp-server/src/auth.rs and
-- its children, with scope_requirements.rs).
pub mod Scopes
pub mod Token
pub mod SkipLists
pub mod Config
pub mod Middleware
pub mod Keys
pub mod EndToEnd
