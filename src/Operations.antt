-- ===== src/Operations.antt =====
-- The operations of the server and what it does to their documents and responses:
-- crates/apollo-mcp-server/src/operations/.
pub mod Private
pub mod Responses
