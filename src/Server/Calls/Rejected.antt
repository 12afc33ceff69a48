-- ===== src/Server/Calls/Rejected.antt =====
-- Calls of tools that do not exist, as the parent counts them.
use apollo_mcp_server.Prelude.{ℕ, ◌+◌}
use apollo_mcp_server.Server.Health.{HealthCheck}

-- The counter goes up by this much.
abbrev counted : ℕ → HealthCheck → HealthCheck
counted n health = record health { rejected = health.rejected + n }
