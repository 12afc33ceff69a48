-- ===== src/Server/HostValidation/Tests.antt =====
-- A test of the host validation, and its theorem at a concrete input.
use apollo_mcp_server.Prelude.{◌≡◌, refl, true, List, [], ◌∷◌, String}
use apollo_mcp_server.Server.HostValidation.{
  HostValidationConfig, TransportConfig, eq_ignore_ascii_case, has_host, merge_hosts, apply_to,
}
use apollo_mcp_server.Server.HostValidation.Merged.{IsTransport, apply_to-has_host}

abbrev rmcp : TransportConfig (List String × List String)
rmcp = record {
  hosts = λ config. config.0;
  with_allowed_hosts = λ config hosts. (hosts, config.1);
  with_allowed_origins = λ config origins. (config.0, origins);
  disable_allowed_hosts = λ config. ([], config.1);
  disable_allowed_origins = λ config. (config.0, []);
}

rmcp-IsTransport : IsTransport rmcp
rmcp-IsTransport = record {
  sets_hosts = λ config hosts. refl;
  keeps_hosts = λ config origins. refl;
}

abbrev validation : HostValidationConfig
validation = record {
  enabled = true;
  allowed_hosts = "LOCALHOST" ∷ "mcp.example.com" ∷ [];
  allowed_origins = "https://app.example.com" ∷ [];
}

abbrev defaults : List String × List String
defaults = ("localhost" ∷ "127.0.0.1" ∷ [], [])

merges :
    apply_to rmcp validation defaults
    ≡ ("localhost" ∷ "127.0.0.1" ∷ "mcp.example.com" ∷ [], "https://app.example.com" ∷ [])
unfolding eq_ignore_ascii_case merge_hosts apply_to
merges = refl

apply_to-has_host_example :
    has_host (rmcp.hosts (apply_to rmcp validation defaults)) "MCP.example.com" ≡ true
unfolding eq_ignore_ascii_case
apply_to-has_host_example =
    apply_to-has_host rmcp validation defaults "MCP.example.com" rmcp-IsTransport refl
