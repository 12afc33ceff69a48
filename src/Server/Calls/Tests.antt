-- ===== src/Server/Calls/Tests.antt =====
-- A test of the calls, and their theorem at a concrete input.
use apollo_mcp_server.Prelude.{
  ◌≡◌, refl, Bool, true, false, none, some, [], ◌∷◌, String, Result, ok,
}
use apollo_mcp_server.Server.Tools.{
  Toolbox, Target, find_named, find_app_tool, find_operation, dispatch_other, built_in, dispatch,
}
use apollo_mcp_server.Server.Tools.Choice.{is_found}
use apollo_mcp_server.Server.Health.{
  ReadinessConfig, counting, HealthCheck, record_rejection, starts_with_upper,
}
use apollo_mcp_server.Server.Calls.{CallToolResult, call_tool, after_calls}

abbrev box : Toolbox String Bool
box = record {
  operations = record { name = "weather"; output_schema = none; meta = []; detail = true } ∷ [];
  apps = [];
  execute_tool = none;
  introspect_tool = none;
  search_tool = none;
  explorer_tool = none;
  validate_tool = none;
}

abbrev perform : Target String Bool → Result (CallToolResult String Bool) String
perform target = ok (record { structured_content = some "data"; detail = true })

abbrev not_found : String → String
not_found name = name

abbrev config : ReadinessConfig
config = record { allowed = 1; sampling = 5; unready = none }

abbrev fresh : HealthCheck
fresh = record { live = true; ready = true; rejected = 0; phase = counting; due = 5 }

calls_open : Unit {0}
unfolding find_named find_app_tool find_operation dispatch_other built_in dispatch is_found
    record_rejection starts_with_upper call_tool after_calls
calls_open = tt

-- An old client gets no structured content.
weather : call_tool perform not_found box none false (some fresh) "weather" ≡ record {
  result = ok (record { structured_content = none; detail = true });
  health = some fresh;
}
unfolding calls_open
weather = refl

abbrev crowded : HealthCheck
crowded = record fresh { rejected = 2 }
