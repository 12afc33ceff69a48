-- ===== src/Server/Calls.antt =====
-- Calls of tools and what they leave in the health check: `call_tool_impl` of
-- crates/apollo-mcp-server/src/server/states/running.rs.
pub mod Rejected
mod Tests
use apollo_mcp_server.Prelude.{
  Bool, true, false, not, ◌&&◌, Option, none, some, is_none, List, [], ◌∷◌, String, Result, ok, err,
  if◌then◌else◌,
}
use apollo_mcp_server.Server.Tools.{Toolbox, Target, tool_not_found, dispatch}
use apollo_mcp_server.Server.Health.{HealthCheck, record_rejection}

-- The result of a call; `detail` is all but its structured content.
pub record CallToolResult (Json Detail : Type 0) : Type 0 where
  pub structured_content : Option Json
  pub detail : Detail

-- What a call returns, and the health check after it.
pub record Called (Json Detail Problem : Type 0) : Type 0 where
  pub result : Result (CallToolResult Json Detail) Problem
  pub health : Option HealthCheck

module _ {Json Detail Problem : Type 0} where
  -- `Err` is tracked for the health check.
  track_error :
      Result (CallToolResult Json Detail) Problem → Option HealthCheck → Option HealthCheck
  track_error (err e) (some health) = some (record_rejection health)
  track_error (err e) none = none
  track_error (ok reply) health = health

  strip_structured :
      Bool
      → Result (CallToolResult Json Detail) Problem
      → Result (CallToolResult Json Detail) Problem
  strip_structured true (ok reply) = ok (record reply { structured_content = none })
  strip_structured true (err e) = err e
  strip_structured false result = result

-- `perform` runs the tool that has been chosen, and `not_found` is the error for a name.
module _ {Json Info Detail Problem : Type 0}
    (perform : Target Json Info → Result (CallToolResult Json Detail) Problem)
    (not_found : String → Problem) (box : Toolbox Json Info) (app_param : Option String)
    (supported : Bool) where
  run_target : String → Target Json Info → Result (CallToolResult Json Detail) Problem
  run_target wanted tool_not_found = err (not_found wanted)
  run_target wanted target = perform target

  unfoldable pub call_tool : Option HealthCheck → String → Called Json Detail Problem
  unfolding run_target track_error strip_structured
  call_tool health wanted =
      let result = run_target wanted (dispatch box app_param wanted) in
      record {
        result = strip_structured (is_none app_param && not supported) result;
        health = track_error result health;
      }

  -- Calls one after the other.
  unfoldable pub after_calls : Option HealthCheck → List String → Option HealthCheck
  unfolding call_tool
  after_calls health [] = health
  after_calls health (wanted ∷ names) = after_calls (call_tool health wanted).health names
