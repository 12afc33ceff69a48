-- ===== src/Server/Events.antt =====
-- The events that the server reacts to: crates/apollo-mcp-server/src/event.rs.
use apollo_mcp_server.Prelude.{Option, List, String, Result}

pub data SchemaEvent : Type 0 where
  update_schema_event : String → SchemaEvent
  no_more_schema : SchemaEvent

pub data Event (Raw Problem : Type 0) : Type 0 where
  schema_updated : SchemaEvent → Event Raw Problem
  operations_updated : List Raw → Event Raw Problem
  operation_error : Problem → Event Raw Problem
  collection_error : Problem → Event Raw Problem
  manifest_error : Problem → Event Raw Problem
  rhai_scripts_changed : Event Raw Problem
  config_changed : Event Raw Problem
  shutdown : Event Raw Problem

-- An event with what the code reads when it handles it: the Rhai scripts on disk, and what the
-- validator makes of the configuration file (`none`: it is valid).
pub record Arrival (Raw Scripts Problem : Type 0) : Type 0 where
  pub event : Event Raw Problem
  pub scripts : Result Scripts Problem
  pub config_problem : Option Problem
