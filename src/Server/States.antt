-- ===== src/Server/States.antt =====
-- The state machine of the server: crates/apollo-mcp-server/src/server/states.rs, and configuring.rs,
-- schema_configured.rs and operations_configured.rs of crates/apollo-mcp-server/src/server/states/.
-- The streams of events are one list, in the order of arrival.
pub mod Feed
pub mod Current
pub mod Serving
pub mod Lifecycle
pub mod Endings
mod Tests
use apollo_mcp_server.Prelude.{
  ◌≡◌, Bool, true, false, ◌&&◌, ◌||◌, Option, none, some, is_some, String, List, [], ◌∷◌, Result,
  ok, err, if◌then◌else◌,
}
use apollo_mcp_server.Server.Events.{
  SchemaEvent, update_schema_event, no_more_schema, Event, schema_updated, operations_updated,
  operation_error, collection_error, manifest_error, rhai_scripts_changed, config_changed, shutdown,
  Arrival,
}
use apollo_mcp_server.Server.Catalog.{
  Running, update_schema, update_operations, reload_rhai_scripts,
}
use apollo_mcp_server.Server.Startup.{
  OperationError, file, collection, manifest, ServerError, graphql_schema, api_schema, federation,
  json, operation, no_schema, Externals, Starting, start,
}

pub data State (Config Schema Raw Tool Part Scripts Problem : Type 0) : Type 0 where
  configuring : Config → State Config Schema Raw Tool Part Scripts Problem
  schema_configured : Config → Schema → State Config Schema Raw Tool Part Scripts Problem
  operations_configured : Config → List Raw → State Config Schema Raw Tool Part Scripts Problem
  starting : Starting Config Schema Raw → State Config Schema Raw Tool Part Scripts Problem
  running :
      Running Config Schema Raw Tool Part Scripts
      → State Config Schema Raw Tool Part Scripts Problem
  error : ServerError Problem → State Config Schema Raw Tool Part Scripts Problem
  stopping : State Config Schema Raw Tool Part Scripts Problem
  restarting : State Config Schema Raw Tool Part Scripts Problem

pub data ShutdownReason : Type 0 where
  restart : ShutdownReason
  end : ShutdownReason

-- What handling an event gives: the new state, or the error that ends the run at once, and whether
-- the cancellation token of the running server has been cancelled.
pub record Handled (Config Schema Raw Tool Part Scripts Problem : Type 0) : Type 0 where
  pub outcome : Result (State Config Schema Raw Tool Part Scripts Problem) (ServerError Problem)
  pub cancelled : Bool

module _ {Config Schema Raw Tool Part Scripts Problem : Type 0} where
  unfoldable pub is_running : State Config Schema Raw Tool Part Scripts Problem → Bool
  is_running (running r) = true
  is_running _ = false

  -- The states at which the loop stops.
  unfoldable pub is_final : State Config Schema Raw Tool Part Scripts Problem → Bool
  is_final (error e) = true
  is_final stopping = true
  is_final restarting = true
  is_final _ = false

  unfoldable pub reason :
      State Config Schema Raw Tool Part Scripts Problem
      → Result ShutdownReason (ServerError Problem)
  reason (error e) = err e
  reason restarting = ok restart
  reason _ = ok end

module _ {Config Schema Raw Tool Part Scripts Problem : Type 0}
    (ext : Externals Config Schema Raw Tool Part Scripts Problem) where
  valid_or_partial : Result Schema Schema → Schema
  valid_or_partial (ok schema) = schema
  valid_or_partial (err partial) = partial

  of_supergraph : Result String Problem → Result Schema (ServerError Problem)
  unfolding valid_or_partial
  of_supergraph (err e) = err (federation e)
  of_supergraph (ok text) = elim (ext.parse text) [
    | err e ↦ err (api_schema e)
    | ok schema ↦ ok (valid_or_partial (ext.validate schema))
  ]

  unfoldable pub sdl_to_api_schema : String → Result Schema (ServerError Problem)
  unfolding of_supergraph
  sdl_to_api_schema sdl = elim (ext.supergraph sdl) [
    | some derived ↦ of_supergraph derived
    | none ↦ elim (ext.parse_and_validate sdl) [
      | err e ↦ err (graphql_schema e)
      | ok schema ↦ ok schema
    ]
  ]

  unfoldable pub set_schema :
      State Config Schema Raw Tool Part Scripts Problem
      → Schema
      → State Config Schema Raw Tool Part Scripts Problem
  set_schema (configuring config) schema = schema_configured config schema
  set_schema (schema_configured config old) schema = schema_configured config schema
  set_schema (operations_configured config operations) schema =
      starting (record { config = config; schema = schema; operations = operations })
  set_schema (running r) schema = running (update_schema ext.compile r schema)
  set_schema st schema = st

  -- The debug log of the operations, whose failure is an error.
  logged :
      List Raw
      → State Config Schema Raw Tool Part Scripts Problem
      → State Config Schema Raw Tool Part Scripts Problem
  logged operations next = elim (ext.print_raw operations) [ some e ↦ error (json e) | none ↦ next ]

  unfoldable pub set_operations :
      State Config Schema Raw Tool Part Scripts Problem
      → List Raw
      → State Config Schema Raw Tool Part Scripts Problem
  unfolding logged
  set_operations (configuring config) operations =
      logged operations (operations_configured config operations)
  set_operations (schema_configured config schema) operations =
      logged operations
        (starting (record { config = config; schema = schema; operations = operations }))
  set_operations (operations_configured config old) operations =
      logged operations (operations_configured config operations)
  set_operations (running r) operations = running (update_operations ext.compile r operations)
  set_operations st operations = st

  pub without_schema :
      State Config Schema Raw Tool Part Scripts Problem
      → State Config Schema Raw Tool Part Scripts Problem
  without_schema (configuring config) = error no_schema
  without_schema (operations_configured config operations) = error no_schema
  without_schema st = st

  keep_running :
      State Config Schema Raw Tool Part Scripts Problem
      → OperationError Problem
      → State Config Schema Raw Tool Part Scripts Problem
  keep_running (running r) e = running r
  keep_running _ e = error (operation e)

  reloaded :
      State Config Schema Raw Tool Part Scripts Problem
      → Result Scripts Problem
      → State Config Schema Raw Tool Part Scripts Problem
  reloaded (running r) scripts = running (reload_rhai_scripts r scripts)
  reloaded st scripts = st

  with_schema :
      State Config Schema Raw Tool Part Scripts Problem
      → Result Schema (ServerError Problem)
      → Result (State Config Schema Raw Tool Part Scripts Problem) (ServerError Problem)
  unfolding set_schema
  with_schema st (err e) = err e
  with_schema st (ok schema) = ok (set_schema st schema)

  -- `process_event`, with whether there is a validator of configuration files.
  unfoldable pub process_event :
      Bool
      → State Config Schema Raw Tool Part Scripts Problem
      → Arrival Raw Scripts Problem
      → Event Raw Problem
      → Handled Config Schema Raw Tool Part Scripts Problem
  unfolding with_schema without_schema keep_running reloaded set_operations
  process_event validator st arrival (schema_updated (update_schema_event sdl)) = record {
    outcome = with_schema st (sdl_to_api_schema sdl);
    cancelled = false;
  }
  process_event validator st arrival (schema_updated no_more_schema) = record {
    outcome = ok (without_schema st);
    cancelled = false;
  }
  process_event validator st arrival (operations_updated operations) = record {
    outcome = ok (set_operations st operations);
    cancelled = false;
  }
  process_event validator st arrival (operation_error e) = record {
    outcome = ok (error (operation (file e)));
    cancelled = false;
  }
  process_event validator st arrival (collection_error e) = record {
    outcome = ok (keep_running st (collection e));
    cancelled = false;
  }
  process_event validator st arrival (manifest_error e) = record {
    outcome = ok (keep_running st (manifest e));
    cancelled = false;
  }
  process_event validator st arrival rhai_scripts_changed = record {
    outcome = ok (reloaded st arrival.scripts);
    cancelled = false;
  }
  process_event validator st arrival config_changed =
      if validator && is_some arrival.config_problem
      then record { outcome = ok st; cancelled = false }
      else record { outcome = ok restarting; cancelled = is_running st }
  process_event validator st arrival shutdown = record {
    outcome = ok stopping;
    cancelled = is_running st;
  }

  -- `State::from(starting.start().await)`
  started :
      Result (Running Config Schema Raw Tool Part Scripts) (ServerError Problem)
      → State Config Schema Raw Tool Part Scripts Problem
  started (ok r) = running r
  started (err e) = error e

  unfoldable pub after_event :
      State Config Schema Raw Tool Part Scripts Problem
      → State Config Schema Raw Tool Part Scripts Problem
  unfolding started
  after_event (starting s) = started (start ext s)
  after_event st = st

  -- One turn of the loop and, unless it ends the run, the turns to come.
  unfoldable pub turn :
      (State Config Schema Raw Tool Part Scripts Problem
        → Handled Config Schema Raw Tool Part Scripts Problem)
      → Handled Config Schema Raw Tool Part Scripts Problem
      → Handled Config Schema Raw Tool Part Scripts Problem
  unfolding after_event
  turn later handled = elim handled.outcome [
    | err e ↦ handled
    | ok st ↦
        let next = after_event st in
        let rest = later next in
        if is_final next
        then record handled { outcome = ok next }
        else record rest { cancelled = handled.cancelled || rest.cancelled }
  ]

  unfoldable pub run :
      Bool
      → List (Arrival Raw Scripts Problem)
      → State Config Schema Raw Tool Part Scripts Problem
      → Handled Config Schema Raw Tool Part Scripts Problem
  unfolding turn
  run validator [] st = record { outcome = ok st; cancelled = false }
  run validator (arrival ∷ arrivals) st =
      turn (run validator arrivals) (process_event validator st arrival arrival.event)

  pub shutdown_reason :
      Result (State Config Schema Raw Tool Part Scripts Problem) (ServerError Problem)
      → Result ShutdownReason (ServerError Problem)
  shutdown_reason (err e) = err e
  shutdown_reason (ok st) = reason st

  -- `StateMachine::start`
  unfoldable pub start_machine :
      Bool
      → List (Arrival Raw Scripts Problem)
      → Config
      → Result ShutdownReason (ServerError Problem)
  unfolding shutdown_reason
  start_machine validator arrivals config =
      shutdown_reason (run validator arrivals (configuring config)).outcome
