-- ===== src/Server/States/Feed.antt =====
-- What the server of the parent has been told, computed from the events alone.
use apollo_mcp_server.Prelude.{
  Bool, false, ◌&&◌, Option, none, some, is_some, List, [], ◌∷◌, Result, ok, err,
}
use apollo_mcp_server.Server.Startup.{ServerError, Externals}
use apollo_mcp_server.Server.Events.{
  update_schema_event, no_more_schema, Event, schema_updated, operations_updated, operation_error,
  collection_error, manifest_error, rhai_scripts_changed, config_changed, shutdown, Arrival,
}
use apollo_mcp_server.Server.States.{sdl_to_api_schema}

-- The last schema, the last operations, and whether a schema has replaced another one since these
-- operations came.
pub record Feed (Schema Raw : Type 0) : Type 0 where
  pub schema : Option Schema
  pub operations : Option (List Raw)
  pub rebuilt : Bool

abbrev pub no_feed : {Schema Raw : Type 0} → Feed Schema Raw
no_feed = record { schema = none; operations = none; rebuilt = false }

module _ {Config Schema Raw Tool Part Scripts Problem : Type 0}
    (ext : Externals Config Schema Raw Tool Part Scripts Problem) where
  unfoldable pub feed_schema :
      Feed Schema Raw → Result Schema (ServerError Problem) → Feed Schema Raw
  feed_schema feed (err e) = feed
  feed_schema feed (ok schema) = record feed {
    schema = some schema;
    rebuilt = is_some feed.schema && is_some feed.operations;
  }

  unfoldable pub feed_event : Feed Schema Raw → Event Raw Problem → Feed Schema Raw
  unfolding feed_schema
  feed_event feed (schema_updated (update_schema_event sdl)) =
      feed_schema feed (sdl_to_api_schema ext sdl)
  feed_event feed (operations_updated operations) = record feed {
    operations = some operations;
    rebuilt = false;
  }
  feed_event feed (schema_updated no_more_schema) = feed
  feed_event feed (operation_error e) = feed
  feed_event feed (collection_error e) = feed
  feed_event feed (manifest_error e) = feed
  feed_event feed rhai_scripts_changed = feed
  feed_event feed config_changed = feed
  feed_event feed shutdown = feed

  unfoldable pub feed_of : Feed Schema Raw → List (Arrival Raw Scripts Problem) → Feed Schema Raw
  unfolding feed_event
  feed_of feed [] = feed
  feed_of feed (arrival ∷ arrivals) = feed_of (feed_event feed arrival.event) arrivals
