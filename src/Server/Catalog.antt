-- ===== src/Server/Catalog.antt =====
-- The catalog of operations of a running server and its updates:
-- crates/apollo-mcp-server/src/server/states/running.rs, crates/apollo-mcp-server/src/operations/. The shared
-- cells of the clones of a server are the fields of one `Running`.
pub mod Loaded
use apollo_mcp_server.Prelude.{
  ℕ, suc, ◌≡◌, Bool, Option, none, some, List, [], ◌∷◌, map, Result, ok, err,
}

pub record Operation (Raw Tool : Type 0) : Type 0 where
  -- The tool with all else that is computed from the text of the operation.
  pub tool : Tool
  pub inner : Raw

-- A `Part` is a list of apps, a list of prompts or a search index.
pub record Running (Config Schema Raw Tool Part Scripts : Type 0) : Type 0 where
  pub config : Config
  pub schema : Schema
  pub operations : List (Operation Raw Tool)
  pub apps : Part
  pub prompts : Part
  pub search_tool : Option Part
  pub rhai_engine : Scripts
  -- `tool_list_changes`: how often a change has been published.
  pub published : ℕ

module _ {Raw Tool Problem : Type 0} where
  operation_of : Raw → Result (Option Tool) Problem → Result (Option (Operation Raw Tool)) Problem
  operation_of raw (ok (some tool)) = ok (some (record { tool = tool; inner = raw }))
  operation_of raw (ok none) = ok none
  operation_of raw (err e) = err e

  -- `unwrap_or_else`, which logs an invalid operation and drops it
  valid_operation : Result (Option (Operation Raw Tool)) Problem → Option (Operation Raw Tool)
  valid_operation (ok o) = o
  valid_operation (err e) = none

module _ {Raw Tool : Type 0} where
  put : Option (Operation Raw Tool) → List (Operation Raw Tool) → List (Operation Raw Tool)
  put none loaded = loaded
  put (some operation) loaded = operation ∷ loaded

  abbrev pub into_inner : Operation Raw Tool → Raw
  into_inner operation = operation.inner

module _ {Config Schema Raw Tool Problem : Type 0}
    (compile : Config → Schema → Raw → Result (Option Tool) Problem) where
  unfoldable pub into_operation :
      Config → Schema → Raw → Result (Option (Operation Raw Tool)) Problem
  unfolding operation_of
  into_operation config schema raw = operation_of raw (compile config schema raw)

  unfoldable pub load : Config → Schema → List Raw → List (Operation Raw Tool)
  unfolding put valid_operation into_operation
  load config schema [] = []
  load config schema (raw ∷ raws) =
      put (valid_operation (into_operation config schema raw)) (load config schema raws)

module _ {Config Schema Raw Tool Part Scripts Problem : Type 0}
    (compile : Config → Schema → Raw → Result (Option Tool) Problem) where
  unfoldable pub update_schema :
      Running Config Schema Raw Tool Part Scripts
      → Schema
      → Running Config Schema Raw Tool Part Scripts
  unfolding load
  update_schema running schema = record running {
    operations = load compile running.config schema (map into_inner running.operations);
    schema = schema;
    published = suc running.published;
  }

  unfoldable pub update_operations :
      Running Config Schema Raw Tool Part Scripts
      → List Raw
      → Running Config Schema Raw Tool Part Scripts
  unfolding load
  update_operations running operations = record running {
    operations = load compile running.config running.schema operations;
    published = suc running.published;
  }

-- A failure keeps the previous scripts.
unfoldable pub reload_rhai_scripts :
    {Config Schema Raw Tool Part Scripts Problem : Type 0}
    → Running Config Schema Raw Tool Part Scripts
    → Result Scripts Problem
    → Running Config Schema Raw Tool Part Scripts
reload_rhai_scripts running (ok scripts) = record running { rhai_engine = scripts }
reload_rhai_scripts running (err e) = running
