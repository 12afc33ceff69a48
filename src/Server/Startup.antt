-- ===== src/Server/Startup.antt =====
-- `Starting::start` of crates/apollo-mcp-server/src/server/states/starting.rs, with the errors of
-- crates/apollo-mcp-server/src/errors.rs that the states of the server raise.
pub mod Started
use apollo_mcp_server.Prelude.{
  ℕ, Bool, Option, none, some, String, List, Result, ok, err, if◌then◌else◌,
}
use apollo_mcp_server.Server.Catalog.{Operation, Running, load}

pub data OperationError (Problem : Type 0) : Type 0 where
  file : Problem → OperationError Problem
  collection : Problem → OperationError Problem
  manifest : Problem → OperationError Problem

pub data ServerError (Problem : Type 0) : Type 0 where
  graphql_schema : Problem → ServerError Problem
  api_schema : Problem → ServerError Problem
  federation : Problem → ServerError Problem
  json : Problem → ServerError Problem
  operation : OperationError Problem → ServerError Problem
  no_schema : ServerError Problem
  indexing : Problem → ServerError Problem
  apps : Problem → ServerError Problem
  prompts : Problem → ServerError Problem
  rhai_error : ServerError Problem
  -- The errors of the transports: CORS, TLS, a socket, the handshake over stdio.
  transport : Problem → ServerError Problem

-- What the server calls: the compilers of schemas and operations, the loaders of files, the scripts and
-- the transports. `none` of an `Option Problem` is success.
pub record Externals (Config Schema Raw Tool Part Scripts Problem : Type 0) : Type 0 where
  -- The tool of an operation, or `none` for one that is skipped.
  pub compile : Config → Schema → Raw → Result (Option Tool) Problem
  -- `serde_json::to_string_pretty` in the debug log
  pub print_raw : List Raw → Option Problem
  pub print_loaded : List (Operation Raw Tool) → Option Problem
  -- `Supergraph::new_with_router_specs` and `to_api_schema`
  pub supergraph : String → Option (Result String Problem)
  -- `Schema::parse`, and `validate` with the partial schema as the error
  pub parse : String → Result Schema Problem
  pub validate : Schema → Result Schema Schema
  pub parse_and_validate : String → Result Schema Problem
  pub load_apps : Config → Schema → Result Part Problem
  pub load_prompts : Config → Result Part Problem
  pub search_introspection : Config → Bool
  pub new_search : Config → Schema → Result Part Problem
  pub load_scripts : Config → Result Scripts Problem
  pub on_startup : Scripts → Option Problem
  pub serve : Running Config Schema Raw Tool Part Scripts → Option Problem

pub record Starting (Config Schema Raw : Type 0) : Type 0 where
  pub config : Config
  pub schema : Schema
  pub operations : List Raw

module _ {Config Schema Raw Tool Part Scripts Problem : Type 0}
    (ext : Externals Config Schema Raw Tool Part Scripts Problem) where
  transport_served :
      Running Config Schema Raw Tool Part Scripts
      → Option Problem
      → Result (Running Config Schema Raw Tool Part Scripts) (ServerError Problem)
  transport_served running none = ok running
  transport_served running (some e) = err (transport e)

  with_scripts :
      Running Config Schema Raw Tool Part Scripts
      → Result (Running Config Schema Raw Tool Part Scripts) (ServerError Problem)
  unfolding transport_served
  with_scripts running = elim (ext.on_startup running.rhai_engine) [
    | some e ↦ err rhai_error
    | none ↦ transport_served running (ext.serve running)
  ]

  -- The search index is only built if the tool is enabled.
  search_index : Config → Schema → Result (Option Part) Problem
  search_index config schema =
      if ext.search_introspection config
      then elim (ext.new_search config schema) [ ok index ↦ ok (some index) | err e ↦ err e ]
      else ok none

  with_catalog :
      Starting Config Schema Raw
      → List (Operation Raw Tool)
      → Result (Running Config Schema Raw Tool Part Scripts) (ServerError Problem)
  unfolding with_scripts search_index
  with_catalog starting loaded = elim (ext.load_apps starting.config starting.schema) [
    | err e ↦ err (apps e)
    | ok app_list ↦ elim (ext.load_prompts starting.config) [
      | err e ↦ err (prompts e)
      | ok prompt_list ↦ elim (search_index starting.config starting.schema) [
        | err e ↦ err (indexing e)
        | ok search ↦ elim (ext.load_scripts starting.config) [
          | err e ↦ err rhai_error
          | ok scripts ↦ with_scripts (record {
            config = starting.config;
            schema = starting.schema;
            operations = loaded;
            apps = app_list;
            prompts = prompt_list;
            search_tool = search;
            rhai_engine = scripts;
            published = 0;
          })
        ]
      ]
    ]
  ]

  unfoldable pub start :
      Starting Config Schema Raw
      → Result (Running Config Schema Raw Tool Part Scripts) (ServerError Problem)
  unfolding with_catalog
  start starting =
      let loaded = load ext.compile starting.config starting.schema starting.operations in
      elim (ext.print_loaded loaded) [ some e ↦ err (json e) | none ↦ with_catalog starting loaded ]
