-- ===== src/Server/States/Tests.antt =====
-- Tests of the state machine, and its theorems at concrete inputs.
use apollo_mcp_server.Prelude.{
  is_some, ℕ, ◌≡◌, ◌⊎◌, refl, true, false, ◌&&◌, none, some, String, List, [], ◌∷◌, ◌++◌, ok, err,
  Any, ◌==◌, if◌then◌else◌,
}
use apollo_mcp_server.Server.Catalog.{
  Running, into_operation, load, update_schema, update_operations, reload_rhai_scripts,
}
use apollo_mcp_server.Server.Startup.{ServerError, Externals, start}
use apollo_mcp_server.Server.Events.{
  update_schema_event, no_more_schema, Event, schema_updated, operations_updated,
  rhai_scripts_changed, config_changed, shutdown, Arrival,
}
use apollo_mcp_server.Server.States.{
  configuring, running, restart, is_final, is_running, reason, sdl_to_api_schema, set_schema,
  set_operations, process_event, after_event, turn, run, start_machine,
}
use apollo_mcp_server.Server.States.Feed.{no_feed, feed_of}
use apollo_mcp_server.Server.States.Serving.{run-IsServing}
use apollo_mcp_server.Server.States.Current.{IsServing}
use apollo_mcp_server.Server.States.Lifecycle.{
  tolerated, leaves, is_tolerated, ending, process_event-cancelled, process_event-is_tolerated,
  process_event-published,
}
use apollo_mcp_server.Server.States.Endings.{start_machine-ending, start_machine-restart}

abbrev ext : Externals ℕ String String (String × String) ℕ ℕ String
ext = record {
  compile = λ config schema raw.
      if raw == "oops"
      then err "syntax"
      else if raw == "fragment"
      then ok none
      else ok (some (schema, raw));
  print_raw = λ raws. none;
  print_loaded = λ loaded. none;
  supergraph = λ sdl. none;
  parse = λ text. ok text;
  validate = λ schema. ok schema;
  parse_and_validate = λ sdl. if sdl == "nonsense" then err "syntax" else ok sdl;
  load_apps = λ config schema. ok 1;
  load_prompts = λ config. ok 2;
  search_introspection = λ config. false;
  new_search = λ config schema. ok 3;
  load_scripts = λ config. ok 4;
  on_startup = λ scripts. none;
  serve = λ r. none;
}

abbrev arrive : Event String String → Arrival String ℕ String
arrive event = record { event = event; scripts = ok 5; config_problem = some "unknown field" }

abbrev saved : Arrival String ℕ String
saved = record { event = config_changed; scripts = ok 5; config_problem = none }

abbrev told : List (Arrival String ℕ String)
told =
    arrive (operations_updated ("a" ∷ "oops" ∷ "fragment" ∷ "b" ∷ []))
    ∷ arrive (schema_updated (update_schema_event "one"))
    ∷ arrive (schema_updated (update_schema_event "two"))
    ∷ arrive config_changed
    ∷ []

abbrev served : Running ℕ String String (String × String) ℕ ℕ
served = record {
  config = 0;
  schema = "two";
  operations =
      record { tool = ("two", "a"); inner = "a" }
      ∷ record { tool = ("two", "b"); inner = "b" }
      ∷ [];
  apps = 1;
  prompts = 2;
  search_tool = none;
  rhai_engine = 4;
  published = 1;
}

states_open : Unit {0}
unfolding into_operation load update_schema update_operations reload_rhai_scripts start is_final
    is_running reason sdl_to_api_schema set_schema set_operations process_event after_event turn run
    start_machine leaves is_tolerated ending
states_open = tt

told_runs : (run ext true told (configuring 0)).outcome ≡ ok (running served)
unfolding states_open
told_runs = refl

no_schema_ends :
    start_machine ext true
      (arrive (operations_updated []) ∷ arrive (schema_updated no_more_schema) ∷ saved ∷ [])
      0
    ≡ err ServerError.no_schema
unfolding states_open
no_schema_ends = refl

-- Without a validator, any change restarts.
unvalidated_restarts : start_machine ext false (arrive config_changed ∷ []) 0 ≡ ok restart
unfolding states_open
unvalidated_restarts = refl

run-IsServing_example : IsServing ext 0 (feed_of ext no_feed told) served
run-IsServing_example = run-IsServing ext true 0 told served told_runs

start_machine-ending_example :
    start_machine ext true (told ++ saved ∷ arrive shutdown ∷ []) 0 ≡ ok restart
unfolding states_open
start_machine-ending_example =
    start_machine-ending ext true 0 told (arrive shutdown ∷ []) saved (running served) restart
      told_runs refl refl

start_machine-restart_example :
    Any (λ a. ending true a a.event ≡ some restart) (arrive (operations_updated []) ∷ saved ∷ [])
unfolding states_open
start_machine-restart_example =
    start_machine-restart ext true 0 (arrive (operations_updated []) ∷ saved ∷ []) refl

process_event-cancelled_example :
    ((process_event ext true (running served) saved config_changed).cancelled ≡ (
      is_running {Problem = String} (running served) && is_some (ending true saved config_changed)))
    × ((process_event ext true (running served) saved config_changed).cancelled ≡ (
        is_running {Problem = String} (running served)
        && leaves (process_event ext true (running served) saved config_changed).outcome))
process_event-cancelled_example =
    process_event-cancelled ext true (running served) saved config_changed

process_event-is_tolerated_example :
    ((process_event ext true
        (running served)
        (arrive rhai_scripts_changed)
        rhai_scripts_changed).outcome
      ≡ ok (running (tolerated served (arrive rhai_scripts_changed) rhai_scripts_changed)))
    × ((tolerated served (arrive rhai_scripts_changed) rhai_scripts_changed).published ≡ 1)
unfolding states_open
process_event-is_tolerated_example =
    process_event-is_tolerated ext true served (arrive rhai_scripts_changed) rhai_scripts_changed
      refl

abbrev updated : Running ℕ String String (String × String) ℕ ℕ
updated = record served {
  operations = record { tool = ("two", "c"); inner = "c" } ∷ [];
  published = 2;
}

process_event-published_example :
    (updated.published ≡ 2)
    ⊎ ((updated.published ≡ 1)
        × (updated.schema ≡ served.schema)
        × (updated.operations ≡ served.operations))
unfolding states_open
process_event-published_example =
    process_event-published ext true served updated (arrive (operations_updated ("c" ∷ [])))
      (operations_updated ("c" ∷ [])) refl
