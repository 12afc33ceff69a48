-- ===== src/Server/States/Serving.antt =====
-- Runs of the server of the parent, seen from what it has been told.
use apollo_mcp_server.Prelude.{
  ◌≡◌, refl, Bool, true, ◌&&◌, is_some, List, [], ◌∷◌, Result, ok, err, Bool-cases, inl, inr, arith,
}
use apollo_mcp_server.Server.Catalog.{Running, reload_rhai_scripts}
use apollo_mcp_server.Server.Startup.{ServerError, collection, manifest, Externals, start}
use apollo_mcp_server.Server.Events.{
  update_schema_event, no_more_schema, Event, schema_updated, operations_updated, operation_error,
  collection_error, manifest_error, rhai_scripts_changed, config_changed, shutdown, Arrival,
}
use apollo_mcp_server.Server.States.{
  State, configuring, schema_configured, operations_configured, starting, running, error, stopping,
  restarting, Handled, is_final, sdl_to_api_schema, keep_running, reloaded, with_schema,
  process_event, started, after_event, turn, run,
}
use apollo_mcp_server.Server.States.Feed.{Feed, no_feed, feed_schema, feed_event, feed_of}
use apollo_mcp_server.Server.States.Current.{
  IsServing, IsCurrent, NotStarting, set_schema-IsCurrent, set_operations-IsCurrent,
  without_schema-IsCurrent, after_event-IsCurrent,
}

-- What holds of a result that is not an error.
abbrev OnOk : {A E : Type 0} → (A → Type 0) → Result A E → Type 0
OnOk P (ok a) = P a
OnOk P (err e) = Unit

module _ {Config Schema Raw Tool Part Scripts Problem : Type 0}
    (ext : Externals Config Schema Raw Tool Part Scripts Problem) where
  keep_running-IsCurrent :
      (config : Config) (feed : Feed Schema Raw)
      (st : State Config Schema Raw Tool Part Scripts Problem) (e : _)
      → IsCurrent ext config feed st
      → IsCurrent ext config feed (keep_running ext st e)
  unfolding keep_running
  keep_running-IsCurrent config feed (running r) e h = h
  keep_running-IsCurrent config feed (configuring c) e h = tt
  keep_running-IsCurrent config feed (schema_configured c schema) e h = tt
  keep_running-IsCurrent config feed (operations_configured c raws) e h = tt
  keep_running-IsCurrent config feed (starting s) e h = tt
  keep_running-IsCurrent config feed (error _) e h = tt
  keep_running-IsCurrent config feed stopping e h = tt
  keep_running-IsCurrent config feed restarting e h = tt

  scripts-IsServing :
      (config : Config) (feed : Feed Schema Raw) (r : Running Config Schema Raw Tool Part Scripts)
      (scripts : Result Scripts Problem)
      → IsServing ext config feed r
      → IsServing ext config feed (reload_rhai_scripts r scripts)
  unfolding reload_rhai_scripts
  scripts-IsServing config feed r (err e) h = h
  scripts-IsServing config feed r (ok scripts) h = record {
    configured = h.configured;
    told_schema = h.told_schema;
    raws = h.raws;
    told_operations = h.told_operations;
    served = h.served;
    complete = h.complete;
  }

  reloaded-IsCurrent :
      (config : Config) (feed : Feed Schema Raw)
      (st : State Config Schema Raw Tool Part Scripts Problem) (scripts : Result Scripts Problem)
      → IsCurrent ext config feed st
      → IsCurrent ext config feed (reloaded ext st scripts)
  unfolding reloaded
  reloaded-IsCurrent config feed (running r) scripts h = scripts-IsServing config feed r scripts h
  reloaded-IsCurrent config feed (configuring c) scripts h = h
  reloaded-IsCurrent config feed (schema_configured c schema) scripts h = h
  reloaded-IsCurrent config feed (operations_configured c raws) scripts h = h
  reloaded-IsCurrent config feed (starting s) scripts h = h
  reloaded-IsCurrent config feed (error _) scripts h = tt
  reloaded-IsCurrent config feed stopping scripts h = tt
  reloaded-IsCurrent config feed restarting scripts h = tt

  process_event-IsCurrent :
      (validator : Bool) (config : Config) (feed : Feed Schema Raw)
      (st : State Config Schema Raw Tool Part Scripts Problem)
      (arrival : Arrival Raw Scripts Problem) (event : Event Raw Problem)
      → NotStarting ext st
      → IsCurrent ext config feed st
      → OnOk
          (IsCurrent ext config (feed_event ext feed event))
          (process_event ext validator st arrival event).outcome
  unfolding process_event feed_event
  process_event-IsCurrent validator config feed st arrival
        (schema_updated (update_schema_event sdl)) settled h =
      schema_case (sdl_to_api_schema ext sdl)
    where
      schema_case :
          (result : Result Schema (ServerError Problem))
          → OnOk (IsCurrent ext config (feed_schema ext feed result)) (with_schema ext st result)
      schema_case (err e) = tt
      schema_case (ok schema) = set_schema-IsCurrent ext config feed schema st settled h
  process_event-IsCurrent validator config feed st arrival (schema_updated no_more_schema) settled
        h =
      without_schema-IsCurrent ext config feed st settled h
  process_event-IsCurrent validator config feed st arrival (operations_updated raws) settled h =
      set_operations-IsCurrent ext config feed raws st settled h
  process_event-IsCurrent validator config feed st arrival (operation_error e) settled h = tt
  process_event-IsCurrent validator config feed st arrival (collection_error e) settled h =
      keep_running-IsCurrent config feed st (collection e) h
  process_event-IsCurrent validator config feed st arrival (manifest_error e) settled h =
      keep_running-IsCurrent config feed st (manifest e) h
  process_event-IsCurrent validator config feed st arrival rhai_scripts_changed settled h =
      reloaded-IsCurrent config feed st arrival.scripts h
  process_event-IsCurrent validator config feed st arrival config_changed settled h =
      elim (Bool-cases (validator && is_some arrival.config_problem)) [
        | inl invalid ↦ rw (invalid) h
        | inr valid ↦ rw (valid) tt
      ]
  process_event-IsCurrent validator config feed st arrival shutdown settled h = tt

  final-IsCurrent :
      (config : Config) (feed : Feed Schema Raw)
      (st : State Config Schema Raw Tool Part Scripts Problem)
      → is_final st ≡ true
      → IsCurrent ext config feed st
  unfolding is_final
  final-IsCurrent config feed (error e) h = tt
  final-IsCurrent config feed stopping h = tt
  final-IsCurrent config feed restarting h = tt
  final-IsCurrent config feed (configuring c) h = absurd (ground arith)
  final-IsCurrent config feed (schema_configured c schema) h = absurd (ground arith)
  final-IsCurrent config feed (operations_configured c raws) h = absurd (ground arith)
  final-IsCurrent config feed (starting s) h = absurd (ground arith)
  final-IsCurrent config feed (running r) h = absurd (ground arith)

  started-NotStarting :
      (result : Result (Running Config Schema Raw Tool Part Scripts) (ServerError Problem))
      → NotStarting ext (started ext result)
  unfolding started
  started-NotStarting (ok r) = tt
  started-NotStarting (err e) = tt

  after_event-NotStarting :
      (st : State Config Schema Raw Tool Part Scripts Problem)
      → NotStarting ext (after_event ext st)
  unfolding after_event
  after_event-NotStarting (starting s) = started-NotStarting (start ext s)
  after_event-NotStarting (configuring c) = tt
  after_event-NotStarting (schema_configured c schema) = tt
  after_event-NotStarting (operations_configured c raws) = tt
  after_event-NotStarting (running r) = tt
  after_event-NotStarting (error e) = tt
  after_event-NotStarting stopping = tt
  after_event-NotStarting restarting = tt

  turn-IsCurrent :
      (config : Config) (feed told : Feed Schema Raw)
      (later : State Config Schema Raw Tool Part Scripts Problem
        → Handled Config Schema Raw Tool Part Scripts Problem)
      (handled : Handled Config Schema Raw Tool Part Scripts Problem)
      → ((next : State Config Schema Raw Tool Part Scripts Problem)
          → NotStarting ext next
          → IsCurrent ext config feed next
          → OnOk (IsCurrent ext config told) (later next).outcome)
      → (result : Result (State Config Schema Raw Tool Part Scripts Problem) (ServerError Problem))
      → handled.outcome ≡ result
      → OnOk (IsCurrent ext config feed) result
      → OnOk (IsCurrent ext config told) (turn ext later handled).outcome
  unfolding turn
  turn-IsCurrent config feed told later handled rest (err e) same h = rw (same, turn, same) tt
  turn-IsCurrent config feed told later handled rest (ok st) same h =
      elim (Bool-cases (is_final (after_event ext st))) [
        | inl final ↦
            rw (same, final, turn) (final-IsCurrent config told (after_event ext st) final)
        | inr continues ↦
            rw (same, continues, turn)
              (rest (after_event ext st) (after_event-NotStarting st)
                (after_event-IsCurrent ext config feed st h))
      ]

  run-IsCurrent :
      (validator : Bool) (config : Config) (arrivals : List (Arrival Raw Scripts Problem))
      (feed : Feed Schema Raw) (st : State Config Schema Raw Tool Part Scripts Problem)
      → NotStarting ext st
      → IsCurrent ext config feed st
      → OnOk
          (IsCurrent ext config (feed_of ext feed arrivals))
          (run ext validator arrivals st).outcome
  unfolding run feed_of
  run-IsCurrent validator config [] feed st settled h = h
  run-IsCurrent validator config (arrival ∷ arrivals) feed st settled h =
      turn-IsCurrent config (feed_event ext feed arrival.event)
        (feed_of ext (feed_event ext feed arrival.event) arrivals) (run ext validator arrivals)
        (process_event ext validator st arrival arrival.event)
        (λ next calm current.
          run-IsCurrent validator config arrivals (feed_event ext feed arrival.event) next calm
            current)
        (process_event ext validator st arrival arrival.event).outcome refl
        (process_event-IsCurrent validator config feed st arrival arrival.event settled h)

  -- Whatever events have come, a server that runs serves the last schema it was told, and only
  -- operations made with that schema from the last operations it was told. If the schema has not changed
  -- since these came, it serves all of them that can be made.
  pub run-IsServing :
      (validator : Bool) (config : Config) (arrivals : List (Arrival Raw Scripts Problem))
      (r : Running Config Schema Raw Tool Part Scripts)
      → (run ext validator arrivals (configuring config)).outcome ≡ ok (running r)
      → IsServing ext config (feed_of ext no_feed arrivals) r
  run-IsServing validator config arrivals r h =
      rw (h) at
        (run-IsCurrent validator config arrivals no_feed (configuring config) tt (refl, refl, refl))
