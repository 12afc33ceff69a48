-- ===== src/Server/States/Endings.antt =====
-- What a run of the server of the parent ends with.
use apollo_mcp_server.Prelude.{
  ◌≡◌, ◌∙◌, refl, ap, Bool, true, false, some, List, [], ◌∷◌, ◌++◌, Result, ok, err, Any,
  Bool-cases, inl, inr, arith,
}
use apollo_mcp_server.Server.Startup.{ServerError, Externals}
use apollo_mcp_server.Server.Events.{
  Event, schema_updated, operations_updated, operation_error, collection_error, manifest_error,
  rhai_scripts_changed, config_changed, shutdown, Arrival,
}
use apollo_mcp_server.Server.States.{
  State, configuring, stopping, restarting, ShutdownReason, restart, is_final, reason, set_schema,
  logged, set_operations, without_schema, keep_running, reloaded, with_schema, process_event,
  started, after_event, turn, run, shutdown_reason, start_machine,
}
use apollo_mcp_server.Server.States.Lifecycle.{
  ending, turn_live, turn_final, turn_failed, run-append,
}

module _ {Config Schema Raw Tool Part Scripts Problem : Type 0}
    (ext : Externals Config Schema Raw Tool Part Scripts Problem) where
  ending_state :
      (validator : Bool) (st : State Config Schema Raw Tool Part Scripts Problem)
      (arrival : Arrival Raw Scripts Problem) (event : Event Raw Problem) (why : ShutdownReason)
      → ending validator arrival event ≡ some why
      → (last : State Config Schema Raw Tool Part Scripts Problem) × ((process_event ext validator
            st arrival event).outcome
          ≡ ok last)
        × (is_final (after_event ext last) ≡ true)
        × (reason (after_event ext last) ≡ ok why)
  unfolding process_event ending after_event is_final reason
  ending_state validator st arrival shutdown why h = (stopping, refl, refl, ground arith)
  ending_state validator st arrival config_changed why h =
      (restarting, ground arith, refl, ground arith)
  ending_state validator st arrival (schema_updated event) why h = absurd (ground arith)
  ending_state validator st arrival (operations_updated raws) why h = absurd (ground arith)
  ending_state validator st arrival (operation_error e) why h = absurd (ground arith)
  ending_state validator st arrival (collection_error e) why h = absurd (ground arith)
  ending_state validator st arrival (manifest_error e) why h = absurd (ground arith)
  ending_state validator st arrival rhai_scripts_changed why h = absurd (ground arith)

  -- When the run is still going on, a shutdown ends it regularly and a change to a configuration that
  -- is valid, or not validated, ends it with a restart. Whatever arrives later is not looked at.
  pub start_machine-ending :
      (validator : Bool) (config : Config) (arrivals more : List (Arrival Raw Scripts Problem))
      (arrival : Arrival Raw Scripts Problem)
      (st : State Config Schema Raw Tool Part Scripts Problem) (why : ShutdownReason)
      → (run ext validator arrivals (configuring config)).outcome ≡ ok st
      → is_final st ≡ false
      → ending validator arrival arrival.event ≡ some why
      → start_machine ext validator (arrivals ++ arrival ∷ more) config ≡ ok why
  unfolding start_machine shutdown_reason run
  start_machine-ending validator config arrivals more arrival st why h live ends =
      let (last, handled, final, because) =
        ending_state validator st arrival arrival.event why ends in
      let stop =
        turn_final ext (run ext validator more)
          (process_event ext validator st arrival arrival.event) last handled final in
      rw (run-append ext validator arrivals (arrival ∷ more) (configuring config) st h live, stop)
        because

  restarting_only :
      (st : State Config Schema Raw Tool Part Scripts Problem)
      → reason (after_event ext st) ≡ ok restart
      → st ≡ restarting
  unfolding after_event reason started
  restarting_only st h = ground arith

  restarting_event :
      (validator : Bool) (st : State Config Schema Raw Tool Part Scripts Problem)
      (arrival : Arrival Raw Scripts Problem) (event : Event Raw Problem)
      → is_final st ≡ false
      → (process_event ext validator st arrival event).outcome ≡ ok restarting
      → ending validator arrival event ≡ some restart
  unfolding process_event ending is_final with_schema set_schema set_operations without_schema
      keep_running reloaded logged
  restarting_event validator st arrival event live h = ground arith

  restart_turn :
      (validator : Bool) (arrival : Arrival Raw Scripts Problem)
      (arrivals : List (Arrival Raw Scripts Problem))
      (st : State Config Schema Raw Tool Part Scripts Problem)
      → is_final st ≡ false
      → ((next : State Config Schema Raw Tool Part Scripts Problem)
          → is_final next ≡ false
          → shutdown_reason ext (run ext validator arrivals next).outcome ≡ ok restart
          → Any (λ a. ending validator a a.event ≡ some restart) arrivals)
      → (result : Result (State Config Schema Raw Tool Part Scripts Problem) (ServerError Problem))
      → (process_event ext validator st arrival arrival.event).outcome ≡ result
      → shutdown_reason ext
          (turn ext
            (run ext validator arrivals)
            (process_event ext validator st arrival arrival.event)).outcome
        ≡ ok restart
      → Any (λ a. ending validator a a.event ≡ some restart) (arrival ∷ arrivals)
  unfolding shutdown_reason
  restart_turn validator arrival arrivals st live later (err e) same h = absurd (
      ground (
        arith,
        turn_failed ext (run ext validator arrivals)
            (process_event ext validator st arrival arrival.event) e same,
      ))
  restart_turn validator arrival arrivals st live later (ok next) same h =
      elim (Bool-cases (is_final (after_event ext next))) [
        | inl final ↦ inl (
            restarting_event validator st arrival arrival.event live (
              same
              ∙ ap ok (
                  restarting_only next (
                    rw
                      (turn_final ext (run ext validator arrivals)
                        (process_event ext validator st arrival arrival.event) next same final)
                      at h))))
        | inr continues ↦ inr (
            later (after_event ext next) continues (
              rw
                (turn_live ext (run ext validator arrivals)
                  (process_event ext validator st arrival arrival.event) next same continues)
                at h))
      ]

  restart_run :
      (validator : Bool) (arrivals : List (Arrival Raw Scripts Problem))
      (st : State Config Schema Raw Tool Part Scripts Problem)
      → is_final st ≡ false
      → shutdown_reason ext (run ext validator arrivals st).outcome ≡ ok restart
      → Any (λ a. ending validator a a.event ≡ some restart) arrivals
  unfolding run shutdown_reason is_final reason
  restart_run validator [] st live h = absurd (ground arith)
  restart_run validator (arrival ∷ arrivals) st live h =
      restart_turn validator arrival arrivals st live (restart_run validator arrivals)
        (process_event ext validator st arrival arrival.event).outcome refl h

  -- The server only asks for a restart because the configuration has changed and is valid or not
  -- validated.
  pub start_machine-restart :
      (validator : Bool) (config : Config) (arrivals : List (Arrival Raw Scripts Problem))
      → start_machine ext validator arrivals config ≡ ok restart
      → Any (λ a. ending validator a a.event ≡ some restart) arrivals
  unfolding start_machine is_final
  start_machine-restart validator config arrivals h =
      restart_run validator arrivals (configuring config) refl h
