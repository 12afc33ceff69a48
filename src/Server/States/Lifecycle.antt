-- ===== src/Server/States/Lifecycle.antt =====
-- How a run of the server of the parent goes on and how it ends.
use apollo_mcp_server.Prelude.{
  suc, ◌≡◌, ◌⊎◌, refl, ap, Bool, true, false, ◌&&◌, Option, none, some, is_some, List, [], ◌∷◌,
  ◌++◌, Result, ok, err, Bool-cases, inl, inr, arith, if◌then◌else◌,
}
use apollo_mcp_server.Server.Catalog.{
  Running, update_schema, update_operations, reload_rhai_scripts,
}
use apollo_mcp_server.Server.Startup.{ServerError, Externals}
use apollo_mcp_server.Server.Events.{
  update_schema_event, no_more_schema, Event, schema_updated, operations_updated, operation_error,
  collection_error, manifest_error, rhai_scripts_changed, config_changed, shutdown, Arrival,
}
use apollo_mcp_server.Server.States.{
  State, running, stopping, restarting, ShutdownReason, restart, end, Handled, is_final, is_running,
  set_schema, set_operations, without_schema, keep_running, reloaded, with_schema, process_event,
  after_event, turn, run,
}

module _ {Config Schema Raw Tool Part Scripts Problem : Type 0} where
  -- The state after the event is Stopping or Restarting.
  unfoldable pub leaves :
      Result (State Config Schema Raw Tool Part Scripts Problem) (ServerError Problem) → Bool
  leaves (ok stopping) = true
  leaves (ok restarting) = true
  leaves _ = false

module _ {Raw Scripts Problem : Type 0} where
  -- The event leaves a running server as it is, but for its scripts.
  unfoldable pub is_tolerated : Bool → Arrival Raw Scripts Problem → Event Raw Problem → Bool
  is_tolerated validator arrival (schema_updated no_more_schema) = true
  is_tolerated validator arrival (collection_error e) = true
  is_tolerated validator arrival (manifest_error e) = true
  is_tolerated validator arrival rhai_scripts_changed = true
  is_tolerated validator arrival config_changed = validator && is_some arrival.config_problem
  is_tolerated validator arrival _ = false

  -- What the event makes the run end with.
  unfoldable pub ending :
      Bool → Arrival Raw Scripts Problem → Event Raw Problem → Option ShutdownReason
  ending validator arrival config_changed =
      if validator && is_some arrival.config_problem then none else some restart
  ending validator arrival shutdown = some end
  ending validator arrival _ = none

module _ {Config Schema Raw Tool Part Scripts Problem : Type 0} where
  -- The running server after an event that it tolerates: scripts that load replace the old ones.
  abbrev pub tolerated :
      Running Config Schema Raw Tool Part Scripts
      → Arrival Raw Scripts Problem
      → Event Raw Problem
      → Running Config Schema Raw Tool Part Scripts
  tolerated r arrival rhai_scripts_changed = elim arrival.scripts [
    | ok scripts ↦ record r { rhai_engine = scripts }
    | err problem ↦ r
  ]
  tolerated r arrival other = r

module _ {Config Schema Raw Tool Part Scripts Problem : Type 0}
    (ext : Externals Config Schema Raw Tool Part Scripts Problem) where
  -- The requests under way are cancelled by exactly two events, and only while the server runs: a
  -- shutdown, and a changed configuration that is valid or not validated. These are the events that lead
  -- to the states Stopping and Restarting. An event that ends the run with an error cancels nothing.
  pub process_event-cancelled :
      (validator : Bool) (st : State Config Schema Raw Tool Part Scripts Problem)
      (arrival : Arrival Raw Scripts Problem) (event : Event Raw Problem)
      → ((process_event ext validator st arrival event).cancelled
          ≡ (is_running st && is_some (ending validator arrival event)))
        × ((process_event ext validator st arrival event).cancelled
            ≡ (is_running st && leaves (process_event ext validator st arrival event).outcome))
  unfolding process_event is_running leaves ending with_schema set_schema set_operations
      without_schema keep_running reloaded
  process_event-cancelled validator st arrival event = (ground arith, ground arith)

  reloads :
      (r : Running Config Schema Raw Tool Part Scripts) (scripts : Result Scripts Problem)
      → reload_rhai_scripts r scripts
        ≡ (elim scripts [ ok new ↦ record r { rhai_engine = new } | err problem ↦ r ])
  unfolding reload_rhai_scripts
  reloads r (ok scripts) = refl
  reloads r (err e) = refl

  -- A running server goes on exactly as it was, with the same scripts, when a collection or a manifest
  -- cannot be read, when the schema ends, and when the validator finds a problem in a changed
  -- configuration. When scripts have changed, it goes on with the new scripts if they load and with the old ones if not, and all else
  -- stays. In each case it publishes nothing to its clients.
  pub process_event-is_tolerated :
      (validator : Bool) (r : Running Config Schema Raw Tool Part Scripts)
      (arrival : Arrival Raw Scripts Problem) (event : Event Raw Problem)
      → is_tolerated validator arrival event ≡ true
      → ((process_event ext validator (running r) arrival event).outcome
          ≡ ok (running (tolerated r arrival event)))
        × ((tolerated r arrival event).published ≡ r.published)
  unfolding process_event is_tolerated without_schema keep_running reloaded
  process_event-is_tolerated validator r arrival (schema_updated no_more_schema) h = (refl, refl)
  process_event-is_tolerated validator r arrival (collection_error e) h = (refl, refl)
  process_event-is_tolerated validator r arrival (manifest_error e) h = (refl, refl)
  process_event-is_tolerated validator r arrival rhai_scripts_changed h =
      (ap (λ v. ok (running v)) (reloads r arrival.scripts), ground arith)
  process_event-is_tolerated validator r arrival config_changed h = (rw (h) refl, refl)
  process_event-is_tolerated validator r arrival (schema_updated (update_schema_event sdl)) h =
      absurd (ground arith)
  process_event-is_tolerated validator r arrival (operations_updated raws) h = absurd (ground arith)
  process_event-is_tolerated validator r arrival (operation_error e) h = absurd (ground arith)
  process_event-is_tolerated validator r arrival shutdown h = absurd (ground arith)

  -- While a server runs, each event either changes neither its schema nor its operations, or one
  -- change is published to the clients.
  pub process_event-published :
      (validator : Bool) (r v : Running Config Schema Raw Tool Part Scripts)
      (arrival : Arrival Raw Scripts Problem) (event : Event Raw Problem)
      → (process_event ext validator (running r) arrival event).outcome ≡ ok (running v)
      → (v.published ≡ suc r.published)
        ⊎ ((v.published ≡ r.published) × (v.schema ≡ r.schema) × (v.operations ≡ r.operations))
  unfolding process_event with_schema set_schema set_operations without_schema keep_running reloaded
      reload_rhai_scripts update_schema update_operations
  process_event-published validator r v arrival event h = ground arith

  pub turn_live :
      (later : State Config Schema Raw Tool Part Scripts Problem
        → Handled Config Schema Raw Tool Part Scripts Problem)
      (handled : Handled Config Schema Raw Tool Part Scripts Problem)
      (st : State Config Schema Raw Tool Part Scripts Problem)
      → handled.outcome ≡ ok st
      → is_final (after_event ext st) ≡ false
      → (turn ext later handled).outcome ≡ (later (after_event ext st)).outcome
  unfolding turn
  turn_live later handled st h live = rw (h, live, turn) refl

  pub turn_final :
      (later : State Config Schema Raw Tool Part Scripts Problem
        → Handled Config Schema Raw Tool Part Scripts Problem)
      (handled : Handled Config Schema Raw Tool Part Scripts Problem)
      (st : State Config Schema Raw Tool Part Scripts Problem)
      → handled.outcome ≡ ok st
      → is_final (after_event ext st) ≡ true
      → (turn ext later handled).outcome ≡ ok (after_event ext st)
  unfolding turn
  turn_final later handled st h final = rw (h, final, turn) refl

  pub turn_failed :
      (later : State Config Schema Raw Tool Part Scripts Problem
        → Handled Config Schema Raw Tool Part Scripts Problem)
      (handled : Handled Config Schema Raw Tool Part Scripts Problem) (e : ServerError Problem)
      → handled.outcome ≡ err e
      → (turn ext later handled).outcome ≡ err e
  unfolding turn
  turn_failed later handled e h = rw (h, turn, h) refl

  -- Of a turn after which the run goes on with a live state.
  pub turn_append :
      (later more : State Config Schema Raw Tool Part Scripts Problem
        → Handled Config Schema Raw Tool Part Scripts Problem)
      (handled : Handled Config Schema Raw Tool Part Scripts Problem)
      (mid : State Config Schema Raw Tool Part Scripts Problem)
      (target : Result (State Config Schema Raw Tool Part Scripts Problem) (ServerError Problem))
      → ((next : State Config Schema Raw Tool Part Scripts Problem)
          → (later next).outcome ≡ ok mid
          → (more next).outcome ≡ target)
      → is_final mid ≡ false
      → (result : Result (State Config Schema Raw Tool Part Scripts Problem) (ServerError Problem))
      → handled.outcome ≡ result
      → (turn ext later handled).outcome ≡ ok mid
      → (turn ext more handled).outcome ≡ target
  turn_append later more handled mid target step live (err e) same h =
      absurd (ground (arith, turn_failed later handled e same))
  turn_append later more handled mid target step live (ok st) same h =
      elim (Bool-cases (is_final (after_event ext st))) [
        | inl final ↦ absurd (ground (arith, turn_final later handled st same final))
        | inr continues ↦
            rw (turn_live more handled st same continues)
              (step (after_event ext st) (rw (turn_live later handled st same continues) at h))
      ]

  pub run-append :
      (validator : Bool) (arrivals more : List (Arrival Raw Scripts Problem))
      (st mid : State Config Schema Raw Tool Part Scripts Problem)
      → (run ext validator arrivals st).outcome ≡ ok mid
      → is_final mid ≡ false
      → (run ext validator (arrivals ++ more) st).outcome ≡ (run ext validator more mid).outcome
  unfolding run
  run-append validator [] more st mid h live = ground arith
  run-append validator (arrival ∷ arrivals) more st mid h live =
      turn_append (run ext validator arrivals) (run ext validator (arrivals ++ more))
        (process_event ext validator st arrival arrival.event) mid
        (run ext validator more mid).outcome
        (λ next e. run-append validator arrivals more next mid e live) live
        (process_event ext validator st arrival arrival.event).outcome refl h
