-- ===== src/Server/States/Current.antt =====
-- The server of the parent serves what it has been told last.
use apollo_mcp_server.Prelude.{
  ◌≡◌, refl, false, none, some, List, Result, ok, err, All, Option-cases, inl, inr, arith,
}
use apollo_mcp_server.Server.Catalog.{Running, load, update_schema, update_operations}
use apollo_mcp_server.Server.Catalog.Loaded.{Served, load-Served, reload-Served}
use apollo_mcp_server.Server.Startup.{ServerError, Externals, Starting, start}
use apollo_mcp_server.Server.Startup.Started.{start_ok}
use apollo_mcp_server.Server.States.{
  State, configuring, schema_configured, operations_configured, starting, running, error, stopping,
  restarting, set_schema, logged, set_operations, without_schema, started, after_event,
}
use apollo_mcp_server.Server.States.Feed.{Feed, feed_schema}

module _ {Config Schema Raw Tool Part Scripts Problem : Type 0}
    (ext : Externals Config Schema Raw Tool Part Scripts Problem) where
  -- The schema that is served is the last one. Every operation is made with it from one of the last
  -- operations, and all of these that can be made are there, unless the schema has changed since they
  -- came.
  pub record IsServing (config : Config) (feed : Feed Schema Raw)
      (r : Running Config Schema Raw Tool Part Scripts) : Type 0 where
    pub configured : r.config ≡ config
    pub told_schema : feed.schema ≡ some r.schema
    pub raws : List Raw
    pub told_operations : feed.operations ≡ some raws
    pub served : All (Served ext.compile config r.schema raws) r.operations
    pub complete : feed.rebuilt ≡ false → r.operations ≡ load ext.compile config r.schema raws

  abbrev pub IsCurrent :
      Config → Feed Schema Raw → State Config Schema Raw Tool Part Scripts Problem → Type 0
  IsCurrent config feed (configuring c) =
      (c ≡ config) × (feed.schema ≡ none) × (feed.operations ≡ none)
  IsCurrent config feed (schema_configured c schema) =
      (c ≡ config) × (feed.schema ≡ some schema) × (feed.operations ≡ none)
  IsCurrent config feed (operations_configured c raws) =
      (c ≡ config) × (feed.schema ≡ none) × (feed.operations ≡ some raws)
  IsCurrent config feed (starting s) =
      (s.config ≡ config) × (feed.schema ≡ some s.schema) × (feed.operations ≡ some s.operations)
  IsCurrent config feed (running r) = IsServing config feed r
  IsCurrent config feed (error e) = Unit
  IsCurrent config feed stopping = Unit
  IsCurrent config feed restarting = Unit

  IsServing-start :
      (config : Config) (feed : Feed Schema Raw) (s : Starting Config Schema Raw)
      (r : Running Config Schema Raw Tool Part Scripts)
      → IsCurrent config feed (starting s)
      → start ext s ≡ ok r
      → IsServing config feed r
  IsServing-start config feed s r h e =
      let (c, sc, ops) = start_ok ext s r e in
      let same : r.operations ≡ load ext.compile config r.schema s.operations =
        rw (sc, ← h.0) ops in
      record {
        configured = ground arith;
        told_schema = rw (sc) h.1;
        raws = s.operations;
        told_operations = h.2;
        served = rw (same) (load-Served ext.compile config r.schema s.operations);
        complete = λ fresh. same;
      }

  started-IsCurrent :
      (config : Config) (feed : Feed Schema Raw) (s : Starting Config Schema Raw)
      → IsCurrent config feed (starting s)
      → (result : Result (Running Config Schema Raw Tool Part Scripts) (ServerError Problem))
      → start ext s ≡ result
      → IsCurrent config feed (started ext result)
  unfolding started
  started-IsCurrent config feed s h (ok r) e = IsServing-start config feed s r h e
  started-IsCurrent config feed s h (err _) e = tt

  -- The loop starts a starting server before it reads the next event.
  abbrev pub NotStarting : State Config Schema Raw Tool Part Scripts Problem → Type 0
  NotStarting (starting s) = ⊥
  NotStarting _ = Unit

  pub after_event-IsCurrent :
      (config : Config) (feed : Feed Schema Raw)
      (st : State Config Schema Raw Tool Part Scripts Problem)
      → IsCurrent config feed st
      → IsCurrent config feed (after_event ext st)
  unfolding after_event
  after_event-IsCurrent config feed (starting s) h =
      started-IsCurrent config feed s h (start ext s) refl
  after_event-IsCurrent config feed (configuring c) h = h
  after_event-IsCurrent config feed (schema_configured c schema) h = h
  after_event-IsCurrent config feed (operations_configured c raws) h = h
  after_event-IsCurrent config feed (running r) h = h
  after_event-IsCurrent config feed (error e) h = h
  after_event-IsCurrent config feed stopping h = h
  after_event-IsCurrent config feed restarting h = h

  pub set_schema-IsCurrent :
      (config : Config) (feed : Feed Schema Raw) (schema : Schema)
      (st : State Config Schema Raw Tool Part Scripts Problem)
      → NotStarting st
      → IsCurrent config feed st
      → IsCurrent config (feed_schema ext feed (ok schema)) (set_schema ext st schema)
  unfolding set_schema feed_schema update_schema
  set_schema-IsCurrent config feed schema (configuring c) settled h = (h.0, refl, h.2)
  set_schema-IsCurrent config feed schema (schema_configured c old) settled h = (h.0, refl, h.2)
  set_schema-IsCurrent config feed schema (operations_configured c raws) settled h =
      (h.0, refl, h.2)
  set_schema-IsCurrent config feed schema (starting s) settled h = absurd settled
  set_schema-IsCurrent config feed schema (running r) settled h = record {
    configured = h.configured;
    told_schema = refl;
    raws = h.raws;
    told_operations = h.told_operations;
    served =
        rw (h.configured)
          (reload-Served ext.compile config r.schema schema h.raws r.operations h.served);
    complete = λ fresh. absurd (ground (arith, h.told_schema, h.told_operations, fresh));
  }
  set_schema-IsCurrent config feed schema (error e) settled h = tt
  set_schema-IsCurrent config feed schema stopping settled h = tt
  set_schema-IsCurrent config feed schema restarting settled h = tt

  logged-IsCurrent :
      (config : Config) (feed : Feed Schema Raw) (raws : List Raw)
      (next : State Config Schema Raw Tool Part Scripts Problem)
      → IsCurrent config feed next
      → IsCurrent config feed (logged ext raws next)
  unfolding logged
  logged-IsCurrent config feed raws next h = elim (Option-cases (ext.print_raw raws)) [
    | inl printed ↦ rw (printed, logged) h
    | inr (e, failed) ↦ rw (failed, logged) tt
  ]

  pub set_operations-IsCurrent :
      (config : Config) (feed : Feed Schema Raw) (raws : List Raw)
      (st : State Config Schema Raw Tool Part Scripts Problem)
      → NotStarting st
      → IsCurrent config feed st
      → IsCurrent config
          (record feed { operations = some raws; rebuilt = false })
          (set_operations ext st raws)
  unfolding set_operations update_operations
  set_operations-IsCurrent config feed raws (configuring c) settled h =
      logged-IsCurrent config (record feed { operations = some raws; rebuilt = false }) raws
        (operations_configured c raws) (h.0, h.1, refl)
  set_operations-IsCurrent config feed raws (schema_configured c schema) settled h =
      logged-IsCurrent config (record feed { operations = some raws; rebuilt = false }) raws
        (starting (record { config = c; schema = schema; operations = raws })) (h.0, h.1, refl)
  set_operations-IsCurrent config feed raws (operations_configured c old) settled h =
      logged-IsCurrent config (record feed { operations = some raws; rebuilt = false }) raws
        (operations_configured c raws) (h.0, h.1, refl)
  set_operations-IsCurrent config feed raws (starting s) settled h = absurd settled
  set_operations-IsCurrent config feed raws (running r) settled h = record {
    configured = h.configured;
    told_schema = h.told_schema;
    raws = raws;
    told_operations = refl;
    served = rw (h.configured) (load-Served ext.compile config r.schema raws);
    complete = λ fresh. rw (h.configured) refl;
  }
  set_operations-IsCurrent config feed raws (error e) settled h = tt
  set_operations-IsCurrent config feed raws stopping settled h = tt
  set_operations-IsCurrent config feed raws restarting settled h = tt

  pub without_schema-IsCurrent :
      (config : Config) (feed : Feed Schema Raw)
      (st : State Config Schema Raw Tool Part Scripts Problem)
      → NotStarting st
      → IsCurrent config feed st
      → IsCurrent config feed (without_schema ext st)
  unfolding without_schema
  without_schema-IsCurrent config feed (configuring c) settled h = tt
  without_schema-IsCurrent config feed (schema_configured c schema) settled h = h
  without_schema-IsCurrent config feed (operations_configured c raws) settled h = tt
  without_schema-IsCurrent config feed (starting s) settled h = absurd settled
  without_schema-IsCurrent config feed (running r) settled h = h
  without_schema-IsCurrent config feed (error e) settled h = tt
  without_schema-IsCurrent config feed stopping settled h = tt
  without_schema-IsCurrent config feed restarting settled h = tt
