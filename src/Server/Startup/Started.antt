-- ===== src/Server/Startup/Started.antt =====
-- What `start` of the parent gives when it succeeds.
use apollo_mcp_server.Prelude.{◌≡◌, ok, arith}
use apollo_mcp_server.Server.Catalog.{Running, load}
use apollo_mcp_server.Server.Startup.{
  Externals, Starting, start, with_catalog, with_scripts, transport_served, search_index,
}

module _ {Config Schema Raw Tool Part Scripts Problem : Type 0}
    (ext : Externals Config Schema Raw Tool Part Scripts Problem) where
  pub start_ok :
      (s : Starting Config Schema Raw) (r : Running Config Schema Raw Tool Part Scripts)
      → start ext s ≡ ok r
      → (r.config ≡ s.config)
        × (r.schema ≡ s.schema)
        × (r.operations ≡ load ext.compile s.config s.schema s.operations)
  unfolding start with_catalog with_scripts transport_served search_index
  start_ok s r h = (ground arith, ground arith, ground arith)
