-- ===== src/Server/Catalog/Loaded.antt =====
-- Which operations `load` of the parent puts in the catalog.
use apollo_mcp_server.Prelude.{
  members, ◌≡◌, refl, Option, none, some, List, [], ◌∷◌, map, Result, ok, err, All, Any,
}
use apollo_mcp_server.Server.Catalog.{
  Operation, operation_of, valid_operation, put, into_inner, into_operation, load,
}

module _ {Config Schema Raw Tool Problem : Type 0}
    (compile : Config → Schema → Raw → Result (Option Tool) Problem) where
  -- The tool of the operation has been made with this schema, from one of these texts.
  abbrev pub Served : Config → Schema → List Raw → Operation Raw Tool → Type 0
  Served config schema raws operation =
      (compile config schema operation.inner ≡ ok (some operation.tool))
      × Any (λ raw. operation.inner ≡ raw) raws

  put-All :
      (config : Config) (schema : Schema) (Q : Raw → Type 0) (raw : Raw)
      (loaded : List (Operation Raw Tool))
      → Q raw
      → All (λ op. (compile config schema op.inner ≡ ok (some op.tool)) × Q op.inner) loaded
      → (result : Result (Option Tool) Problem) → compile config schema raw ≡ result
      → All
          (λ op. (compile config schema op.inner ≡ ok (some op.tool)) × Q op.inner)
          (put (valid_operation (operation_of raw result)) loaded)
  unfolding put valid_operation operation_of
  put-All config schema Q raw loaded q rest (ok (some tool)) e = ((e, q), rest)
  put-All config schema Q raw loaded q rest (ok none) e = rest
  put-All config schema Q raw loaded q rest (err problem) e = rest

  load-All :
      (config : Config) (schema : Schema) (Q : Raw → Type 0) (raws : List Raw)
      → All Q raws
      → All
          (λ op. (compile config schema op.inner ≡ ok (some op.tool)) × Q op.inner)
          (load compile config schema raws)
  unfolding load into_operation
  load-All config schema Q [] h = tt
  load-All config schema Q (raw ∷ raws) h =
      put-All config schema Q raw (load compile config schema raws) h.0
        (load-All config schema Q raws h.1) (compile config schema raw) refl

module _ {Config Schema Raw Tool Problem : Type 0}
    (compile : Config → Schema → Raw → Result (Option Tool) Problem) where
  pub load-Served :
      (config : Config) (schema : Schema) (raws : List Raw)
      → All (Served compile config schema raws) (load compile config schema raws)
  load-Served config schema raws =
      load-All compile config schema (λ raw. Any (λ other. raw ≡ other) raws) raws (members raws)

  inners :
      (config : Config) (old : Schema) (raws : List Raw) (operations : List (Operation Raw Tool))
      → All (Served compile config old raws) operations
      → All (λ raw. Any (λ other. raw ≡ other) raws) (map into_inner operations)
  inners config old raws [] h = tt
  inners config old raws (operation ∷ operations) h = (h.0.1, inners config old raws operations h.1)

  pub reload-Served :
      (config : Config) (old schema : Schema) (raws : List Raw)
      (operations : List (Operation Raw Tool))
      → All (Served compile config old raws) operations
      → All
          (Served compile config schema raws)
          (load compile config schema (map into_inner operations))
  reload-Served config old schema raws operations h =
      load-All compile config schema (λ raw. Any (λ other. raw ≡ other) raws)
        (map into_inner operations) (inners config old raws operations h)
