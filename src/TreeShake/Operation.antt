-- ===== src/TreeShake/Operation.antt =====
-- The schema that is shaken for an operation.
use apollo_mcp_server.Prelude.{
  ℕ, suc, ◌+◌, ◌*◌, ◌≤◌, ◌≡◌, refl, ap, Bool, true, false, Option, none, some, List, [], ◌∷◌, map,
  String, length, lookup, All, arith,
}
use apollo_mcp_server.TreeShake.Syntax.{
  OperationType, ExtendedType, scalar_type, object_type, interface_type, union_type, enum_type,
  input_object, Schema, FragmentDefinition, OperationDefinition,
}
use apollo_mcp_server.TreeShake.Shaker.{unlimited, SchemaTreeShaker}
use apollo_mcp_server.TreeShake.{retain_type}
use apollo_mcp_server.TreeShake.Shaken.{
  new, operation_name, retain_operation_type, retain_operation,
}
use apollo_mcp_server.TreeShake.Extends.{to_type, Item}
use apollo_mcp_server.TreeShake.Defined.{lookup-map}
use apollo_mcp_server.TreeShake.Resolved.{shaken_schema, resolves, resolves-has}
use apollo_mcp_server.TreeShake.Whole.{
  followed_references, followed_references-Resolve, started, retain_operation-Extends,
}
use apollo_mcp_server.TreeShake.Ends.{unretained, weight, union_weight, Good}
use apollo_mcp_server.TreeShake.Spread.{Ranked}
use apollo_mcp_server.TreeShake.Terminating.{PlainSchema, retain_type-Ends}

-- Each type of the schema counts, and twice what the operation selects.
abbrev pub fuel_for : (String → ℕ) → Schema → OperationDefinition → ℕ
fuel_for rank schema operation = 3 + (2 * weight rank operation.selection_set + length schema.types)

unretained-new :
    (types : List (String × ExtendedType))
    → unretained (map (λ e. (e.0, record { retain = false; filtered_field = none })) types)
      ≡ length types
unretained-new [] = refl
unretained-new (entry ∷ types) = ap suc (unretained-new types)

started-Good :
    (schema : Schema) (fragments : List (String × FragmentDefinition))
    (operation_types : List OperationType)
    → Good schema fragments (length schema.types) (started schema fragments operation_types)
unfolding new
started-Good schema fragments operation_types = record {
  known = lookup-map (λ d. record { retain = false; filtered_field = none }) schema.types;
  same_fragments = refl;
  few = ground (arith, unretained-new schema.types);
}

union_weight-one : (type_def : ExtendedType) → union_weight type_def ≤ 1
union_weight-one (scalar_type directives) = ground arith
union_weight-one (object_type directives fields) = ground arith
union_weight-one (interface_type directives fields) = ground arith
union_weight-one (union_type directives members) = ground arith
union_weight-one (enum_type directives values) = ground arith
union_weight-one (input_object directives fields) = ground arith

module _ (trim : String → String) (schema : Schema) (fragments : List (String × FragmentDefinition))
    (rank : String → ℕ) (operation : OperationDefinition) (ranked : Ranked rank fragments)
    (plain : PlainSchema schema) where
  root-ends :
      (fuel : ℕ) (name : String) (found : Option ExtendedType)
      → lookup name schema.types ≡ found
      → fuel_for rank schema operation ≤ fuel
      → (t : SchemaTreeShaker) × ((elim found [
        | none ↦ some (started schema fragments (operation.operation_type ∷ []))
        | some type_def ↦
            retain_type trim schema fuel name type_def
              (some operation.selection_set)
              unlimited
              (started schema fragments (operation.operation_type ∷ []))
      ])
          ≡ some t)
  root-ends fuel name none e h = (started schema fragments (operation.operation_type ∷ []), refl)
  root-ends fuel name (some type_def) e h =
      let (t, ended, good) =
        retain_type-Ends trim schema fragments rank ranked plain fuel (length schema.types) name
          type_def (some operation.selection_set) e (ground (arith, union_weight-one type_def))
          (started schema fragments (operation.operation_type ∷ []))
          (started-Good schema fragments (operation.operation_type ∷ [])) in
      (t, ended)

  -- If no fragment spreads itself in a circle, which a rank shows, and no union has a union as a
  -- member, `retain_operation` without a depth limit ends, with fuel for each type of the schema and
  -- twice what the operation selects. Then the following names in the shaken schema are built in, or
  -- defined by the shaken schema, or were not defined by the schema either: the types of fields, of
  -- arguments (of fields and of directives) and of input fields, the members of unions, and the
  -- directives of types, fields, enum values and input fields. The same holds of the name of the
  -- root operation's type. It is not stated of the directives of arguments, of the interfaces that
  -- a type implements, or of the directives of the schema definition.
  pub retain_operation-closed :
      (built_in : String → Bool) (fuel : ℕ)
      → fuel_for rank schema operation ≤ fuel
      → (t : SchemaTreeShaker) × (retain_operation trim schema fuel operation fragments unlimited
            (new schema)
          ≡ some t)
        × ((item : Item)
            → All
                (λ r. resolves built_in schema (shaken_schema built_in schema t) r ≡ true)
                (followed_references (shaken_schema built_in schema t) item))
        × (resolves built_in schema
              (shaken_schema built_in schema t)
              (to_type (operation_name schema operation.operation_type))
            ≡ true)
  unfolding retain_operation retain_operation_type new
  retain_operation-closed built_in fuel h =
      let name = operation_name schema operation.operation_type in
      let (t, ended) = root-ends fuel name (lookup name schema.types) refl h in
      let (grown, had) = retain_operation-Extends trim schema fuel fragments t operation ended in
      (
        t,
        ended,
        followed_references-Resolve built_in schema t grown,
        resolves-has built_in schema t grown (to_type name) had,
      )
