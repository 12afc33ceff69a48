-- ===== src/TreeShake/Whole.antt =====
-- The shaken schema of a whole operation: the names in it that are followed, it also defines.
use mathlib.Core.Option
use mathlib.Core.Option.{some-injective}
use mathlib.Core.Path.{subst}
use apollo_mcp_server.Prelude.{
  ℕ, ◌≡◌, inl, inr, refl, Bool, true, false, Option, none, some, List, [], ◌∷◌, ◌++◌, map, String,
  lookup, All, arith, Bool-cases, if◌then◌else◌,
}
use apollo_mcp_server.TreeShake.Syntax.{
  OperationType, SelectionSet, ExtendedType, scalar_type, object_type, interface_type, union_type,
  enum_type, input_object, Schema, FragmentDefinition, OperationDefinition,
}
use apollo_mcp_server.TreeShake.Shaker.{unlimited, SchemaTreeShaker}
use apollo_mcp_server.TreeShake.{retain_type}
use apollo_mcp_server.TreeShake.Shaken.{
  is_directive_retained, new, operation_name, retain_operation_type, retain_operation, is_retained,
  retained_members, shake_type, shaken,
}
use apollo_mcp_server.TreeShake.Extends.{
  Reference, to_type, Item, of_type, of_field, of_directive, shows, item_references, has, Extends,
  Extends-trans,
}
use apollo_mcp_server.TreeShake.Reaches.{All-append}
use apollo_mcp_server.TreeShake.Closed.{retain_type-Reaches}
use apollo_mcp_server.TreeShake.Defined.{kept_type, shaken_type, lookup-shaken_types}
use apollo_mcp_server.TreeShake.Resolved.{
  shaken_schema, resolves, resolves-has, item_references-resolve,
}

-- The members that a type shows, if it is a union.
abbrev pub members_of : Option ExtendedType → List String
members_of none = []
members_of (some (scalar_type directives)) = []
members_of (some (object_type directives fields)) = []
members_of (some (interface_type directives fields)) = []
members_of (some (union_type directives members)) = members
members_of (some (enum_type directives values)) = []
members_of (some (input_object directives fields)) = []

abbrev pub union_members : Schema → Item → List Reference
union_members schema (of_type name) = map to_type (members_of (lookup name schema.types))
union_members schema (of_field name field) = []
union_members schema (of_directive name) = []

-- The names in a part of a schema that the tree shaker follows: the types of fields, arguments and
-- input fields, the members of unions, and the directives of types, fields, enum values and input
-- fields. The directives of arguments, the interfaces that a type implements and the directives of
-- the schema definition are not among them.
abbrev pub followed_references : Schema → Item → List Reference
followed_references schema item = item_references schema item ++ union_members schema item

module _ (built_in : String → Bool) (schema : Schema) (t : SchemaTreeShaker)
    (grown : Extends schema (new schema) t) where
  abbrev Resolves : Reference → Type 0
  Resolves r = resolves built_in schema (shaken_schema built_in schema t) r ≡ true

  member-Resolves : (member : String) → is_retained t member ≡ true → Resolves (to_type member)
  unfolding has
  member-Resolves member h = resolves-has built_in schema t grown (to_type member) (ground arith)

  retained_members-Resolves :
      (members : List String) → All Resolves (map to_type (retained_members t members))
  unfolding retained_members
  retained_members-Resolves [] = tt
  retained_members-Resolves (member ∷ members) = elim (Bool-cases (is_retained t member)) [
    | inl kept ↦ rw kept (member-Resolves member kept, retained_members-Resolves members)
    | inr gone ↦ rw gone (retained_members-Resolves members)
  ]

  shaken_members-Resolves :
      (names : Option (List String)) (type_def : ExtendedType)
      → All Resolves (map to_type (members_of (some (shake_type t names type_def))))
  unfolding shake_type
  shaken_members-Resolves names (scalar_type directives) = tt
  shaken_members-Resolves names (object_type directives fields) = tt
  shaken_members-Resolves names (interface_type directives fields) = tt
  shaken_members-Resolves names (union_type directives members) = retained_members-Resolves members
  shaken_members-Resolves names (enum_type directives values) = tt
  shaken_members-Resolves names (input_object directives fields) = tt

  found_members-Resolves :
      (name : String) (kept : Bool) (found : Option ExtendedType)
      → All Resolves (
          map to_type
            (members_of (if kept then Option.map (shaken_type built_in t name) found else none)))
  found_members-Resolves name true none = tt
  found_members-Resolves name true (some type_def) = shaken_members-Resolves _ type_def
  found_members-Resolves name false found = tt

  union_members-Resolves :
      (item : Item) → All Resolves (union_members (shaken_schema built_in schema t) item)
  unfolding shaken
  union_members-Resolves (of_type name) =
      rw (lookup-shaken_types built_in t schema.types name)
        (found_members-Resolves name (kept_type built_in t name) (lookup name schema.types))
  union_members-Resolves (of_field name field) = tt
  union_members-Resolves (of_directive name) = tt

  pub followed_references-Resolve :
      (item : Item) → All Resolves (followed_references (shaken_schema built_in schema t) item)
  followed_references-Resolve item =
      All-append Resolves (item_references (shaken_schema built_in schema t) item) _
        (item_references-resolve built_in schema t grown item) (union_members-Resolves item)

-- What `retain_operation_type` starts from.
abbrev pub started :
    Schema → List (String × FragmentDefinition) → List OperationType → SchemaTreeShaker
started schema fragments operation_types = record (new schema) {
  named_fragments = fragments;
  operation_types = operation_types;
}

started-shows :
    (schema : Schema) (fragments : List (String × FragmentDefinition))
    (operation_types : List OperationType) (item : Item)
    → shows (started schema fragments operation_types) item ≡ true
    → shows (new schema) item ≡ true
unfolding shows is_retained is_directive_retained
started-shows schema fragments operation_types (of_type name) h = h
started-shows schema fragments operation_types (of_field name f) h = h
started-shows schema fragments operation_types (of_directive name) h = h

started-Extends :
    (schema : Schema) (fragments : List (String × FragmentDefinition))
    (operation_types : List OperationType)
    → Extends schema (new schema) (started schema fragments operation_types)
unfolding is_retained is_directive_retained
started-Extends schema fragments operation_types = record {
  same_types = λ name. refl;
  same_directives = λ name. refl;
  grows_types = λ name h. h;
  grows_directives = λ name h. h;
  closes = λ item h. inl (started-shows schema fragments operation_types item h);
}

-- The shaken schema after an operation extends the new one, with the operation's root type.
module _ (trim : String → String) (schema : Schema) (fuel : ℕ)
    (fragments : List (String × FragmentDefinition)) (t : SchemaTreeShaker) where
  retain_root-Extends :
      (operation_types : List OperationType) (name : String) (found : Option ExtendedType)
      (selections : Option SelectionSet)
      → lookup name schema.types ≡ found
      → (elim found [
        | none ↦ some (started schema fragments operation_types)
        | some type_def ↦
            retain_type trim schema fuel name type_def selections unlimited
              (started schema fragments operation_types)
      ])
        ≡ some t
      → Extends schema (new schema) t × (has schema t (to_type name) ≡ true)
  unfolding has
  retain_root-Extends operation_types name none selections e h = (
    subst (Extends schema (new schema)) (some-injective _ _ h)
        (started-Extends schema fragments operation_types),
    ground arith,
  )
  retain_root-Extends operation_types name (some type_def) selections e h =
      let (grown, had) =
        retain_type-Reaches trim schema fuel name type_def selections e
          (started schema fragments operation_types) t h in
      (Extends-trans schema (started-Extends schema fragments operation_types) grown, had.0)

  pub retain_operation-Extends :
      (operation : OperationDefinition)
      → retain_operation trim schema fuel operation fragments unlimited (new schema) ≡ some t
      → Extends schema (new schema) t
        × (has schema t (to_type (operation_name schema operation.operation_type)) ≡ true)
  unfolding retain_operation retain_operation_type new
  retain_operation-Extends operation h =
      let name = operation_name schema operation.operation_type in
      retain_root-Extends (operation.operation_type ∷ []) name (lookup name schema.types)
        (some operation.selection_set) refl h
