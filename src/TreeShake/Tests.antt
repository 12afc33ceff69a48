-- ===== src/TreeShake/Tests.antt =====
-- A small schema to try the tree shaker on, and the theorems about it at concrete inputs.
use mathlib.Core.Option
use apollo_mcp_server.Prelude.{
  ℕ, ◌≡◌, refl, Bool, true, Option, none, some, List, [], ◌∷◌, ◌++◌, map, String, contains, lookup,
  All, arith,
}
use apollo_mcp_server.TreeShake.Syntax.{
  query, mutation, subscription, scalar_type, object_type, union_type, enum_type, Schema, field,
  fragment_spread, inline_fragment, SelectionSet, end, select, FragmentDefinition,
  OperationDefinition, InputValueDefinition, FieldDefinition, ExtendedType,
}
use apollo_mcp_server.TreeShake.Shaker.{
  unlimited, reached, decrement, SchemaTreeShaker, replace, for_each, selected_fields,
  build_argument_name_to_value_map, push_description, nested_fragments, directives_of,
  filtered_fields, mark_node,
}
use apollo_mcp_server.TreeShake.{
  describe, retain_argument_descriptions, describe_argument, retain_found, retain_named,
  retain_known_directive, retain_directive, retain_spread, retain_fragments, retain_definition,
  retain_selected_directive, field_arguments, field_selections, selected_directives, retain_field,
  retain_fields, retain_parts, retain_below, retain_with, retain_node, retain_all_fragments,
  retain_step, retain_type,
}
use apollo_mcp_server.TreeShake.Shaken.{
  new, operation_name, retain_operation_type, retain_operation, stays, shaken_types,
  shaken_directives, is_directive_retained, shake_type, filtered, filter_of, ShakenDocument, shaken,
}
use apollo_mcp_server.TreeShake.Extends.{to_type, Item, fields_of}
use apollo_mcp_server.TreeShake.Resolved.{shaken_schema, resolves}
use apollo_mcp_server.TreeShake.Whole.{followed_references}
use apollo_mcp_server.TreeShake.Spread.{Ranked}
use apollo_mcp_server.TreeShake.Terminating.{PlainSchema}
use apollo_mcp_server.TreeShake.Operation.{retain_operation-closed}
use apollo_mcp_server.TreeShake.Inline.{retain_type-inline}
use apollo_mcp_server.TreeShake.Circular.{retain_operation-circular}

abbrev schema : Schema
schema = record {
  types =
      (
        "Query",
        object_type [] (
            (
              "user",
              record {
                arguments =
                    (record {
                      name = "id";
                      description = some " The user ";
                      ty = "ID";
                      directives = [];
                    })
                    ∷ [];
                ty = "User";
                directives = [];
              },
            )
            ∷ ("owner", record { arguments = []; ty = "Owner"; directives = [] })
            ∷ []),
      )
      ∷ (
        "User",
        object_type [] (
            ("name", record { arguments = []; ty = "String"; directives = [] })
            ∷ ("role", record { arguments = []; ty = "Role"; directives = "since" ∷ [] })
            ∷ []),
      )
      ∷ ("Owner", union_type [] ("User" ∷ []))
      ∷ ("Role", enum_type [] (("ADMIN", []) ∷ []))
      ∷ ("ID", scalar_type [])
      ∷ ("String", scalar_type [])
      ∷ [];
  directive_definitions =
      ("since", (record { name = "text"; description = none; ty = "String"; directives = [] }) ∷ [])
      ∷ [];
  root_operation = λ operation_type. elim operation_type [
    | query ↦ some "Query"
    | mutation ↦ none
    | subscription ↦ none
  ];
  schema_directives = [];
}

abbrev built_in : String → Bool
built_in name = contains ("ID" ∷ "String" ∷ []) name

-- `query ($x: ID) { user(id: $x) { ...Names } }`
abbrev operation : OperationDefinition
operation = record {
  operation_type = query;
  selection_set =
      select
        (field "user" ((record { name = "id"; value = some "x" }) ∷ []) []
          (select (fragment_spread "Names") end))
        end;
}

-- `fragment Names on User { name role }`
abbrev fragments : List (String × FragmentDefinition)
fragments =
    (
      "Names",
      record {
        type_condition = "User";
        selection_set = select (field "name" [] [] end) (select (field "role" [] [] end) end);
      },
    )
    ∷ []

abbrev shaken_names : Option SchemaTreeShaker → List String
shaken_names none = []
shaken_names (some t) = map (λ e. e.0) (shaken built_in schema t).type_definitions

shakes :
    shaken_names
      (retain_operation (λ text. text) schema 20 operation fragments unlimited (new schema))
    ≡ "Query" ∷ "User" ∷ "Role" ∷ []
unfolding retain_operation retain_operation_type operation_name new lookup reached decrement replace
    for_each selected_fields build_argument_name_to_value_map push_description nested_fragments
    directives_of filtered_fields mark_node describe retain_argument_descriptions describe_argument
    retain_found retain_named retain_known_directive retain_directive retain_spread retain_fragments
    retain_definition retain_selected_directive field_arguments field_selections selected_directives
    retain_field retain_fields retain_parts retain_below retain_with retain_node
    retain_all_fragments retain_step retain_type shaken shaken_types stays
shakes = refl

abbrev rank : String → ℕ
rank name = 2

fragments-Ranked : Ranked rank fragments
fragments-Ranked = (omega arith, tt)

schema-Plain : PlainSchema schema
unfolding lookup
schema-Plain = (tt, (tt, ((refl, tt), (tt, (tt, (tt, tt))))))

retain_operation-closed_example :
    (t : SchemaTreeShaker) × (retain_operation
        (λ text. text)
        schema
        20
        operation
        fragments
        unlimited
        (new schema)
      ≡ some t)
    × ((item : Item)
        → All
            (λ r. resolves built_in schema (shaken_schema built_in schema t) r ≡ true)
            (followed_references (shaken_schema built_in schema t) item))
    × (resolves built_in schema
          (shaken_schema built_in schema t)
          (to_type (operation_name schema query))
        ≡ true)
retain_operation-closed_example =
    retain_operation-closed (λ text. text) schema fragments rank operation fragments-Ranked
      schema-Plain built_in 20 (omega arith)

-- `directive @foo` and `type Query { user(id: ID @foo): ID }`
abbrev marked_schema : Schema
marked_schema = record schema {
  types =
      (
        "Query",
        object_type [] (
            (
              "user",
              record {
                arguments =
                    (record { name = "id"; description = none; ty = "ID"; directives = "foo" ∷ [] })
                    ∷ [];
                ty = "ID";
                directives = [];
              },
            )
            ∷ []),
      )
      ∷ ("ID", scalar_type [])
      ∷ [];
  directive_definitions = ("foo", []) ∷ [];
}

-- `{ user }`
abbrev marked_operation : OperationDefinition
marked_operation = record {
  operation_type = query;
  selection_set = select (field "user" [] [] end) end;
}

abbrev marked_document : Option SchemaTreeShaker → Option ShakenDocument
marked_document shaker = Option.map (shaken built_in marked_schema) shaker

abbrev directive_names : Option ShakenDocument → List String
directive_names none = []
directive_names (some document) = map (λ e. e.0) document.directive_definitions

abbrev fields_of_types : List (String × ExtendedType) → List (String × FieldDefinition)
fields_of_types [] = []
fields_of_types ((name, type_def) ∷ types) = fields_of type_def ++ fields_of_types types

abbrev directives_of_arguments : List InputValueDefinition → List String
directives_of_arguments [] = []
directives_of_arguments (argument ∷ arguments) =
    argument.directives ++ directives_of_arguments arguments

abbrev directives_of_fields : List (String × FieldDefinition) → List String
directives_of_fields [] = []
directives_of_fields ((name, f) ∷ fields) =
    directives_of_arguments f.arguments ++ directives_of_fields fields

abbrev argument_directives : Option ShakenDocument → List String
argument_directives none = []
argument_directives (some document) =
    directives_of_fields (fields_of_types document.type_definitions)

abbrev marked : Option ShakenDocument
marked = marked_document (
    retain_operation (λ text. text) marked_schema 20 marked_operation [] unlimited
      (new marked_schema))

-- The shaken schema keeps `@foo` on the argument,
keeps_directive : argument_directives marked ≡ "foo" ∷ []
unfolding retain_operation retain_operation_type operation_name new lookup reached decrement replace
    for_each selected_fields build_argument_name_to_value_map push_description nested_fragments
    directives_of filtered_fields mark_node describe retain_argument_descriptions describe_argument
    retain_found retain_named retain_known_directive retain_directive retain_spread retain_fragments
    retain_definition retain_selected_directive field_arguments field_selections selected_directives
    retain_field retain_fields retain_parts retain_below retain_with retain_node
    retain_all_fragments retain_step retain_type shaken shaken_types shaken_directives stays
    shake_type filtered filter_of
keeps_directive = refl

-- and has no definition of it.
keeps_undefined : directive_names marked ≡ []
unfolding retain_operation retain_operation_type operation_name new lookup reached decrement replace
    for_each selected_fields build_argument_name_to_value_map push_description nested_fragments
    directives_of filtered_fields mark_node describe retain_argument_descriptions describe_argument
    retain_found retain_named retain_known_directive retain_directive retain_spread retain_fragments
    retain_definition retain_selected_directive field_arguments field_selections selected_directives
    retain_field retain_fields retain_parts retain_below retain_with retain_node
    retain_all_fragments retain_step retain_type shaken shaken_types shaken_directives stays
    is_directive_retained
keeps_undefined = refl

-- `fragment Again on Query { ...Again }`
abbrev again : SelectionSet
again = select (fragment_spread "Again") end

abbrev again_operation : OperationDefinition
again_operation = record { operation_type = query; selection_set = again }

retain_operation-circular_example :
    retain_operation
      (λ text. text)
      schema
      1000
      again_operation
      (("Again", record { type_condition = "Query"; selection_set = again }) ∷ [])
      unlimited
      (new schema)
    ≡ none
unfolding lookup operation_name
retain_operation-circular_example =
    retain_operation-circular (λ text. text) schema "Query" _ "Again" end refl 1000 again_operation
      end (("Again", record { type_condition = "Query"; selection_set = again }) ∷ []) refl refl
      refl

-- `{ ... @include(if: $deep) { name } role }` on `User`
retain_type-inline_example :
    (let user =
        object_type [] (("role", record { arguments = []; ty = "Role"; directives = [] }) ∷ []) in
      retain_type
        (λ text. text)
        schema
        20
        "User"
        user
        (some (
          select
            (inline_fragment none (select (field "name" [] [] end) end))
            (select (field "role" [] [] end) end)))
        unlimited
        (new schema)
      ≡ retain_type
          (λ text. text)
          schema
          20
          "User"
          user
          (some (select (field "role" [] [] end) end))
          unlimited
          (new schema))
retain_type-inline_example =
    retain_type-inline (λ text. text) schema 20 (select (field "name" [] [] end) end)
      (select (field "role" [] [] end) end) unlimited "User"
      (object_type [] (("role", record { arguments = []; ty = "Role"; directives = [] }) ∷ []))
      (new schema) refl
