-- ===== src/Operations/Responses/Tests.antt =====
-- A test of what the model sees of a response, and the theorem about it at a concrete input.
use mathlib.Core.List.{map}
use apollo_mcp_server.Prelude.{◌≡◌, ◌⊎◌, refl, none, some, List, [], ◌∷◌, String, lookup}
use apollo_mcp_server.Operations.Private.{
  field, Selections, end, select, collect_from_selections, collect_private_fields,
  has_private_directive, response_key, Definition, operation_definition, Documents,
  process_private_directives, collect_selection, get_child, set_child, remove_child, mark_private,
  keep_child, child_or_default, has_private_fields, insert_fragments, collect_named_fragments,
  first_operation,
}
use apollo_mcp_server.Operations.Private.Marked.{Marks}
use apollo_mcp_server.Operations.Private.Unfolding.{
  Unfolds, at_end, then_rest, public_field, private_field,
}
use apollo_mcp_server.Operations.Responses.{
  Value, text, array, object, item, no_items, Members, member, no_members, filter_object,
  filter_private_fields, filter_response, split_response,
}
use apollo_mcp_server.Operations.Responses.Filtered.{values_at, subtree}
use apollo_mcp_server.Operations.Responses.Visible.{seen, seen-Marks}

-- `query { users { name email @private } }`
abbrev query : Selections
query =
    select
      (field none "users" []
        (select (field none "name" [] end) (select (field none "email" ("private" ∷ []) end) end)))
      end

abbrev document : List Definition
document = operation_definition query ∷ []

abbrev compiler : Documents
compiler = record { parse_ast = λ text. some document; serialize = λ d. "stripped" }

abbrev user : String → String → Value
user name email = object (member "name" (text name) (member "email" (text email) no_members))

abbrev response : Members
response =
    member "data"
      (object (
        member "users"
          (array (item (user "Ada" "ada@a.org") (item (user "Bob" "bob@b.org") no_items)))
          no_members))
      (member "extensions" (text "email") no_members)

abbrev named : String → Value
named name = object (member "name" (text name) no_members)

filters :
    seen compiler "query" (object response)
    ≡ object (
        member "data"
          (object
            (member "users" (array (item (named "Ada") (item (named "Bob") no_items))) no_members))
          (member "extensions" (text "email") no_members))
unfolding seen split_response filter_private_fields filter_response filter_object
    process_private_directives collect_private_fields collect_from_selections collect_selection
    lookup response_key has_private_directive child_or_default get_child set_child remove_child
    mark_private keep_child has_private_fields insert_fragments collect_named_fragments
    first_operation
filters = refl

query-Unfolds : Unfolds (collect_named_fragments document) query []
unfolding has_private_directive
query-Unfolds =
    then_rest [] []
      (public_field refl (
        then_rest [] [] (public_field refl at_end)
          (then_rest [] [] (private_field refl) at_end refl) refl))
      at_end refl

seen-Marks_example :
    (Marks (collect_named_fragments document) query ("users" ∷ "email" ∷ [])
      × (values_at (seen compiler "query" (object response)) ("data" ∷ "users" ∷ "email" ∷ [])
          ≡ []))
    ⊎ (¬ Marks (collect_named_fragments document) query ("users" ∷ "email" ∷ [])
        × (values_at (seen compiler "query" (object response)) ("data" ∷ "users" ∷ "email" ∷ [])
            ≡ map
                (λ value. filter_object value (
                  subtree
                    (collect_private_fields query (collect_named_fragments document))
                    ("users" ∷ "email" ∷ [])))
                (values_at (object response) ("data" ∷ "users" ∷ "email" ∷ []))))
unfolding first_operation
seen-Marks_example =
    seen-Marks compiler "query" document query [] response ("users" ∷ "email" ∷ []) refl refl
      query-Unfolds tt
