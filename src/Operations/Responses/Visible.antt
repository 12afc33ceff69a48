-- ===== src/Operations/Responses/Visible.antt =====
-- What the model sees of a response to an operation with private fields.
use apollo_mcp_server.Prelude.{
  ◌≡◌, ◌⊎◌, ◌∙◌, inl, inr, ap, sym, false, Option, none, some, List, [], ◌∷◌, map, String, arith,
  Bool-cases,
}
use apollo_mcp_server.Operations.Private.{
  PrivateFieldTree, node, leaf, child, default_tree, has_private_fields, Selections, Definition,
  Documents, collect_named_fragments, collect_private_fields, first_operation,
  process_private_directives,
}
use apollo_mcp_server.Operations.Private.Covers.{hidden}
use apollo_mcp_server.Operations.Private.Marked.{Marks}
use apollo_mcp_server.Operations.Private.Unfolding.{Unfolds, AreFresh}
use apollo_mcp_server.Operations.Private.Complete.{collect_private_fields-hidden}
use apollo_mcp_server.Operations.Private.Stripped.{process_private_directives_lem}
use apollo_mcp_server.Operations.Responses.{
  Value, object, filter_response, Members, filter_object, filter_private_fields, split_response,
}
use apollo_mcp_server.Operations.Responses.Filtered.{
  values_at, subtree, remaining, filter_response-default, values_in-filter_response,
}

-- The tree that a processed query comes with.
abbrev pub tree_of : Option (String × PrivateFieldTree) → Option PrivateFieldTree
tree_of none = none
tree_of (some (query, tree)) = some tree

-- What the model sees of a response to a query.
unfoldable pub seen : Documents → String → Value → Value
seen compiler query response =
    (split_response response (tree_of (process_private_directives compiler query))).0

nothing_private : (tree : PrivateFieldTree) → has_private_fields tree ≡ false → tree ≡ default_tree
unfolding has_private_fields
nothing_private (node marked leaf) h = ap (λ b. node b leaf) h
nothing_private (node marked (child key tree children)) h = absurd (cc)

-- A query with no private field is answered in full, which the empty tree would do as well.
seen_lem :
    (compiler : Documents) (query : String) (document : List Definition) (selections : Selections)
    (response : Members)
    → compiler.parse_ast query ≡ some document
    → first_operation document ≡ some selections
    → seen compiler query (object response)
      ≡ object (
          filter_response response
            (collect_private_fields selections (collect_named_fragments document)))
unfolding seen split_response filter_private_fields
seen_lem compiler query document selections response parsed found =
    let tree = collect_private_fields selections (collect_named_fragments document) in
    ap (λ r. (split_response (object response) (tree_of r)).0)
      (process_private_directives_lem compiler query document selections parsed found)
    ∙ elim (Bool-cases (has_private_fields tree)) [
      | inl some_private ↦ rw some_private
      | inr none_private ↦ rw none_private (
          ap object (
            sym (filter_response-default response)
            ∙ ap (filter_response response) (sym (nothing_private tree none_private))))
    ]

-- When no fragment of a query is spread twice, the document decides about each path below `data`:
-- if it marks the path as private, the model sees no value there; otherwise it sees all of them,
-- each without the private fields inside.
pub seen-Marks :
    (compiler : Documents) (query : String) (document : List Definition) (selections : Selections)
    (names : List String) (response : Members) (keys : List String)
    → compiler.parse_ast query ≡ some document
    → first_operation document ≡ some selections
    → Unfolds (collect_named_fragments document) selections names
    → AreFresh [] names
    → (Marks (collect_named_fragments document) selections keys
        × (values_at (seen compiler query (object response)) ("data" ∷ keys) ≡ []))
      ⊎ (¬ Marks (collect_named_fragments document) selections keys
          × (values_at (seen compiler query (object response)) ("data" ∷ keys)
              ≡ map
                  (λ value. filter_object value (
                    subtree
                      (collect_private_fields selections (collect_named_fragments document))
                      keys))
                  (values_at (object response) ("data" ∷ keys))))
unfolding values_at remaining
seen-Marks compiler query document selections names response keys parsed found unfolds fresh =
    let tree = collect_private_fields selections (collect_named_fragments document) in
    let exact = collect_private_fields-hidden _ selections names keys unfolds fresh in
    rw
      (
        seen_lem compiler query document selections response parsed found,
        values_in-filter_response response tree "data" keys,
      )
      (elim (Bool-cases (hidden tree keys)) [
        | inl gone ↦ inl (exact.0 gone, rw gone)
        | inr left ↦ inr (λ marks. absurd (ground (arith, exact.1 marks)), rw left)
      ])
