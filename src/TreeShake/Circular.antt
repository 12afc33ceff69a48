-- ===== src/TreeShake/Circular.antt =====
-- A fragment that spreads itself, which nothing before the tree shaker rules out.
use apollo_mcp_server.Prelude.{
  ℕ, zero, suc, ◌≡◌, ◌∙◌, refl, ap, Option, none, some, List, [], ◌∷◌, String, lookup,
}
use apollo_mcp_server.TreeShake.Syntax.{
  ExtendedType, Schema, fragment_spread, SelectionSet, select, FragmentDefinition,
  OperationDefinition,
}
use apollo_mcp_server.TreeShake.Shaker.{unlimited, reached, SchemaTreeShaker, Retain}
use apollo_mcp_server.TreeShake.{
  retain_found, retain_named, retain_spread, retain_fragments, retain_node, retain_all_fragments,
  retain_step, retain_type,
}
use apollo_mcp_server.TreeShake.Shaken.{
  new, operation_name, retain_operation_type, retain_operation,
}
use apollo_mcp_server.TreeShake.Whole.{started}

module _ (trim : String → String) (schema : Schema) (name : String) (type_def : ExtendedType)
    (spread : String) (following : SelectionSet)
    (known : lookup name schema.types ≡ some type_def) where
  abbrev circular : FragmentDefinition
  circular = record {
    type_condition = name;
    selection_set = select (fragment_spread spread) following;
  }

  module _ (retain : Retain)
      (stuck : (s : SchemaTreeShaker)
        → lookup spread s.named_fragments ≡ some circular
        → retain name type_def (some (select (fragment_spread spread) following)) unlimited s
          ≡ none) where
    retain_spread-circular :
        (s : SchemaTreeShaker)
        → lookup spread s.named_fragments ≡ some circular
        → retain_spread trim schema retain (lookup spread s.named_fragments) unlimited s ≡ none
    unfolding retain_spread retain_named retain_found
    retain_spread-circular s found =
        ap (λ o. retain_spread trim schema retain o unlimited s) found
        ∙ ap
            (λ o.
              retain_found trim schema retain name o
                (some (select (fragment_spread spread) following)) unlimited s)
            known
        ∙ stuck s found

    retain_step-circular :
        (rest : SelectionSet) (s : SchemaTreeShaker)
        → lookup spread s.named_fragments ≡ some circular
        → retain_step trim schema retain name type_def
            (some (select (fragment_spread spread) rest))
            unlimited
            s
          ≡ none
    unfolding retain_step reached retain_all_fragments retain_fragments
    retain_step-circular rest s found =
        let selections = some (select (fragment_spread spread) rest) in
        ap
          (λ o.
            elim (elim o as (λ x. Option SchemaTreeShaker) [
              | none ↦ none
              | some s' ↦ retain_fragments trim schema retain rest unlimited s'
            ])
              as (λ x. Option SchemaTreeShaker) [
                | none ↦ none
                | some s' ↦ retain_node trim schema retain name type_def selections unlimited s'
              ])
          (retain_spread-circular s found)

  retain_type-circular :
      (fuel : ℕ) (rest : SelectionSet) (s : SchemaTreeShaker)
      → lookup spread s.named_fragments ≡ some circular
      → retain_type trim schema fuel name type_def
          (some (select (fragment_spread spread) rest))
          unlimited
          s
        ≡ none
  unfolding retain_type
  retain_type-circular zero rest s found = refl
  retain_type-circular (suc fuel) rest s found =
      retain_step-circular (retain_type trim schema fuel) (retain_type-circular fuel following) rest
        s found

  -- If the first selection of an operation spreads a fragment on the operation's root type whose own
  -- first selection spreads it again, no fuel is enough for `retain_operation` without a depth limit:
  -- it calls itself without end.
  pub retain_operation-circular :
      (fuel : ℕ) (operation : OperationDefinition) (rest : SelectionSet)
      (fragments : List (String × FragmentDefinition))
      → operation_name schema operation.operation_type ≡ name
      → operation.selection_set ≡ select (fragment_spread spread) rest
      → lookup spread fragments ≡ some circular
      → retain_operation trim schema fuel operation fragments unlimited (new schema) ≡ none
  unfolding retain_operation retain_operation_type new
  retain_operation-circular fuel operation rest fragments root selects found =
      let s = started schema fragments (operation.operation_type ∷ []) in
      let run : String → SelectionSet → Option ExtendedType → Option SchemaTreeShaker =
        λ n selections found. elim found [
          | none ↦ some s
          | some d ↦ retain_type trim schema fuel n d (some selections) unlimited s
        ] in
      ap (λ n. run n operation.selection_set (lookup n schema.types)) root
      ∙ ap (λ selections. run name selections (lookup name schema.types)) selects
      ∙ ap (run name (select (fragment_spread spread) rest)) known
      ∙ retain_type-circular fuel rest s found
