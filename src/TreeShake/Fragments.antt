-- ===== src/TreeShake/Fragments.antt =====
-- What the fragments of a selection retain, without a depth limit.
use apollo_mcp_server.Prelude.{◌≡◌, Bool, true, false, Option, none, some, [], ◌∷◌, String, lookup}
use apollo_mcp_server.TreeShake.Syntax.{
  ExtendedType, Schema, field, fragment_spread, inline_fragment, SelectionSet, end, select,
  FragmentDefinition,
}
use apollo_mcp_server.TreeShake.Shaker.{
  unlimited, decrement, Retain, Then, no_selections, nested_fragments,
}
use apollo_mcp_server.TreeShake.{retain_spread, retain_inline, retain_fragments}
use apollo_mcp_server.TreeShake.Extends.{to_type}
use apollo_mcp_server.TreeShake.Reaches.{Reaches, skip-Reaches, then-Reaches, nothing-Reaches}
use apollo_mcp_server.TreeShake.Followed.{retain_named-Reaches}

module _ (trim : String → String) (schema : Schema) (retain : Retain)
    (reaches : (name : String) (type_def : ExtendedType) (selections : Option SelectionSet)
      → lookup name schema.types ≡ some type_def
      → Reaches schema (retain name type_def selections unlimited) (to_type name ∷ [])) where
  retain_spread-Reaches :
      (found : Option FragmentDefinition)
      → Reaches schema (retain_spread trim schema retain found unlimited) []
  unfolding retain_spread
  retain_spread-Reaches none = skip-Reaches schema
  retain_spread-Reaches (some fragment) =
      nothing-Reaches schema _ (to_type fragment.type_condition ∷ []) (
        retain_named-Reaches trim schema retain reaches fragment.type_condition
          (some fragment.selection_set))

  retain_inline-Reaches :
      (condition : Option String) (selections : SelectionSet)
      → Reaches schema (retain_inline trim schema retain condition selections unlimited) []
  unfolding retain_inline
  retain_inline-Reaches none selections = skip-Reaches schema
  retain_inline-Reaches (some name) selections =
      nothing-Reaches schema _ (to_type name ∷ [])
        (retain_named-Reaches trim schema retain reaches name (some selections))

  nested_fragments-Reaches :
      (empty : Bool) (nested : Then)
      → Reaches schema nested []
      → Reaches schema (nested_fragments empty nested) []
  unfolding nested_fragments
  nested_fragments-Reaches true nested h = skip-Reaches schema
  nested_fragments-Reaches false nested h = h

  pub retain_fragments-Reaches :
      (selections : SelectionSet)
      → Reaches schema (retain_fragments trim schema retain selections unlimited) []
  unfolding retain_fragments decrement
  retain_fragments-Reaches end = skip-Reaches schema
  retain_fragments-Reaches (select (fragment_spread name) rest) =
      then-Reaches schema
        (λ s. retain_spread trim schema retain (lookup name s.named_fragments) unlimited s)
        (retain_fragments trim schema retain rest unlimited) [] []
        (λ s. retain_spread-Reaches (lookup name s.named_fragments) s)
        (retain_fragments-Reaches rest)
  retain_fragments-Reaches (select (inline_fragment condition selections) rest) =
      then-Reaches schema _ _ [] [] (retain_inline-Reaches condition selections)
        (retain_fragments-Reaches rest)
  retain_fragments-Reaches (select (field name arguments directives selections) rest) =
      then-Reaches schema _ _ [] []
        (nested_fragments-Reaches (no_selections selections) _
          (retain_fragments-Reaches selections))
        (retain_fragments-Reaches rest)
