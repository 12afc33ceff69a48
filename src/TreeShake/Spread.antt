-- ===== src/TreeShake/Spread.antt =====
-- Fragments: the calls for what a selection spreads end.
use mathlib.Core.Option.{some-injective}
use mathlib.Core.Path.{subst}
use apollo_mcp_server.Prelude.{
  ℕ, suc, ◌*◌, ◌≤◌, ◌≡◌, inl, inr, ap, sym, Bool, true, false, Option, none, some, List, [], ◌∷◌,
  String, ◌==◌, eq_iff, lookup, All, arith, Bool-cases,
}
use apollo_mcp_server.TreeShake.Syntax.{
  ExtendedType, Schema, field, fragment_spread, inline_fragment, SelectionSet, end, select,
  FragmentDefinition,
}
use apollo_mcp_server.TreeShake.Shaker.{
  unlimited, decrement, Retain, Then, no_selections, nested_fragments,
}
use apollo_mcp_server.TreeShake.{retain_named, retain_spread, retain_inline, retain_fragments}
use apollo_mcp_server.TreeShake.Ends.{weight, cost, heaviest, Ends, skip-Ends, then-Ends}
use apollo_mcp_server.TreeShake.Total.{retain_named-Ends}

-- What holds of all entries holds of the one that is found.
pub lookup-All :
    {V : Type 0} (P : String → V → Type 0) (entries : List (String × V)) (name : String) (value : V)
    → All (λ e. P e.0 e.1) entries
    → lookup name entries ≡ some value
    → P name value
unfolding lookup
lookup-All P [] name value h found = absurd (cc)
lookup-All P ((key, first) ∷ entries) name value h found = elim (Bool-cases (key == name)) [
  | inl here ↦
      subst (λ n. P n value) ((eq_iff key name).0 here)
        (subst (P key) (some-injective first value (ground arith)) h.0)
  | inr later ↦ lookup-All P entries name value h.1 (ground arith)
]

-- A rank for fragments that goes down from each to those that it spreads.
abbrev pub Ranked : (String → ℕ) → List (String × FragmentDefinition) → Type 0
Ranked rank fragments =
    All (λ (e : String × FragmentDefinition). weight rank e.1.selection_set ≤ rank e.0) fragments

module _ (trim : String → String) (schema : Schema) (fragments : List (String × FragmentDefinition))
    (rank : String → ℕ) (retain : Retain) (most left : ℕ) (ranked : Ranked rank fragments)
    (ends : (name : String) (type_def : ExtendedType) (selections : Option SelectionSet)
      → lookup name schema.types ≡ some type_def
      → cost rank type_def selections ≤ most
      → Ends schema fragments left (retain name type_def selections unlimited)) where
  named :
      (name : String) (selections : Option SelectionSet)
      → heaviest rank selections ≤ most
      → Ends schema fragments left (retain_named trim schema retain name selections unlimited)
  named = retain_named-Ends trim schema fragments rank retain most left ends

  retain_spread-Ends :
      (name : String) (found : Option FragmentDefinition)
      → lookup name fragments ≡ found
      → suc (suc (2 * rank name)) ≤ most
      → Ends schema fragments left (retain_spread trim schema retain found unlimited)
  unfolding retain_spread
  retain_spread-Ends name none e h = skip-Ends schema fragments left
  retain_spread-Ends name (some fragment) e h =
      named fragment.type_condition (some fragment.selection_set) (
        ground (
          arith,
          lookup-All (λ n f. weight rank f.selection_set ≤ rank n) fragments name fragment ranked e,
        ))

  retain_inline-Ends :
      (condition : Option String) (selections : SelectionSet)
      → heaviest rank (some selections) ≤ most
      → Ends schema fragments left (retain_inline trim schema retain condition selections unlimited)
  unfolding retain_inline
  retain_inline-Ends none selections h = skip-Ends schema fragments left
  retain_inline-Ends (some name) selections h = named name (some selections) h

  nested_fragments-Ends :
      (empty : Bool) (nested : Then)
      → Ends schema fragments left nested
      → Ends schema fragments left (nested_fragments empty nested)
  unfolding nested_fragments
  nested_fragments-Ends true nested h = skip-Ends schema fragments left
  nested_fragments-Ends false nested h = h

  pub retain_fragments-Ends :
      (selections : SelectionSet)
      → 2 * weight rank selections ≤ most
      → Ends schema fragments left (retain_fragments trim schema retain selections unlimited)
  unfolding retain_fragments decrement
  retain_fragments-Ends end h = skip-Ends schema fragments left
  retain_fragments-Ends (select (fragment_spread name) rest) h =
      then-Ends schema fragments left
        (λ s. retain_spread trim schema retain (lookup name s.named_fragments) unlimited s) _
        (λ s g.
          retain_spread-Ends name (lookup name s.named_fragments)
            (ap (lookup name) (sym g.same_fragments)) (ground arith) s g)
        (retain_fragments-Ends rest (ground arith))
  retain_fragments-Ends (select (inline_fragment condition selections) rest) h =
      then-Ends schema fragments left _ _ (retain_inline-Ends condition selections (ground arith))
        (retain_fragments-Ends rest (ground arith))
  retain_fragments-Ends (select (field name arguments directives selections) rest) h =
      then-Ends schema fragments left _ _
        (nested_fragments-Ends (no_selections selections) _
          (retain_fragments-Ends selections (ground arith)))
        (retain_fragments-Ends rest (ground arith))
