-- ===== src/TreeShake/Terminating.antt =====
-- Enough fuel for retain_type: a call retains a node, or has less to select.
use apollo_mcp_server.Prelude.{
  ℕ, zero, suc, ◌+◌, ◌*◌, ◌≤◌, ◌<◌, ◌≡◌, inl, inr, refl, true, false, Option, none, some, List,
  String, lookup, is_none, All, arith, Bool-cases,
}
use apollo_mcp_server.TreeShake.Syntax.{ExtendedType, Schema, SelectionSet, FragmentDefinition}
use apollo_mcp_server.TreeShake.Shaker.{
  unlimited, reached, SchemaTreeShaker, TreeTypeNode, replace, Retain, mark_node,
}
use apollo_mcp_server.TreeShake.{
  retain_below, retain_with, retain_node, retain_all_fragments, retain_step, retain_type,
}
use apollo_mcp_server.TreeShake.Extends.{lookup-replace}
use apollo_mcp_server.TreeShake.Ends.{
  unretained-replace, unretained-replace_fresh, weight, union_weight, cost, Good, Good-weaken, Ends,
  skip-Ends, then-Ends,
}
use apollo_mcp_server.TreeShake.Spread.{lookup-All, Ranked, retain_fragments-Ends}
use apollo_mcp_server.TreeShake.Selected.{PlainType, retain_below-Ends}

marked-retain :
    (node : TreeTypeNode) (selections : Option SelectionSet)
    → (mark_node node selections).retain ≡ true
unfolding mark_node
marked-retain node none = refl
marked-retain node (some selections) = refl

module _ (schema : Schema) (fragments : List (String × FragmentDefinition)) where
  replaced-known :
      (s : SchemaTreeShaker) (name : String) (node : TreeTypeNode)
      → ((n : String) → is_none (lookup n s.named_type_nodes) ≡ is_none (lookup n schema.types))
      → (n : String)
      → is_none (lookup n (replace name node s.named_type_nodes)) ≡ is_none (lookup n schema.types)
  replaced-known s name node h n =
      ground (arith, lookup-replace s.named_type_nodes name n node, h n)

  marked-Good :
      (left : ℕ) (s : SchemaTreeShaker) (name : String) (node : TreeTypeNode)
      → node.retain ≡ true
      → Good schema fragments left s
      → Good schema fragments left
          (record s { named_type_nodes = replace name node s.named_type_nodes })
  marked-Good left s name node h g = record {
    known = replaced-known s name node g.known;
    same_fragments = g.same_fragments;
    few = ground (arith, g.few, unretained-replace name node s.named_type_nodes h);
  }

  fresh-Good :
      (left : ℕ) (s : SchemaTreeShaker) (name : String) (node old : TreeTypeNode)
      → node.retain ≡ true
      → lookup name s.named_type_nodes ≡ some old
      → old.retain ≡ false
      → Good schema fragments left s
      → (fewer : ℕ) × (left ≡ suc fewer)
        × Good schema fragments fewer
            (record s { named_type_nodes = replace name node s.named_type_nodes })
  fresh-Good zero s name node old h found fresh g = absurd (
      ground
        (arith, g.few, unretained-replace_fresh name node old s.named_type_nodes h found fresh))
  fresh-Good (suc left) s name node old h found fresh g = (
    left,
    refl,
    record {
      known = replaced-known s name node g.known;
      same_fragments = g.same_fragments;
      few =
          ground
            (arith, g.few, unretained-replace_fresh name node old s.named_type_nodes h found fresh);
    },
  )

-- The unions of a schema have no unions as members.
abbrev pub PlainSchema : Schema → Type 0
PlainSchema schema = All (λ (e : String × ExtendedType). PlainType schema e.1) schema.types

module _ (trim : String → String) (schema : Schema) (fragments : List (String × FragmentDefinition))
    (rank : String → ℕ) (ranked : Ranked rank fragments) (plain : PlainSchema schema) where
  -- A call ends if its cost and the nodes left to retain are below the fuel.
  abbrev pub Enough : ℕ → Retain → Type 0
  Enough fuel retain =
      (left : ℕ) (name : String) (type_def : ExtendedType) (selections : Option SelectionSet)
      → lookup name schema.types ≡ some type_def
      → cost rank type_def selections + left < fuel
      → Ends schema fragments left (retain name type_def selections unlimited)

  module _ (fuel : ℕ) (retain : Retain) (enough : Enough fuel retain) (name : String)
      (type_def : ExtendedType) (known : lookup name schema.types ≡ some type_def) where
    plain_type : PlainType schema type_def
    plain_type = lookup-All (λ n d. PlainType schema d) schema.types name type_def plain known

    below_selected :
        (left : ℕ) (selections : SelectionSet)
        → cost rank type_def (some selections) + left ≤ fuel
        → Ends schema fragments left
            (retain_below trim schema retain name type_def (some selections) unlimited)
    below_selected left selections h =
        retain_below-Ends trim schema fragments rank retain
          (2 * weight rank selections + union_weight type_def) left ranked
          (λ n d s k c. enough left n d s k (ground arith)) name type_def (some selections)
          (ground arith) plain_type

    below_whole :
        (left : ℕ)
        → left < fuel
        → Ends schema fragments left (retain_below trim schema retain name type_def none unlimited)
    below_whole left h =
        retain_below-Ends trim schema fragments rank retain 0 left ranked
          (λ n d s k c. enough left n d s k (ground arith)) name type_def none refl plain_type

    retain_with-Ends_selected :
        (left : ℕ) (selections : SelectionSet) (node : Option TreeTypeNode)
        → cost rank type_def (some selections) + left ≤ fuel
        → Ends schema fragments left
            (retain_with trim schema retain node name type_def (some selections) unlimited)
    unfolding retain_with mark_node
    retain_with-Ends_selected left selections none h s g = below_selected left selections h s g
    retain_with-Ends_selected left selections (some node) h s g =
        let marked = below_selected left selections h _ (
          marked-Good schema fragments left s name (mark_node node (some selections))
            (marked-retain node (some selections)) g) in
        elim (Bool-cases node.retain) [
          | inl before ↦ rw before marked
          | inr fresh ↦ rw fresh marked
        ]

    retain_with-Ends_whole :
        (left : ℕ) (s : SchemaTreeShaker) (node : Option TreeTypeNode)
        → lookup name s.named_type_nodes ≡ node
        → left ≤ fuel
        → Good schema fragments left s
        → (t : SchemaTreeShaker) × (retain_with trim schema retain node name type_def none unlimited
              s
            ≡ some t)
          × Good schema fragments left t
    unfolding retain_with mark_node
    retain_with-Ends_whole left s none found h g = absurd (ground (arith, g.known name))
    retain_with-Ends_whole left s (some node) found h g = elim (Bool-cases node.retain) [
      | inl before ↦ rw before (s, refl, g)
      | inr fresh ↦
          let (fewer, less, g') =
            fresh-Good schema fragments left s name (mark_node node none) node
              (marked-retain node none) found fresh g in
          let (t, e, g'') = below_whole fewer (ground arith) _ g' in
          rw fresh (t, e, Good-weaken schema fragments (ground arith) g'')
    ]

    retain_node-Ends :
        (left : ℕ) (selections : Option SelectionSet)
        → cost rank type_def selections + left ≤ fuel
        → Ends schema fragments left
            (retain_node trim schema retain name type_def selections unlimited)
    unfolding retain_node
    retain_node-Ends left none h s g =
        retain_with-Ends_whole left s (lookup name s.named_type_nodes) refl (ground arith) g
    retain_node-Ends left (some selections) h s g =
        retain_with-Ends_selected left selections (lookup name s.named_type_nodes) h s g

    retain_all_fragments-Ends :
        (left : ℕ) (selections : Option SelectionSet)
        → cost rank type_def selections + left ≤ fuel
        → Ends schema fragments left (retain_all_fragments trim schema retain selections unlimited)
    unfolding retain_all_fragments
    retain_all_fragments-Ends left none h = skip-Ends schema fragments left
    retain_all_fragments-Ends left (some selections) h =
        retain_fragments-Ends trim schema fragments rank retain
          (2 * weight rank selections + union_weight type_def) left ranked
          (λ n d s k c. enough left n d s k (ground arith)) selections (ground arith)

    retain_step-Ends :
        (left : ℕ) (selections : Option SelectionSet)
        → cost rank type_def selections + left ≤ fuel
        → Ends schema fragments left
            (retain_step trim schema retain name type_def selections unlimited)
    unfolding retain_step reached
    retain_step-Ends left selections h =
        then-Ends schema fragments left _ _ (retain_all_fragments-Ends left selections h)
          (retain_node-Ends left selections h)

  pub retain_type-Ends : (fuel : ℕ) → Enough fuel (retain_type trim schema fuel)
  unfolding retain_type
  retain_type-Ends zero left name type_def selections known h = absurd (ground arith)
  retain_type-Ends (suc fuel) left name type_def selections known h =
      retain_step-Ends fuel (retain_type trim schema fuel) (retain_type-Ends fuel) name type_def
        known left selections (ground arith)
