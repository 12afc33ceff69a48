-- ===== src/TreeShake/Ends.antt =====
-- Runs of the tree shaker that end: a bound on the nodes that are left to retain, and on selections.
use mathlib.Core.Option.{some-injective}
use apollo_mcp_server.Prelude.{
  ℕ, suc, ◌+◌, ◌*◌, ◌≤◌, ◌≡◌, ◌∙◌, inl, inr, refl, ap, true, false, Option, none, some, List, [],
  ◌∷◌, String, ◌==◌, lookup, is_none, All, arith, Bool-cases, if◌then◌else◌,
}
use apollo_mcp_server.TreeShake.Syntax.{
  ExtendedType, scalar_type, object_type, interface_type, union_type, enum_type, input_object,
  Schema, field, fragment_spread, inline_fragment, SelectionSet, end, select, FragmentDefinition,
}
use apollo_mcp_server.TreeShake.Shaker.{
  SchemaTreeShaker, TreeTypeNode, replace, for_each, Then, ◌>>>◌, skip,
}

-- The nodes that are not retained yet.
abbrev pub unretained : List (String × TreeTypeNode) → ℕ
unretained [] = 0
unretained ((name, node) ∷ nodes) =
    let others = unretained nodes in if node.retain then others else suc others

pub unretained-replace :
    (name : String) (node : TreeTypeNode) (nodes : List (String × TreeTypeNode))
    → node.retain ≡ true
    → unretained (replace name node nodes) ≤ unretained nodes
unfolding replace
unretained-replace name node [] h = ground arith
unretained-replace name node ((key, old) ∷ nodes) h =
    ground (arith, unretained-replace name node nodes h)

pub unretained-replace_fresh :
    (name : String) (node old : TreeTypeNode) (nodes : List (String × TreeTypeNode))
    → node.retain ≡ true
    → lookup name nodes ≡ some old
    → old.retain ≡ false
    → suc (unretained (replace name node nodes)) ≡ unretained nodes
unfolding replace lookup
unretained-replace_fresh name node old [] h found fresh = absurd (cc)
unretained-replace_fresh name node old ((key, first) ∷ nodes) h found fresh =
    elim (Bool-cases (key == name)) [
      | inl here ↦
          let same = some-injective first old (ground arith) in
          ground (arith, ap (λ (n : TreeTypeNode). n.retain) same)
      | inr later ↦
          let rest = unretained-replace_fresh name node old nodes h (ground arith) fresh in
          ground arith
    ]

abbrev pub union_weight : ExtendedType → ℕ
union_weight (scalar_type directives) = 0
union_weight (object_type directives fields) = 0
union_weight (interface_type directives fields) = 0
union_weight (union_type directives members) = 1
union_weight (enum_type directives values) = 0
union_weight (input_object directives fields) = 0

-- The size of a selection set, with a rank for each fragment that it spreads.
module _ (rank : String → ℕ) where
  abbrev pub weight : SelectionSet → ℕ
  weight end = 0
  weight (select (field name arguments directives selections) rest) =
      suc (weight selections + weight rest)
  weight (select (fragment_spread name) rest) = suc (rank name + weight rest)
  weight (select (inline_fragment condition selections) rest) =
      suc (weight selections + weight rest)

  -- A union hands its selections on to its members.
  abbrev pub cost : ExtendedType → Option SelectionSet → ℕ
  cost type_def none = 0
  cost type_def (some selections) = suc (2 * weight selections + union_weight type_def)

  abbrev pub heaviest : Option SelectionSet → ℕ
  heaviest none = 0
  heaviest (some selections) = 2 + 2 * weight selections

  pub cost-heaviest :
      (type_def : ExtendedType) (selections : Option SelectionSet)
      → cost type_def selections ≤ heaviest selections
  cost-heaviest type_def none = ground arith
  cost-heaviest (scalar_type directives) (some selections) = ground arith
  cost-heaviest (object_type directives fields) (some selections) = ground arith
  cost-heaviest (interface_type directives fields) (some selections) = ground arith
  cost-heaviest (union_type directives members) (some selections) = ground arith
  cost-heaviest (enum_type directives values) (some selections) = ground arith
  cost-heaviest (input_object directives fields) (some selections) = ground arith

module _ (schema : Schema) (fragments : List (String × FragmentDefinition)) where
  -- A state of the schema with these fragments and few nodes left to retain.
  pub record Good (left : ℕ) (s : SchemaTreeShaker) : Type 0 where
    pub known :
        (name : String)
        → is_none (lookup name s.named_type_nodes) ≡ is_none (lookup name schema.types)
    pub same_fragments : s.named_fragments ≡ fragments
    pub few : unretained s.named_type_nodes ≤ left

  pub Good-weaken :
      {fewer left : ℕ} {s : SchemaTreeShaker} → fewer ≤ left → Good fewer s → Good left s
  Good-weaken h g = record {
    known = g.known;
    same_fragments = g.same_fragments;
    few = ground (arith, g.few);
  }

  -- The step ends, and well.
  abbrev pub Ends : ℕ → Then → Type 0
  Ends left step =
      (s : SchemaTreeShaker)
      → Good left s
      → (t : SchemaTreeShaker) × (step s ≡ some t) × Good left t

  pub skip-Ends : (left : ℕ) → Ends left skip
  skip-Ends left s g = (s, refl, g)

  pub then-Ends : (left : ℕ) (m k : Then) → Ends left m → Ends left k → Ends left (m >>> k)
  then-Ends left m k hm hk s g =
      let (u, e, g') = hm s g in
      let (t, e', g'') = hk u g' in (t, ap (λ o. elim o [ none ↦ none | some v ↦ k v ]) e ∙ e', g'')

  pub for_each-Ends :
      {V : Type 0} (left : ℕ) (body : V → Then) (xs : List V)
      → All (λ x. Ends left (body x)) xs
      → Ends left (for_each body xs)
  unfolding for_each
  for_each-Ends left body [] h = skip-Ends left
  for_each-Ends left body (x ∷ xs) h =
      then-Ends left (body x) (for_each body xs) (h.0) (for_each-Ends left body xs h.1)

  -- A change that leaves a state good goes before a step.
  pub changed-Ends :
      (left : ℕ) (change : SchemaTreeShaker → SchemaTreeShaker) (step : Then)
      → ((s : SchemaTreeShaker) → Good left s → Good left (change s))
      → Ends left step
      → Ends left (λ s. step (change s))
  changed-Ends left change step keeps h s g = h (change s) (keeps s g)

pub All-every : {A : Type 0} (P : A → Type 0) → ((x : A) → P x) → (xs : List A) → All P xs
All-every P h [] = tt
All-every P h (x ∷ xs) = (h x, All-every P h xs)
