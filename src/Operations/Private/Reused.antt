-- ===== src/Operations/Private/Reused.antt =====
-- A fragment that is spread at two places.
use apollo_mcp_server.Prelude.{
  ℕ, zero, suc, ◌≡◌, ◌≢◌, inl, inr, refl, true, false, none, some, List, [], ◌∷◌, String, eq_iff,
  contains, lookup, arith, Bool-cases, Option-cases,
}
use apollo_mcp_server.Operations.Private.{
  PrivateFieldTree, default_tree, child_or_default, keep_child, Selection, field, fragment_spread,
  Selections, end, select, Fragments, Collected, expand_fragment, collect_selection,
  collect_selections, collect_from_selections, collect_private_fields, has_private_directive,
  response_key,
}
use apollo_mcp_server.Operations.Private.Covers.{
  hidden, hidden-covers, covers-keep_child, covers-child_or_default, default_tree-covers,
  is_private-keep_child,
}
use apollo_mcp_server.Operations.Private.Marked.{Marks, first, later, in_field, in_spread}
use apollo_mcp_server.Operations.Private.Visited.{collect_from_selections_keeps}

-- `key { ...name }`
abbrev pub spread_below : String → String → Selection
spread_below key name = field none key [] (select (fragment_spread name) end)

-- `one { ...name } other { ...name }`
abbrev pub spread_twice : String → String → String → Selections
spread_twice one other name = select (spread_below one name) (select (spread_below other name) end)

-- Nothing is hidden below a key of its own in a tree with one other child.
not_hidden :
    (below : PrivateFieldTree) (one other : String) (keys : List String)
    → one ≢ other
    → hidden
        (keep_child
          (keep_child default_tree one below)
          other
          (child_or_default (keep_child default_tree one below) other))
        (other ∷ keys)
      ≡ false
not_hidden below one other keys different =
    let first_tree = keep_child default_tree one below in
    elim (Bool-cases
      (hidden (keep_child first_tree other (child_or_default first_tree other)) (other ∷ keys))) [
        | inl found ↦ absurd (
            ground (
              arith,
              hidden-covers (keep_child first_tree other (child_or_default first_tree other))
                  (other ∷ keys) found,
              covers-keep_child first_tree (child_or_default first_tree other) other other keys,
              covers-child_or_default first_tree other keys,
              covers-keep_child default_tree below one other keys,
              default_tree-covers (other ∷ keys),
              eq_iff one other,
              eq_iff other other,
              is_private-keep_child default_tree below one,
            ))
        | inr public ↦ public
      ]

module _ (fragments : Fragments) (expand : Selections → Collected → Collected) (name : String)
    (keeps : (body : Selections) (state : Collected)
      → contains state.1 name ≡ true
      → contains (expand body state).1 name ≡ true) where
  opened :
      (one : String)
      → contains
          (expand_fragment expand
            (lookup name fragments)
            (child_or_default default_tree one, name ∷ [])).1
          name
        ≡ true
  opened one =
      let seen : contains (name ∷ []) name ≡ true = ground (arith, eq_iff name name) in
      elim (Option-cases (lookup name fragments)) [
        | inl unknown ↦ rw unknown seen
        | inr (body, known) ↦
            rw known (keeps body (child_or_default default_tree one, name ∷ []) seen)
      ]

  -- The first spread leaves its fragment visited, and touches nothing but its own key.
  first_spread :
      (one : String)
      → (tree : PrivateFieldTree) × (visited : List String) × (collect_selection expand fragments
            (spread_below one name)
            (default_tree, [])
          ≡ (keep_child default_tree one tree, visited))
        × (contains visited name ≡ true)
  unfolding collect_selection has_private_directive response_key
  first_spread one =
      let inside =
        expand_fragment expand (lookup name fragments)
          (child_or_default default_tree one, name ∷ []) in
      (inside.0, inside.1, refl, opened one)

  -- The second spread adds nothing.
  second_spread :
      (other : String) (tree : PrivateFieldTree) (visited : List String)
      → contains visited name ≡ true
      → collect_selection expand fragments (spread_below other name) (tree, visited)
        ≡ (keep_child tree other (child_or_default tree other), visited)
  unfolding collect_selection has_private_directive response_key
  second_spread other tree visited seen = rw seen

  pub twice_hides :
      (one other : String) (keys : List String)
      → one ≢ other
      → hidden
          (collect_selections expand fragments (spread_twice one other name) (default_tree, [])).0
          (other ∷ keys)
        ≡ false
  unfolding collect_selections
  twice_hides one other keys different =
      let (tree, visited, then, seen) = first_spread one in
      rw (then, second_spread other (keep_child default_tree one tree) visited seen)
        (not_hidden tree one other keys different)

marked_twice :
    (fragments : Fragments) (one other name : String) (body : Selections) (keys : List String)
    → lookup name fragments ≡ some body
    → Marks fragments body keys
    → Marks fragments (spread_twice one other name) (other ∷ keys)
unfolding response_key
marked_twice fragments one other name body keys known marks =
    later (first (in_field (first (in_spread known marks)) refl))

twice_hides_from :
    (fuel : ℕ) (fragments : Fragments) (one other name : String) (keys : List String)
    → one ≢ other
    → hidden
        (collect_from_selections fuel fragments (spread_twice one other name) (default_tree, [])).0
        (other ∷ keys)
      ≡ false
unfolding collect_from_selections
twice_hides_from zero fragments one other name keys different =
    twice_hides fragments (λ body s. s) name (λ body s seen. seen) one other keys different
twice_hides_from (suc fuel) fragments one other name keys different =
    twice_hides fragments (collect_from_selections fuel fragments) name
      (λ body s seen.
        collect_from_selections_keeps fragments (λ visited. contains visited name ≡ true)
          (λ another visited h. ground arith) fuel body s seen)
      one other keys different

-- When a fragment is spread below two keys, the paths below the second one that its fields mark as
-- private are not hidden: what the document marks is more than what the tree hides.
pub collect_private_fields-spread_twice :
    (fragments : Fragments) (one other name : String) (body : Selections) (keys : List String)
    → lookup name fragments ≡ some body
    → Marks fragments body keys
    → one ≢ other
    → Marks fragments (spread_twice one other name) (other ∷ keys)
      × (hidden (collect_private_fields (spread_twice one other name) fragments) (other ∷ keys)
          ≡ false)
unfolding collect_private_fields
collect_private_fields-spread_twice fragments one other name body keys known marks different = (
  marked_twice fragments one other name body keys known marks,
  twice_hides_from _ fragments one other name keys different,
)
