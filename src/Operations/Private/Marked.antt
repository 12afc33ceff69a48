-- ===== src/Operations/Private/Marked.antt =====
-- What the tree of private fields has to do with the directives of the document.
use apollo_mcp_server.Prelude.{
  ℕ, zero, suc, ◌≡◌, ◌⊎◌, inl, inr, refl, ap, sym, true, Option, some, List, [], ◌∷◌, String, ◌==◌,
  eq_iff, contains, lookup, arith, Bool-cases, Option-cases,
}
use apollo_mcp_server.Operations.Private.{
  PrivateFieldTree, node, is_private, child_or_default, mark_private, keep_child, Selection, field,
  fragment_spread, inline_fragment, Selections, end, select, response_key, has_private_directive,
  no_selections, Fragments, Collected, collect_selection, collect_selections,
  collect_from_selections,
}
use apollo_mcp_server.Operations.Private.Covers.{
  covers, covers-child_or_default, covers-mark_private, covers-keep_child, covers-keep_child_nil,
}

-- The document marks a path of response keys as private: on the way there, through fields, inline
-- fragments and spreads, is a field with the directive.
mutual
  pub data Marks (fragments : Fragments) : Selections → List String → Type 0 where
    first :
        {s : Selection} {selections : Selections} {keys : List String}
        → MarksOne fragments s keys
        → Marks fragments (select s selections) keys
    later :
        {s : Selection} {selections : Selections} {keys : List String}
        → Marks fragments selections keys
        → Marks fragments (select s selections) keys

  pub data MarksOne (fragments : Fragments) : Selection → List String → Type 0 where
    by_directive :
        {alias : Option String} {name : String} {directives : List String} {selections : Selections}
        {key : String} {keys : List String}
        → has_private_directive directives ≡ true
        → response_key alias name ≡ key
        → MarksOne fragments (field alias name directives selections) (key ∷ keys)
    in_field :
        {alias : Option String} {name : String} {directives : List String} {selections : Selections}
        {key : String} {keys : List String}
        → Marks fragments selections keys
        → response_key alias name ≡ key
        → MarksOne fragments (field alias name directives selections) (key ∷ keys)
    in_inline :
        {selections : Selections} {keys : List String}
        → Marks fragments selections keys
        → MarksOne fragments (inline_fragment selections) keys
    in_spread :
        {name : String} {body : Selections} {keys : List String}
        → lookup name fragments ≡ some body
        → Marks fragments body keys
        → MarksOne fragments (fragment_spread name) keys

is_private-mark_private :
    (tree : PrivateFieldTree) (key : String) → is_private (mark_private tree key) ≡ is_private tree
unfolding mark_private
is_private-mark_private (node marked children) key = refl

-- A nested field changes the paths below its key alone.
module _ (tree below : PrivateFieldTree) (key : String) where
  pub keep_child_grows :
      ((keys : List String)
        → covers (child_or_default tree key) keys ≡ true
        → covers below keys ≡ true)
      → (keys : List String) → covers tree keys ≡ true
      → covers (keep_child tree key below) keys ≡ true
  keep_child_grows up [] h = rw (covers-keep_child_nil tree below key) h
  keep_child_grows up (name ∷ keys) h = ground (
    arith,
    covers-keep_child tree below key name keys,
    covers-child_or_default tree name keys,
    eq_iff key name,
    up keys,
  )

  pub keep_child_sound :
      (keys : List String)
      → covers (keep_child tree key below) keys ≡ true
      → (covers tree keys ≡ true)
        ⊎ ((rest : List String) × (keys ≡ key ∷ rest) × (covers below rest ≡ true))
  keep_child_sound [] h = inl (rw (covers-keep_child_nil tree below key) at h)
  keep_child_sound (name ∷ keys) h = elim (Bool-cases (covers tree (name ∷ keys))) [
    | inl before ↦ inl before
    | inr fresh ↦ elim (Bool-cases (key == name)) [
      | inl same ↦ inr (
        keys,
        ap (λ (k : String). k ∷ keys) (sym ((eq_iff key name).0 same)),
        ground (
          arith,
          covers-keep_child tree below key name keys,
          covers-child_or_default tree name keys,
        ),
      )
      | inr other ↦ absurd (
          ground (
            arith,
            covers-keep_child tree below key name keys,
            covers-child_or_default tree name keys,
          ))
    ]
  ]

module _ (fragments : Fragments) (expand : Selections → Collected → Collected)
    (grows : (body : Selections) (state : Collected) (keys : List String)
      → covers state.0 keys ≡ true
      → covers (expand body state).0 keys ≡ true) where
  mutual
    unfolding collect_selection collect_selections

    pub collect_selection_grows :
        (s : Selection) (state : Collected) (keys : List String)
        → covers state.0 keys ≡ true
        → covers (collect_selection expand fragments s state).0 keys ≡ true
    collect_selection_grows (field alias name directives selections) (tree, visited) keys h =
        let key = response_key alias name in
        elim (Bool-cases (has_private_directive directives)) [
          | inl marked ↦ rw marked (ground (arith, covers-mark_private tree key keys))
          | inr public ↦ rw public (elim (Bool-cases (no_selections selections)) [
            | inl none_below ↦ rw none_below h
            | inr below ↦ rw below (
                keep_child_grows tree _ key
                  (collect_selections_grows selections (child_or_default tree key, visited)) keys h)
          ])
        ]
    collect_selection_grows (fragment_spread name) (tree, visited) keys h =
        elim (Bool-cases (contains visited name)) [
          | inl again ↦ rw again h
          | inr fresh ↦ rw fresh (elim (Option-cases (lookup name fragments)) [
            | inl unknown ↦ rw unknown h
            | inr (body, known) ↦ rw known (grows body (tree, name ∷ visited) keys h)
          ])
        ]
    collect_selection_grows (inline_fragment selections) state keys h =
        collect_selections_grows selections state keys h

    pub collect_selections_grows :
        (selections : Selections) (state : Collected) (keys : List String)
        → covers state.0 keys ≡ true
        → covers (collect_selections expand fragments selections state).0 keys ≡ true
    collect_selections_grows end state keys h = h
    collect_selections_grows (select s selections) state keys h =
        collect_selections_grows selections (collect_selection expand fragments s state) keys
          (collect_selection_grows s state keys h)

-- Collecting only adds to what the tree covers, whatever the fuel.
pub collect_from_selections_grows :
    (fuel : ℕ) (fragments : Fragments) (selections : Selections) (state : Collected)
    (keys : List String)
    → covers state.0 keys ≡ true
    → covers (collect_from_selections fuel fragments selections state).0 keys ≡ true
unfolding collect_from_selections
collect_from_selections_grows zero fragments selections state keys h =
    collect_selections_grows fragments (λ body s. s) (λ body s names e. e) selections state keys h
collect_from_selections_grows (suc fuel) fragments selections state keys h =
    collect_selections_grows fragments (collect_from_selections fuel fragments)
      (λ body s names e. collect_from_selections_grows fuel fragments body s names e) selections
      state keys h
