-- ===== src/Operations/Private/Sound.antt =====
-- The tree hides what the document marks.
use mathlib.Core.Path.{subst}
use apollo_mcp_server.Prelude.{
  ℕ, zero, suc, ◌≡◌, ◌⊎◌, inl, inr, refl, ap, sym, true, List, [], ◌∷◌, String, eq_iff, contains,
  lookup, length, arith, Bool-cases, Option-cases,
}
use apollo_mcp_server.Operations.Private.{
  PrivateFieldTree, default_tree, child_or_default, mark_private, Selection, field, fragment_spread,
  inline_fragment, Selections, end, select, response_key, has_private_directive, no_selections,
  Fragments, Collected, collect_selection, collect_selections, collect_from_selections,
  collect_private_fields,
}
use apollo_mcp_server.Operations.Private.Covers.{
  hidden, hidden-covers, covers, begins, covers-child_or_default, covers-mark_private,
  default_tree-covers,
}
use apollo_mcp_server.Operations.Private.Marked.{
  Marks, first, later, MarksOne, by_directive, in_field, in_inline, in_spread, keep_child_sound,
}

begins-eq-true :
    (key : String) (keys : List String)
    → begins key keys ≡ true
    → (rest : List String) × (keys ≡ key ∷ rest)
begins-eq-true key [] h = absurd (ground arith)
begins-eq-true key (name ∷ keys) h =
    (keys, ap (λ (k : String). k ∷ keys) (sym ((eq_iff key name).0 h)))

-- What one more mark covers.
mark_private_sound :
    (tree : PrivateFieldTree) (key : String) (keys : List String)
    → covers (mark_private tree key) keys ≡ true
    → (covers tree keys ≡ true) ⊎ ((rest : List String) × (keys ≡ key ∷ rest))
mark_private_sound tree key keys h = elim (Bool-cases (covers tree keys)) [
  | inl before ↦ inl before
  | inr fresh ↦ inr (begins-eq-true key keys (ground (arith, covers-mark_private tree key keys)))
]

module _ (fragments : Fragments) (expand : Selections → Collected → Collected)
    (sound : (body : Selections) (state : Collected) (keys : List String)
      → covers (expand body state).0 keys ≡ true
      → (covers state.0 keys ≡ true) ⊎ Marks fragments body keys) where
  mutual
    unfolding collect_selection collect_selections

    collect_selection_sound :
        (s : Selection) (state : Collected) (keys : List String)
        → covers (collect_selection expand fragments s state).0 keys ≡ true
        → (covers state.0 keys ≡ true) ⊎ MarksOne fragments s keys
    collect_selection_sound (field alias name directives selections) (tree, visited) keys h =
        let key = response_key alias name in
        elim (Bool-cases (has_private_directive directives)) [
          | inl marked ↦ elim (mark_private_sound tree key keys (rw marked at h)) [
            | inl before ↦ inl before
            | inr (rest, same) ↦
                inr (subst (MarksOne fragments _) (sym same) (by_directive marked refl))
          ]
          | inr public ↦
              let h' = rw public at h in
              elim (Bool-cases (no_selections selections)) [
                | inl none_below ↦ inl (rw none_below at h')
                | inr below ↦ elim (keep_child_sound tree _ key keys (rw below at h')) [
                  | inl before ↦ inl before
                  | inr (rest, same, inside) ↦
                      elim (collect_selections_sound selections (child_or_default tree key, visited)
                        rest inside) [
                          | inl before ↦
                              inl (rw (same, covers-child_or_default tree key rest) (ground arith))
                          | inr marks ↦
                              inr (subst (MarksOne fragments _) (sym same) (in_field marks refl))
                        ]
                ]
              ]
        ]
    collect_selection_sound (fragment_spread name) (tree, visited) keys h =
        elim (Bool-cases (contains visited name)) [
          | inl again ↦ inl (rw again at h)
          | inr fresh ↦
              let h' = rw fresh at h in
              elim (Option-cases (lookup name fragments)) [
                | inl unknown ↦ inl (rw unknown at h')
                | inr (body, known) ↦
                    elim (sound body (tree, name ∷ visited) keys (rw known at h')) [
                      | inl before ↦ inl before
                      | inr marks ↦ inr (in_spread known marks)
                    ]
              ]
        ]
    collect_selection_sound (inline_fragment selections) state keys h =
        elim (collect_selections_sound selections state keys h) [
          | inl before ↦ inl before
          | inr marks ↦ inr (in_inline marks)
        ]

    pub collect_selections_sound :
        (selections : Selections) (state : Collected) (keys : List String)
        → covers (collect_selections expand fragments selections state).0 keys ≡ true
        → (covers state.0 keys ≡ true) ⊎ Marks fragments selections keys
    collect_selections_sound end state keys h = inl h
    collect_selections_sound (select s selections) state keys h =
        elim (collect_selections_sound selections (collect_selection expand fragments s state) keys
          h) [
            | inl earlier ↦ elim (collect_selection_sound s state keys earlier) [
              | inl before ↦ inl before
              | inr here ↦ inr (first here)
            ]
            | inr rest ↦ inr (later rest)
          ]

pub collect_from_selections_sound :
    (fuel : ℕ) (fragments : Fragments) (selections : Selections) (state : Collected)
    (keys : List String)
    → covers (collect_from_selections fuel fragments selections state).0 keys ≡ true
    → (covers state.0 keys ≡ true) ⊎ Marks fragments selections keys
unfolding collect_from_selections
collect_from_selections_sound zero fragments selections state keys h =
    collect_selections_sound fragments (λ body s. s) (λ body s names e. inl e) selections state keys
      h
collect_from_selections_sound (suc fuel) fragments selections state keys h =
    collect_selections_sound fragments (collect_from_selections fuel fragments)
      (λ body s names e. collect_from_selections_sound fuel fragments body s names e) selections
      state keys h

pub collect_private_fields-Marks :
    (fragments : Fragments) (selections : Selections) (keys : List String)
    → hidden (collect_private_fields selections fragments) keys ≡ true
    → Marks fragments selections keys
unfolding collect_private_fields
collect_private_fields-Marks fragments selections keys h =
    elim (collect_from_selections_sound (length fragments) fragments selections (default_tree, [])
      keys (hidden-covers _ keys h)) [
        | inl before ↦ absurd (ground (arith, default_tree-covers keys))
        | inr marks ↦ marks
      ]
