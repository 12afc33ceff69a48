-- ===== src/Operations/Private/Complete.antt =====
-- The tree hides all that the document marks, if no fragment is spread twice.
use mathlib.Core.Path.{subst}
use mathlib.Core.Option.{some-injective}
use apollo_mcp_server.Prelude.{
  ℕ, zero, suc, ◌≤◌, ◌<◌, ◌≡◌, ◌≢◌, ◌↔◌, ◌∙◌, inl, inr, refl, sym, true, List, [], ◌∷◌, String,
  eq_iff, length, arith,
}
use apollo_mcp_server.Operations.Private.{
  PrivateFieldTree, default_tree, child_or_default, mark_private, keep_child, Selection, field,
  fragment_spread, inline_fragment, Selections, end, select, response_key, Fragments, Collected,
  collect_selection, collect_selections, collect_from_selections, collect_private_fields,
}
use apollo_mcp_server.Operations.Private.Covers.{
  hidden, covers, covers-mark_private, covers-keep_child, default_tree-covers, covers_cases,
}
use apollo_mcp_server.Operations.Private.Marked.{
  Marks, first, later, MarksOne, by_directive, in_field, in_inline, in_spread,
  collect_selections_grows, collect_from_selections_grows,
}
use apollo_mcp_server.Operations.Private.Sound.{
  collect_from_selections_sound, collect_private_fields-Marks,
}
use apollo_mcp_server.Operations.Private.Visited.{
  collect_selection_visits, collect_from_selections_visits,
}
use apollo_mcp_server.Operations.Private.Unfolding.{
  Unfolds, at_end, then_rest, UnfoldsOne, private_field, public_field, inline, unknown_spread,
  known_spread, AreFresh, visit_all, AreFresh-append, unvisited, unvisited_nil, unvisited-known,
  unvisited-visit_all,
}

mark_private_complete :
    (tree : PrivateFieldTree) (key name : String) (keys : List String)
    → key ≡ name
    → covers (mark_private tree key) (name ∷ keys) ≡ true
mark_private_complete tree key name keys same =
    ground (arith, covers-mark_private tree key (name ∷ keys), eq_iff key name)

keep_child_complete :
    (tree below : PrivateFieldTree) (key name : String) (keys : List String)
    → key ≡ name
    → covers below keys ≡ true
    → covers (keep_child tree key below) (name ∷ keys) ≡ true
keep_child_complete tree below key name keys same inside =
    ground (arith, covers-keep_child tree below key name keys, eq_iff key name)

module _ (fragments : Fragments) (expand : Selections → Collected → Collected) (bound : ℕ)
    (visits : (body : Selections) (tree : PrivateFieldTree) (visited names : List String)
      → unvisited visited fragments < bound
      → Unfolds fragments body names
      → AreFresh visited names
      → (expand body (tree, visited)).1 ≡ visit_all visited names)
    (grows : (body : Selections) (state : Collected) (keys : List String)
      → covers state.0 keys ≡ true
      → covers (expand body state).0 keys ≡ true)
    (complete : (body : Selections) (tree : PrivateFieldTree) (visited names keys : List String)
      → unvisited visited fragments < bound
      → Unfolds fragments body names
      → AreFresh visited names
      → Marks fragments body keys
      → covers (expand body (tree, visited)).0 keys ≡ true) where
  mutual
    unfolding collect_selection collect_selections

    collect_selection_complete :
        (s : Selection) (tree : PrivateFieldTree) (visited : List String) {names keys : List String}
        → unvisited visited fragments ≤ bound
        → UnfoldsOne fragments s names
        → AreFresh visited names
        → MarksOne fragments s keys
        → covers (collect_selection expand fragments s (tree, visited)).0 keys ≡ true
    collect_selection_complete (field alias name directives selections) tree visited few
          (private_field marked) fresh (by_directive has same) =
        rw marked (mark_private_complete tree _ _ _ same)
    collect_selection_complete (field alias name directives selections) tree visited few
          (private_field marked) fresh (in_field below same) =
        rw marked (mark_private_complete tree _ _ _ same)
    collect_selection_complete (field alias name directives selections) tree visited few
          (public_field public unfolds) fresh (by_directive has same) =
        absurd (cc)
    collect_selection_complete (field alias name directives end) tree visited few
          (public_field public unfolds) fresh (in_field below same) =
        elim below [ ]
    collect_selection_complete (field alias name directives (select s selections)) tree visited few
          (public_field public unfolds) fresh (in_field below same) =
        rw public (
          keep_child_complete tree _ _ _ _ same (
            collect_selections_complete (select s selections)
              (child_or_default tree (response_key alias name)) visited few unfolds fresh below))
    collect_selection_complete (inline_fragment selections) tree visited few (inline unfolds) fresh
          (in_inline marks) =
        collect_selections_complete selections tree visited few unfolds fresh marks
    collect_selection_complete (fragment_spread name) tree visited few (unknown_spread unknown)
          fresh (in_spread known marks) =
        absurd (cc)
    collect_selection_complete (fragment_spread name) tree visited {keys = keys} few
          (known_spread known unfolds) fresh (in_spread known' marks) =
        rw (fresh.0, known)
          (complete _ tree (name ∷ visited) _ keys
            (omega (arith, unvisited-known visited name _ fragments known fresh.0)) unfolds fresh.1
            (subst (λ b. Marks fragments b keys) (some-injective _ _ (sym known' ∙ known)) marks))

    pub collect_selections_complete :
        (selections : Selections) (tree : PrivateFieldTree) (visited : List String)
        {names keys : List String}
        → unvisited visited fragments ≤ bound
        → Unfolds fragments selections names
        → AreFresh visited names
        → Marks fragments selections keys
        → covers (collect_selections expand fragments selections (tree, visited)).0 keys ≡ true
    collect_selections_complete end tree visited few at_end fresh marks = elim marks [ ]
    collect_selections_complete (select s selections) tree visited few
          (then_rest here rest unfolds others split) fresh (first {keys = keys} mark) =
        let (fresh_here, fresh_rest) =
          AreFresh-append visited here rest (subst (AreFresh visited) split fresh) in
        collect_selections_grows fragments expand grows selections _ keys
          (collect_selection_complete s tree visited few unfolds fresh_here mark)
    collect_selections_complete (select s selections) tree visited few
          (then_rest here rest unfolds others split) fresh (later marks) =
        let after = collect_selection expand fragments s (tree, visited) in
        let (fresh_here, fresh_rest) =
          AreFresh-append visited here rest (subst (AreFresh visited) split fresh) in
        let seen =
          collect_selection_visits fragments expand bound visits s tree visited few unfolds
            fresh_here in
        collect_selections_complete selections after.0 after.1
          (subst (λ v. unvisited v fragments ≤ bound) (sym seen)
            (omega (arith, unvisited-visit_all visited here fragments)))
          others (subst (λ v. AreFresh v rest) (sym seen) fresh_rest) marks

collect_from_selections_complete :
    (fuel : ℕ) (fragments : Fragments) (selections : Selections) (tree : PrivateFieldTree)
    (visited names keys : List String)
    → unvisited visited fragments ≤ fuel
    → Unfolds fragments selections names
    → AreFresh visited names
    → Marks fragments selections keys
    → covers (collect_from_selections fuel fragments selections (tree, visited)).0 keys ≡ true
unfolding collect_from_selections
collect_from_selections_complete zero fragments selections tree visited names keys few unfolds fresh
      marks =
    collect_selections_complete fragments (λ body s. s) 0
      (λ body tree' visited' names' none_left. absurd (omega arith)) (λ body s names' e. e)
      (λ body tree' visited' names' keys' none_left. absurd (omega arith)) selections tree visited
      few unfolds fresh marks
collect_from_selections_complete (suc fuel) fragments selections tree visited names keys few unfolds
      fresh marks =
    collect_selections_complete fragments (collect_from_selections fuel fragments) (suc fuel)
      (λ body tree' visited' names' fewer.
        collect_from_selections_visits fuel fragments body tree' visited' names' (omega arith))
      (collect_from_selections_grows fuel fragments)
      (λ body tree' visited' names' keys' fewer.
        collect_from_selections_complete fuel fragments body tree' visited' names' keys'
          (omega arith))
      selections tree visited few unfolds fresh marks

mutual
  marks_no_root :
      {fragments : Fragments} {selections : Selections} {keys : List String}
      → Marks fragments selections keys
      → keys ≢ []
  marks_no_root (first mark) = mark_no_root mark
  marks_no_root (later marks) = marks_no_root marks

  mark_no_root :
      {fragments : Fragments} {s : Selection} {keys : List String}
      → MarksOne fragments s keys
      → keys ≢ []
  mark_no_root (by_directive has same) = λ e. cc
  mark_no_root (in_field below same) = λ e. cc
  mark_no_root (in_inline marks) = marks_no_root marks
  mark_no_root (in_spread known marks) = marks_no_root marks

-- The root is never private itself.
covers_root :
    (fragments : Fragments) (selections : Selections) (keys : List String)
    → covers
        (collect_from_selections (length fragments) fragments selections (default_tree, [])).0
        keys
      ≡ true
    → hidden (collect_private_fields selections fragments) keys ≡ true
unfolding collect_private_fields
covers_root fragments selections keys h =
    elim (covers_cases
      (collect_from_selections (length fragments) fragments selections (default_tree, [])).0 keys
      h) [
        | inl deep ↦ deep
        | inr root ↦
            elim (collect_from_selections_sound (length fragments) fragments selections
              (default_tree, []) [] root) [
                | inl before ↦ absurd (ground (arith, default_tree-covers []))
                | inr marks ↦ absurd (marks_no_root marks refl)
              ]
      ]

-- When no fragment is spread twice, a path is hidden exactly when the document marks it: on the way
-- there, through fields, inline fragments and spreads, is a field with the `@private` directive.
pub collect_private_fields-hidden :
    (fragments : Fragments) (selections : Selections) (names keys : List String)
    → Unfolds fragments selections names
    → AreFresh [] names
    → ((hidden (collect_private_fields selections fragments) keys ≡ true)
        ↔ Marks fragments selections keys)
collect_private_fields-hidden fragments selections names keys unfolds fresh = (
  collect_private_fields-Marks fragments selections keys,
  λ marks. covers_root fragments selections keys (
      collect_from_selections_complete (length fragments) fragments selections default_tree [] names
        keys (omega (arith, unvisited_nil fragments)) unfolds fresh marks),
)
