-- ===== src/Operations/Private/Visited.antt =====
-- What holds of the set of visited fragments throughout, and that they stay visited.
use mathlib.Core.Path.{subst}
use apollo_mcp_server.Prelude.{
  ℕ, zero, suc, ◌≤◌, ◌<◌, ◌≡◌, ◌∙◌, inl, inr, refl, ap, sym, List, ◌∷◌, String, contains, lookup,
  arith, Bool-cases, Option-cases,
}
use apollo_mcp_server.Operations.Private.{
  PrivateFieldTree, child_or_default, Selection, field, fragment_spread, inline_fragment,
  Selections, end, select, response_key, has_private_directive, no_selections, Fragments, Collected,
  collect_selection, collect_selections, collect_from_selections,
}
use apollo_mcp_server.Operations.Private.Unfolding.{
  Unfolds, at_end, then_rest, UnfoldsOne, private_field, public_field, inline, unknown_spread,
  known_spread, AreFresh, visit_all, AreFresh-append, visit_all-append, unvisited, unvisited-known,
  unvisited-visit_all,
}

-- A property of the set that one more fragment does not break.
module _ (fragments : Fragments) (P : List String → Type 0)
    (one_more : (name : String) (visited : List String) → P visited → P (name ∷ visited)) where
  module _ (expand : Selections → Collected → Collected)
      (keeps : (body : Selections) (state : Collected) → P state.1 → P (expand body state).1) where
    mutual
      unfolding collect_selection collect_selections

      pub collect_selection_keeps :
          (s : Selection) (state : Collected)
          → P state.1
          → P (collect_selection expand fragments s state).1
      collect_selection_keeps (field alias name directives selections) (tree, visited) h =
          elim (Bool-cases (has_private_directive directives)) [
            | inl marked ↦ rw marked h
            | inr public ↦ rw public (elim (Bool-cases (no_selections selections)) [
              | inl none_below ↦ rw none_below h
              | inr below ↦ rw below (
                  collect_selections_keeps selections
                    (child_or_default tree (response_key alias name), visited) h)
            ])
          ]
      collect_selection_keeps (fragment_spread name) (tree, visited) h =
          elim (Bool-cases (contains visited name)) [
            | inl again ↦ rw again h
            | inr fresh ↦ rw fresh (elim (Option-cases (lookup name fragments)) [
              | inl unknown ↦ rw unknown (one_more name visited h)
              | inr (body, known) ↦
                  rw known (keeps body (tree, name ∷ visited) (one_more name visited h))
            ])
          ]
      collect_selection_keeps (inline_fragment selections) state h =
          collect_selections_keeps selections state h

      pub collect_selections_keeps :
          (selections : Selections) (state : Collected)
          → P state.1
          → P (collect_selections expand fragments selections state).1
      collect_selections_keeps end state h = h
      collect_selections_keeps (select s selections) state h =
          collect_selections_keeps selections (collect_selection expand fragments s state)
            (collect_selection_keeps s state h)

  pub collect_from_selections_keeps :
      (fuel : ℕ) (selections : Selections) (state : Collected)
      → P state.1
      → P (collect_from_selections fuel fragments selections state).1
  unfolding collect_from_selections
  collect_from_selections_keeps zero selections state h =
      collect_selections_keeps (λ body s. s) (λ body s k. k) selections state h
  collect_from_selections_keeps (suc fuel) selections state h =
      collect_selections_keeps (collect_from_selections fuel fragments)
        (collect_from_selections_keeps fuel) selections state h

-- The set of visited fragments in the end, for an expansion that is right below a bound.
module _ (fragments : Fragments) (expand : Selections → Collected → Collected) (bound : ℕ)
    (visits : (body : Selections) (tree : PrivateFieldTree) (visited names : List String)
      → unvisited visited fragments < bound
      → Unfolds fragments body names
      → AreFresh visited names
      → (expand body (tree, visited)).1 ≡ visit_all visited names) where
  mutual
    unfolding collect_selection collect_selections

    pub collect_selection_visits :
        (s : Selection) (tree : PrivateFieldTree) (visited : List String) {names : List String}
        → unvisited visited fragments ≤ bound
        → UnfoldsOne fragments s names
        → AreFresh visited names
        → (collect_selection expand fragments s (tree, visited)).1 ≡ visit_all visited names
    collect_selection_visits (field alias name directives selections) tree visited few
          (private_field marked) fresh =
        rw marked
    collect_selection_visits (field alias name directives end) tree visited few
          (public_field public at_end) fresh =
        rw public
    collect_selection_visits (field alias name directives (select s selections)) tree visited few
          (public_field public unfolds) fresh =
        rw public (
          collect_selections_visits (select s selections)
            (child_or_default tree (response_key alias name)) visited few unfolds fresh)
    collect_selection_visits (inline_fragment selections) tree visited few (inline unfolds) fresh =
        collect_selections_visits selections tree visited few unfolds fresh
    collect_selection_visits (fragment_spread name) tree visited few (unknown_spread unknown)
          fresh =
        rw (fresh.0, unknown)
    collect_selection_visits (fragment_spread name) tree visited few
          (known_spread {body = body} {names = names} known unfolds) fresh =
        rw (fresh.0, known)
          (visits body tree (name ∷ visited) names
            (omega (arith, unvisited-known visited name body fragments known fresh.0)) unfolds
            fresh.1)

    pub collect_selections_visits :
        (selections : Selections) (tree : PrivateFieldTree) (visited : List String)
        {names : List String}
        → unvisited visited fragments ≤ bound
        → Unfolds fragments selections names
        → AreFresh visited names
        → (collect_selections expand fragments selections (tree, visited)).1
          ≡ visit_all visited names
    collect_selections_visits end tree visited few at_end fresh = refl
    collect_selections_visits (select s selections) tree visited few
          (then_rest here rest unfolds others split) fresh =
        let after = collect_selection expand fragments s (tree, visited) in
        let (fresh_here, fresh_rest) =
          AreFresh-append visited here rest (subst (AreFresh visited) split fresh) in
        let seen = collect_selection_visits s tree visited few unfolds fresh_here in
        collect_selections_visits selections after.0 after.1
          (subst (λ v. unvisited v fragments ≤ bound) (sym seen)
            (omega (arith, unvisited-visit_all visited here fragments)))
          others (subst (λ v. AreFresh v rest) (sym seen) fresh_rest)
        ∙ ap (λ v. visit_all v rest) seen
        ∙ sym (visit_all-append visited here rest)
        ∙ ap (visit_all visited) (sym split)

pub collect_from_selections_visits :
    (fuel : ℕ) (fragments : Fragments) (selections : Selections) (tree : PrivateFieldTree)
    (visited names : List String)
    → unvisited visited fragments ≤ fuel
    → Unfolds fragments selections names
    → AreFresh visited names
    → (collect_from_selections fuel fragments selections (tree, visited)).1
      ≡ visit_all visited names
unfolding collect_from_selections
collect_from_selections_visits zero fragments selections tree visited names few unfolds fresh =
    collect_selections_visits fragments (λ body s. s) 0
      (λ body tree' visited' names' none_left. absurd (omega arith)) selections tree visited few
      unfolds fresh
collect_from_selections_visits (suc fuel) fragments selections tree visited names few unfolds
      fresh =
    collect_selections_visits fragments (collect_from_selections fuel fragments) (suc fuel)
      (λ body tree' visited' names' fewer.
        collect_from_selections_visits fuel fragments body tree' visited' names' (omega arith))
      selections tree visited few unfolds fresh
