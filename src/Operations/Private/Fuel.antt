-- ===== src/Operations/Private/Fuel.antt =====
-- Collecting ends on every document, also where fragments spread each other in a circle.
use Prim.Native.Nat.add
use apollo_mcp_server.Prelude.{
  ℕ, zero, suc, ◌+◌, ◌-◌, ◌≤◌, ◌<◌, ◌≡◌, ◌∙◌, inl, inr, refl, ap, [], ◌∷◌, contains, lookup, length,
  arith, Bool-cases, Option-cases,
}
use apollo_mcp_server.Operations.Private.{
  child_or_default, Selection, field, fragment_spread, inline_fragment, Selections, end, select,
  response_key, Fragments, Collected, collect_selection, collect_selections,
  collect_from_selections, collect_private_fields, default_tree,
}
use apollo_mcp_server.Operations.Private.Visited.{
  collect_selection_keeps, collect_from_selections_keeps,
}
use apollo_mcp_server.Operations.Private.Unfolding.{
  unvisited, unvisited_nil, unvisited-known, unvisited-cons,
}

-- Two expansions that agree below the bound are not told apart.
module _ (fragments : Fragments) (expand expand' : Selections → Collected → Collected) (bound : ℕ)
    (shrinks : (body : Selections) (state : Collected)
      → unvisited (expand' body state).1 fragments ≤ unvisited state.1 fragments)
    (agree : (body : Selections) (state : Collected)
      → unvisited state.1 fragments < bound
      → expand body state ≡ expand' body state) where
  mutual
    unfolding collect_selection collect_selections

    collect_selection_agree :
        (s : Selection) (state : Collected)
        → unvisited state.1 fragments ≤ bound
        → collect_selection expand fragments s state ≡ collect_selection expand' fragments s state
    collect_selection_agree (field alias name directives selections) (tree, visited) few = rw (
        collect_selections_agree selections
          (child_or_default tree (response_key alias name), visited) few)
    collect_selection_agree (fragment_spread name) (tree, visited) few =
        elim (Bool-cases (contains visited name)) [
          | inl again ↦ rw again
          | inr fresh ↦ rw fresh (elim (Option-cases (lookup name fragments)) [
            | inl unknown ↦ rw unknown
            | inr (body, known) ↦ rw known (
                agree body (tree, name ∷ visited)
                  (omega (arith, unvisited-known visited name body fragments known fresh)))
          ])
        ]
    collect_selection_agree (inline_fragment selections) state few =
        collect_selections_agree selections state few

    pub collect_selections_agree :
        (selections : Selections) (state : Collected)
        → unvisited state.1 fragments ≤ bound
        → collect_selections expand fragments selections state
          ≡ collect_selections expand' fragments selections state
    collect_selections_agree end state few = refl
    collect_selections_agree (select s selections) state few =
        rw (collect_selection_agree s state few) (
          collect_selections_agree selections (collect_selection expand' fragments s state) (
            collect_selection_keeps fragments (λ visited. unvisited visited fragments ≤ bound)
              (λ name visited fewer. omega (arith, unvisited-cons visited name fragments)) expand'
              (λ body after fewer. omega (arith, shrinks body after)) s state few))

-- The fragments that can still be opened do not become more.
shrinks_from :
    (fuel : ℕ) (fragments : Fragments) (selections : Selections) (state : Collected)
    → unvisited (collect_from_selections fuel fragments selections state).1 fragments
      ≤ unvisited state.1 fragments
shrinks_from fuel fragments selections state =
    collect_from_selections_keeps fragments
      (λ visited. unvisited visited fragments ≤ unvisited state.1 fragments)
      (λ name visited fewer. omega (arith, unvisited-cons visited name fragments)) fuel selections
      state (omega arith)

one_more :
    (fuel : ℕ) (fragments : Fragments) (selections : Selections) (state : Collected)
    → unvisited state.1 fragments ≤ fuel
    → collect_from_selections (suc fuel) fragments selections state
      ≡ collect_from_selections fuel fragments selections state
unfolding collect_from_selections
one_more zero fragments selections state few =
    collect_selections_agree fragments (collect_from_selections 0 fragments) (λ body s. s) 0
      (λ body s. omega arith) (λ body s fewer. absurd (omega arith)) selections state few
one_more (suc fuel) fragments selections state few =
    collect_selections_agree fragments (collect_from_selections (suc fuel) fragments)
      (collect_from_selections fuel fragments) (suc fuel) (shrinks_from fuel fragments)
      (λ body s fewer. one_more fuel fragments body s (omega arith)) selections state few

many_more :
    (more fuel : ℕ) (fragments : Fragments) (selections : Selections) (state : Collected)
    → unvisited state.1 fragments ≤ fuel
    → collect_from_selections (more + fuel) fragments selections state
      ≡ collect_from_selections fuel fragments selections state
many_more zero fuel fragments selections state few =
    ap (λ (n : ℕ). collect_from_selections n fragments selections state) (add.zero fuel)
many_more (suc more) fuel fragments selections state few =
    ap (λ (n : ℕ). collect_from_selections n fragments selections state) (add.suc more fuel)
    ∙ one_more (more + fuel) fragments selections state (omega arith)
    ∙ many_more more fuel fragments selections state few

-- Collecting the private fields ends on every document, also if its fragments spread each other in a
-- circle: no more fragments are ever open at once than there are, so more rounds change nothing.
pub collect_private_fields-rounds :
    (rounds : ℕ) (fragments : Fragments) (selections : Selections)
    → length fragments ≤ rounds
    → (collect_from_selections rounds fragments selections (default_tree, [])).0
      ≡ collect_private_fields selections fragments
unfolding collect_private_fields
collect_private_fields-rounds rounds fragments selections enough =
    let count = length fragments in
    let rest : rounds ≡ (rounds - count) + count = omega arith in
    ap (λ (n : ℕ). (collect_from_selections n fragments selections (default_tree, [])).0) rest
    ∙ ap (λ (c : Collected). c.0)
        (many_more (rounds - count) count fragments selections (default_tree, [])
          (omega (arith, unvisited_nil fragments)))
