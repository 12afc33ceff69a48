-- ===== src/Operations/Private/Unfolding.antt =====
-- The spreads that a document goes through when its fragments are unfolded, and the fuel.
use apollo_mcp_server.Prelude.{
  ℕ, suc, ◌≤◌, ◌<◌, ◌≡◌, inl, inr, refl, ap, true, false, Option, none, some, List, [], ◌∷◌, ◌++◌,
  String, ◌==◌, eq_iff, contains, lookup, length, arith, Bool-cases, if◌then◌else◌,
}
use apollo_mcp_server.Operations.Private.{
  Selection, field, fragment_spread, inline_fragment, Selections, end, select,
  has_private_directive, Fragments,
}

-- The names of all spreads in their order, each followed by those in its fragment. Nothing below
-- a private field counts. A document whose fragments are cyclic has no such list.
mutual
  pub data Unfolds (fragments : Fragments) : Selections → List String → Type 0 where
    at_end : Unfolds fragments end []
    then_rest :
        {s : Selection} {selections : Selections} (here rest : List String) {names : List String}
        → UnfoldsOne fragments s here
        → Unfolds fragments selections rest
        → names ≡ here ++ rest
        → Unfolds fragments (select s selections) names

  pub data UnfoldsOne (fragments : Fragments) : Selection → List String → Type 0 where
    private_field :
        {alias : Option String} {name : String} {directives : List String} {selections : Selections}
        → has_private_directive directives ≡ true
        → UnfoldsOne fragments (field alias name directives selections) []
    public_field :
        {alias : Option String} {name : String} {directives : List String} {selections : Selections}
        {names : List String}
        → has_private_directive directives ≡ false
        → Unfolds fragments selections names
        → UnfoldsOne fragments (field alias name directives selections) names
    inline :
        {selections : Selections} {names : List String}
        → Unfolds fragments selections names
        → UnfoldsOne fragments (inline_fragment selections) names
    unknown_spread :
        {name : String}
        → lookup name fragments ≡ none
        → UnfoldsOne fragments (fragment_spread name) (name ∷ [])
    known_spread :
        {name : String} {body : Selections} {names : List String}
        → lookup name fragments ≡ some body
        → Unfolds fragments body names
        → UnfoldsOne fragments (fragment_spread name) (name ∷ names)

-- No name was visited before, or comes twice.
abbrev pub AreFresh : List String → List String → Type 0
AreFresh visited [] = Unit
AreFresh visited (name ∷ names) = (contains visited name ≡ false) × AreFresh (name ∷ visited) names

-- What is visited in the end.
abbrev pub visit_all : List String → List String → List String
visit_all visited [] = visited
visit_all visited (name ∷ names) = visit_all (name ∷ visited) names

pub AreFresh-append :
    (visited here rest : List String)
    → AreFresh visited (here ++ rest)
    → AreFresh visited here × AreFresh (visit_all visited here) rest
AreFresh-append visited [] rest h = (tt, h)
AreFresh-append visited (name ∷ here) rest h =
    let (left, right) = AreFresh-append (name ∷ visited) here rest h.1 in ((h.0, left), right)

pub visit_all-append :
    (visited here rest : List String)
    → visit_all visited (here ++ rest) ≡ visit_all (visit_all visited here) rest
visit_all-append visited [] rest = refl
visit_all-append visited (name ∷ here) rest = visit_all-append (name ∷ visited) here rest

-- How many fragments were not visited yet: a bound on the fragments that can still be opened.
pub unvisited : List String → Fragments → ℕ
unvisited visited [] = 0
unvisited visited ((name, body) ∷ fragments) =
    let others = unvisited visited fragments in if contains visited name then others else suc others

pub unvisited_nil : (fragments : Fragments) → unvisited [] fragments ≡ length fragments
unfolding unvisited
unvisited_nil [] = refl
unvisited_nil ((name, body) ∷ fragments) = omega (arith, unvisited_nil fragments)

pub unvisited-cons :
    (visited : List String) (name : String) (fragments : Fragments)
    → unvisited (name ∷ visited) fragments ≤ unvisited visited fragments
unfolding unvisited
unvisited-cons visited name [] = omega arith
unvisited-cons visited name ((other, body) ∷ fragments) =
    ground (arith, unvisited-cons visited name fragments)

pub unvisited-known :
    (visited : List String) (name : String) (body : Selections) (fragments : Fragments)
    → lookup name fragments ≡ some body
    → contains visited name ≡ false
    → unvisited (name ∷ visited) fragments < unvisited visited fragments
unfolding unvisited lookup
unvisited-known visited name body [] h fresh = absurd (ground arith)
unvisited-known visited name body ((other, first) ∷ fragments) h fresh =
    elim (Bool-cases (other == name)) [
      | inl same ↦ ground (
        arith,
        eq_iff other name,
        eq_iff name other,
        unvisited-cons visited name fragments,
        ap (contains visited) ((eq_iff other name).0 same),
      )
      | inr different ↦
          ground (
            arith,
            eq_iff name other,
            eq_iff other name,
            unvisited-known visited name body fragments,
          )
    ]

pub unvisited-visit_all :
    (visited names : List String) (fragments : Fragments)
    → unvisited (visit_all visited names) fragments ≤ unvisited visited fragments
unvisited-visit_all visited [] fragments = omega arith
unvisited-visit_all visited (name ∷ names) fragments = omega (
  arith,
  unvisited-visit_all (name ∷ visited) names fragments,
  unvisited-cons visited name fragments,
)
