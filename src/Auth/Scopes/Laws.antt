-- ===== src/Auth/Scopes/Laws.antt =====
-- Laws of the scope requirements of auth.rs and scope_requirements.rs.
use apollo_mcp_server.Prelude.{
  ◌≡◌, ◌≢◌, ◌↔◌, inl, inr, refl, Bool, true, false, none, some, List, [], ◌∷◌, String, ok, is_empty,
  all, any, All, Any, all_iff, any_iff, All-map, Any-map, contains, IsIn, contains_iff, Bool-cases,
  arith, eq_iff, lookup,
}
use apollo_mcp_server.Auth.Scopes.{
  ScopeMode, disabled, require_all, require_any, mode_is_satisfied_by, OperationRequiredScopes, new,
  is_satisfied_by, challenge_scopes, from_flat, OperationRequiredScopesDefinition, deserialize,
}

-- Every scope of the group is among those present.
abbrev pub Covers : List String → List String → Type 0
Covers present group = All (λ req. IsIn req present) group

-- A group that the present scopes cover.
abbrev pub CoversSome : List (List String) → List String → Type 0
CoversSome groups present = Any (Covers present) groups

pub Covers-iff :
    (present group : List String)
    → (all (λ req. contains present req) group ≡ true) ↔ Covers present group
Covers-iff present group =
    all_iff (λ req. contains present req) (λ req. IsIn req present) (contains_iff present) group

-- A requirement is satisfied exactly when the token covers one of its groups.
pub is_satisfied_by_iff :
    (r : OperationRequiredScopes) (present : List String)
    → (is_satisfied_by r present ≡ true) ↔ CoversSome r.groups present
unfolding is_satisfied_by
is_satisfied_by_iff r present =
    any_iff (λ group. all (λ req. contains present req) group) (Covers present) (Covers-iff present)
      r.groups

-- Groups that no parsed requirement may have.
abbrev pub IsNonEmpty {ℓ} : {A : Type ℓ} → List A → Type 0
IsNonEmpty xs = is_empty xs ≡ false

not_any_empty : (groups : List (List String)) → any is_empty groups ≡ false → All IsNonEmpty groups
not_any_empty [] h = tt
not_any_empty (g ∷ gs) h = (ground arith, not_any_empty gs (ground arith))

pub new-groups :
    (groups : List (List String)) (r : OperationRequiredScopes)
    → new groups ≡ ok r
    → (r.groups ≡ groups) × IsNonEmpty groups × All IsNonEmpty groups
unfolding new
new-groups [] r h = absurd (ground arith)
new-groups (g ∷ gs) r h = elim (Bool-cases (any is_empty (g ∷ gs))) [
  | inl bad ↦ absurd (ground arith)
  | inr good ↦ (ground arith, refl, not_any_empty (g ∷ gs) good)
]

self-Covers : (group : List String) → Covers group group
self-Covers group = covers_self group group (λ req h. h)
  where
    covers_self :
        (present g : List String)
        → ((req : String) → IsIn req g → IsIn req present)
        → Covers present g
    covers_self present [] h = tt
    covers_self present (x ∷ xs) h =
        (h x (inl refl), covers_self present xs (λ req k. h req (inr k)))

no_scopes_cover : (group : List String) → IsNonEmpty group → ¬ (Covers [] group)
no_scopes_cover [] h c = absurd (ground arith)
no_scopes_cover (x ∷ xs) h c = c.0

no_scopes_cover_some :
    (groups : List (List String)) → All IsNonEmpty groups → ¬ (CoversSome groups [])
no_scopes_cover_some [] h c = c
no_scopes_cover_some (g ∷ gs) h (inl here) = no_scopes_cover g h.0 here
no_scopes_cover_some (g ∷ gs) h (inr rest) = no_scopes_cover_some gs h.1 rest

new-is_satisfied_by_nil :
    (groups : List (List String)) (r : OperationRequiredScopes)
    → new groups ≡ ok r
    → is_satisfied_by r [] ≡ false
new-is_satisfied_by_nil groups r h = elim (Bool-cases (is_satisfied_by r [])) [
  | inl yes_it_is ↦
      let (same, some_group, full) = new-groups groups r h in
      absurd
        (no_scopes_cover_some groups full (rw same at ((is_satisfied_by_iff r []).0 yes_it_is)))
  | inr is_not ↦ is_not
]

-- No requirement that the configuration parser accepts is satisfied by a token without scopes.
pub deserialize-is_satisfied_by_nil :
    (definition : OperationRequiredScopesDefinition) (r : OperationRequiredScopes)
    → deserialize definition ≡ ok r
    → is_satisfied_by r [] ≡ false
unfolding deserialize
deserialize-is_satisfied_by_nil definition r h = new-is_satisfied_by_nil _ r h

groups_challenge :
    (r : OperationRequiredScopes) (groups : List (List String))
    → r.groups ≡ groups
    → IsNonEmpty groups
    → All IsNonEmpty groups
    → (is_satisfied_by r (challenge_scopes r) ≡ true) × IsNonEmpty (challenge_scopes r)
unfolding challenge_scopes
groups_challenge r [] e h k = absurd (ground arith)
groups_challenge r (g ∷ gs) e h k =
    ((is_satisfied_by_iff r _).1 (rw e (inl (self-Covers g))), rw e k.0)

-- A token with exactly the advertised challenge scopes satisfies the requirement that advertises
-- them, and the challenge names at least one scope.
pub deserialize-challenge_scopes :
    (definition : OperationRequiredScopesDefinition) (r : OperationRequiredScopes)
    → deserialize definition ≡ ok r
    → (is_satisfied_by r (challenge_scopes r) ≡ true) × IsNonEmpty (challenge_scopes r)
unfolding deserialize
deserialize-challenge_scopes definition r h =
    let (same, some_group, full) = new-groups _ r h in groups_challenge r _ same some_group full

-- A map that holds one value for each key, as a `HashMap` does.
abbrev pub HasDistinctKeys {ℓ} : {V : Type ℓ} → List (String × V) → Type 0
HasDistinctKeys [] = Unit
HasDistinctKeys ((k, v) ∷ m) = All (λ e. e.0 ≢ k) m × HasDistinctKeys m

lookup_fresh {ℓ} :
    {V : Type ℓ} (k : String) (m : List (String × V)) → All (λ e. e.0 ≢ k) m → lookup k m ≡ none
unfolding lookup
lookup_fresh k [] h = refl
lookup_fresh k ((j, v) ∷ m) h = ground (arith, eq_iff j k, lookup_fresh k m h.1)

-- What the flat configuration asks of a call of `operation`: all of its scopes.
abbrev pub flat_allows : List (String × List String) → String → List String → Bool
flat_allows m operation present = elim (lookup operation m) [
  | none ↦ true
  | some scopes ↦ all (λ req. contains present req) scopes
]

-- What a parsed map asks of a call of `operation`.
abbrev pub gate : List (String × OperationRequiredScopes) → String → List String → Bool
gate m operation present = elim (lookup operation m) [
  | none ↦ true
  | some required ↦ is_satisfied_by required present
]

single_group :
    (group present : List String)
    → is_satisfied_by (record { groups = group ∷ [] }) present
      ≡ all (λ req. contains present req) group
unfolding is_satisfied_by
single_group group present = ground arith

-- A map of distinct flat scope lists converts without a panic, and the result asks of each
-- operation all the scopes that its list holds, and nothing of an operation with an empty list or
-- with none.
pub from_flat_lem :
    (m : List (String × List String))
    → HasDistinctKeys m
    → (out : List (String × OperationRequiredScopes)) × (from_flat m ≡ some out)
      × ((operation : String) (present : List String)
          → gate out operation present ≡ flat_allows m operation present)
unfolding from_flat new lookup
from_flat_lem [] h = ([], refl, λ operation present. refl)
from_flat_lem ((k, []) ∷ m) h =
    let (rest, converted, same) = from_flat_lem m h.1 in
    (
      rest,
      converted,
      λ operation present.
          ground (arith, same operation present, eq_iff k operation, lookup_fresh k m h.0),
    )
from_flat_lem ((k, x ∷ xs) ∷ m) h =
    let (rest, converted, same) = from_flat_lem m h.1 in
    (
      (k, record { groups = (x ∷ xs) ∷ [] }) ∷ rest,
      rw (converted, from_flat) refl,
      λ operation present. ground (arith, same operation present, single_group (x ∷ xs) present),
    )

-- `required` asks for no scope that is not present.
abbrev pub ModeHolds : ScopeMode → List String → List String → Type 0
ModeHolds disabled required present = Unit
ModeHolds require_all required present = Covers present required
ModeHolds require_any required present = Any (λ req. IsIn req present) required

pub mode_is_satisfied_by_iff :
    (mode : ScopeMode) (required present : List String)
    → (mode_is_satisfied_by mode required present ≡ true) ↔ ModeHolds mode required present
unfolding mode_is_satisfied_by
mode_is_satisfied_by_iff disabled required present = (λ _. tt, λ _. refl)
mode_is_satisfied_by_iff require_all required present = Covers-iff present required
mode_is_satisfied_by_iff require_any required present =
    any_iff (λ req. contains present req) (λ req. IsIn req present) (contains_iff present) required

-- Every scope of the first list is in the second.
abbrev pub Grants : List String → List String → Type 0
Grants few many = (req : String) → IsIn req few → IsIn req many

-- A token with more scopes keeps whatever a token with fewer scopes may do, under each global mode
-- and for each per-operation requirement.
pub more_scopes :
    (few many : List String)
    → Grants few many
    → ((mode : ScopeMode) (required : List String)
        → mode_is_satisfied_by mode required few ≡ true
        → mode_is_satisfied_by mode required many ≡ true)
      × ((r : OperationRequiredScopes)
          → is_satisfied_by r few ≡ true
          → is_satisfied_by r many ≡ true)
more_scopes few many grants = (
  λ mode required h.
      (mode_is_satisfied_by_iff mode required many).1
        (keep mode required ((mode_is_satisfied_by_iff mode required few).0 h)),
  λ r h.
      (is_satisfied_by_iff r many).1
        (Any-map (λ group. All-map grants group) r.groups ((is_satisfied_by_iff r few).0 h)),
)
  where
    keep :
        (mode : ScopeMode) (required : List String)
        → ModeHolds mode required few
        → ModeHolds mode required many
    keep disabled required h = tt
    keep require_all required h = All-map grants required h
    keep require_any required h = Any-map grants required h
