-- ===== src/Auth/Scopes/Tests.antt =====
-- Tests of the scope requirements, and the laws at concrete inputs.
use apollo_mcp_server.Prelude.{
  ◌≡◌, refl, true, false, some, List, [], ◌∷◌, String, ok, err, inr, ◌≢◌, arith, eq_iff,
}
use apollo_mcp_server.Auth.Scopes.{
  ScopeMode, require_all, require_any, mode_is_satisfied_by, OperationRequiredScopes, new,
  no_groups, empty_group, is_satisfied_by, challenge_scopes, from_flat, all_of, any_of, deserialize,
}
use apollo_mcp_server.Auth.Scopes.Laws.{
  deserialize-challenge_scopes, from_flat_lem, more_scopes, gate, flat_allows, IsNonEmpty,
}

abbrev read_or_admin : OperationRequiredScopes
read_or_admin = record { groups = ("user:read" ∷ []) ∷ ("admin" ∷ "audit" ∷ []) ∷ [] }

parses :
    deserialize (any_of (("user:read" ∷ []) ∷ ("admin" ∷ "audit" ∷ []) ∷ [])) ≡ ok read_or_admin
unfolding deserialize new
parses = refl

rejects :
    (deserialize (any_of []) ≡ err no_groups)
    × (deserialize (all_of []) ≡ err empty_group)
    × (deserialize (any_of (("a" ∷ []) ∷ [] ∷ [])) ≡ err empty_group)
unfolding deserialize new
rejects = (refl, refl, refl)

satisfied :
    (is_satisfied_by read_or_admin ("audit" ∷ "admin" ∷ []) ≡ true)
    × (is_satisfied_by read_or_admin ("admin" ∷ []) ≡ false)
    × (mode_is_satisfied_by require_any ("a" ∷ "b" ∷ []) ("b" ∷ []) ≡ true)
    × (mode_is_satisfied_by require_all ("a" ∷ "b" ∷ []) ("b" ∷ []) ≡ false)
unfolding is_satisfied_by mode_is_satisfied_by
satisfied = (refl, refl, refl, refl)

deserialize-challenge_scopes_example :
    (is_satisfied_by read_or_admin (challenge_scopes read_or_admin) ≡ true)
    × IsNonEmpty (challenge_scopes read_or_admin)
deserialize-challenge_scopes_example =
    deserialize-challenge_scopes (any_of (("user:read" ∷ []) ∷ ("admin" ∷ "audit" ∷ []) ∷ []))
      read_or_admin parses

abbrev flat : List (String × List String)
flat = ("DeleteUser", "user:write" ∷ "admin" ∷ []) ∷ ("Open", []) ∷ []

different : ◌≢◌ {A = String} "Open" "DeleteUser"
different = ground (arith, eq_iff "Open" "DeleteUser")

from_flat_lem_example :
    (out : List (String × OperationRequiredScopes)) × (from_flat flat ≡ some out)
    × ((operation : String) (present : List String)
        → gate out operation present ≡ flat_allows flat operation present)
from_flat_lem_example = from_flat_lem flat ((different, tt), (tt, tt))

more_scopes_example :
    ((mode : ScopeMode) (required : List String)
      → mode_is_satisfied_by mode required ("a" ∷ []) ≡ true
      → mode_is_satisfied_by mode required ("b" ∷ "a" ∷ []) ≡ true)
    × ((r : OperationRequiredScopes)
        → is_satisfied_by r ("a" ∷ []) ≡ true
        → is_satisfied_by r ("b" ∷ "a" ∷ []) ≡ true)
more_scopes_example = more_scopes ("a" ∷ []) ("b" ∷ "a" ∷ []) (λ req h. inr h)
