-- ===== src/Auth/Scopes.antt =====
-- Scope requirements: `ScopeMode` of auth.rs and `OperationRequiredScopes` of
-- scope_requirements.rs.
pub mod Laws
mod Tests
use apollo_mcp_server.Prelude.{
  Bool, true, Option, none, some, List, [], ◌∷◌, String, Result, ok, err, is_empty, all, any,
  contains, if◌then◌else◌,
}

pub data ScopeMode : Type 0 where
  disabled require_all require_any : ScopeMode

unfoldable pub mode_is_satisfied_by : ScopeMode → List String → List String → Bool
mode_is_satisfied_by disabled required present = true
mode_is_satisfied_by require_all required present = all (λ req. contains present req) required
mode_is_satisfied_by require_any required present = any (λ req. contains present req) required

unfoldable pub as_str : ScopeMode → String
as_str disabled = "disabled"
as_str require_all = "require_all"
as_str require_any = "require_any"

-- The outer list is OR, each inner list is AND.
pub record OperationRequiredScopes : Type 0 where
  pub groups : List (List String)

pub data InvalidScopeRequirement : Type 0 where
  no_groups empty_group : InvalidScopeRequirement

unfoldable pub new : List (List String) → Result OperationRequiredScopes InvalidScopeRequirement
new groups =
    if is_empty groups
    then err no_groups
    else if any is_empty groups
    then err empty_group
    else ok (record { groups = groups })

unfoldable pub is_satisfied_by : OperationRequiredScopes → List String → Bool
is_satisfied_by r present = any (λ group. all (λ req. contains present req) group) r.groups

-- `first().map_or(&[], ..)`
first_group : List (List String) → List String
first_group [] = []
first_group (group ∷ groups) = group

unfoldable pub challenge_scopes : OperationRequiredScopes → List String
unfolding first_group
challenge_scopes r = first_group r.groups

-- The wire shape of a requirement: a flat list, or a list of lists.
pub data OperationRequiredScopesDefinition : Type 0 where
  all_of : List String → OperationRequiredScopesDefinition
  any_of : List (List String) → OperationRequiredScopesDefinition

groups_of : OperationRequiredScopesDefinition → List (List String)
groups_of (all_of scopes) = scopes ∷ []
groups_of (any_of alternatives) = alternatives

-- The parser of the wire shape is serde's; this is what `deserialize` does with its result.
unfoldable pub deserialize :
    OperationRequiredScopesDefinition → Result OperationRequiredScopes InvalidScopeRequirement
unfolding groups_of
deserialize definition = new (groups_of definition)

-- One entry of `From<HashMap<String, Vec<String>>>`, where `none` is the panic of `expect`.
flat_entry :
    String
    → Result OperationRequiredScopes InvalidScopeRequirement
    → List (String × OperationRequiredScopes)
    → Option (List (String × OperationRequiredScopes))
flat_entry operation (ok required) rest = some ((operation, required) ∷ rest)
flat_entry operation (err e) rest = none

unfoldable pub from_flat :
    List (String × List String) → Option (List (String × OperationRequiredScopes))
unfolding flat_entry
from_flat [] = some []
from_flat ((operation, scopes) ∷ m) =
    let collected = from_flat m in
    if is_empty scopes
    then collected
    else elim collected [ none ↦ none | some rest ↦ flat_entry operation (new (scopes ∷ [])) rest ]
