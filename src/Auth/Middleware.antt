-- ===== src/Auth/Middleware.antt =====
-- The middleware `oauth_validate` of crates/apollo-mcp-server/src/auth.rs, in the order of its
-- early returns. The handler behind it (`next.run`) is the constructor `forward`.
pub mod Access
pub mod Stages
pub mod Safety
pub mod Anonymous
pub mod Refusals
pub mod ToolCalls
mod Tests
use apollo_mcp_server.Prelude.{
  ℕ, Bool, true, false, not, ◌&&◌, ◌||◌, Option, none, some, List, [], ◌∷◌, String, Result, ok, err,
  is_empty, is_none, is_some, lookup, ◌==◌, if◌then◌else◌,
}
use apollo_mcp_server.Auth.Scopes.{
  ScopeMode, require_all, mode_is_satisfied_by, OperationRequiredScopes, is_satisfied_by,
  challenge_scopes,
}
use apollo_mcp_server.Auth.Token.{Jwk, ValidToken, Jwt, TokenValidator, validate}
use apollo_mcp_server.Auth.Token.Words.{join}
use apollo_mcp_server.Auth.Config.{AuthState}
use apollo_mcp_server.Auth.SkipLists.{
  Request, is_get, is_post, JsonRpcPeek, Wire, tool_call_method, SkipTokenValidation, needs_body,
  matches_headers, peeked_name, matches_peek, from_headers, standard_headers_enforced,
  uses_stateless_protocol, app_param_from_query, extract_body,
}

pub data BearerError : Type 0 where
  insufficient_scope : BearerError

-- `WwwAuthenticate::Bearer`
pub record WwwAuthenticate (Url : Type 0) : Type 0 where
  pub resource_metadata : Url
  pub scope : Option String
  pub error : Option BearerError
  pub scope_mode : Option ScopeMode

-- A request that goes on, with the token that is put into its extensions; a plain status; or an error
-- with its challenge.
pub data Outcome (Url : Type 0) : Type 0 where
  forward : Request → Option ValidToken → Outcome Url
  respond : ℕ → Outcome Url
  challenge : ℕ → WwwAuthenticate Url → Outcome Url

-- The requirement of a named tool that the token's scopes do not satisfy.
unsatisfied : Option OperationRequiredScopes → List String → Option OperationRequiredScopes
unsatisfied none token_scopes = none
unsatisfied (some required) token_scopes =
    if is_satisfied_by required token_scopes then none else some required

requirement_of :
    Option String → List (String × OperationRequiredScopes) → Option OperationRequiredScopes
requirement_of none required_scopes = none
requirement_of (some op_name) required_scopes = lookup op_name required_scopes

unfoldable pub missing_scopes_for_operation :
    JsonRpcPeek
    → List (String × OperationRequiredScopes)
    → List String
    → Option OperationRequiredScopes
unfolding unsatisfied requirement_of
missing_scopes_for_operation peek required_scopes token_scopes =
    if not (peek.method == tool_call_method)
    then none
    else unsatisfied (requirement_of (peeked_name peek) required_scopes) token_scopes

-- `header_peek.or(body_peek)`
abbrev pub or_else : Option JsonRpcPeek → Option JsonRpcPeek → Option JsonRpcPeek
or_else none second = second
or_else (some peek) second = some peek

module _ {Url : Type 0} (auth_state : AuthState Url) where
  unfoldable pub unauthorized : Outcome Url
  unauthorized = challenge 401 (record {
    resource_metadata = auth_state.resource_metadata_url;
    scope =
        if is_empty auth_state.config.scopes then none else some (join auth_state.config.scopes);
    error = none;
    scope_mode = some auth_state.config.scope_mode;
  })

  unfoldable pub forbidden : List String → ScopeMode → Outcome Url
  forbidden required_scopes mode = challenge 403 (record {
    resource_metadata = auth_state.resource_metadata_url;
    scope = some (join required_scopes);
    error = some insufficient_scope;
    scope_mode = some mode;
  })

  unfoldable pub missing_in : Option JsonRpcPeek → List String → Option OperationRequiredScopes
  missing_in none token_scopes = none
  missing_in (some peek) token_scopes =
      missing_scopes_for_operation peek auth_state.required_scopes token_scopes

  -- The scope checks of a validated token.
  unfoldable pub check_scopes : Request → Option JsonRpcPeek → ValidToken → Outcome Url
  unfolding missing_in
  check_scopes request peek valid_token =
      if not (is_empty auth_state.config.scopes)
        && not (
            mode_is_satisfied_by auth_state.config.scope_mode auth_state.config.scopes
              valid_token.scopes)
      then forbidden auth_state.config.scopes auth_state.config.scope_mode
      else elim (missing_in peek valid_token.scopes) [
        | none ↦ forward request (some valid_token)
        | some required ↦ forbidden (challenge_scopes required) require_all
      ]

  unfoldable pub check_token : Request → Option JsonRpcPeek → Option ValidToken → Outcome Url
  check_token request peek none = unauthorized
  check_token request peek (some valid_token) = check_scopes request peek valid_token

  abbrev pub token_validator : TokenValidator Url
  token_validator = record {
    audiences = auth_state.config.audiences;
    issuers = auth_state.config.issuers;
    allow_any_audience = auth_state.config.allow_any_audience;
    servers = auth_state.auth_servers;
  }

module _ {Url Key S : Type 0} (wire : Wire) (jwt : Jwt Key)
    (resolve_key : Url → String → S → Option (Jwk Key × String) × S)
    (auth_state : AuthState Url) where
  unfoldable pub authenticate : Option String → Request → Option JsonRpcPeek → S → Outcome Url × S
  unfolding check_token check_scopes
  authenticate none request peek s = (unauthorized auth_state, s)
  authenticate (some token) request peek s =
      let (valid, s') = validate jwt (token_validator auth_state) resolve_key token s in
      (check_token auth_state request peek valid, s')

  unfoldable pub matches_some : Option JsonRpcPeek → Bool → Bool
  matches_some none app_qualified = false
  matches_some (some peek) app_qualified =
      matches_peek auth_state.skip_token_validation peek app_qualified

  -- `token.is_none() && skip.needs_body()`
  abbrev peek_for_skip : Option String → Bool
  peek_for_skip token = is_none token && needs_body auth_state.skip_token_validation

  unfoldable pub after_peek :
      Option String → Request → Bool → Option JsonRpcPeek → Option JsonRpcPeek → S → Outcome Url × S
  unfolding authenticate matches_some
  after_peek token request app_qualified header_peek body_peek s =
      if peek_for_skip token && matches_some body_peek app_qualified
      then (forward request none, s)
      else authenticate token request (or_else header_peek body_peek) s

  unfoldable pub after_body :
      Option String
      → Bool
      → Option JsonRpcPeek
      → Result JsonRpcPeek ℕ × Request
      → S
      → Outcome Url × S
  after_body token app_qualified header_peek (ok peek, request) s =
      after_peek token request app_qualified header_peek (some peek) s
  after_body token app_qualified header_peek (err status, request) s =
      if is_none token
      then after_peek token request app_qualified header_peek none s
      else (respond status, s)

  unfoldable pub read_body :
      Option String → Request → Bool → Option JsonRpcPeek → S → Outcome Url × S
  unfolding after_body after_peek
  read_body token request app_qualified header_peek s =
      if is_none header_peek
        && is_post request.method
        && (peek_for_skip token || not (is_empty auth_state.required_scopes))
      then after_body token app_qualified header_peek (extract_body wire request) s
      else after_peek token request app_qualified header_peek none s

  -- A tokenless request with trusted headers is decided by them alone.
  unfoldable pub with_header_peek :
      Option String → Request → Bool → Option JsonRpcPeek → S → Outcome Url × S
  unfolding read_body
  with_header_peek none request app_qualified (some peek) s =
      if matches_peek auth_state.skip_token_validation peek app_qualified
      then (forward request none, s)
      else (unauthorized auth_state, s)
  with_header_peek token request app_qualified header_peek s =
      read_body token request app_qualified header_peek s

  -- With enforced headers that cannot be read, only a request with a token goes on.
  unfoldable pub with_enforced_headers :
      Option String → Request → Bool → Option JsonRpcPeek → S → Outcome Url × S
  unfolding with_header_peek
  with_enforced_headers token request app_qualified header_peek s =
      if is_none header_peek && is_none token
      then (unauthorized auth_state, s)
      else with_header_peek token request app_qualified header_peek s

  unfoldable pub read_headers : Option String → Request → Bool → S → Outcome Url × S
  unfolding with_enforced_headers
  read_headers token request app_qualified s =
      if standard_headers_enforced wire request
      then with_enforced_headers token request app_qualified (from_headers wire request.headers) s
      else with_header_peek token request app_qualified none s

  unfoldable pub oauth_validate : Option String → Request → S → Outcome Url × S
  unfolding read_headers
  oauth_validate token request s =
      if is_get request.method
        && (not auth_state.stateful_mode || uses_stateless_protocol wire request)
      then (forward request none, s)
      else if is_none token && matches_headers auth_state.skip_token_validation request.headers
      then (forward request none, s)
      else read_headers token request (is_some (app_param_from_query wire request.query)) s
