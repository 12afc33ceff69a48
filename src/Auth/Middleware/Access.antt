-- ===== src/Auth/Middleware/Access.antt =====
-- Which requests `oauth_validate` of crates/apollo-mcp-server/src/auth.rs lets through.
use apollo_mcp_server.Prelude.{
  ℕ, ◌≡◌, ◌⊎◌, inl, inr, refl, Bool, true, false, not, ◌&&◌, Option, none, some, List, String,
  is_empty, is_some, lookup, Bool-cases, Option-cases, arith, eq_iff, Any, if◌then◌else◌,
}
use apollo_mcp_server.Auth.Scopes.{mode_is_satisfied_by, OperationRequiredScopes}
use apollo_mcp_server.Auth.Scopes.Laws.{
  ModeHolds, mode_is_satisfied_by_iff, CoversSome, is_satisfied_by_iff,
}
use apollo_mcp_server.Auth.Token.{Jwk, ValidToken, Jwt, validate}
use apollo_mcp_server.Auth.SkipLists.{
  Request, is_get, is_post, JsonRpcPeek, Wire, tool_call_method, peeked_name, matches_peek,
  from_headers, standard_headers_enforced, uses_stateless_protocol, app_param_from_query,
  peek_body_limit,
}
use apollo_mcp_server.Auth.Config.{AuthState}
use apollo_mcp_server.Auth.Middleware.{
  Outcome, forward, respond, challenge, missing_scopes_for_operation, forbidden, missing_in,
  check_scopes, token_validator,
}

-- `P` holds of whatever an outcome lets through.
abbrev pub Lets : {Url : Type 0} → (Request → Option ValidToken → Type 0) → Outcome Url → Type 0
Lets P (forward request extension) = P request extension
Lets P (respond status) = Unit
Lets P (challenge status header) = Unit

-- Whether the request targets an app.
abbrev pub app_qualified : Wire → Request → Bool
app_qualified wire request = is_some (app_param_from_query wire request.query)

-- axum's reader returns the bytes of the body, if it returns any.
abbrev pub ReadsBody : Wire → Type 0
ReadsBody wire =
    (body : List ℕ) (limit : ℕ) (bytes : List ℕ)
    → wire.to_bytes body limit ≡ some bytes
    → bytes ≡ body

module _ {Url : Type 0} (wire : Wire) (auth_state : AuthState Url) where
  -- The peek that the request's body holds.
  abbrev pub BodyPeek : Request → JsonRpcPeek → Type 0
  BodyPeek request peek =
      (wire.to_bytes request.body peek_body_limit ≡ some request.body)
      × (wire.from_slice request.body ≡ some peek)

  -- The peek of the headers that rmcp enforces.
  abbrev pub trusted_peek : Request → Option JsonRpcPeek
  trusted_peek request =
      if standard_headers_enforced wire request then from_headers wire request.headers else none

  -- What a request asks for: enforced headers say it, or else the body of a POST.
  pub data Asks (request : Request) (peek : JsonRpcPeek) : Type 0 where
    in_headers : trusted_peek request ≡ some peek → Asks request peek
    in_body :
        trusted_peek request ≡ none
        → is_post request.method ≡ true
        → BodyPeek request peek
        → Asks request peek

  -- The token has the scopes that the configuration asks of every request.
  abbrev pub HasGlobalScopes : ValidToken → Type 0
  HasGlobalScopes valid =
      (is_empty auth_state.config.scopes ≡ true)
      ⊎ ModeHolds auth_state.config.scope_mode auth_state.config.scopes valid.scopes

  -- The token has the scopes of one alternative of the tool that is called.
  abbrev pub MayCall : ValidToken → JsonRpcPeek → Type 0
  MayCall valid peek =
      (tool : String) (required : OperationRequiredScopes)
      → peek.method ≡ tool_call_method
      → peeked_name peek ≡ some tool
      → lookup tool auth_state.required_scopes ≡ some required
      → CoversSome required.groups valid.scopes

  missing-MayCall :
      (valid : ValidToken) (peek : JsonRpcPeek)
      → missing_scopes_for_operation peek auth_state.required_scopes valid.scopes ≡ none
      → MayCall valid peek
  unfolding missing_scopes_for_operation
  missing-MayCall valid peek h tool required is_call named entry =
      (is_satisfied_by_iff required valid.scopes).0
        (ground (arith, eq_iff peek.method tool_call_method))

  global_scopes :
      (valid : ValidToken)
      → (not (is_empty auth_state.config.scopes)
          && not (
              mode_is_satisfied_by auth_state.config.scope_mode auth_state.config.scopes
                valid.scopes))
        ≡ false
      → HasGlobalScopes valid
  global_scopes valid h = elim (Bool-cases (is_empty auth_state.config.scopes)) [
    | inl no_scopes ↦ inl no_scopes
    | inr some_scopes ↦ inr (
        (mode_is_satisfied_by_iff auth_state.config.scope_mode auth_state.config.scopes
            valid.scopes).0
          (ground arith))
  ]

  missing_in-MayCall :
      (valid : ValidToken) (peek : Option JsonRpcPeek)
      → missing_in auth_state peek valid.scopes ≡ none
      → (p : JsonRpcPeek) → peek ≡ some p
      → MayCall valid p
  unfolding missing_in
  missing_in-MayCall valid none h p e = absurd (ground arith)
  missing_in-MayCall valid (some q) h p e =
      let same : p ≡ q = ground arith in rw same (missing-MayCall valid q h)

  pub check_scopes-Lets :
      (request : Request) (peek : Option JsonRpcPeek) (valid : ValidToken)
      → Lets
          (λ r e.
            (r ≡ request)
            × (e ≡ some valid)
            × HasGlobalScopes valid
            × ((p : JsonRpcPeek) → peek ≡ some p → MayCall valid p))
          (check_scopes auth_state request peek valid)
  unfolding check_scopes forbidden
  check_scopes-Lets request peek valid =
      elim (Bool-cases (
        not (is_empty auth_state.config.scopes)
        && not (
            mode_is_satisfied_by auth_state.config.scope_mode auth_state.config.scopes
              valid.scopes))) [
                | inl lacking ↦ rw lacking tt
                | inr sufficient ↦ elim (Option-cases (missing_in auth_state peek valid.scopes)) [
                  | inl allowed ↦
                      rw (sufficient, allowed)
                        (
                          refl,
                          refl,
                          global_scopes valid sufficient,
                          missing_in-MayCall valid peek allowed,
                        )
                  | inr (required, lacking) ↦ rw (sufficient, lacking) tt
                ]
              ]

module _ {Url Key S : Type 0} (wire : Wire) (jwt : Jwt Key)
    (resolve_key : Url → String → S → Option (Jwk Key × String) × S) (auth_state : AuthState Url)
    (s : S) where
  -- The grounds on which a request goes on, and the token that goes with it.
  pub data Grant (request : Request) : Option String → Option ValidToken → Type 0 where
    stateless_get :
        {token : Option String}
        → is_get request.method ≡ true
        → (auth_state.stateful_mode ≡ false) ⊎ (uses_stateless_protocol wire request ≡ true)
        → Grant request token none
    listed_header :
        Any
          (λ name. is_some (lookup name request.headers) ≡ true)
          auth_state.skip_token_validation.headers
        → Grant request none none
    listed_call :
        (peek : JsonRpcPeek)
        → Asks wire auth_state request peek
        → matches_peek auth_state.skip_token_validation peek (app_qualified wire request) ≡ true
        → Grant request none none
    validated :
        (token : String) (valid : ValidToken)
        → (validate jwt (token_validator auth_state) resolve_key token s).0 ≡ some valid
        → HasGlobalScopes wire auth_state valid
        → ((peek : JsonRpcPeek)
            → Asks wire auth_state request peek
            → MayCall wire auth_state valid peek)
        → Grant request (some token) (some valid)

  -- The request goes on as it came, on one of the grounds.
  abbrev pub Passes : Request → Option String → Request → Option ValidToken → Type 0
  Passes request token r extension = (r ≡ request) × Grant request token extension
