-- ===== src/Auth/Middleware/ToolCalls.antt =====
-- What a request without a token can reach in `oauth_validate` of
-- crates/apollo-mcp-server/src/auth.rs, once the middleware has started.
use apollo_mcp_server.Prelude.{
  ◌≡◌, ◌⊎◌, inl, inr, refl, Bool, true, false, Option, none, some, List, [], ◌∷◌, String, ok,
  is_some, lookup, arith, eq_iff, any, All, IsIn, contains_iff, any_iff, ◌==◌, or-eq-true_iff,
}
use apollo_mcp_server.Auth.Scopes.{OperationRequiredScopes}
use apollo_mcp_server.Auth.Token.{Jwk, ValidToken, Jwt}
use apollo_mcp_server.Auth.SkipLists.{
  Request, is_get, JsonRpcPeek, Wire, tool_call_method, matches_headers, peeked_name, matches_peek,
}
use apollo_mcp_server.Auth.Config.{AuthState}
use apollo_mcp_server.Auth.Middleware.{forward, oauth_validate}
use apollo_mcp_server.Auth.Middleware.Access.{
  app_qualified, ReadsBody, Asks, Grant, stateless_get, listed_header, listed_call, validated,
}
use apollo_mcp_server.Auth.Config.{Config, UrlLib, enable_middleware}
use apollo_mcp_server.Auth.Config.Startup.{NamesOneThing, enable_middleware-ok}
use apollo_mcp_server.Auth.SkipLists.{
  SkipTokenValidation, matches_method, matches_tool, listed_tool, deserialize_skip_methods,
}
use apollo_mcp_server.Auth.Middleware.Safety.{oauth_validate-Passes}

any_equal : (xs : List String) (a : String) → any (λ x. x == a) xs ≡ true → IsIn a xs
any_equal xs a h = (contains_iff xs a).0 h

-- Some item of a list that satisfies `P` throughout.
All-IsIn : (P : String → Type 0) (a : String) (xs : List String) → All P xs → IsIn a xs → P a
All-IsIn P a [] h i = absurd i
All-IsIn P a (x ∷ xs) h (inl e) = rw e at h.0
All-IsIn P a (x ∷ xs) h (inr i) = All-IsIn P a xs h.1 i

-- What an anonymous request may ask for: a listed method that names one thing, or a listed tool of no
-- app.
abbrev pub MayAsk : Wire → SkipTokenValidation → Request → JsonRpcPeek → Type 0
MayAsk wire skip request peek =
    (IsIn peek.method skip.methods × NamesOneThing peek.method)
    ⊎ ((peek.method ≡ tool_call_method)
        × (app_qualified wire request ≡ false)
        × ((tool : String) × (peeked_name peek ≡ some tool) × IsIn tool skip.tools))

listed_tool-IsIn :
    (tools : List String) (name : Option String)
    → listed_tool tools name ≡ true
    → (tool : String) × (name ≡ some tool) × IsIn tool tools
unfolding listed_tool
listed_tool-IsIn tools none h = absurd (ground arith)
listed_tool-IsIn tools (some tool) h = (tool, refl, any_equal tools tool h)

matches_tool-MayAsk :
    (wire : Wire) (skip : SkipTokenValidation) (request : Request) (peek : JsonRpcPeek)
    → matches_tool skip peek (app_qualified wire request) ≡ true
    → MayAsk wire skip request peek
unfolding matches_tool
matches_tool-MayAsk wire skip request peek h = inr (
  ground (arith, eq_iff peek.method tool_call_method),
  ground arith,
  listed_tool-IsIn skip.tools (peeked_name peek) (ground arith),
)

matches_peek-MayAsk :
    (wire : Wire) (skip : SkipTokenValidation) (request : Request) (peek : JsonRpcPeek)
    → All NamesOneThing skip.methods
    → matches_peek skip peek (app_qualified wire request) ≡ true
    → MayAsk wire skip request peek
unfolding matches_peek matches_method
matches_peek-MayAsk wire skip request peek names h = elim ((or-eq-true_iff _ _).0 h) [
  | inl method ↦
      let listed : IsIn peek.method skip.methods = any_equal skip.methods peek.method method in
      inl (listed, All-IsIn NamesOneThing peek.method skip.methods names listed)
  | inr tool ↦ matches_tool-MayAsk wire skip request peek tool
]

module _ {Url Key S : Type 0} (wire : Wire) (jwt : Jwt Key)
    (resolve_key : Url → String → S → Option (Jwk Key × String) × S) (auth_state : AuthState Url)
    (s : S) where
  Grant-of_call :
      (request : Request) (extension : Option ValidToken)
      → All NamesOneThing auth_state.skip_token_validation.methods
      → is_get request.method ≡ false
      → matches_headers auth_state.skip_token_validation request.headers ≡ false
      → (token : Option String) → token ≡ none
      → Grant wire jwt resolve_key auth_state s request token extension
      → (peek : JsonRpcPeek) × Asks wire auth_state request peek
        × MayAsk wire auth_state.skip_token_validation request peek
  unfolding matches_headers
  Grant-of_call request extension names not_get no_header token e (stateless_get g m) =
      absurd (ground arith)
  Grant-of_call request extension names not_get no_header token e (listed_header h) = absurd (
      ground (
        arith,
        (any_iff (λ name. is_some (lookup name request.headers))
              (λ name. is_some (lookup name request.headers) ≡ true) (λ name. (λ q. q, λ q. q))
              auth_state.skip_token_validation.headers).1
            h,
      ))
  Grant-of_call request extension names not_get no_header token e (listed_call peek asks h) =
      (peek, asks, matches_peek-MayAsk wire auth_state.skip_token_validation request peek names h)
  Grant-of_call request extension names not_get no_header token e (validated t v p g o) =
      absurd (ground arith)

-- After a start from a parsed configuration, a request without a token that is no GET and carries no
-- listed header reaches the server only to ask for a listed method other than `tools/call` and the
-- methods that resolve one of many things, or to call a listed tool outside any app.
pub anonymous_call :
    {Url Key S : Type 0} (wire : Wire) (jwt : Jwt Key)
    (resolve_key : Url → String → S → Option (Jwk Key × String) × S) (lib : UrlLib Url)
    (raw : List String) (config : Config Url)
    (required_scopes : List (String × OperationRequiredScopes)) (stateful_mode : Bool)
    (state : AuthState Url) (request r : Request) (extension : Option ValidToken) (s : S)
    → ReadsBody wire
    → deserialize_skip_methods raw ≡ ok config.skip_token_validation.methods
    → enable_middleware lib config required_scopes stateful_mode ≡ ok state
    → is_get request.method ≡ false
    → matches_headers state.skip_token_validation request.headers ≡ false
    → (oauth_validate wire jwt resolve_key state none request s).0 ≡ forward r extension
    → (peek : JsonRpcPeek) × Asks wire state request peek
      × MayAsk wire state.skip_token_validation request peek
anonymous_call wire jwt resolve_key lib raw config required_scopes stateful_mode state request r
      extension s reads listed started not_get no_header passed =
    let (parsed, hosts, scheme, names) =
      enable_middleware-ok lib raw config required_scopes stateful_mode state listed started in
    let (same, grant) =
      oauth_validate-Passes wire jwt resolve_key state s none request r extension reads passed in
    Grant-of_call wire jwt resolve_key state s request extension names not_get no_header none refl
      grant
