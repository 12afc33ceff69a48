-- ===== src/Auth/Config.antt =====
-- The configuration of the OAuth middleware and its start: `Config`, `resolve_skip_token_validation`
-- and `enable_middleware` of crates/apollo-mcp-server/src/auth.rs. The TLS client, the discovery
-- timeout and headers, and the documentation link only reach code outside this model. The url crate is
-- the record `UrlLib`.
pub mod Startup
use apollo_mcp_server.Prelude.{
  ℕ, suc, Bool, true, false, not, ◌&&◌, Option, none, some, List, [], ◌∷◌, String, Result, ok, err,
  is_empty, is_none, ◌==◌, if◌then◌else◌,
}
use apollo_mcp_server.Auth.Scopes.{ScopeMode, OperationRequiredScopes}
use apollo_mcp_server.Auth.SkipLists.{SkipTokenValidation}

pub record Config (Url : Type 0) : Type 0 where
  pub servers : List String
  pub audiences : List String
  pub issuers : List String
  pub allow_any_audience : Bool
  pub resource : Url
  pub scopes : List String
  pub scope_mode : ScopeMode
  pub disable_auth_token_passthrough : Bool
  pub skip_token_validation : SkipTokenValidation
  pub allow_anonymous_mcp_discovery : Bool

-- `parse` is `Url::parse`, and `metadata_url` stands for the path and query setters that
-- `build_resource_metadata_url` applies.
pub record UrlLib (Url : Type 0) : Type 0 where
  pub parse : String → Option Url
  pub has_host : Url → Bool
  pub scheme : Url → String
  pub metadata_url : Url → Url

-- The errors of `TlsConfigError` that do not come from building the HTTP client, and the panic of
-- `expect` on a server that does not parse.
pub data ConfigError : Type 0 where
  server_url_missing_host : ℕ → String → ConfigError
  resource_url_invalid_scheme : String → ConfigError
  anonymous_discovery_conflict : ConfigError
  panic : ConfigError

abbrev pub deprecated_anonymous_discovery_methods : List String
deprecated_anonymous_discovery_methods =
    "initialize" ∷ "server/discover" ∷ "tools/list" ∷ "resources/list" ∷ []

-- The parts of `AuthState` that decide; the client, the cache and the in-flight map are the state of
-- the key resolver.
pub record AuthState (Url : Type 0) : Type 0 where
  pub config : Config Url
  pub resource_metadata_url : Url
  pub auth_servers : List Url
  pub required_scopes : List (String × OperationRequiredScopes)
  pub skip_token_validation : SkipTokenValidation
  pub stateful_mode : Bool

module _ {Url : Type 0} where
  unfoldable pub resolve_skip_token_validation : Config Url → Result SkipTokenValidation ConfigError
  resolve_skip_token_validation config =
      if not config.allow_anonymous_mcp_discovery
      then ok config.skip_token_validation
      else if not (is_empty config.skip_token_validation.methods)
      then err anonymous_discovery_conflict
      else ok (record (config.skip_token_validation) {
        methods = deprecated_anonymous_discovery_methods;
      })

module _ {Url : Type 0} (lib : UrlLib Url) where
  -- The closure of the loop over the servers.
  unfoldable pub parse_server : ℕ → String → Result Url ConfigError
  parse_server i server = elim (lib.parse server) [
    | none ↦ err panic
    | some parsed ↦
        if lib.has_host parsed then ok parsed else err (server_url_missing_host i server)
  ]

  -- `collect::<Result<Vec<Url>, _>>()`: the first error ends the loop.
  unfoldable pub parse_servers : ℕ → List String → Result (List Url) ConfigError
  unfolding parse_server
  parse_servers i [] = ok []
  parse_servers i (server ∷ servers) =
      let rest = parse_servers (suc i) servers in
      elim (parse_server i server) [
        | err e ↦ err e
        | ok parsed ↦ elim rest [ err e ↦ err e | ok urls ↦ ok (parsed ∷ urls) ]
      ]

  -- The state that the middleware runs with.
  unfoldable pub enable_middleware :
      Config Url
      → List (String × OperationRequiredScopes)
      → Bool
      → Result (AuthState Url) ConfigError
  enable_middleware config required_scopes stateful_mode = elim (parse_servers 0 config.servers) [
    | err e ↦ err e
    | ok auth_servers ↦
        if not (lib.scheme config.resource == "http") && not (lib.scheme config.resource == "https")
        then err (resource_url_invalid_scheme (lib.scheme config.resource))
        else elim (resolve_skip_token_validation config) [
          | err e ↦ err e
          | ok skip ↦ ok (record {
            config = config;
            resource_metadata_url = lib.metadata_url config.resource;
            auth_servers = auth_servers;
            required_scopes = required_scopes;
            skip_token_validation = skip;
            stateful_mode = stateful_mode;
          })
        ]
  ]
