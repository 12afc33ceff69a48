-- ===== src/Auth/Middleware/Tests.antt =====
-- Tests of the OAuth middleware, and its theorems at concrete inputs.
use apollo_mcp_server.Prelude.{
  ℕ, suc, nat_eq, leb, length, ◌≡◌, ◌⊎◌, refl, true, false, Option, none, some, List, [], ◌∷◌,
  String, ok, All, lookup, str_le, arith, ◌==◌, if◌then◌else◌, map,
}
use apollo_mcp_server.Auth.Scopes.{
  require_all, mode_is_satisfied_by, OperationRequiredScopes, is_satisfied_by, challenge_scopes,
}
use apollo_mcp_server.Auth.Token.{
  KeyAlgorithm, Claims, Jwk, ValidToken, Jwt, validate, try_servers, attempt, check_claims,
  validation, jwt_algorithm, scopes,
}
use apollo_mcp_server.Auth.Token.Words.{split_whitespace}
use apollo_mcp_server.Auth.Config.{
  Config, UrlLib, AuthState, enable_middleware, parse_servers, resolve_skip_token_validation,
}
use apollo_mcp_server.Auth.Config.Startup.{NamesOneThing, enable_middleware-ok}
use apollo_mcp_server.Auth.SkipLists.{
  HeaderMap, visible, post, Request, JsonRpcPeek, Wire, matches_headers, needs_body, matches_peek,
  matches_method, matches_tool, from_headers, standard_headers_enforced, uses_stateless_protocol,
  app_param_from_query, extract_body, deserialize_skip_methods, peeked_name,
}
use apollo_mcp_server.Auth.Middleware.{
  Outcome, forward, respond, unauthorized, forbidden, oauth_validate, missing_scopes_for_operation,
}
use apollo_mcp_server.Auth.Middleware.Access.{ReadsBody, Asks, Grant}
use apollo_mcp_server.Auth.Middleware.Safety.{oauth_validate-Passes}
use apollo_mcp_server.Auth.Middleware.Anonymous.{IsAnonymous, oauth_validate-IsAnonymous}
use apollo_mcp_server.Auth.Middleware.Refusals.{IsExplained, oauth_validate-IsExplained}
use apollo_mcp_server.Auth.Middleware.ToolCalls.{MayAsk, anonymous_call}

-- Bodies are numbers: 1 calls the tool `weather`, 2 lists the tools, 3 calls the tool `admin`.
abbrev call : String → JsonRpcPeek
call tool = record { method = "tools/call"; params = some (record { name = some tool }) }

abbrev parse_body : List ℕ → Option JsonRpcPeek
parse_body [] = none
parse_body (b ∷ bs) =
    if nat_eq b 1
    then some (call "weather")
    else if nat_eq b 2
    then some (record { method = "tools/list"; params = none })
    else if nat_eq b 3
    then some (call "admin")
    else none

abbrev wire : Wire
wire = record {
  header_mcp_method = "mcp-method";
  header_mcp_name = "mcp-name";
  header_mcp_protocol_version = "mcp-protocol-version";
  known_versions = "2025-06-18" ∷ "2026-07-28" ∷ [];
  standard_headers = "2026-07-28";
  has_initialize = λ version. version == "2025-06-18";
  to_bytes = λ body limit. if leb (length body) limit then some body else none;
  from_slice = parse_body;
  parse_query = λ query. if query == "app=maps" then ("app", "maps") ∷ [] else [];
}

wire-ReadsBody : ReadsBody wire
wire-ReadsBody body limit bytes h = ground arith

abbrev claims : Claims
claims = record { aud = "mcp" ∷ []; iss = none; sub = "ann"; scope = some "read"; scp = none }

abbrev jwt : Jwt String
jwt = record {
  decode_header = λ token. some (some "kid1");
  decode = λ token key rules. if token == "t1" then some claims else none;
}

abbrev resolver : String → String → ℕ → Option (Jwk String × String) × ℕ
resolver server key_id calls =
    (some (record { alg = some KeyAlgorithm.rs256; decoding_key = "k1" }, server), suc calls)

abbrev urls : UrlLib String
urls = record {
  parse = λ s. some s;
  has_host = λ url. true;
  scheme = λ url. "https";
  metadata_url = λ url. url;
}

abbrev config : Config String
config = record {
  servers = "https://idp/" ∷ [];
  audiences = "mcp" ∷ [];
  issuers = [];
  allow_any_audience = false;
  resource = "https://mcp/";
  scopes = "read" ∷ [];
  scope_mode = require_all;
  disable_auth_token_passthrough = false;
  skip_token_validation = record {
    methods = "tools/list" ∷ [];
    tools = "weather" ∷ [];
    headers = "x-api-key" ∷ [];
  };
  allow_anonymous_mcp_discovery = false;
}

abbrev admins : List (String × OperationRequiredScopes)
admins = ("admin", record { groups = ("root" ∷ []) ∷ [] }) ∷ []

abbrev state : AuthState String
state = record {
  config = config;
  resource_metadata_url = "https://mcp/";
  auth_servers = "https://idp/" ∷ [];
  required_scopes = admins;
  skip_token_validation = config.skip_token_validation;
  stateful_mode = true;
}

starts : enable_middleware urls config admins true ≡ ok state
unfolding enable_middleware parse_servers resolve_skip_token_validation
starts = refl

accepts_lists :
    deserialize_skip_methods ("tools/list" ∷ []) ≡ ok config.skip_token_validation.methods
unfolding deserialize_skip_methods
accepts_lists = refl

enable_middleware-ok_example :
    (map urls.parse config.servers ≡ map some state.auth_servers)
    × All (λ url. urls.has_host url ≡ true) state.auth_servers
    × ((urls.scheme config.resource ≡ "http") ⊎ (urls.scheme config.resource ≡ "https"))
    × All NamesOneThing state.skip_token_validation.methods
enable_middleware-ok_example =
    enable_middleware-ok urls ("tools/list" ∷ []) config admins true state accepts_lists starts

abbrev ask : HeaderMap → ℕ → Request
ask headers b = record { method = post; query = none; headers = headers; body = b ∷ [] }

abbrev run : Option String → Request → Outcome String × ℕ
run token request = oauth_validate wire jwt resolver state token request 0

validation_open : Unit {0}
unfolding validate try_servers attempt check_claims validation jwt_algorithm scopes split_whitespace
validation_open = tt

skips_open : Unit {0}
unfolding matches_headers needs_body matches_peek matches_method matches_tool from_headers
    standard_headers_enforced uses_stateless_protocol app_param_from_query extract_body lookup
    str_le peeked_name
skips_open = tt

abbrev ann : ValidToken
ann = record { token = "t1"; scopes = "read" ∷ [] }

-- A listed tool and a listed method pass without a token; others do not, unless a listed header is
-- there. A token with the global scope may call `weather`, and not `admin`.
decisions :
    (run none (ask [] 1) ≡ (forward (ask [] 1) none, 0))
    × (run none (ask [] 2) ≡ (forward (ask [] 2) none, 0))
    × (run none (ask [] 3) ≡ (unauthorized state, 0))
    × (run none (ask (("x-api-key", visible "k") ∷ []) 3)
        ≡ (forward (ask (("x-api-key", visible "k") ∷ []) 3) none, 0))
    × (run (some "t1") (ask [] 1) ≡ (forward (ask [] 1) (some ann), 1))
    × (run (some "t1") (ask [] 3) ≡ (forbidden state ("root" ∷ []) require_all, 1))
    × (run (some "t2") (ask [] 1) ≡ (unauthorized state, 1))
    × (run (some "t1") (ask [] 9) ≡ (respond 400, 0))
unfolding oauth_validate validation_open skips_open missing_scopes_for_operation
    mode_is_satisfied_by is_satisfied_by challenge_scopes
decisions = (refl, refl, refl, refl, refl, refl, refl, refl)

oauth_validate-Passes_example :
    (ask [] 1 ≡ ask [] 1) × Grant wire jwt resolver state 0 (ask [] 1) (some "t1") (some ann)
oauth_validate-Passes_example =
    oauth_validate-Passes wire jwt resolver state 0 (some "t1") (ask [] 1) (ask [] 1) (some ann)
      wire-ReadsBody (rw decisions.4 refl)

oauth_validate-IsAnonymous_example :
    IsAnonymous wire jwt resolver state 0 (oauth_validate wire jwt resolver state none (ask [] 9) 0)
oauth_validate-IsAnonymous_example = oauth_validate-IsAnonymous wire jwt resolver state 0 (ask [] 9)

no_listed_header : matches_headers state.skip_token_validation (ask [] 1).headers ≡ false
unfolding matches_headers lookup
no_listed_header = refl

anonymous_call_example :
    (peek : JsonRpcPeek) × Asks wire state (ask [] 1) peek
    × MayAsk wire state.skip_token_validation (ask [] 1) peek
anonymous_call_example =
    anonymous_call wire jwt resolver urls ("tools/list" ∷ []) config admins true state (ask [] 1)
      (ask [] 1) none 0 wire-ReadsBody accepts_lists starts refl no_listed_header
      (rw decisions.0 refl)

-- A validated token that lacks the scope of the tool `admin`.
oauth_validate-IsExplained_example :
    IsExplained wire state
      (ask [] 3)
      (ok (call "admin"))
      (some ann)
      (forbidden state ("root" ∷ []) require_all)
unfolding oauth_validate validation_open skips_open missing_scopes_for_operation
    mode_is_satisfied_by is_satisfied_by challenge_scopes
oauth_validate-IsExplained_example =
    oauth_validate-IsExplained wire jwt resolver state 0 "t1" (ask [] 3) wire-ReadsBody
