-- ===== src/Auth/EndToEnd/Tests.antt =====
-- The theorem of the parent at a concrete input.
use apollo_mcp_server.Prelude.{
  ◌≡◌, refl, true, false, none, some, [], ◌∷◌, String, KeyEq, find, discard, assign, lookup,
  Option-cases, inl, inr, arith, leb, length, ◌==◌, eq_iff, if◌then◌else◌,
}
use apollo_mcp_server.Auth.Scopes.{require_all, mode_is_satisfied_by}
use apollo_mcp_server.Auth.Token.{
  KeyAlgorithm, validate, try_servers, attempt, check_claims, validation, jwt_algorithm, scopes,
}
use apollo_mcp_server.Auth.Token.Words.{split_whitespace}
use apollo_mcp_server.Auth.Token.Tests.{toy, toy-ChecksClaims, ann_token}
use apollo_mcp_server.Auth.SkipLists.{
  post, Request, Wire, matches_headers, needs_body, from_headers, standard_headers_enforced,
  uses_stateless_protocol, extract_body, matches_peek, app_param_from_query,
}
use apollo_mcp_server.Auth.Config.{Config, AuthState}
use apollo_mcp_server.Auth.Middleware.{forward, oauth_validate, missing_scopes_for_operation}
use apollo_mcp_server.Auth.Middleware.Access.{ReadsBody}
use apollo_mcp_server.Auth.Keys.{
  Library, Replies, Timing, resolve_alg, cached_lookup, is_fresh, lookup_fresh, lookup_stale,
  too_soon, start_fetch, acquire_inflight_slot, issuer_matches, discover_metadata, fetch_entry,
  finish_fetch, answer_after_fetch, World, after_acquire, resolve_key, finish, here, next, initial,
}
use apollo_mcp_server.Auth.Keys.Answers.{Waits}
use apollo_mcp_server.Auth.EndToEnd.{IsTrusted, oauth_validate-IsTrusted}

abbrev wire : Wire
wire = record {
  header_mcp_method = "mcp-method";
  header_mcp_name = "mcp-name";
  header_mcp_protocol_version = "mcp-protocol-version";
  known_versions = "2025-06-18" ∷ [];
  standard_headers = "2026-07-28";
  has_initialize = λ version. true;
  to_bytes = λ body limit. if leb (length body) limit then some body else none;
  from_slice = λ body. none;
  parse_query = λ query. [];
}

wire-ReadsBody : ReadsBody wire
wire-ReadsBody body limit bytes h = ground arith

abbrev texts : KeyEq String
texts = record { same = λ a b. a == b; same_iff = eq_iff }

abbrev library : Library String
library = record {
  urls = texts;
  parse = λ s. some s;
  strip = λ url. url;
  parse_alg = λ name. if name == "RS256" then some KeyAlgorithm.rs256 else none;
  discovery_urls = λ url. some (url ∷ []);
}

abbrev timing : Timing
timing = record { ttl = 600; min_refresh_interval = 60 }

abbrev replies : Replies String String
replies = record {
  get_metadata = λ url. some (record {
    issuer = "https://a/";
    jwks_uri = "https://a/keys";
    id_token_signing_alg_values_supported = "RS256" ∷ [];
  });
  get_jwks = λ uri. some (("kid1", record { alg = none; decoding_key = "k1" }) ∷ []);
}

abbrev await : String → World String String → World String String
await server w = elim (find texts w.resolver.slots server) [
  | none ↦ w
  | some begun ↦ record w { resolver = finish_fetch library replies w.now server w.resolver }
]

await-Waits : Waits library timing await
await-Waits server w = elim (Option-cases (find texts w.resolver.slots server)) [
  | inl free ↦ rw (free, await) here
  | inr (begun, slot) ↦ rw (slot, await) (next here (finish server replies begun slot))
]

-- The server `https://b/` advertises the issuer of another one, so its keys are not used.
abbrev config : Config String
config = record {
  servers = "https://b/" ∷ "https://a/" ∷ [];
  audiences = "mcp" ∷ [];
  issuers = "https://a/" ∷ [];
  allow_any_audience = false;
  resource = "https://mcp/";
  scopes = "read" ∷ [];
  scope_mode = require_all;
  disable_auth_token_passthrough = false;
  skip_token_validation = record { methods = []; tools = []; headers = [] };
  allow_anonymous_mcp_discovery = false;
}

abbrev state : AuthState String
state = record {
  config = config;
  resource_metadata_url = "https://mcp/";
  auth_servers = config.servers;
  required_scopes = [];
  skip_token_validation = config.skip_token_validation;
  stateful_mode = true;
}

abbrev request : Request
request = record { method = post; query = none; headers = []; body = [] }

lets_in :
    (oauth_validate wire toy
      (resolve_key library timing await)
      state
      (some "t1")
      request
      (initial 100)).0
    ≡ forward request (some ann_token)
unfolding validate try_servers attempt check_claims validation jwt_algorithm scopes split_whitespace
    matches_headers needs_body matches_peek from_headers standard_headers_enforced
    uses_stateless_protocol extract_body app_param_from_query oauth_validate
    missing_scopes_for_operation mode_is_satisfied_by resolve_alg cached_lookup is_fresh
    lookup_fresh lookup_stale too_soon start_fetch acquire_inflight_slot issuer_matches
    discover_metadata fetch_entry finish_fetch answer_after_fetch after_acquire resolve_key find
    discard assign lookup
lets_in = refl

oauth_validate-IsTrusted_example :
    IsTrusted toy library timing await state 100 (some "t1") ann_token
oauth_validate-IsTrusted_example =
    oauth_validate-IsTrusted wire toy library timing await state 100 (initial 100) (some "t1")
      request request ann_token wire-ReadsBody toy-ChecksClaims await-Waits here lets_in
