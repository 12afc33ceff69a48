-- ===== src/Auth/SkipLists.antt =====
-- The requests that skip token validation, and the JSON-RPC peek that decides it: the first half of
-- crates/apollo-mcp-server/src/auth.rs, and `app_param_from_query` of apps/mod.rs.
-- rmcp's header names and protocol versions, axum's body reader, and the parsers of JSON and of query
-- strings are the fields of the record `Wire`.
use text.Mathlib.Text.{starts_with}
use apollo_mcp_server.Prelude.{
  ℕ, ◌*◌, Bool, true, false, not, ◌&&◌, ◌||◌, Option, none, some, List, [], ◌∷◌, String, Result, ok,
  err, is_empty, is_some, any, contains, lookup, str_le, ◌==◌, if◌then◌else◌,
}

-- A value that is not visible ASCII has no text: `to_str` fails on it.
pub data HeaderValue : Type 0 where
  visible : String → HeaderValue
  opaque : HeaderValue

-- A `HeaderMap`: names are in lower case, and the first value of a name is the one that `get` finds.
abbrev pub HeaderMap : Type 0
HeaderMap = List (String × HeaderValue)

pub data Method : Type 0 where
  get post : Method
  other : String → Method

-- The parts of a request that the middleware reads; the body is its bytes.
pub record Request : Type 0 where
  pub method : Method
  pub query : Option String
  pub headers : HeaderMap
  pub body : List ℕ

abbrev pub is_get : Method → Bool
is_get get = true
is_get _ = false

abbrev pub is_post : Method → Bool
is_post post = true
is_post _ = false

pub record JsonRpcParams : Type 0 where
  pub name : Option String

pub record JsonRpcPeek : Type 0 where
  pub method : String
  pub params : Option JsonRpcParams

-- What the source takes from rmcp, axum, serde_json and url.
pub record Wire : Type 0 where
  pub header_mcp_method : String
  pub header_mcp_name : String
  pub header_mcp_protocol_version : String
  pub known_versions : List String
  pub standard_headers : String
  pub has_initialize : String → Bool
  pub to_bytes : List ℕ → ℕ → Option (List ℕ)
  pub from_slice : List ℕ → Option JsonRpcPeek
  pub parse_query : String → List (String × String)

abbrev pub tool_call_method : String
tool_call_method = "tools/call"

abbrev pub resolves_one_of_many_methods : List String
resolves_one_of_many_methods =
    "resources/read" ∷ "resources/subscribe" ∷ "resources/unsubscribe" ∷ "prompts/get"
    ∷ "completion/complete" ∷ []

-- The two errors of `deserialize_skip_methods`.
pub data SkipMethodsError : Type 0 where
  lists_tool_call lists_one_of_many : SkipMethodsError

unfoldable pub deserialize_skip_methods : List String → Result (List String) SkipMethodsError
deserialize_skip_methods methods =
    if any (λ method. method == tool_call_method) methods
    then err lists_tool_call
    else if any (λ method. contains resolves_one_of_many_methods method) methods
    then err lists_one_of_many
    else ok methods

pub record SkipTokenValidation : Type 0 where
  pub methods : List String
  pub tools : List String
  pub headers : List String

unfoldable pub needs_body : SkipTokenValidation → Bool
needs_body skip = not (is_empty skip.methods) || not (is_empty skip.tools)

unfoldable pub matches_headers : SkipTokenValidation → HeaderMap → Bool
matches_headers skip headers = any (λ name. is_some (lookup name headers)) skip.headers

unfoldable pub matches_method : SkipTokenValidation → String → Bool
matches_method skip method = any (λ allowed. allowed == method) skip.methods

-- `params.as_ref().and_then(|params| params.name.as_deref())`
unfoldable pub peeked_name : JsonRpcPeek → Option String
peeked_name peek = elim peek.params [ none ↦ none | some params ↦ params.name ]

unfoldable pub listed_tool : List String → Option String → Bool
listed_tool tools none = false
listed_tool tools (some tool) = any (λ allowed. allowed == tool) tools

unfoldable pub matches_tool : SkipTokenValidation → JsonRpcPeek → Bool → Bool
unfolding listed_tool
matches_tool skip peek app_qualified =
    if not (peek.method == tool_call_method)
    then false
    else if app_qualified
    then false
    else listed_tool skip.tools (peeked_name peek)

unfoldable pub matches_peek : SkipTokenValidation → JsonRpcPeek → Bool → Bool
matches_peek skip peek app_qualified =
    matches_method skip peek.method || matches_tool skip peek app_qualified

-- `to_str().ok()`
abbrev pub to_str : Option HeaderValue → Option String
to_str none = none
to_str (some (visible s)) = some s
to_str (some opaque) = none

unfoldable pub named_peek : String → Option String → Option JsonRpcPeek
named_peek method none = none
named_peek method (some name) =
    if starts_with "=?" name
    then none
    else some (record { method = method; params = some (record { name = some name }) })

abbrev pub peek_body_limit : ℕ
peek_body_limit = 16 * 1024

module _ (wire : Wire) where
  -- `JsonRpcPeek::from_headers`
  unfoldable pub from_headers : HeaderMap → Option JsonRpcPeek
  unfolding named_peek
  from_headers headers = elim (to_str (lookup wire.header_mcp_method headers)) [
    | none ↦ none
    | some method ↦
        if method == tool_call_method
        then named_peek method (to_str (lookup wire.header_mcp_name headers))
        else some (record { method = method; params = none })
  ]

  unfoldable pub version_enforces : Option String → Bool
  version_enforces none = false
  version_enforces (some version) =
      contains wire.known_versions version && str_le wire.standard_headers version

  unfoldable pub standard_headers_enforced : Request → Bool
  unfolding version_enforces
  standard_headers_enforced request =
      is_post request.method
      && is_some (lookup wire.header_mcp_method request.headers)
      && version_enforces (to_str (lookup wire.header_mcp_protocol_version request.headers))

  unfoldable pub version_is_stateless : Option String → Bool
  version_is_stateless none = false
  version_is_stateless (some version) =
      contains wire.known_versions version && not (wire.has_initialize version)

  unfoldable pub uses_stateless_protocol : Request → Bool
  unfolding version_is_stateless
  uses_stateless_protocol request =
      version_is_stateless (to_str (lookup wire.header_mcp_protocol_version request.headers))

  -- `app_param_from_query(..)`
  unfoldable pub app_param_from_query : Option String → Option String
  app_param_from_query none = none
  app_param_from_query (some query) = lookup "app" (wire.parse_query query)

  -- The body is taken out of the request, and put back only when it was read and parsed.
  unfoldable pub extract_body : Request → Result JsonRpcPeek ℕ × Request
  extract_body request = elim (wire.to_bytes request.body peek_body_limit) [
    | none ↦ (err 413, record request { body = [] })
    | some bytes ↦ elim (wire.from_slice bytes) [
      | none ↦ (err 400, record request { body = [] })
      | some peek ↦ (ok peek, record request { body = bytes })
    ]
  ]
