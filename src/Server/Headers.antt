-- ===== src/Server/Headers.antt =====
-- The headers of a request to the GraphQL API: crates/apollo-mcp-server/src/headers.rs, and the headers of an
-- operation, which crates/apollo-mcp-server/src/operations/operation.rs puts over them. A map of headers has
-- its names in lower case, as the HTTP library keeps them.
pub mod Chosen
pub mod Overridden
mod Tests
use apollo_mcp_server.Prelude.{
  ◌≡◌, Bool, true, false, not, ◌&&◌, Option, none, some, List, [], ◌∷◌, String, KeyEq, find, assign,
  is_empty, contains, ◌==◌, eq_iff, if◌then◌else◌,
}
use apollo_mcp_server.Auth.Token.{ValidToken}

-- `HeaderName::from_str`, which gives the name in lower case, and the value of an `Authorization` header
-- with a bearer token.
pub record HeaderLib (Value : Type 0) : Type 0 where
  pub from_str : String → Option String
  pub bearer : String → Value

abbrev pub names : KeyEq String
names = record { same = λ a b. a == b; same_iff = eq_iff }

abbrev pub hop_by_hop : List String
hop_by_hop =
    "connection" ∷ "keep-alive" ∷ "proxy-authenticate" ∷ "proxy-authorization" ∷ "te" ∷ "trailers"
    ∷ "transfer-encoding" ∷ "upgrade" ∷ "content-length" ∷ []

unfoldable pub is_hop_by_hop : String → Bool
is_hop_by_hop name = contains hop_by_hop name

abbrev pub session_id_header : String
session_id_header = "mcp-session-id"

abbrev pub authorization_header : String
authorization_header = "authorization"

module _ {Value : Type 0} (lib : HeaderLib Value) where
  pub forward_named :
      Option String → List (String × Value) → List (String × Value) → List (String × Value)
  forward_named none incoming outgoing = outgoing
  forward_named (some name) incoming outgoing = elim (find names incoming name) [
    | none ↦ outgoing
    | some value ↦ if is_hop_by_hop name then outgoing else assign names outgoing name value
  ]

  unfoldable pub forward_headers :
      List String → List (String × Value) → List (String × Value) → List (String × Value)
  unfolding forward_named
  forward_headers [] incoming outgoing = outgoing
  forward_headers (header ∷ headers) incoming outgoing =
      forward_headers headers incoming (forward_named (lib.from_str header) incoming outgoing)

  pub pass_token : Bool → Option ValidToken → List (String × Value) → List (String × Value)
  pass_token true extension headers = headers
  pass_token false none headers = headers
  pass_token false (some token) headers =
      assign names headers authorization_header (lib.bearer token.token)

  pub pass_session : Option Value → List (String × Value) → List (String × Value)
  pass_session none headers = headers
  pass_session (some session_id) headers = assign names headers session_id_header session_id

  unfoldable pub build_request_headers :
      List (String × Value)
      → List String
      → List (String × Value)
      → Option ValidToken
      → Bool
      → List (String × Value)
  unfolding forward_headers pass_token pass_session
  build_request_headers static_headers forward_header_names incoming extension
        disable_auth_token_passthrough =
      pass_session (find names incoming session_id_header) (
        pass_token disable_auth_token_passthrough extension
          (forward_headers forward_header_names incoming static_headers))

module _ {Value : Type 0} where
  -- The loop over the operation's own headers.
  unfoldable pub insert_headers :
      List (String × Value) → List (String × Value) → List (String × Value)
  insert_headers [] headers = headers
  insert_headers ((key, value) ∷ raw_headers) headers =
      insert_headers raw_headers (assign names headers key value)

  -- `Executable::headers` of an operation
  unfoldable pub operation_headers :
      Option (List (String × Value)) → List (String × Value) → List (String × Value)
  operation_headers none default_headers = default_headers
  operation_headers (some raw_headers) default_headers =
      if is_empty default_headers then raw_headers else insert_headers raw_headers default_headers
