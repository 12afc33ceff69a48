-- ===== src/Server/Headers/Tests.antt =====
-- Tests of the headers of a request, and their theorems at concrete inputs.
use apollo_mcp_server.Prelude.{
  ◌≡◌, refl, true, false, Option, none, some, List, [], ◌∷◌, String, find, discard, assign, ◌==◌,
  if◌then◌else◌,
}
use apollo_mcp_server.Auth.Token.{ValidToken}
use apollo_mcp_server.Server.Headers.{
  HeaderLib, names, is_hop_by_hop, forward_headers, build_request_headers, operation_headers,
}
use apollo_mcp_server.Server.Headers.Chosen.{first_of, only_if, is_name, is_forwarded, chosen}
use apollo_mcp_server.Server.Headers.Overridden.{operation_headers-find}

abbrev lib : HeaderLib String
lib = record {
  from_str = λ name.
      if name == "X-Trace" then some "x-trace" else if name == "a b" then none else some name;
  bearer = λ token. token;
}

abbrev static_headers : List (String × String)
static_headers = ("authorization", "static") ∷ ("te", "gzip") ∷ []

abbrev incoming : List (String × String)
incoming =
    ("authorization", "client")
    ∷ ("te", "trailers")
    ∷ ("x-trace", "7")
    ∷ ("mcp-session-id", "s1")
    ∷ []

abbrev forwarded : List String
forwarded = "X-Trace" ∷ "a b" ∷ "te" ∷ []

abbrev token : ValidToken
token = record { token = "ann"; scopes = [] }

headers_open : Unit {0}
unfolding is_hop_by_hop forward_headers build_request_headers find discard assign
headers_open = tt

builds :
    (build_request_headers lib static_headers forwarded incoming (some token) false
      ≡ ("mcp-session-id", "s1")
        ∷ ("authorization", "ann")
        ∷ ("x-trace", "7")
        ∷ ("te", "gzip")
        ∷ [])
    × (build_request_headers lib static_headers forwarded incoming (some token) true
        ≡ ("mcp-session-id", "s1")
          ∷ ("x-trace", "7")
          ∷ ("authorization", "static")
          ∷ ("te", "gzip")
          ∷ [])
unfolding headers_open
builds = (refl, refl)

-- An operation with its own `authorization`.
abbrev own : Option (List (String × String))
own = some (("authorization", "operation") ∷ ("x-source", "collection") ∷ [])

operation_headers-find_example :
    find names
      (operation_headers own
        (build_request_headers lib static_headers forwarded incoming (some token) false))
      "authorization"
    ≡ some "operation"
unfolding headers_open first_of only_if is_name is_forwarded chosen
operation_headers-find_example =
    operation_headers-find lib own static_headers forwarded incoming (some token) false
      "authorization" (refl, (refl, tt))
