-- ===== src/Lib.antt =====
-- A model of the Apollo MCP server, and proofs about it. The server offers the operations of a
-- GraphQL API as tools to clients that speak the Model Context Protocol. The development covers
-- the parts of crates/apollo-mcp-server and crates/apollo-mcp-registry whose decisions matter
-- most for its users: who is let in, what is served, and what the model gets to see.
--
-- Auth is the authorization of requests (crates/apollo-mcp-server/src/auth.rs and
-- crates/apollo-mcp-server/src/auth/). Scopes models scope_requirements.rs and ScopeMode: the
-- alternatives of scopes that an operation requires. Token models valid_token.rs:
-- TokenValidator::validate asks the servers in turn for the key of the token, decodes it with
-- the algorithm of the key, and compares audience and issuer. Keys models
-- networked_key_resolver.rs: the cache of keys, the slots that make concurrent callers share one
-- fetch, the rate limit, and the stale answers while an authorization server is away. SkipLists
-- models the lists of methods, tools and headers that need no token, and the peek at the request
-- that finds them. Config models enable_middleware, which checks the configuration at startup.
-- Middleware models oauth_validate, which puts all of these together for each request, and
-- EndToEnd runs it with the resolver of Keys.
--
-- Server is the life of the server (crates/apollo-mcp-server/src/server/). Events are those of
-- event.rs, Catalog models the operations of Running and their updates, Startup models
-- Starting::start, States models process_event and the loop of StateMachine::start in states.rs,
-- and Tools models what list_tools_impl of crates/apollo-mcp-server/src/server/states/running.rs
-- lists and which tool call_tool_impl runs, with and without an app. Calls models the rest of
-- call_tool_impl, which counts errors for the health check. Headers models build_request_headers
-- of crates/apollo-mcp-server/src/headers.rs and the headers function of
-- crates/apollo-mcp-server/src/operations/operation.rs, which make the headers of a request to
-- the API. Health models HealthCheck of crates/apollo-mcp-server/src/health.rs, the counter of
-- rejected calls and the task that watches it. Notifications models
-- crates/apollo-mcp-server/src/server/states/tool_list_changes.rs, the delivery of changes of
-- the catalog to a client. HostValidation models HostValidationConfig::apply_to of
-- crates/apollo-mcp-server/src/host_validation.rs.
--
-- Operations is crates/apollo-mcp-server/src/operations/. Private models private_fields.rs: the
-- tree of the fields that a document marks with `@private`, and the document without the
-- directive. Responses models the filter of responses in the same file, and what
-- Executable::execute of crates/apollo-mcp-server/src/graphql.rs shows to the model. A document
-- is the tree of its selections with the names of their directives. The response of the API is a
-- tree of JSON values.
--
-- TreeShake is the tree shaker of crates/apollo-mcp-server/src/schema_tree_shake.rs, which cuts
-- a GraphQL schema down to what an operation needs. Syntax has the schemas and documents it
-- reads, Shaker its state, TreeShake itself the functions from retain_directive to retain_type,
-- and Shaken its construction, retain_operation and shaken, whose result is a document that
-- apollo-compiler turns back into a schema. Extends, Marking, Reaches, Followed, Items,
-- Fragments, Closed, Defined, Resolved and Whole show what a run retains. Ends, Total, Spread,
-- Selected and Terminating show that it ends, and Operation puts both together. Circular and
-- Inline are about two kinds of fragments. As in the source, the directives of arguments and the
-- directives of the schema definition are not followed; the interfaces that a type implements,
-- which the source copies and does not follow either, are left out of the types. A type
-- reference is reduced to its innermost named type.
--
-- Uplink is the client of Apollo Uplink in crates/apollo-mcp-registry/src/uplink.rs: the
-- endpoints with their two strategies, fetch, and the loop of
-- stream_from_uplink_transforming_new_response. Rotation is about one fetch, Polling about the
-- loop.
--
-- State and operations. A function that changes shared state takes the state and returns it:
-- oauth_validate and validate thread the state of any key resolver, and resolve_key threads a
-- World, the resolver's state with the time. Tasks that interleave are the steps of the relation
-- Step in Keys, and a caller that waits for a shared fetch sees whatever state these steps have
-- reached. The state machine of the server reads a list of arrivals in the order in which the
-- merged streams deliver them; the clones of a running server share their cells, so they are one
-- record. Errors are values of Result and Option. Headers, scopes and claims are association
-- lists and lists of strings, and header names are taken in lower case as the HTTP library gives
-- them.
--
-- Bounds. The counter of rejections wraps at 2^64, as the atomic does on a 64-bit machine. The
-- walk through fragments takes fuel, one round for each fragment of the document, which
-- Operations/Private/Fuel proves to be enough. retain_type takes fuel, one unit for each call
-- that is open; the fuel of Operation counts the types of the schema and the operation's
-- selections. The depth limit is a usize whose decrement wraps as in a release build. No other
-- function needs fuel: the loops run over the servers, the well-known addresses, the operations,
-- the selections or the arrivals. The peek reads a body of at most 16 KiB, as the source does,
-- and times are natural numbers whose subtraction stops at zero as Instant::elapsed does.
--
-- Parameters. The JWT library, the parsers of URLs, the readers of bodies and JSON, the network,
-- the compilers of schemas and of single operations, the loaders of files, the Rhai engine and
-- the transports are records of functions, and theorems state what they assume of them. Values
-- that the server only carries, such as apps, prompts and the search index, are abstract.
--
-- Not modelled. The compilation of one GraphQL operation into a tool, the execution of tools,
-- the search index, the pollers of collections and manifests, apps, prompts, Rhai scripts, CORS,
-- and telemetry. Listeners and routers are part of the parameter serve, and the text of HTTP
-- responses is reduced to their kind and the challenged scopes. The failure of build_client,
-- which reads the TLS certificates in enable_middleware, and the panic of HealthCheck::new on a
-- sampling interval of zero are not modelled either.
pub mod Prelude
pub mod Auth
pub mod Server
pub mod Operations
pub mod TreeShake
pub mod Uplink
