-- ===== src/Lib.antt =====
-- pingora-reverse-proxy: a dynamic HTTP and WebSocket reverse proxy with an API that is compatible
-- with configurable-http-proxy. This library models the parts of its crate (src/) that decide what
-- is served.
--
-- The parts and how they interact. A request's path is resolved on an immutable snapshot of the
-- routes, its target is parsed and its headers are rewritten for the upstream server, and the
-- activity of its route is recorded. Mutations of the routes are tasks that write the store first,
-- then publish a new snapshot; a store result that cannot be known stops the whole registry.
--
-- Which file models which code:
--   Route             src/route.rs: `RouteKey::parse`, `RouteData`; `segments` of src/route_table.rs.
--   Store             src/store/mod.rs: the `Store` trait as a record of operations on a state.
--   Store/Memory      src/store/memory.rs, every operation.
--   Store/Redis, Redis/Script, Redis/Update, Redis/Keys, Redis/Load
--                     src/store/redis.rs, every operation.
--   Store/Sidecar, Sidecar/Request, Sidecar/Mutation, Sidecar/Segment, Sidecar/Decode,
--   Sidecar/Operations, Sidecar/Update, Sidecar/Connect
--                     src/store/sidecar.rs, every operation.
--   Store/Contract    what the documentation of the trait promises of a store.
--   Store/Exact       what each operation of the memory store does to the map.
--   RouteTable/Ordered, Trie, Snapshot
--                     src/route_table.rs: `OrderedRoutes`, `Node`, `RouteSnapshot`.
--   RouteTable/Tracker, Tracker/Drain
--                     src/route_table.rs: `MutationTracker`, its seals, the diagnostic ring, the drain.
--   RouteTable/Registry, Registry/Run, Registry/Steps
--                     src/route_table.rs: `RouteRegistry`, `run_mutation`, and their interleavings.
--   Activity, Activity/Worker, Activity/Steps
--                     src/activity.rs: `ActivityWriter`, the worker's rounds, the interleavings.
--   Upstream, Upstream/Paths, Upstream/Headers, Upstream/Forwarded, Upstream/Location
--                     src/upstream.rs: `Target`, `url_join`, `percent_decode`, the header policy,
--                     `rewrite_location`.
--   Errors, Errors/Resolver
--                     src/errors.rs: the statuses, `encode_uri_component`, `ResolverCache`, its worker.
--   Api               src/api.rs: `authorized` and `extract_token`.
--   Api/Requests, Api/State, Api/Handlers
--                     src/api.rs: paths and queries, the router and its handlers.
--   Config, Config/Values, Config/Runtime, Config/Load
--                     src/config.rs: the options, their validation and `AppConfig::try_from`.
--   Metrics, Metrics/Render
--                     src/metrics.rs, every operation.
--   Prelude, Map      what the code uses of the standard library: texts as bytes, `Result`, and
--                     `BTreeMap` as a sorted association list.
--   Tests             runs on concrete inputs.
-- The other modules hold proofs; each says which.
--
-- How state and operations correspond. A struct is a record with the source's field names, an enum
-- a data type with its variants in lower case, a function or method the function of the same name.
-- A method that changes its receiver takes the state and gives the new one. A block that holds a
-- lock, or one successful compare-and-swap, is one step; what other tasks do between two steps is
-- a step relation (Steps), or for the compare-and-swap loops a list of the snapshots that the others
-- publish meanwhile, and for a drain a list of what they do to the tracker while it waits. A panic that the code catches is the outcome `panicked` of a store call; a
-- failed `expect` is a value of its own (`broken` of Activity/Worker).
--
-- Bounds. A `usize` or `u64` counter keeps the saturation, the wrap-around or the failed
-- `checked_add` of the source; Activity/Steps counts observations without the limit of 2^64, at
-- which `record_at` panics. Nothing runs on fuel but the five digits of a `u16`: the loops over
-- texts and lists are structural, and waiting loops take the list of their wake-ups. Instants are
-- numbers of a clock's ticks.
--
-- Parameters. The stores of the registry are any `Store` that keeps the contract; the extension
-- fields of a route are any type; `HeaderMap` is any implementation of the record HttpHeaders, whose
-- laws are reads after writes; a `Url` is what the code reads of it, and for `rewrite_location` any
-- implementation of UrlCrate; the UTF-8 decoder and the constant-time comparison of Api are functions.
-- A Redis server is any record of the store's commands, whose laws say what each command does to the
-- watched hash while other clients write, and serde_json and chrono a record of functions; a deadline
-- is the number of its checks that pass. An activity floor is what its calls during an operation
-- return, by their number. A sidecar is any record of a request's possible answers, whose laws
-- are those of docs/sidecar-store.md; a received header map and a response are what the code reads of
-- them. Durations of the metrics are any type with a sum, an order and a text. The management API
-- gets its requests as axum's router classifies them, and the url and chrono crates are the record
-- Crates.
--
-- Not modelled: the async runtime and Pingora's server, peers and TLS; serialisation, logging and the
-- redaction of panic output; the diagnosis of JSON errors, the management API's server, the command
-- line parser, the proxy's request phases, shutdown, and the ownership of socket and PID files, which
-- are I/O or wait for a model of their own.
pub mod Prelude
pub mod Map
pub mod Route
pub mod Store
pub mod RouteTable
pub mod Activity
pub mod Api
pub mod Config
pub mod Errors
pub mod Metrics
pub mod Tests
pub mod Upstream
