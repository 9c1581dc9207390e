-- ===== src/Lib.antt =====
-- Zorch, a gateway in front of providers of language models: authentication, scripts, limits and
-- governance of the requests, and their routing to the providers' backends.
--
-- How the parts interact: the authentication middleware finds the key of a request and tests its
-- access window. The handler runs the scripts of the first phase on the body, extracts the model,
-- resolves it to targets, and asks the pipeline, which tests the shared rate limit, the limits of the
-- key and the governance of the key. The scripts of the second phase follow. Then the targets are
-- tried by priority: a backend of the target's pool that the circuit breaker calls healthy, from the
-- key that the sticky cache prefers on through all keys of the backend, each with the retries of the
-- HTTP client. The answer is recorded: its usage is read, priced, logged and counted towards the
-- budget; of a stream a task waits for the usage. The administrator creates and changes
-- the keys and the prices, and the providers are loaded again after a change.
--
-- Files, with the sources under crates/:
--   Gateway/CircuitBreaker: zorch-gateway/src/circuit_breaker.rs; Circuit is one backend's circuit.
--     A history is a list of calls; the lock of the map makes each call one step.
--   Gateway/SlidingWindow, Gateway/RateLimit: rate_limit.rs, and the window that it shares with
--     Gateway/KeyLimits: key_limits.rs.
--   Gateway/Governance: governance.rs. Gateway/Pipeline: pipeline.rs, and the configuration that
--     zorch-api/src/routes/v1/proxy/governance.rs gives it. Gateway/AccessWindow: access_window.rs.
--     Gateway/Pricing: pricing.rs. Gateway/Billing: billing.rs.
--   Gateway/Middleware: zorch-gateway/src/middleware; the file itself types.rs, Runtime
--     rhai_runtime.rs, Engine engine.rs, Audit audit.rs.
--   Providers/Errors, Providers/HttpClient, Providers/AuthHeaders, Providers/Proxy,
--     Providers/Registry, Providers/ModelResolver: the files of zorch-providers/src, Registry with
--     selector.rs.
--   Cache/StickyTargetKey: zorch-cache/src/sticky_target_key_cache.rs.
--   Api/Auth: zorch-api/src/middleware/auth.rs.
--   Of zorch-api/src/routes/v1/proxy: Api/Request and Api/Headers request.rs; Api/Body the bodies of
--     request.rs, model.rs and mod.rs; Api/Usage usage.rs; Api/Routing the functions
--     resolve_sticky_target_key and try_target_pool of mod.rs; Api/Handler its proxy_handler;
--     Api/Models its routes of the models.
--   Api/Loading: zorch-api/src/server/providers.rs.
--   Api/Prices: zorch-api/src/routes/admin/pricing.rs.
--   Api/ApiKeys: zorch-api/src/routes/admin/api_keys.rs, with validate_tags of
--     zorch-shared/src/types.rs.
--   Shared: zorch-shared/src/errors.rs, zorch-shared/src/crypto.rs (Crypto), f64 (Float), texts and
--     lines, the arguments of SQL statements, and actions with a state and an error.
--   External/Redis: the server behind the redis crate, with its laws and an instance in memory.
--   External/Serde: serde_json, with its laws; External/Json is an instance.
--   Prelude: names of the libraries, lists, maps, equality tests and integers.
--
-- State is passed explicitly: a method of a limiter or of the cache is an action on the server's
-- state, which keeps what was done before an error. What is not in the repository is a parameter:
-- the Redis server, the network, the clock, the random numbers, the database, header maps, JSON
-- values, the script language, the time-zone database, digests, ciphers and the arithmetic of f64.
-- Laws on them are hypotheses, and the Examples modules give instances that meet them.
--
-- Integers: u32 counters wrap at 2 ^ 32; the delays of the HTTP client saturate at 2 ^ 64; i32 and
-- i16 columns are cast as the source casts them, tokens of a response are cast to u32, latencies to
-- i32, the status of a block to u16. Times are natural numbers: milliseconds for the breaker, the
-- routing and the streams, seconds for the limiters. The subtraction of the naturals stops at zero
-- as saturating_sub and elapsed do.
--
-- Loops: the retries recurse on the rounds that are left, max_retries + 1 at the start; the failover
-- of a provider on the keys that are left; the attempts on a pool on max_attempts less the attempts
-- made; the scripts, the targets and the groups of equal priority on what is left of their lists. No
-- loop has other fuel, and none can stop before the source does.
--
-- Streams: the polls of the body, its drop and the wakings of the task come in any order, each with
-- its time; the channel between them has one place.
--
-- Not modelled: the listings of keys and prices and the other admin routes, which are SQL, the
-- set-up of the server, telemetry, the inspector and the admin application. Interleavings of two
-- requests between two commands of one check are not modelled either. One reading of the clock
-- stands for the two of a health check, and the ten seconds that the task of a stream waits count
-- from the creation of the stream, where the source counts from the first poll of the task. In the
-- handler the building of a response from a valid status is taken not to fail, and the headers
-- that a script sets come in the order of a list.
pub mod Prelude
pub mod Shared
pub mod External
pub mod Cache
pub mod Providers
pub mod Gateway
pub mod Api
