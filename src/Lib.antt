-- ===== src/Lib.antt =====
-- Verification library of go-rpc-gateway, a gateway in front of gRPC services. It models the parts
-- of the gateway that decide whether a request reaches its handler: the circuit breakers, the rate
-- limiters, the whitelist, the replay checks (timestamp and nonce), the signature check and the
-- security checks (CORS, CSRF, protected paths); the values that go with a request through the
-- gateway to the services behind it; the path normalizer that gives the metrics their labels; and
-- the application errors that a refused or failed request turns into. Beside the requests stand the
-- start and the stop of the gateway's parts, the health of the services that it calls, how it finds
-- these services and makes HTTP routes for them, and the object store that it embeds.
--
-- A request passes HTTP middlewares. The request context middleware fills in the values that the
-- later ones read, and the interceptors of gRPC carry them on as metadata. The breaker middleware
-- asks the manager for the breaker of the path, the rate limiter looks for a rule and asks the
-- limiter of its strategy, the replay and signature checks look at values of the request's context.
-- Each answers with an application error or calls the next handler, which here is an outcome.
--
-- Files and the code they model:
--   Breaker                  breaker/breaker.go: a method that writes through the pointer returns the
--                            new record; `State`, `New`, `Allow`, `RecordSuccess`, `RecordFailure`,
--                            `transitionTo`, `GetState` and `Reset` keep their names
--   Breaker/Events           calls of a breaker as events, and their runs
--   Breaker/Contract         a reference machine of three phases, on natural numbers
--   Breaker/Refinement, Breaker/Behaviour, Breaker/Diagram    proofs about runs of a breaker
--   Breaker/Interleaving     `Allow` as two atomic halves, with other goroutines between them
--   Breaker/Manager          breaker/manager.go: the map from paths to breakers is an association list
--   Breaker/Middleware       breaker/middleware.go and middleware/breaker.go
--   RateLimit/Config         the fields of package go-config that the rate limiter reads
--   RateLimit/TokenBucket    middleware/ratelimit.go: `TokenBucketLimiter`; Wrapping, Bounds, Refill
--                            and Loop hold the proofs
--   RateLimit/FixedWindow    middleware/ratelimit.go: `FixedWindowLimiter`
--   RateLimit/SlidingWindow  middleware/ratelimit.go: `SlidingWindowLimiter`, the script in Redis
--   RateLimit/Strategies     middleware/ratelimit.go: the map from strategies to limiters
--   RateLimit/Rules          middleware/ratelimit.go: `getRuleAndKey`
--   RateLimit/Decisions      middleware/ratelimit.go and middleware/dynamic.go: `getDecisions`,
--                            `normalizeDecisions`, `allowRequests` and `Middleware`
--   Whitelist                middleware/whitelist.go: rules and manager; Builder: `RuleBuilder` and
--                            `CommonRules`
--   Replay                   middleware/timestamp.go and middleware/nonce.go
--   RequestContext           middleware/request_context.go: Fields (the struct and constants/metadata.go),
--                            Context (`GetRequestCommonMeta` and the store of structs), Setters and
--                            Getters (the functions `With...` and `Get...`, with
--                            middleware/scope_reader.go), Metadata (`enrichContextFromMetadata`,
--                            `injectTraceToOutgoingContext`), Http (`RequestContextMiddleware`);
--                            Laws, Hop and Gateway hold the proofs
--   Security                 middleware/security.go: Cors, Csrf and Protection, with Laws each
--   Signing                  middleware/signature.go and the provider of middleware/dynamic.go; Laws
--                            and Replays hold the proofs
--   Startup                  global/initializer.go: the chain of initialisers; Defaults: those of the
--                            gateway
--   GrpcHealth               cpool/grpc/health.go: the health of the services behind the gateway
--   Discovery                cpool/grpc/auto_register.go and cpool/grpc/client.go: Connections (the
--                            pool), Reflection (what a server answers), Files (the proto files),
--                            Routes and Registration (the HTTP routes), Handler (the handler of a
--                            route), AutoRegister (the whole); beside each, its proofs
--   ResponseWriter           middleware/response_writer.go: the pooled response writer
--   Storage                  cpool/oss/boltdb.go: the object store in a BoltDB file
--   PathNormalizer           middleware/path_normalizer.go; Bounds, Learning and Variation hold the
--                            proofs
--   Errors                   errors/error.go and errors/code.go: the codes, the three tables and the
--                            operations of `AppError`
--   Prelude                  lists, signed integers, machine words, decimal numerals, dictionaries
--   Tests                    runs on concrete inputs
--
-- Numbers and bounds: an int32 or int64 counter wraps around as the machine does, and so does
-- every product and sum of the token bucket. Thresholds and rule fields are signed integers. A
-- theorem that needs a number not to wrap says so: fewer than 2 ^ 31 calls for the int32 counters
-- of a breaker, times below 2 ^ 63 nanoseconds or 2 ^ 62 seconds. Error codes are natural numbers,
-- as all declared ones are. The decimal numeral of n has the fuel n + 1, and a digit less to write
-- at each step; the passes over the proto files have as fuel one more than there are files, and
-- every pass but the last registers one. The loop of the token bucket takes the list of what other
-- goroutines do in its rounds, and ends with a round in which they do nothing.
--
-- Of other packages the models take parameters: the order functions of mathx, the path, method and
-- address matchers, `filepath.Match`, the text of a duration, the integer parser, and the Redis
-- commands INCR and EXPIRE with their documented behaviour, the values of a context and the
-- metadata of gRPC with the laws of lookup and join, the escape of a query text with its inverse,
-- the hash, signature and base64 functions, the sort of the initialisers, a BoltDB file with the
-- laws of its reads and writes, the registry of proto files with the law of what it takes, the
-- mux, the rounding of Lua's numbers, and the messages of gRPC with the laws of what a parameter
-- fills in. The clock is an argument, read once by each operation.
--
-- Not modelled: the reset of the sliding window limiter, which is a script in Redis; logging and
-- statistics for display; the bodies of the middlewares' answers; the goroutines of tickers, of which one tick or a
-- list of ticks is modelled; the opening and closing of the BoltDB file; the memory model below
-- atomic operations and locks; the parts of the gateway that start servers; and the connections to
-- other stores than these. The goroutines of a discovery and of a registration run one after
-- another, in any order; which names the unguarded append of `initAllConnections` loses, when it
-- races with those of the goroutines, is an argument. The handlers of the breaker's middlewares
-- return.
pub mod Prelude
pub mod Breaker
pub mod RateLimit
pub mod Whitelist
pub mod Errors
pub mod Replay
pub mod Signing
pub mod Startup
pub mod Storage
pub mod ResponseWriter
pub mod GrpcHealth
pub mod Discovery
pub mod Security
pub mod RequestContext
pub mod PathNormalizer
mod Tests
