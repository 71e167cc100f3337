-- ===== src/Lib.antt =====
-- aisphere-kit: the SDK's core logic, modelled and verified.
--
-- The kit gives a Go service its principal, its authentication, its authorization, its audit trail and
-- its permission management, with Casdoor behind them, and the start-up code that wires them together.
-- A request comes in with a bearer token (authn), which an authenticator turns into a principal that is
-- put into the context (principal); a guard (access) asks an authorizer (authz) and records an audit
-- event (audit); permission managers keep policies that an adapter (casdoor) stores on a server, with
-- every remote call retried (retry); sessions and locks live in Redis (session, cache); and the starter
-- builds all of this from a configuration and closes it again.
--
-- Which file models which part, with the paths of the sources from the repository's root:
--   * Base and the files under Base/: what the Go code uses of its language and standard library:
--     strings as lists of code points (Strings), errors with errors.Is and Error() (Failures), functions
--     with effects as `W → Result A × W` for a world `W` (Effects), times and durations (Clock);
--     firstNonEmpty, of which several packages have a copy, is first_non_empty.
--   * Context: context.Context with its private keys. Cancellation is three functions on the world: the
--     poll of Done, a wait against Done, and the race of a goroutine against Done.
--   * Principal/Defs, Principal/Lookup: principal/principal.go.
--   * Authz: authz/authz.go (Require, RequirePrincipal). Authn: authn/authn.go (ExtractBearer,
--     AuthenticateToken). Audit: audit/audit.go (Normalize, Record, Merge).
--   * Retry: retry/retry.go (NewPolicy, NewPolicyFromStrings, Do).
--   * Permission: permission/permission.go (NormalizeGrant, NormalizeShare, the role mapper, Require).
--   * Access: access/access.go (Guard with Can, Require, Record and RequireAndAudit).
--   * Casdoor/Settings: casdoor/config.go and enforceSelectors; Casdoor/Calls: callWithContext and the
--     retried remote call; Casdoor/Policy: casdoor/policy.go, all operations; Casdoor/Identity: Ping,
--     Authenticate, Authorize and Record of casdoor/adapter.go. Casdoor/Client is the SDK, a parameter.
--   * Cache/Lock: cache/lock.go; Session: session/session.go. Cache/Redis is the Redis client, a
--     parameter, with what the code relies on as the record Store.
--     Cache/Lock/Waiting is LockWithWait, Cache/Connect is cache/redis.go, Cache/Json is cache/json.go,
--     and Cache/Keys is cache/key.go with the names of resource/resource.go.
--   * Db/Page: db/page.go (NormalizePage, ApplySort over a parameter for the query). Db/Settings and
--     Db/Connect: how db/database.go, db/mysql.go and db/postgres.go open a database; Db/Dsn: the data
--     source names of db/postgres.go; Db/Tx: db/tx.go; Db/Jsonb: db/jsonb.go.
--   * ObjectStore: objectstore/minio.go. Casdoor/Certificate: casdoor/config.go and the constructors of
--     casdoor/adapter.go; Casdoor/Oauth: casdoor/oauth.go with the requests of authn/oauth.go.
--   * Config: config/config.go, with its records in Types, mergeMap and setNested on trees in Tree,
--     applyEnv in Env, Validate in Validate, Default and Load in Load.
--   * Starter: starter/cleanup.go and NewRuntime of starter/runtime.go over parameters for its parts;
--     Starter/Kit: the parts as the packages construct them; Starter/Serve: starter/serve.go, which goes
--     from the files to the running parts. Health: health/health.go.
--   * Audit/Async: RecordAsync of audit/audit.go.
--   * Metrics: New of metrics/metrics.go, over a parameter for the registerer of Prometheus.
--   * Samples, Cache/Sample, Casdoor/Sample: test data; the modules named Tests apply the theorems to it.
--
-- A method on a pointer that may be nil takes an Option. A value that a closure of the code sets is the
-- result of a successful call. The loops are structural: the retry loop recurses on the rounds that its
-- policy leaves (attempts less one), so it needs no fuel. LockWithWait alone runs on fuel: one attempt for
-- each nanosecond of the wait and two more, since a pause takes at least a nanosecond. What another goroutine or the clock does
-- between two steps is in the world that a context's functions return; the theorems about policies
-- assume that nobody else changes the policies meanwhile (Undisturbed), and the server's promises are
-- the fields of PolicyStore. Of the database, the pools that are followed are those that GORM handed over
-- by DB: what a failed Open or DB leaves behind inside GORM is not followed.
--
-- GORM, go-redis, the MinIO and Casdoor clients, HTTP, YAML, JSON, PEM and X.509 are parameters of the
-- definitions that use them, and what the code relies on is a record of laws.
--
-- Not modelled: logging and the observations of metrics, which do not influence results, with the setup
-- of the logger; Paginate of db/page.go, which runs a query; the options of the
-- constructors; the constants of the package action.
-- The expiry of Redis keys is left out of Store: its laws are about the values that keys have now.
pub mod Base
pub mod Context
pub mod Principal
pub mod Authz
pub mod Authn
pub mod Audit
pub mod Metrics
pub mod Retry
pub mod Permission
pub mod Access
pub mod Casdoor
pub mod Cache
pub mod Session
pub mod Starter
pub mod Db
pub mod ObjectStore
pub mod Config
pub mod Health
pub mod Samples
