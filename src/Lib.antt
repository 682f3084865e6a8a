-- ===== src/Lib.antt =====
-- A model of wirefan, a WebSocket publish/subscribe server, and its correctness.
--
-- A connection subscribes to channels and publishes to them. `internal/conn` handles its messages;
-- it finds channels in a registry (`internal/registry`), joins them through `internal/hub`, checks
-- tokens with `internal/auth`, charges token buckets of `internal/ratelimit`, and sends events out
-- through `internal/fanout`, which ends in the buffers of other connections under a policy for slow
-- consumers. `internal/server` admits connections, creates and revokes keys in `internal/store`, and
-- signs tokens; a revocation reaches the open connections through the hub.
--
-- Files and code:
--   Registry, Registry/*   internal/registry: `Registry` is the interface with the laws that its
--                          clients use; SyncMap and Sharded implement it (Fnv is hash/fnv), and
--                          Equivalence compares them; Sweep.
--   Hub/Channel            internal/hub/channel.go.
--   Hub/Lifecycle          the critical sections of registry, sweep and hub as a step relation.
--   Hub/Tracking           internal/hub/hub.go: the open connections, revocation and drain.
--   Auth/*                 internal/auth; Decimal and Base64 are the parts of strconv, fmt and
--                          encoding/base64 that tokens use; Token/Reuse is about the replay cache.
--   Ratelimit              internal/ratelimit/limiter.go; Gc is its collector among the callers.
--   Fanout                 internal/fanout; Order is the step relation of publishers and workers, and
--                          Closing the wait of Close.
--   Conn/Names             the channel names of internal/conn/handler.go; Utf8 is unicode/utf8.
--   Conn/Policy            internal/conn/policy.go.
--   Conn/State             internal/conn/conn.go: a connection, and all that connections share.
--   Conn/Send              the frames that internal/conn/handler.go sends.
--   Conn/Handler           handle, handleSubscribe, handlePublish, handleUnsubscribe, and the end of
--                          Run. Below it: Subscribing and Membership (the retry loop), Effect, Cases,
--                          Checking and Handled (what a message can change), Admission, Agreement,
--                          Neighbours (what other goroutines do meanwhile), Publishing,
--                          Refusing.
--   Conn/Life              internal/conn/conn.go and pumps.go: Run and its pumps as goroutines.
--   Store, Store/*         internal/store: store.go, memory.go, migrate.go, and sqlite.go, below which
--                          Table, Simulation and Refinement compare it with memory.go; Open is NewSQLite
--                          with preflight, and Open/Dsn the URI of its connection.
--   Server/Rest            internal/server/rest.go.
--   Server/Upgrade         internal/server/upgrade.go, from the key check to the count of an address;
--                          Server/Address is the address of a client, and Server/LogValue its log lines.
--   Server/Life            internal/server/server.go and health.go: Run and its shutdown.
--   Cli, Cli/*             cmd/wirefan/main.go: the flags, the implementations that they choose, the
--                          admin token, and what run opens and closes.
--   Stats                  internal/hub/stats.go, and SnapshotBasic of internal/metrics/prom.go.
--   Loadtest               cmd/loadtest/main.go: the counters of a run and its exit code.
--   Prelude                numbers, tests, Go's maps and sets as lists, and strings as bytes.
--   Tests                  runs at concrete inputs.
--
-- How the code is read. A pointer to a channel is its place in a heap, so that sharing and the
-- `Deleted` mark are kept. Connections are numbers. A handler is a function from the state of the
-- whole server to the next one; where a handler leaves its locks, a function `env` stands for what
-- other goroutines do there, and the theorems say what they ask of it. Step relations take one
-- critical section as a step. Go's maps have no order; the lists that stand for them have one, and
-- no theorem depends on it. Times are numbers that are passed in. A string is a list of bytes.
--
-- Parameters, since their code is not part of the repository: the token bucket of
-- golang.org/x/time/rate (`Rate`), HMAC and SHA-256 (`Crypto`, of which only that their output is
-- bytes is asked), encoding/json and ulid (`Libs`, `Parsers`), the SQLite driver (`Engine`, whose
-- documented behaviour is `Runs`), and the texts of net/netip (`Netip`).
--
-- Bounds: the retry loop has the three rounds of the source, `drain_wait` the ticks until its context
-- ends, and the digits of a number the number as fuel, which `parse_int-format_int` shows to be enough.
-- `Run` of the server and of a connection, and the wait of a pool's Close, are given by their steps;
-- what they wait for is told to them from outside.
-- Integers of the source that are checked for 64 bits are checked in the model.
--
-- Not modelled: the frames and close handshakes on a socket, what SQLite does with a file, the routes
-- of net/http, the registration of metrics, the version texts, and the floating-point numbers of the
-- load generator.
mod Prelude
pub mod Registry
pub mod Hub
pub mod Auth
pub mod Ratelimit
pub mod Conn
pub mod Fanout
pub mod Stats
pub mod Store
pub mod Cli
pub mod Loadtest
pub mod Server
pub mod Tests
