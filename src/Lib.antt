-- ===== src/Lib.antt =====
-- goplatform is a Go library of components for services. This development models the application
-- object that runs components and plugins, its errors, the saga runner and the Temporal client and
-- worker, the service resolver and the Consul registry, the message brokers, the PostgreSQL, Redis and
-- S3 clients, the configuration loader, the HTTP server with its middleware, the observer, the
-- scaffold and the commands of the command line.
--
-- The parts, with the Go code that each models:
--
-- - Errors: pkg/platform/errors.go. Go's error values are the data type Error: sentinels, fmt.Errorf
--   with what stands under %w, errors.Join, and the domain errors of the package. errors.Is and
--   errors.As are is and is_error, over the tree of wrapped errors. A sentinel is known by its text.
-- - App: pkg/platform/app.go, component.go, hooks.go, plugin.go. App.Registry has Register and
--   Component, App.Health has HealthCheckers, App.Run has Run: its loops are functions that return the
--   world, the calls made with their results, and a result. What a plugin's Init does with the App is
--   the data type PluginInit, which run_init interprets. Waiting for a signal is one step of the world.
--   App.Run.Releases follows a resource that a component acquires through a run; Postgres.Component is the
--   DB as such a component.
-- - Saga: pkg/workflow/saga/saga.go. Temporal is a parameter with the two operations that the code
--   uses, scheduling an activity and getting a future.
-- - Discovery: pkg/discovery/registry.go and resolver.go. Registry and clock are parameters; an update
--   from a watched service is one step.
-- - Broker: pkg/broker/broker.go. Broker.Membroker models pkg/broker/membroker/membroker.go,
--   Broker.Kafka models pkg/broker/kafka, Broker.Nats models pkg/broker/nats, and Broker.Retry is the
--   loop that the two consumers share. kafka-go's reader and writer and nats.go's connection are
--   parameters. Each consumer returns the calls that it made for a message; a Publisher that serves as
--   DLQ is a Handler. Broker.Kafka.Readers has the readers that Subscribe adds and Stop closes.
-- - Postgres: pkg/postgres. Postgres itself models tx.go, where a panic of fn is a value; Postgres.Db
--   models the options and the lifecycle of postgres.go, and Postgres.Connections says what they do
--   with pools; Postgres.Migrate models migrate.go, where a DSN is a list of bytes, and Postgres.Tracer
--   models tracer.go and hooks.go. pgx, pgxpool, golang-migrate and OpenTelemetry are parameters.
-- - Server: Server.Http models pkg/server/server.go and middleware.go. An HTTP handler is a program over
--   its ResponseWriter, of the data type Handling, so that a middleware can put its own writer in
--   between; run executes one over a connection, which is a parameter. Http.Middleware has Recovery and
--   RequestLogging, Http.Health the health endpoints, which use App.Health, and Http.Lifecycle the
--   Server, where chi is the list of the calls made on its router. Server.ErrorInterceptor models
--   pkg/server/errorinterceptor.go, which uses Errors; Server.Idempotency models
--   pkg/server/idempotency.go over a parameter Store. LawfulStore says what a store does that is
--   reached and lets nothing expire.
-- - Redis: pkg/redis/redis.go over a parameter for go-redis and one for encoding/json.
--   Redis.Idempotency makes it the store of Server.Idempotency.
-- - Config: pkg/config/loader.go over parameters for koanf and fsnotify; the events that reach Watch are
--   a list. Config.Watching has Load and the whole of Watch.
-- - Consul: pkg/discovery/consul/registry.go. A watch is the list of the replies to its queries.
-- - Workflow: pkg/workflow/client.go, types.go and worker.go, over a parameter for the Temporal SDK.
-- - S3: pkg/s3/s3.go and errors.go, over a parameter for the AWS SDK. S3.Objects states what the client
--   shows of a bucket that is consistent.
-- - Observe: pkg/observe/multihandler.go, tracehandler.go and swaphandler.go. A handler is a tree, the
--   root that swap handlers share is an argument, and the handlers of other packages are its leaves.
--   Observe.Observer has the options, Start and Stop of observer.go, Observe.New has New and the getters,
--   and Observe.Balance says which providers are shut down. Observe.Requests models middleware.go, over
--   the handlers of Server.Http, and connectinterceptor.go.
-- - Scaffold: the naming functions of internal/scaffold/scaffold.go, on ASCII characters.
--   Scaffold.Render has Render, over the list of what fs.WalkDir visits; Scaffold.Files has the runs that
--   make directories and files with an early return, which the commands share.
-- - Command: the commands of cmd/goplatform. Of the run command (run.go) the directories that it watches,
--   its runner (Command.Runner) and runDev (Command.Dev), to which what happens while it waits is a list;
--   init (Command.Init, init.go), which calls Render; up, down and create (Command.Migrations,
--   migrate.go). The watcher, the operating system and golang-migrate are parameters.
-- - Platformtest: pkg/platformtest/postgres.go, replaceDBName; Platformtest.Database has NewTestDB and its
--   cleanup. crypto/rand and database/sql are parameters.
-- - Prelude: shared names, integers, loops that count down, maps with string keys, text as bytes, and which of
--   the resources that pointers name are live (Prelude.Living).
--
-- Every operation that reads or changes something outside takes a world W and returns the next one; W
-- is a parameter everywhere. Operations run one after the other: a mutex makes each method, or each
-- piece of one between Lock and Unlock, one step. Loops are structural recursion over lists, and the
-- retry loop over the number of attempts, so no fuel is used. Go's int is the type ℤ without bounds;
-- the resolver's uint64 index wraps at 2 ^ 64. Go's maps are association lists; the order in
-- which Go iterates over them, which it leaves open, is the order of the list.
--
-- The log lines of components are left out, since they only write; those of the two HTTP middlewares are
-- modelled. Not modelled: the declarations of the commands and their flags, what they print, the logger
-- of pkg/platform, the other test helpers, mocks and generated code. They are calls of other libraries or
-- output.
mod Prelude
pub mod Errors
pub mod App
pub mod Server
pub mod Saga
pub mod Discovery
pub mod Broker
pub mod Postgres
pub mod Redis
pub mod Config
pub mod Consul
pub mod Workflow
pub mod S3
pub mod Observe
pub mod Scaffold
pub mod Command
pub mod Platformtest
