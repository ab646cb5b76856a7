-- ===== src/Lib.antt =====
-- A distributed load testing platform in Go: a backend (backend/) that keeps test runs and their
-- shards in Postgres and publishes jobs to a Redis stream, and workers (worker/) that run the load
-- of a shard and report partial results, which the backend combines when the last shard is
-- finished.
--
-- Store models backend/internal/store/test_run_store.go: the two tables are a record, a row a
-- record, and each method of TestRunStore a function of the refusals of the database, the clock
-- and the tables. Store.Create has Create and CreateWithShards, Store.Runs has GetByID, List,
-- ClaimNext, StartByID, TakeOver, Fail, Complete, CancelRun and CountActiveRuns; Store.Shards has
-- startShard, finishShard with its barrier, CompleteShard and FailShard; Store.Columns and
-- Store.Aggregate have aggregateRun. A transaction that meets a refusal leaves the tables as they
-- were. Store.Lifecycle and its children are about the state machines of runs and shards,
-- Store.Closing about closed shards, Store.Rows about the row of a shard, Store.Completion and
-- Store.Commit about the barrier, Store.Totals about the sums, Store.Newest about the order of the
-- list.
-- Store.Histogram models backend/internal/store/histogram.go.
--
-- Models has the types of backend/internal/models/test_run.go, and Queue the stream of
-- backend/internal/queue/publisher.go. Handlers models backend/internal/handlers: Public has
-- test_runs.go, Internal has internal_api.go, Validate the validations of both; Create and Fanout
-- are about POST /test-runs, Listing about GET /test-runs. Api is the router of health.go as one function over calls;
-- Api.Lifecycle and Api.Traces are about single requests and sequences of them, Api.Retrieve about
-- created runs, Api.Once about shards that are handed out. Api.Routes has the patterns of the
-- router, and Api.Http what the backend does with a method, a path and a body. Startup models the
-- settings in backend/cmd/api/main.go, from which the handler is made; Startup.Process has the
-- start and the end of that process, with both Connect functions, and Worker.Main those of a
-- worker.
--
-- Runner models worker/internal/runner: Histogram, Stats and Run have histogram.go, stats.go and
-- runner.go; Tally and Shards are about the counters, and about cutting a run into shards. Metrics
-- has the calls of the Prometheus client, Interleaving the interleavings of what goroutines do,
-- Extremes is about the smallest and the largest latency, Counts and Gauge are about the values of
-- the metrics. Target models target/cmd/target/main.go, with the runs of Runner against it in
-- Target.Runs. Worker models worker/internal/client/client.go (Client) and the job loop of
-- worker/cmd/worker/main.go (Jobs), with its poll for cancelled runs (Watch); Calls, Replies,
-- Acks, Poison and Delivery are about what the loop does to the tables, Paths and Requests about
-- its requests, which Api.Routes and Api.Http read. Its requests go to Api over a network that may
-- lose them or their answers. Group is what the worker relies on of a Redis consumer group, with
-- Lease for the heartbeat of a running job. Reports
-- follows the latencies of the virtual users through the reports of the shards to the row of the
-- run.
--
-- System is the whole: its state is the tables and the stream, which messages are delivered,
-- acknowledged and dead-lettered, and what each worker is at; its events are users' requests, the
-- claim and the report of a worker's handleMessage, redeliveries, crashes and deadLetter, in any
-- order. System.Shards and System.Calls say what a worker's request writes, System.Jobs what the
-- stream holds, System.Kept what always holds; System.Created, System.Requests and System.Messages
-- are about why requests and workers keep it;
-- System.Safe and System.Finish draw the conclusions, and System.Steps relates the two events of a
-- worker to Worker.Jobs. The routes on whole runs that no worker calls any more are not events.
--
-- Examples has the inputs on which the theorems are tried. Common has what the others share.
--
-- An int64 counter is its bit pattern, with the wrap-around written out; an int is an integer.
-- Floats are a parameter with named laws, met by numbers in hundredths (Float). Also parameters
-- are the functions of Go's strings and net/url that rest on Unicode and URL grammar,
-- encoding/json, whose results are arguments of the handlers (in Api.Http a codec that reads back
-- what it wrote), strconv.Atoi and time.ParseDuration for the settings, the consumer group of
-- Redis, and the target with its network, which is a schedule of outcomes. A virtual user's loop
-- is structural on that schedule; its end is the end of the run. The only fuel is that of printing
-- a number, which is one more than the number.
--
-- Each call of the store is one step in Store and Api; what CountActiveRuns has read before the
-- insert of a run is given (counted), since other requests may come between the two. Store.Concurrent has the transactions of
-- finishShard statement by statement, for the shards of one run, with the row lock of the run, and
-- between them the methods that write the row of the run in one statement; claims of shards and
-- creations are not steps there. In Jobs the worker's commands to Redis are recorded, and the
-- answers of Redis are arguments. Not modelled are the registry behind /metrics, the headers of
-- answers, the limits of the connection pool and the timeouts of the servers, and the dashboard,
-- none of which holds the state of a run or a shard.
pub mod Common
pub mod Float
pub mod Models
pub mod Store
pub mod Queue
pub mod Handlers
pub mod Api
pub mod Startup
pub mod Runner
pub mod Target
pub mod Worker
pub mod System
pub mod Examples
