-- ===== src/Lib.antt =====
-- The Go service `analytics` of devops-demo (services/analytics).
--
-- The service lands the item events of the backend in Postgres, keeps hourly counts and the current
-- state of every item, expires old raw events, and answers a small HTTP interface. A subcommand
-- fills the same tables with a synthetic history.
--
-- Parts, and the files that model them:
--   Base        Boolean tests, keys and tables (association lists by key), lists and integers over
--               the native numbers; and, of the standard library, strconv.ParseInt (Parse),
--               net.SplitHostPort (Address), %d of an int64 (Decimal), the order of
--               texts (TextOrder), how the flag package reads one argument (FlagToken) and
--               os.Getenv with a default (Environment).
--   Store       internal/store. Schema has the rows of the tables of migrations/*.sql. Session has
--               errors, statements and transactions. Ingest is IngestEvent, Batch is
--               IngestEventsBatch with foldCurrentItems (Batch.Fold), Reconcile is
--               ReconcileSnapshot, Retention is DeleteEventsOlderThan, Marker is UpsertSeedMarker
--               and GetSeedMarker, Reads is GetCurrentItem, StatsLast24h and Ping, Migrate is the
--               migration runner, Connect is Connect of pool.go. History is any sequence of the calls
--               that write; History.View is the abstract store that they implement, functions in
--               place of tables.
--   Ingest      internal/ingest. Event is handleEvent with the metrics, Watermark is
--               advanceLastEventTime under any interleaving, Persist is the loop that retries one
--               event, Client is snapshotReconcile and cycle, Backoff is backoffDuration, Reconnect
--               is Run, Settings is config.go, Trace is trace.go.
--   Seeder      internal/seeder/seeder.go: Run, with the count of an hour's events in Hours.
--   Retention   internal/retention: the job and its settings.
--   Server      internal/httpserver/server.go: the handlers, and in Routes the patterns of the mux and
--               the filter of the tracing.
--   Service     cmd/analytics/main.go: the dispatch of the subcommands; Serve is serve with its
--               goroutines, Health is healthcheck, Whole is serve with the calls
--               of the store that its goroutines make. Writes relates the parts that write to History.
--   Loadshape   internal/loadshape/loadshape.go: the rate of events, over float operations that are
--               a parameter.
--   Grafana     internal/grafana: the annotations of the seeded anomalies; Requests has the HTTP
--               requests that replace them.
--   Logging     internal/logging/logging.go: the handler that adds the trace id to each line.
--   SeedCommand cmd/analytics/seed.go: the subcommand, which calls Seeder, Retention and Store; Flags
--               is its command line, Program the whole with settings and annotations.
--   Tests       runs and examples at concrete inputs.
-- The children of a module hold its proofs, and are named for what they prove.
--
-- Faults. Postgres is not part of the repository. A session carries the tables and a script of
-- answers, one for each message (begin, statement, commit): the statement runs, it is refused
-- before any effect, or its effect stands and the acknowledgement is lost. So an error after a
-- commit that took effect is among the cases, and theorems that say nothing of the script hold for
-- all of them. A rollback restores the tables. Each transaction sees the tables alone: concurrent
-- transactions are sequences of calls. Likewise the backend, the timers and the context are scripts
-- (Ingest.Client, Ingest.Reconnect, Seeder, SeedCommand), which also bound the loops that wait for
-- them: every loop is structural, over the script, the batch or the remaining hours, and no fuel is
-- needed. Where a script ends before the loop does, the result says so (retrying, still_running,
-- looping). serve is a state and a list of events: each is a step of one of its goroutines or of the
-- environment, an event that cannot happen gives no state, and every schedule of main, the ingest
-- client, the retention runner, the HTTP server, the requests and the signals is such a list. That the
-- two runs return only once their contexts are canceled is in Ingest.Reconnect and Retention. Connect
-- takes what each attempt meets as a function of its number, and ends by itself.
--
-- Times. A Go time.Time is a count of nanoseconds since year 1, a timestamptz a count of
-- microseconds; `stamp` is the driver's encoding of the one as the other and a parameter
-- everywhere. An int64 duration has its wrap-around written out in Ingest.Backoff and, for the length
-- of the seeder's window, in Seeder.
--
-- Errors carry the texts they are wrapped in and a cause; numbers and names inside the texts are
-- left out, as are the values that Go returns beside an error.
--
-- Parameters: rand.Int64N (any function), time.ParseDuration, strconv.ParseFloat, strconv.ParseInt
-- of base 0, the generator of the seeder and the counts of its hours (record Draws; Seeder.Hours
-- has those of the load shape), what http.Client.Do gives for a request to Grafana
-- (Grafana.Requests), with what Grafana does with annotations as a hypothesis, gRPC metadata
-- (Ingest.Trace.Metadata) likewise, the handler of /metrics, what a GET of healthcheck gives, the
-- operations of a float64 (Loadshape.Floats), and the type F of a float64 that is only stored.
--
-- Not modelled: the range of the bigint counts; item_events.id and received_at and
-- event_buckets.updated_at, which nothing reads; the log lines of the other parts; the setup of
-- tracing (internal/otelsetup), which only configures a third-party package; the text of a JSON
-- body, which stands for the value that it encodes; the release of the signal handler and the
-- histogram of run times; paths that the mux redirects; that pool.Close waits for connections in
-- use; the services in other languages.
pub mod Base
pub mod Store
pub mod Ingest
pub mod Seeder
pub mod Server
pub mod Service
pub mod Retention
pub mod Tests
pub mod SeedCommand
pub mod Grafana
pub mod Loadshape
pub mod Logging
