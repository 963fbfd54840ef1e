-- ===== src/Service/Serve.antt =====
-- serve of cmd/analytics/main.go: main's goroutine, those of the ingest client, of the retention
-- runner and of the HTTP server, and what the environment does, one event at a time. Logging, the
-- tracer provider and stop(), the signal handler's release, are left out.
pub mod Shutdown
pub mod Progress
use devops_demo.Base.{
  ℕ, zero, suc, ◌+◌, Bool, true, false, ◌&&◌, ◌||◌, Option, none, some, List, [], ◌∷◌, nat_eq,
  if◌then◌else◌,
}
use devops_demo.Store.Connect.{
  Attempt, Connection, connected, interrupted, exhausted, Pools, connect,
}

pub data Goroutine : Type 0 where
  not_started running finished : Goroutine

-- ListenAndServe: `failed` has put its error on errCh, `shut` has returned ErrServerClosed.
pub data Listener : Type 0 where
  idle listening failed shut : Listener

-- The case that the select took.
pub data Reason : Type 0 where
  signal_received server_failed : Reason

-- Where main's goroutine is: `unwinding` has run its return statement and not yet the deferred calls.
pub data Point : Type 0 where
  connecting migrating selecting : Point
  awaiting_ingest : Reason → Point
  awaiting_retention : Reason → Point
  shutting_down : Point
  unwinding : ℕ → Point
  exited : ℕ → Point

pub data Pool : Type 0 where
  unopened opened closed : Pool

-- `signaled`: ctx is done. `in_flight`: the requests whose handlers have not returned.
pub record Service : Type 0 where
  pub point : Point
  pub signaled : Bool
  pub pool : Pool
  pub ingest : Goroutine
  pub ingest_canceled : Bool
  pub retention : Goroutine
  pub retention_canceled : Bool
  pub listener : Listener
  pub in_flight : ℕ

pub data Event : Type 0 where
  -- the environment: SIGINT or SIGTERM, an error of ListenAndServe, a request and its reply
  signal listener_fails request_begins request_ends : Event
  -- store.Connect and store.Migrate return
  connects : (ℕ → Attempt) → Event
  migrates : Bool → Event
  -- the select takes a case
  selects : Reason → Event
  -- Client.Run and Runner.Run return, and their channels are closed
  ingest_returns retention_returns : Event
  -- <-ingestDone and <-retentionDone
  ingest_done retention_done : Event
  -- httpSrv.Shutdown returns, with no error or with that of its 10 seconds
  shutdown_returns : Bool → Event
  -- the deferred calls
  unwinds : Event

abbrev pub initial_service : Service
initial_service = record {
  point = connecting;
  signaled = false;
  pool = unopened;
  ingest = not_started;
  ingest_canceled = false;
  retention = not_started;
  retention_canceled = false;
  listener = idle;
  in_flight = 0;
}

unfoldable pub has_exited : Point → Bool
has_exited (exited code) = true
has_exited _ = false

unfoldable pub on_connected : Connection → Service → Service
on_connected (connected k) s = record s { point = migrating; pool = opened }
on_connected interrupted s = record s { point = unwinding 1 }
on_connected (exhausted n last) s = record s { point = unwinding 1 }

unfoldable pub on_connects : Point → Connection → Service → Option Service
unfolding on_connected
on_connects connecting c s = some (on_connected c s)
on_connects _ c s = none

-- After the migrations come the three go statements.
unfoldable pub on_migrates : Point → Bool → Service → Option Service
on_migrates migrating true s =
    some
      (record s { point = selecting; ingest = running; retention = running; listener = listening })
on_migrates migrating false s = some (record s { point = unwinding 1 })
on_migrates _ b s = none

unfoldable pub is_listening : Listener → Bool
is_listening listening = true
is_listening _ = false

unfoldable pub is_failed : Listener → Bool
is_failed failed = true
is_failed _ = false

-- What a case of the select waits for.
unfoldable pub is_ready : Reason → Service → Bool
unfolding is_failed
is_ready signal_received s = s.signaled
is_ready server_failed s = is_failed s.listener

-- Both cases go on with cancelIngest() and cancelRetention().
unfoldable pub on_selects : Point → Reason → Service → Option Service
unfolding is_ready
on_selects selecting r s =
    if is_ready r s
    then some
        (record s { point = awaiting_ingest r; ingest_canceled = true; retention_canceled = true })
    else none
on_selects _ r s = none

-- ingestCtx and retentionCtx are children of ctx; Run returns only when its context is done.
unfoldable pub on_ingest_returns : Goroutine → Service → Option Service
on_ingest_returns running s =
    if s.ingest_canceled || s.signaled then some (record s { ingest = finished }) else none
on_ingest_returns _ s = none

unfoldable pub on_retention_returns : Goroutine → Service → Option Service
on_retention_returns running s =
    if s.retention_canceled || s.signaled then some (record s { retention = finished }) else none
on_retention_returns _ s = none

unfoldable pub on_ingest_done : Point → Goroutine → Service → Option Service
on_ingest_done (awaiting_ingest r) finished s = some (record s { point = awaiting_retention r })
on_ingest_done _ g s = none

unfoldable pub on_retention_done : Point → Goroutine → Service → Option Service
on_retention_done (awaiting_retention signal_received) finished s =
    some (record s { point = shutting_down })
on_retention_done (awaiting_retention server_failed) finished s =
    some (record s { point = unwinding 1 })
on_retention_done _ g s = none

-- Shutdown closes the listener, and returns nil when no handler is left.
unfoldable pub on_shutdown : Point → Bool → Service → Option Service
on_shutdown shutting_down true s =
    if nat_eq s.in_flight 0 then some (record s { point = unwinding 0; listener = shut }) else none
on_shutdown shutting_down false s = some (record s { point = unwinding 1; listener = shut })
on_shutdown _ b s = none

unfoldable pub close_pool : Pool → Pool
close_pool opened = closed
close_pool unopened = unopened
close_pool closed = closed

-- cancelRetention, cancelIngest and pool.Close.
unfoldable pub on_unwinds : Point → Service → Option Service
unfolding close_pool
on_unwinds (unwinding code) s = some (record s {
  point = exited code;
  pool = close_pool s.pool;
  ingest_canceled = true;
  retention_canceled = true;
})
on_unwinds _ s = none

unfoldable pub on_request_ends : ℕ → Service → Option Service
on_request_ends zero s = none
on_request_ends (suc n) s = some (record s { in_flight = n })

-- `none` for an event that cannot happen in this state.
unfoldable pub react : Event → Service → Option Service
unfolding on_connects on_migrates is_listening on_selects on_ingest_returns on_retention_returns
    on_ingest_done on_retention_done on_shutdown on_unwinds on_request_ends
react signal s = some (record s { signaled = true })
react listener_fails s =
    if is_listening s.listener then some (record s { listener = failed }) else none
react request_begins s =
    if is_listening s.listener then some (record s { in_flight = s.in_flight + 1 }) else none
react request_ends s = on_request_ends s.in_flight s
react (connects env) s = on_connects s.point (connect env 10).0 s
react (migrates b) s = on_migrates s.point b s
react (selects r) s = on_selects s.point r s
react ingest_returns s = on_ingest_returns s.ingest s
react retention_returns s = on_retention_returns s.retention s
react ingest_done s = on_ingest_done s.point s.ingest s
react retention_done s = on_retention_done s.point s.retention s
react (shutdown_returns b) s = on_shutdown s.point b s
react unwinds s = on_unwinds s.point s

-- The process is gone once serve has returned.
unfoldable pub step : Event → Service → Option Service
unfolding has_exited react
step e s = if has_exited s.point then none else react e s

unfoldable pub and_then : (Service → Option Service) → Option Service → Option Service
and_then f none = none
and_then f (some s) = f s

unfoldable pub serve : List Event → Service → Option Service
unfolding step and_then
serve [] s = some s
serve (e ∷ events) s = and_then (serve events) (step e s)
