-- ===== src/Tests/Running.antt =====
-- Examples of the subcommands serve and healthcheck, and of the connection.
use devops_demo.Base.{
  ℕ, ◌≤◌, ◌≡◌, ◌⊎◌, refl, String, true, false, none, some, List, [], ◌∷◌, nat_eq, if◌then◌else◌,
}
use devops_demo.Store.Session.{is_ok, unavailable}
use devops_demo.Store.Reads.{ping}
use devops_demo.Store.Connect.{
  Attempt, ping_failed, reached, try_dial, retry_or_stop, dial_loop, connect,
}
use devops_demo.Store.Connect.Outcome.{Ended, connect-Ended}
use devops_demo.Server.{Response, text_response, Server}
use devops_demo.Server.Routes.{serve_http}
use devops_demo.Server.Routes.Dispatch.{serve_http-tables}
use devops_demo.Service.Health.{healthcheck}
use devops_demo.Service.Health.Probes.{get_from, healthcheck-ping}
use devops_demo.Service.Serve.{
  Service, Event, finished, shut, exited, closed, initial_service, signal_received, signal,
  request_begins, request_ends, connects, migrates, selects, ingest_returns, retention_returns,
  ingest_done, retention_done, shutdown_returns, unwinds, has_exited, on_connects, on_connected,
  on_migrates, is_listening, is_ready, on_selects, on_ingest_returns, on_retention_returns,
  on_ingest_done, on_retention_done, on_shutdown, close_pool, on_unwinds, on_request_ends, react,
  step, and_then, serve,
}
use devops_demo.Service.Serve.Shutdown.{IsOrderly, serve-IsOrderly, serve_exit_code}
use devops_demo.Service.Serve.Progress.{is_own, count_own, Waits, serve_ends}
use devops_demo.Store.Session.{Session}
use devops_demo.Store.Ingest.{ingest_event}
use devops_demo.Store.Retention.{delete_events_older_than}
use devops_demo.Store.History.{empty_tables}
use devops_demo.Store.History.Sound.{IsSound}
use devops_demo.Store.History.Invariant.{IsSound-empty_tables}
use devops_demo.Service.Serve.{selecting, opened, running, listening}
use devops_demo.Service.Whole.{
  Whole, Act, control, ingests, expires, is_active, is_usable, through_pool, call_store,
  under_control, act, act_next, run_service,
}
use devops_demo.Service.Whole.Guarded.{run_service-IsSound}
use devops_demo.Tests.{to_micros, seconds, lamp_created, empty_session}

-- The database answers the third ping.
abbrev late_database : ℕ → Attempt
late_database k = record {
  dial = if nat_eq k 2 then reached else ping_failed unavailable;
  canceled = false;
}

connect-Ended_example : Ended late_database 10 0 (connect late_database 10)
connect-Ended_example = connect-Ended late_database 10

-- A signal while a request is being answered; the ingest client stops before main has canceled it.
abbrev shutdown_schedule : List Event
shutdown_schedule =
    connects late_database
    ∷ migrates true
    ∷ request_begins
    ∷ signal
    ∷ ingest_returns
    ∷ selects signal_received
    ∷ retention_returns
    ∷ ingest_done
    ∷ retention_done
    ∷ request_ends
    ∷ shutdown_returns true
    ∷ unwinds
    ∷ []

abbrev stopped_service : Service
stopped_service = record {
  point = exited 0;
  signaled = true;
  pool = closed;
  ingest = finished;
  ingest_canceled = true;
  retention = finished;
  retention_canceled = true;
  listener = shut;
  in_flight = 0;
}

schedule_stops : serve shutdown_schedule initial_service ≡ some stopped_service
unfolding serve step react and_then has_exited on_connects on_connected on_migrates is_listening
    is_ready on_selects on_ingest_returns on_retention_returns on_ingest_done on_retention_done
    on_shutdown close_pool on_unwinds on_request_ends connect dial_loop try_dial retry_or_stop
schedule_stops = refl

serve-IsOrderly_example : IsOrderly stopped_service
serve-IsOrderly_example = serve-IsOrderly shutdown_schedule stopped_service schedule_stops

abbrev success : ℕ
success = 0

serve_exit_code_example :
    ((success ≡ 0)
      × (stopped_service.signaled ≡ true)
      × (stopped_service.in_flight ≡ 0)
      × (stopped_service.listener ≡ shut))
    ⊎ (success ≡ 1)
serve_exit_code_example =
    serve_exit_code shutdown_schedule stopped_service success schedule_stops refl

serve_ends_example :
    (count_own shutdown_schedule ≤ 9)
    × (((e : Event) → is_own e ≡ true → step e stopped_service ≡ none)
        → (has_exited stopped_service.point ≡ true) ⊎ Waits stopped_service)
serve_ends_example = serve_ends shutdown_schedule stopped_service schedule_stops

abbrev idle_server : Server ℕ
idle_server = record { session = empty_session; db_up = 0 }

abbrev metrics_page : Server ℕ → Response ℕ × Server ℕ
metrics_page sv = (record { status = 200; body = text_response "analytics_db_up 1" }, sv)

abbrev no_variables : String → String
no_variables key = ""

abbrev probe : ℕ × Server ℕ
probe = healthcheck (get_from metrics_page 0) no_variables idle_server

healthcheck-ping_example :
    ((is_ok (ping idle_server.session).0 ≡ true) × (probe.0 ≡ 0) × (probe.1.db_up ≡ 1))
    ⊎ ((is_ok (ping idle_server.session).0 ≡ false) × (probe.0 ≡ 1) × (probe.1.db_up ≡ 0))
healthcheck-ping_example = healthcheck-ping metrics_page 0 no_variables idle_server

abbrev readyz_path : String
readyz_path = "/readyz"

serve_http-tables_example :
    ((serve_http metrics_page 0 "GET" readyz_path idle_server).1.session.tables
      ≡ idle_server.session.tables)
    × (((readyz_path ≡ readyz_path)
          × ((((serve_http metrics_page 0 "GET" readyz_path idle_server).0.status ≡ 200)
                × ((serve_http metrics_page 0 "GET" readyz_path idle_server).1.db_up ≡ 1))
              ⊎ (((serve_http metrics_page 0 "GET" readyz_path idle_server).0.status ≡ 503)
                  × ((serve_http metrics_page 0 "GET" readyz_path idle_server).1.db_up ≡ 0))))
        ⊎ ((serve_http metrics_page 0 "GET" readyz_path idle_server).1.db_up ≡ idle_server.db_up))
serve_http-tables_example =
    serve_http-tables metrics_page 0 "GET" readyz_path idle_server (λ sv. refl)

-- An event is ingested and old ones expire before the signal, and after it one more retention pass.
abbrev acts : List Act
acts =
    control (connects late_database)
    ∷ control (migrates true)
    ∷ ingests lamp_created []
    ∷ expires (seconds 3) []
    ∷ control signal
    ∷ control ingest_returns
    ∷ expires (seconds 4) []
    ∷ []

abbrev signaled_service : Service
signaled_service = record {
  point = selecting;
  signaled = true;
  pool = opened;
  ingest = finished;
  ingest_canceled = false;
  retention = running;
  retention_canceled = false;
  listener = listening;
  in_flight = 0;
}

abbrev expired_session : Session ℕ
expired_session =
    (delete_events_older_than to_micros (seconds 4) (record {
      tables =
          (delete_events_older_than to_micros (seconds 3) (record {
            tables = (ingest_event to_micros lamp_created empty_session).1.tables;
            script = [];
          })).1.tables;
      script = [];
    })).1

abbrev whole : Whole ℕ
whole = record { service = signaled_service; tables = expired_session.tables; misuses = 0 }

acts_happen :
    run_service to_micros acts
      (record { service = initial_service; tables = empty_tables; misuses = 0 })
    ≡ some whole
unfolding run_service act act_next under_control call_store through_pool is_active is_usable step
    react has_exited on_connects on_connected on_migrates on_ingest_returns connect dial_loop
    try_dial retry_or_stop
acts_happen = refl

run_service-IsSound_example : IsSound expired_session.tables × (whole.misuses ≡ 0)
run_service-IsSound_example =
    run_service-IsSound to_micros empty_tables acts whole IsSound-empty_tables acts_happen
