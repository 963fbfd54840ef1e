-- ===== src/Tests/Serving.antt =====
-- Examples of the HTTP interface and of the retention job.
use devops_demo.Base.{
  ℕ, ◌+◌, ◌*◌, ◌-◌, ◌/◌, ◌%◌, nat_eq, if◌then◌else◌, ◌≤◌, ◌≡◌, ◌⊎◌, refl, String, Bool, true, false,
  Option, none, some, List, [], ◌∷◌, ◌++◌, ℤ, pos, int_key, leb_ℤ, length, arith,
}
use devops_demo.Base.Parse.{digits, unsigned, positive_int, negative_int, parse_int}
use devops_demo.Base.Decimal.{append_text, digit_char, print_before, print_nat, print_int}
use devops_demo.Store.Session.{ok, exec, transaction}
use devops_demo.Store.Ingest.{
  known_type, same_event, has_event, trunc_hour, insert_event, upsert_bucket, upsert_current_item,
  count_inserted, ingest_row, stored, ingest_event,
}
use devops_demo.Server.{Server, handle_get_item}
use devops_demo.Server.{Response, text_response}
use devops_demo.Server.Routes.{is_get, serve_http}
use devops_demo.Server.{stat_entries, stats_reply, handle_stats, handle_request}
use devops_demo.Server.Routes.{route_of, serve_route}
use devops_demo.Server.Routes.Statistics.{Reported, serve_http-stats}
use devops_demo.Store.Reads.{stats_last24h, order_stats, group_stats, in_window, insert_stat}
use devops_demo.Store.Session.{autocommit}
use devops_demo.Base.Table.{upsert}
use devops_demo.Store.History.{History, start, call, ingest, empty_tables}
use devops_demo.Server.Routes.Items.{item_path, serve_http-ingested}
use devops_demo.Server.Replies.{Answered, AnsweredMerged, handle_get_item-status}
use devops_demo.Retention.{Config, Job, run_job}
use devops_demo.Retention.{note_run, run_once}
use devops_demo.Retention.Deletes.{RunEnds, run_once-HasDeleted}
use devops_demo.Store.Retention.{delete_older, delete_events, delete_events_older_than}
use devops_demo.Retention.Horizon.{run_job-keeps}
use devops_demo.Tests.{to_micros, seconds, lamp_created, empty_session}

minus_42 : parse_int "-42" ≡ some (devops_demo.Base.negsuc 41)
unfolding parse_int unsigned digits positive_int negative_int
minus_42 = refl

no_number : parse_int "4x" ≡ none
unfolding parse_int unsigned digits positive_int negative_int
no_number = refl

seven : parse_int "7" ≡ some (pos 7)
unfolding parse_int unsigned digits positive_int negative_int
seven = refl

abbrev lamp_session : devops_demo.Store.Session.Session ℕ
lamp_session = (ingest_event to_micros lamp_created empty_session).1

abbrev server : Server ℕ
server = record { session = lamp_session; db_up = 1 }

lamp_is_ingested : ingest_event to_micros lamp_created empty_session ≡ (ok true, lamp_session)
unfolding ingest_event ingest_row insert_event upsert_bucket upsert_current_item count_inserted
    known_type has_event same_event stored trunc_hour exec transaction
lamp_is_ingested = refl

handle_get_item-status_example :
    ((parse_int "7" ≡ none) × ((handle_get_item "7" server).0.status ≡ 400))
    ⊎ ((id : ℤ) × (parse_int "7" ≡ some id)
        × Answered id lamp_session (handle_get_item "7" server).0)
handle_get_item-status_example = handle_get_item-status "7" server

abbrev metrics_text : Server ℕ → Response ℕ × Server ℕ
metrics_text sv = (record { status = 200; body = text_response "up 1\n" }, sv)

is_get_method : is_get "GET" ≡ true
unfolding is_get
is_get_method = refl

serve_http-ingested_example :
    let path = item_path (print_int (pos 7)) in
    AnsweredMerged to_micros lamp_created empty_session lamp_session
      (serve_http metrics_text 0 "GET" path server).0
serve_http-ingested_example =
    serve_http-ingested metrics_text 0 to_micros lamp_created empty_session lamp_session true "GET"
      server lamp_is_ingested refl (omega arith) (omega arith) is_get_method

printed_path : item_path (print_int (pos 7)) ≡ "/api/v1/items/7"
unfolding item_path append_text print_int print_nat print_before digit_char
printed_path = refl

abbrev lamp_history : History to_micros empty_tables lamp_session.tables
lamp_history = call start (ingest lamp_created [])

serve_http-stats_example :
    Reported to_micros metrics_text 6_000_000 server lamp_history
      (serve_http metrics_text 6_000_000 "GET" "/api/v1/stats" server).0
serve_http-stats_example =
    serve_http-stats to_micros metrics_text 6_000_000 "GET" server lamp_history is_get_method

lamp_is_reported :
    (serve_http metrics_text 6_000_000 "GET" "/api/v1/stats" server).0
    ≡ record { status = 200; body = stat_entries (("created", 1) ∷ []) }
unfolding serve_http serve_route route_of is_get handle_request handle_stats stats_reply
    stats_last24h order_stats group_stats in_window insert_stat upsert autocommit ingest_event
    ingest_row insert_event upsert_bucket upsert_current_item count_inserted known_type has_event
    same_event stored trunc_hour exec transaction
lamp_is_reported = refl

abbrev week : Config
week = record { interval = pos 3_600_000_000_000; retention_days = pos 7 }

abbrev job : Job ℕ
job = record {
  session = lamp_session;
  metrics = record { successes = 0; failures = 0; deleted_rows = 0; last_success = pos 0 };
}

lamp_is_there : has_event (stored to_micros lamp_created) lamp_session.tables.item_events ≡ true
unfolding ingest_event ingest_row insert_event upsert_bucket upsert_current_item count_inserted
    known_type has_event same_event stored trunc_hour exec transaction
lamp_is_there = refl

run_job-keeps_example :
    has_event
      (stored to_micros lamp_created)
      (run_job to_micros week
        (seconds 604_801)
        (seconds 604_803 ∷ [])
        job).session.tables.item_events
    ≡ true
unfolding stored
run_job-keeps_example =
    run_job-keeps to_micros week 7 (seconds 604_801) (seconds 604_803 ∷ []) job
      (stored to_micros lamp_created) refl (omega arith, (omega arith, tt)) lamp_is_there

-- Eight days later.
run_once-HasDeleted_example :
    RunEnds
      (to_micros (seconds 691_200 - 7 * 86_400_000_000_000))
      job
      (run_once to_micros week (seconds 691_200) job)
run_once-HasDeleted_example = run_once-HasDeleted to_micros week 7 (seconds 691_200) job refl

no_raw_event_is_left :
    (run_once to_micros week (seconds 691_200) job).session.tables.item_events ≡ []
unfolding run_once note_run delete_events_older_than delete_events delete_older ingest_event
    ingest_row insert_event upsert_bucket upsert_current_item count_inserted known_type has_event
    same_event stored trunc_hour exec transaction autocommit
no_raw_event_is_left = refl
