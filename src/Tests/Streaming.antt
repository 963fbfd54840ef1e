-- ===== src/Tests/Streaming.antt =====
-- Examples of the ingest client.
use devops_demo.Base.{
  ℕ, ◌+◌, ◌*◌, ◌/◌, ◌^◌, ◌≤◌, ◌<◌, ◌≡◌, ◌⊎◌, List, length, refl, true, false, none, some, [], ◌∷◌,
  ◌++◌, pos, negsuc, if◌then◌else◌, arith,
}
use devops_demo.Store.Schema.{Tables}
use devops_demo.Store.Session.{ok, exec, transaction, fine, lost, unavailable}
use devops_demo.Store.Ingest.{
  known_type, same_event, has_event, trunc_hour, insert_event, upsert_bucket, upsert_current_item,
  count_inserted, ingest_row, stored, ingest_event,
}
use devops_demo.Store.History.{empty_tables}
use devops_demo.Ingest.Backoff.{positive_or, default_max, delay, backoff_duration}
use devops_demo.Ingest.Backoff.Bounds.{backoff_duration_bounds, delay_wraps}
use devops_demo.Ingest.Watermark.{loading, returned, advance_step, Machine, schedule, run}
use devops_demo.Ingest.Watermark.Advance.{◌≤ℤ◌, run-advances}
use devops_demo.Ingest.Watermark.Races.{overlap, run-overlap}
use devops_demo.Ingest.Event.{
  ItemEvent, created, other, Metrics, World, event_type_name, recorded, handle_named, handle_event,
}
use devops_demo.Ingest.Event.Handled.{IsStored}
use devops_demo.Ingest.Persist.{elapsed, handled, discarded, is_malformed, after_attempt, persist}
use devops_demo.Ingest.Persist.Exactly.{IsCounted, persist-handled, persist-unhandled}
use devops_demo.Ingest.Client.{
  Config, gives, fails, eof, CycleScript, ended, stream_error, is_running, cycle,
}
use devops_demo.Ingest.Client.Delivered.{effects_of, cycle-replay}
use devops_demo.Store.History.View.{listed, view, replay}
use devops_demo.Ingest.Client.Cycles.{cycle-stream_connected}
use devops_demo.Ingest.Reconnect.{Pass, Loop, looping, run_client}
use devops_demo.Ingest.Reconnect.Spaced.{AreSpaced, run_client-outage}
use devops_demo.Tests.{to_micros, seconds}

abbrev metrics : Metrics
metrics = record {
  stream_connected = 1;
  watermark = record { last_event_time_unix = pos 0; last_event_time_seconds = pos 0 };
  events_ingested = [];
  events_deduplicated = 0;
  reconnects = 0;
  snapshot_reconciles = 1;
  snapshot_items = 0;
}

abbrev lamp_event : ItemEvent
lamp_event = record {
  event_type = created;
  item = some (record { item_id = pos 7; name = "lamp" });
  event_time = some (seconds 5);
}

abbrev odd_event : ItemEvent
odd_event = record { event_type = other 9; item = none; event_time = none }

abbrev quiet : World ℕ
quiet = record { session = record { tables = empty_tables; script = [] }; metrics = metrics }

-- The first commit's acknowledgement is lost: the event is there, and the client tries again.
abbrev flaky : World ℕ
flaky = record {
  session = record {
    tables = empty_tables;
    script = fine ∷ fine ∷ fine ∷ fine ∷ lost unavailable ∷ [];
  };
  metrics = metrics;
}

abbrev after_retry : World ℕ
after_retry = (persist to_micros lamp_event (elapsed ∷ elapsed ∷ []) flaky).1

lamp_is_handled :
    persist to_micros lamp_event (elapsed ∷ elapsed ∷ []) flaky ≡ (handled, after_retry)
unfolding persist after_attempt is_malformed handle_event handle_named recorded event_type_name
    ingest_event ingest_row insert_event upsert_bucket upsert_current_item count_inserted known_type
    has_event same_event stored trunc_hour exec transaction
lamp_is_handled = refl

persist-handled_example :
    IsStored to_micros lamp_event flaky after_retry
    × IsCounted to_micros lamp_event flaky after_retry
persist-handled_example =
    persist-handled to_micros lamp_event (elapsed ∷ elapsed ∷ []) flaky after_retry lamp_is_handled

odd_is_discarded : persist to_micros odd_event (elapsed ∷ []) quiet ≡ (discarded, quiet)
unfolding persist after_attempt is_malformed handle_event handle_named recorded event_type_name
odd_is_discarded = refl

persist-unhandled_example :
    (metrics ≡ metrics)
    × ((◌≡◌ {A = Tables ℕ} empty_tables empty_tables) ⊎ IsStored to_micros odd_event quiet quiet)
    × (discarded ≡ discarded → event_type_name (other 9) ≡ none)
persist-unhandled_example =
    persist-unhandled to_micros odd_event (elapsed ∷ []) quiet quiet discarded odd_is_discarded
      (λ h. absurd (ground arith))

abbrev after_lamp_event : World ℕ
after_lamp_event = (handle_event to_micros lamp_event quiet).1

lamp_event_is_stored : handle_event to_micros lamp_event quiet ≡ (ok tt, after_lamp_event)
unfolding handle_event handle_named recorded event_type_name ingest_event ingest_row insert_event
    upsert_bucket upsert_current_item count_inserted known_type has_event same_event stored
    trunc_hour exec transaction
lamp_event_is_stored = refl

backoff_duration_bounds_example :
    (delay (pos 3) (pos 0) (negsuc 4) / 2 ≤ backoff_duration (λ n. 0) (pos 3) (pos 0) (negsuc 4))
    × (backoff_duration (λ n. 0) (pos 3) (pos 0) (negsuc 4) ≤ delay (pos 3) (pos 0) (negsuc 4))
    × (0 < delay (pos 3) (pos 0) (negsuc 4))
    × (delay (pos 3) (pos 0) (negsuc 4) ≤ positive_or (negsuc 4) default_max)
backoff_duration_bounds_example =
    backoff_duration_bounds (λ n. 0) (pos 3) (pos 0) (negsuc 4) (λ n h. h)

-- A base of 2^34 + 1 ns, about 17 s, and a cap of one hour.
delay_wraps_example : delay (pos 31) (pos (2 ^ 34 + 1)) (pos 3_600_000_000_000) ≡ 1 * 2 ^ 30
delay_wraps_example =
    delay_wraps 31 1 (pos 3_600_000_000_000) (omega arith) (omega arith) (omega arith) (omega arith)

-- Goroutine j brings the time j + 1.
abbrev machine : Machine
machine = record {
  watermark = record { last_event_time_unix = pos 0; last_event_time_seconds = pos 0 };
  next = λ j. pos (j + 1);
  place = λ j. loading;
}

first_returns : (run overlap machine).place 0 ≡ returned
unfolding run schedule advance_step
first_returns = refl

run-advances_example :
    (pos 0 ≤ℤ (run overlap machine).watermark.last_event_time_unix)
    × ((run overlap machine).next 0 ≤ℤ (run overlap machine).watermark.last_event_time_unix)
run-advances_example = run-advances overlap machine 0 (λ j. refl) first_returns

run-overlap_example :
    ((run overlap machine).place 0 ≡ returned)
    × ((run overlap machine).place 1 ≡ returned)
    × ((run overlap machine).watermark
        ≡ record { last_event_time_unix = pos 2; last_event_time_seconds = pos 1 })
run-overlap_example = run-overlap machine (λ j. refl) refl refl

abbrev one_event : CycleScript
one_event = record {
  dial = gives tt;
  list_items = gives [];
  now = seconds 3;
  open_stream = gives tt;
  received = record { event = lamp_event; waits = elapsed ∷ [] } ∷ [];
  end = eof unavailable;
}

cycle-stream_connected_example :
    (cycle to_micros one_event quiet).1.metrics.stream_connected
    ≡ (if is_running (cycle to_micros one_event quiet).0 then 1 else 0)
cycle-stream_connected_example = cycle-stream_connected to_micros one_event quiet

abbrev config : Config
config = record { backend_addr = "backend:50051"; backoff_base = pos 1000; backoff_max = pos 30000 }

abbrev unreachable : Pass
unreachable = record {
  canceled_before = false;
  canceled_waiting = false;
  canceled_after = false;
  int64n = λ n. 0;
  script = record one_event { list_items = fails unavailable };
}

abbrev failed_once : Loop ℕ
failed_once = record { attempt = 1; waits = []; world = quiet }

run_client-outage_example :
    let r = run_client to_micros config (unreachable ∷ unreachable ∷ []) failed_once in
    (r.0 ≡ looping)
    × (r.1.attempt ≡ 1 + 2)
    × ((waits : List ℕ) × (r.1.waits ≡ [] ++ waits)
        × (length waits ≡ 2)
        × AreSpaced 1000 30000 1 waits)
run_client-outage_example =
    run_client-outage config 1000 30000 refl refl (omega arith) (omega arith) (omega arith)
      to_micros (unreachable ∷ unreachable ∷ []) failed_once ((λ n h. h), ((λ n h. h), tt)) refl
      (omega arith)

-- A snapshot of one item and two events, the second of an unknown type.
abbrev good_cycle : CycleScript
good_cycle = record {
  dial = gives tt;
  list_items = gives (record { item_id = pos 8; name = "chair" } ∷ []);
  now = seconds 4;
  open_stream = gives tt;
  received =
      record { event = lamp_event; waits = elapsed ∷ [] }
      ∷ record { event = odd_event; waits = elapsed ∷ [] }
      ∷ [];
  end = eof unavailable;
}

cycle-replay_example :
    ((cycle to_micros good_cycle quiet).0 ≡ ended true (stream_error (eof unavailable)))
    × (view (cycle to_micros good_cycle quiet).1.session.tables
        ≡ replay
            (listed (record { item_id = pos 8; name = "chair" } ∷ []) (to_micros (seconds 4))
              ∷ effects_of to_micros good_cycle.received)
            (view empty_tables))
cycle-replay_example =
    cycle-replay to_micros good_cycle (record { item_id = pos 8; name = "chair" } ∷ []) empty_tables
      metrics refl refl refl refl
