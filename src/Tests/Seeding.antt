-- ===== src/Tests/Seeding.antt =====
-- Examples of the seeder and of the seed command.
use devops_demo.Base.{
  ℕ, ◌+◌, ◌*◌, ◌/◌, ◌%◌, nat_eq, if◌then◌else◌, ◌≤◌, ◌<◌, arith, ◌≡◌, ◌⊎◌, ◌≢◌, refl, String, false,
  true, none, List, [], ◌∷◌, ◌++◌, pos, int_key,
}
use devops_demo.Base.Table.{lookup, upsert}
use devops_demo.Store.Schema.{EventRecord}
use devops_demo.Store.Session.{exec, transaction}
use devops_demo.Store.Ingest.{known_type, same_event, has_event, trunc_hour, stored}
use devops_demo.Store.Batch.{
  all_known, insert_one, insert_rows, count_rows, insert_batch, upsert_folded, send_folded,
  ingest_batch_rows, ingest_events_batch,
}
use devops_demo.Store.Batch.Fold.{
  fold_current_items, win, absorb, note_first, fold_step, fold_loop, folded_item, collect,
}
use devops_demo.Seeder.{
  Draws, Item, State, draw_event, flushed, flush_pending, flush, after_flush, unless_failed,
  flush_full, seed_events, seed_hour, seed_hours, seed_window, run_seeder, total_hours,
}
use devops_demo.Seeder.{hour, window_start, window_end, hour_start_of}
use devops_demo.Seeder.Window.{total_hours-days, run_seeder-overflow}
use devops_demo.Seeder.Progress.{window_history}
use devops_demo.Seeder.Complete.{run_seeder-prefix, run_seeder_complete}
use devops_demo.Ingest.Client.{gives}
use devops_demo.SeedCommand.{Options, Script, Command, insert_item, sort_items, seed_command}
use devops_demo.SeedCommand.Marked.{marker_in, IsCompleted, seed_command-IsCompleted}
use devops_demo.Store.Connect.{reached}
use devops_demo.Base.Parse.{parse_int}
use devops_demo.Grafana.{Api, failed, compute_annotations}
use devops_demo.SeedCommand.Flags.{default_flags, parse_flags}
use devops_demo.SeedCommand.Flags.Rendered.{
  Setting, days_flag, seed_flag, render_all, set_all, parse_flags-set_all,
}
use devops_demo.SeedCommand.Program.{Given, seed_program}
use devops_demo.SeedCommand.Program.Completed.{Succeeded, seed_program-Succeeded}
use devops_demo.Tests.{to_micros, seconds, empty_session}

-- A generator that counts: one event in every twelfth hour, alternately of two items.
abbrev draws : Draws ℕ
draws = record {
  events_in = λ t. if nat_eq (t / seconds 3600 % 12) 0 then 1 else 0;
  offset = λ r. (r * 1_000_000, r + 1);
  int_n = λ n r. (r % n, r + 1);
  is_created = λ r. (true, r);
}

abbrev lamp : Item
lamp = record { item_id = pos 7; name = "lamp" }

abbrev chair : Item
chair = record { item_id = pos 8; name = "chair" }

abbrev one_day : devops_demo.Seeder.Config
one_day = record { days = pos 1; ref_time = seconds 90_000; batch_size = pos 2 }

abbrev fresh_state : State ℕ ℕ
fresh_state = record {
  rng = 5;
  pending = [];
  total_written = 0;
  accepted = [];
  checks = [];
  session = empty_session;
}

run_seeder-prefix_example :
    (rest : List EventRecord) × (((run_seeder to_micros one_day draws
            (lamp ∷ chair ∷ [])
            fresh_state).1.accepted
          ++ (run_seeder to_micros one_day draws (lamp ∷ chair ∷ []) fresh_state).1.pending)
        ++ rest
      ≡ (window_history one_day draws lamp (chair ∷ []) 0 (total_hours one_day) 5).0)
run_seeder-prefix_example =
    run_seeder-prefix to_micros one_day draws lamp (chair ∷ []) fresh_state refl refl refl

day_is_seeded : (run_seeder to_micros one_day draws (lamp ∷ chair ∷ []) fresh_state).0 ≡ none
unfolding run_seeder seed_window seed_hours seed_hour seed_events flush_full unless_failed
    after_flush flush flush_pending flushed draw_event ingest_events_batch ingest_batch_rows
    insert_batch send_folded upsert_folded count_rows insert_rows insert_one all_known known_type
    has_event same_event stored trunc_hour exec transaction fold_current_items win absorb note_first
    fold_step fold_loop folded_item collect lookup upsert
day_is_seeded = refl

run_seeder_complete_example :
    ((run_seeder to_micros one_day draws (lamp ∷ chair ∷ []) fresh_state).1.accepted
      ≡ (window_history one_day draws lamp (chair ∷ []) 0 (total_hours one_day) 5).0)
    × ((run_seeder to_micros one_day draws (lamp ∷ chair ∷ []) fresh_state).1.pending ≡ [])
run_seeder_complete_example =
    run_seeder_complete to_micros one_day draws lamp (chair ∷ []) fresh_state refl refl refl
      day_is_seeded

abbrev command : devops_demo.SeedCommand.Command ℕ ℕ
command = record {
  state = fresh_state;
  metrics = record { successes = 0; failures = 0; deleted_rows = 0; last_success = pos 0 };
}

abbrev options : Options ℕ ℕ
options = record {
  seeder = one_day;
  retention = record { interval = pos 3_600_000_000_000; retention_days = pos 7 };
  draws = draws;
  seed_value = pos 42;
  scale = 1;
}

abbrev all_well : Script
all_well = record {
  profile_parsed = true;
  dials = λ k. record { dial = reached; canceled = false };
  migrated = true;
  list_items = gives (chair ∷ lamp ∷ []);
  retention_time = seconds 90_010;
  marker_time = seconds 90_020;
}

chair_comes_last : sort_items (chair ∷ lamp ∷ []) ≡ lamp ∷ chair ∷ []
unfolding sort_items insert_item
chair_comes_last = refl

seed_command-IsCompleted_example :
    ((marker_in to_micros options all_well (seed_command to_micros options all_well command).1
        ≡ none)
      × ((seed_command to_micros options all_well command).0 ≡ 1))
    ⊎ IsCompleted to_micros options all_well command
        (seed_command to_micros options all_well command).1
seed_command-IsCompleted_example =
    seed_command-IsCompleted to_micros options all_well command refl refl

abbrev given : Given ℕ ℕ
given = record {
  parse_number = parse_int;
  parse_float = λ text. none;
  parse_duration = λ text. none;
  one = 1;
  draws = λ flags scale ref_time. draws;
  annotations = λ flags scale ref_time.
      compute_annotations (λ n. (pos n, pos (n + 1))) (λ n. "spike") (λ n. "launch") (3 ∷ []);
}

-- Grafana cannot be reached; the state counts the requests.
abbrev unreachable : Api ℕ
unreachable = record {
  get_by_tag = λ tag n. (failed, n + 1);
  delete_by_id = λ id n. (failed, n + 1);
  post = λ a n. (failed, n + 1);
}

abbrev program : List String → ℕ × (Command ℕ ℕ × ℕ)
program args =
    seed_program given (λ key. "") unreachable to_micros (seconds 90_000) all_well args (command, 0)

seed_program-Succeeded_example :
    (((program ("-days" ∷ "1" ∷ [])).0 ≡ 0)
      × Succeeded given
          (λ key. "")
          unreachable
          to_micros
          (seconds 90_000)
          all_well
          ("-days" ∷ "1" ∷ [])
          command
          0
          (program ("-days" ∷ "1" ∷ [])).1)
    ⊎ (((program ("-days" ∷ "1" ∷ [])).0 ≢ 0) × ((program ("-days" ∷ "1" ∷ [])).1.1 ≡ 0))
seed_program-Succeeded_example =
    seed_program-Succeeded given (λ key. "") unreachable to_micros (seconds 90_000) all_well
      ("-days" ∷ "1" ∷ []) command 0 refl refl

-- --days 30 -seed=7 -days=1
abbrev settings : List Setting
settings =
    record { name = days_flag; text = "30"; joined = false; long = true }
    ∷ record { name = seed_flag; text = "7"; joined = true; long = false }
    ∷ record { name = days_flag; text = "1"; joined = true; long = false }
    ∷ []

settings_are_arguments : render_all settings ≡ "--days" ∷ "30" ∷ "-seed=7" ∷ "-days=1" ∷ []
settings_are_arguments = refl

parse_flags-set_all_example :
    parse_flags parse_int (render_all settings) (default_flags "profile.json")
    ≡ set_all parse_int settings (default_flags "profile.json")
parse_flags-set_all_example = parse_flags-set_all parse_int settings (default_flags "profile.json")

abbrev long_run : devops_demo.Seeder.Config
long_run = record { days = pos 90; ref_time = seconds 63_900_000_000; batch_size = pos 2 }

total_hours-days_example :
    (total_hours long_run ≡ 90 * 24)
    × (window_start long_run + 90 * 24 * hour ≡ window_end long_run)
    × (5 < 90 * 24 → hour_start_of long_run 5 + hour ≤ window_end long_run)
total_hours-days_example =
    total_hours-days 90 (seconds 63_900_000_000) 5 (pos 2) (omega arith) (omega arith)

run_seeder-overflow_example :
    run_seeder to_micros
      (record { days = pos 200_000; ref_time = seconds 63_900_000_000; batch_size = pos 2 })
      draws
      (lamp ∷ chair ∷ [])
      fresh_state
    ≡ (none, fresh_state)
run_seeder-overflow_example =
    run_seeder-overflow to_micros draws lamp (chair ∷ []) 200_000 (seconds 63_900_000_000) (pos 2)
      fresh_state (omega arith) (omega arith) refl
