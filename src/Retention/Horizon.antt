-- ===== src/Retention/Horizon.antt =====
-- The retention job deletes nothing inside its horizon, and only raw events.
use devops_demo.Base.{
  ℕ, suc, ◌+◌, ◌-◌, ◌*◌, ◌≤◌, ◌≡◌, refl, ◌∙◌, String, true, false, Option, none, some, List, [],
  ◌∷◌, ℤ, pos, leb_ℤ, length, arith, All,
}
use devops_demo.Base.Parse.{parse_int}
use devops_demo.Store.Schema.{EventRecord}
use devops_demo.Store.Ingest.{has_event}
use devops_demo.Store.Retention.{delete_events, delete_events_older_than}
use devops_demo.Store.Retention.Effect.{has_event-delete_older}
use devops_demo.Retention.{
  Config, Job, accepted_or, env_int, env_duration, config_from_env, cutoff_of, note_run, run_once,
  run_ticks, run_job,
}

-- A setting is positive whatever the environment holds, if its default is.
accepted_or-positive :
    (def : ℤ) (o : Option ℤ) → leb_ℤ def (pos 0) ≡ false → leb_ℤ (accepted_or def o) (pos 0) ≡ false
unfolding accepted_or
accepted_or-positive def none h = h
accepted_or-positive def (some n) h = ground arith

-- Whatever the environment holds and whatever time.ParseDuration makes of it, the interval of the
-- ticker and the number of retention days are positive.
pub config_from_env-positive :
    (parse_duration : String → Option ℤ) (interval days : String)
    → (leb_ℤ (config_from_env parse_duration interval days).interval (pos 0) ≡ false)
      × (leb_ℤ (config_from_env parse_duration interval days).retention_days (pos 0) ≡ false)
unfolding config_from_env env_int env_duration
config_from_env-positive parse_duration interval days =
    let a = accepted_or-positive (pos 3_600_000_000_000) (parse_duration interval) refl in
    let b = accepted_or-positive (pos 7) (parse_int days) refl in (ground arith, ground arith)

-- Whether a time is inside the horizon of every run: not before `days` times 24 hours (in
-- nanoseconds) before the run's start, as the driver encodes it.
abbrev pub IsRecent : (ℕ → ℕ) → ℕ → List ℕ → ℕ → Type 0
IsRecent stamp days starts time = All (λ t. stamp (t - days * 86_400_000_000_000) ≤ time) starts

module _ {F : Type 0} (stamp : ℕ → ℕ) (cfg : Config) where
  -- The effect of one run.
  pub record Expired (start : ℕ) (job job' : Job F) : Type 0 where
    pub keeps :
        (e : EventRecord)
        → stamp (cutoff_of start cfg.retention_days) ≤ e.event_time
        → has_event e job.session.tables.item_events ≡ true
        → has_event e job'.session.tables.item_events ≡ true
    pub buckets : job'.session.tables.event_buckets ≡ job.session.tables.event_buckets
    pub items : job'.session.tables.current_items ≡ job.session.tables.current_items
    pub marker : job'.session.tables.seed_marker ≡ job.session.tables.seed_marker
    pub runs :
        job'.metrics.successes + job'.metrics.failures
        ≡ suc (job.metrics.successes + job.metrics.failures)

  pub run_once-Expired :
      (start : ℕ) (job : Job F) → Expired start job (run_once stamp cfg start job)
  unfolding run_once note_run delete_events_older_than delete_events
  run_once-Expired start job = record {
    keeps = λ e recent found. ground (
      arith,
      has_event-delete_older e (stamp (cutoff_of start cfg.retention_days))
          job.session.tables.item_events,
    );
    buckets = ground arith;
    items = ground arith;
    marker = ground arith;
    runs = ground arith;
  }

  run_ticks-keeps :
      (days : ℕ) (ticks : List ℕ) (job : Job F) (e : EventRecord)
      → cfg.retention_days ≡ pos days
      → IsRecent stamp days ticks e.event_time
      → has_event e job.session.tables.item_events ≡ true
      → has_event e (run_ticks stamp cfg ticks job).session.tables.item_events ≡ true
  unfolding run_ticks
  run_ticks-keeps days [] job e set recent found = found
  run_ticks-keeps days (t ∷ ticks) job e set (now, later) found =
      run_ticks-keeps days ticks (run_once stamp cfg t job) e set later
        ((run_once-Expired t job).keeps e (rw set now) found)

  -- However often the job runs and however the runs fail, with a retention of `days` days a raw
  -- event is still there if its time is not before that of any run's start less `days` times 24
  -- hours, as the driver encodes it.
  pub run_job-keeps :
      (days start : ℕ) (ticks : List ℕ) (job : Job F) (e : EventRecord)
      → cfg.retention_days ≡ pos days
      → IsRecent stamp days (start ∷ ticks) e.event_time
      → has_event e job.session.tables.item_events ≡ true
      → has_event e (run_job stamp cfg start ticks job).session.tables.item_events ≡ true
  unfolding run_job
  run_job-keeps days start ticks job e set (now, later) found =
      run_ticks-keeps days ticks (run_once stamp cfg start job) e set later
        ((run_once-Expired start job).keeps e (rw set now) found)

  -- What a job leaves alone, and how many runs it counts.
  abbrev pub Untouched : ℕ → Job F → Job F → Type 0
  Untouched n job job' =
      (job'.session.tables.event_buckets ≡ job.session.tables.event_buckets)
      × (job'.session.tables.current_items ≡ job.session.tables.current_items)
      × (job'.session.tables.seed_marker ≡ job.session.tables.seed_marker)
      × (job'.metrics.successes + job'.metrics.failures
          ≡ n + (job.metrics.successes + job.metrics.failures))

  run_ticks-Untouched :
      (ticks : List ℕ) (job : Job F) → Untouched (length ticks) job (run_ticks stamp cfg ticks job)
  unfolding run_ticks
  run_ticks-Untouched [] job = (refl, refl, refl, omega arith)
  run_ticks-Untouched (t ∷ ticks) job =
      let one = run_once-Expired t job in
      let (buckets, items, marker, runs) = run_ticks-Untouched ticks (run_once stamp cfg t job) in
      (buckets ∙ one.buckets, items ∙ one.items, marker ∙ one.marker, omega (arith, runs, one.runs))

  -- The job runs once at its start and once for each tick, each run counted as a success or as a
  -- failure; buckets, current items and seed marker stay as they are.
  pub run_job-Untouched :
      (start : ℕ) (ticks : List ℕ) (job : Job F)
      → Untouched (suc (length ticks)) job (run_job stamp cfg start ticks job)
  unfolding run_job
  run_job-Untouched start ticks job =
      let one = run_once-Expired start job in
      let (buckets, items, marker, runs) =
        run_ticks-Untouched ticks (run_once stamp cfg start job) in
      (buckets ∙ one.buckets, items ∙ one.items, marker ∙ one.marker, omega (arith, runs, one.runs))
