-- ===== src/Retention.antt =====
-- internal/retention/retention.go and config.go. `parse_duration` is time.ParseDuration; the
-- histogram of run durations is left out.
pub mod Horizon
pub mod Deletes
use devops_demo.Base.{
  ℕ, ◌+◌, ◌-◌, ◌*◌, String, Bool, true, false, Option, none, some, List, [], ◌∷◌, ℤ, pos, negsuc,
  leb_ℤ, text_eq, if◌then◌else◌,
}
use devops_demo.Base.Parse.{parse_int}
use devops_demo.Store.Session.{Result, ok, err, Session}
use devops_demo.Store.Retention.{delete_events_older_than}
use devops_demo.Ingest.Event.{unix_seconds}

-- The Go functions envDuration and envInt are the same but for what reads the text.
unfoldable pub accepted_or : ℤ → Option ℤ → ℤ
accepted_or def none = def
accepted_or def (some n) = if leb_ℤ n (pos 0) then def else n

-- envInt: the value of an unset variable is "".
unfoldable pub env_int : ℤ → String → ℤ
unfolding accepted_or
env_int def v = if text_eq v "" then def else accepted_or def (parse_int v)

-- envDuration
unfoldable pub env_duration : (String → Option ℤ) → ℤ → String → ℤ
unfolding accepted_or
env_duration parse_duration def v = if text_eq v "" then def else accepted_or def (parse_duration v)

pub record Config : Type 0 where
  pub interval : ℤ
  pub retention_days : ℤ

-- ConfigFromEnv, on the values of ANALYTICS_RETENTION_INTERVAL and ANALYTICS_RETENTION_DAYS.
unfoldable pub config_from_env : (String → Option ℤ) → String → String → Config
unfolding env_int env_duration
config_from_env parse_duration interval days = record {
  interval = env_duration parse_duration (pos 3_600_000_000_000) interval;
  retention_days = env_int (pos 7) days;
}

-- The counters of metrics.go.
pub record RunMetrics : Type 0 where
  pub successes : ℕ
  pub failures : ℕ
  pub deleted_rows : ℕ
  pub last_success : ℤ

-- What the runner works on.
pub record Job (F : Type 0) : Type 0 where
  pub session : Session F
  pub metrics : RunMetrics

abbrev pub day : ℕ
day = 86_400_000_000_000

-- start.UTC().AddDate(0, 0, -days): every UTC day has 24 hours. A cutoff before year 1 is year 1.
abbrev pub cutoff_of : ℕ → ℤ → ℕ
cutoff_of start (pos days) = start - days * day
cutoff_of start (negsuc n) = start + (n + 1) * day

module _ {F : Type 0} where
  unfoldable pub note_run : ℕ → RunMetrics → Result ℕ × Session F → Job F
  note_run start m (ok deleted, s) = record {
    session = s;
    metrics = record m {
      successes = m.successes + 1;
      deleted_rows = m.deleted_rows + deleted;
      last_success = unix_seconds start;
    };
  }
  note_run start m (err e, s) = record {
    session = s;
    metrics = record m { failures = m.failures + 1 };
  }

  -- runOnce, at the time `start`.
  unfoldable pub run_once : (ℕ → ℕ) → Config → ℕ → Job F → Job F
  unfolding note_run
  run_once stamp cfg start job =
      note_run start job.metrics
        (delete_events_older_than stamp (cutoff_of start cfg.retention_days) job.session)

  -- Run: the select sees the ticks at these times, and then the canceled context.
  unfoldable pub run_ticks : (ℕ → ℕ) → Config → List ℕ → Job F → Job F
  unfolding run_once
  run_ticks stamp cfg [] job = job
  run_ticks stamp cfg (tick ∷ ticks) job = run_ticks stamp cfg ticks (run_once stamp cfg tick job)

  unfoldable pub run_job : (ℕ → ℕ) → Config → ℕ → List ℕ → Job F → Job F
  unfolding run_ticks
  run_job stamp cfg start ticks job = run_ticks stamp cfg ticks (run_once stamp cfg start job)
