-- ===== src/Ingest/Settings.antt =====
-- internal/ingest/config.go: the client's configuration from the environment. `parse_duration` is
-- time.ParseDuration.
use devops_demo.Base.{String, Option, none, some, ℤ, pos, text_eq, if◌then◌else◌}
use devops_demo.Base.Environment.{Environment, env_string}
use devops_demo.Ingest.Client.{Config}

unfoldable pub duration_or : ℤ → Option ℤ → ℤ
duration_or def none = def
duration_or def (some d) = d

-- envDuration: a duration that is not positive is taken as it is.
unfoldable pub env_duration : (String → Option ℤ) → Environment → String → ℤ → ℤ
unfolding duration_or
env_duration parse_duration getenv key def =
    if text_eq (getenv key) "" then def else duration_or def (parse_duration (getenv key))

-- ConfigFromEnv
unfoldable pub config_from_env : (String → Option ℤ) → Environment → Config
unfolding env_duration env_string
config_from_env parse_duration getenv = record {
  backend_addr = env_string getenv "ANALYTICS_BACKEND_GRPC_ADDR" "localhost:50051";
  backoff_base =
      env_duration parse_duration getenv "ANALYTICS_INGEST_BACKOFF_BASE" (pos 1_000_000_000);
  backoff_max =
      env_duration parse_duration getenv "ANALYTICS_INGEST_BACKOFF_MAX" (pos 30_000_000_000);
}
