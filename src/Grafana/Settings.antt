-- ===== src/Grafana/Settings.antt =====
-- internal/grafana/config.go: the connection to Grafana from the environment.
use devops_demo.Base.{String}
use devops_demo.Base.Environment.{Environment, env_string}

pub record Config : Type 0 where
  pub url : String
  pub user : String
  pub password : String

-- ConfigFromEnv
unfoldable pub config_from_env : Environment → Config
unfolding env_string
config_from_env getenv = record {
  url = env_string getenv "GRAFANA_URL" "http://grafana:3000";
  user = env_string getenv "GRAFANA_USER" "admin";
  password = env_string getenv "GRAFANA_PASSWORD" "admin";
}
