-- ===== src/Service/Health.antt =====
-- healthcheck and healthcheckPort of cmd/analytics/main.go. The HTTP client is a parameter: what a
-- GET to localhost gives, from the port, the path and the state of whatever answers.

pub mod Probes
use devops_demo.Base.{ℕ, String, Option, none, some, List, [], ◌∷◌, nat_eq, if◌then◌else◌}
use devops_demo.Base.Environment.{Environment, env_string}
use devops_demo.Base.Address.{split_host_port}

-- client.Get: an error, or a response with a status.
pub data Fetched : Type 0 where
  unreachable : Fetched
  answered : ℕ → Fetched

unfoldable pub port_or_default : Option String → String
port_or_default none = "8082"
port_or_default (some port) = port

unfoldable pub healthcheck_port : Environment → String
unfolding port_or_default
healthcheck_port getenv =
    port_or_default (split_host_port (env_string getenv "ANALYTICS_HTTP_ADDR" ":8082"))

module _ {S : Type 0} (get : String → String → S → Fetched × S) where
  unfoldable pub after_get : (S → ℕ × S) → Fetched × S → ℕ × S
  after_get next (unreachable, s) = (1, s)
  after_get next (answered status, s) = if nat_eq status 200 then next s else (1, s)

  -- The loop over the paths.
  unfoldable pub check_paths : String → List String → S → ℕ × S
  unfolding after_get
  check_paths port [] s = (0, s)
  check_paths port (path ∷ paths) s = after_get (check_paths port paths) (get port path s)

  unfoldable pub healthcheck : Environment → S → ℕ × S
  unfolding check_paths
  healthcheck getenv s = check_paths (healthcheck_port getenv) ("/healthz" ∷ "/readyz" ∷ []) s
