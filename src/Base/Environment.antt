-- ===== src/Base/Environment.antt =====
-- os.Getenv with a default: envString of cmd/analytics/main.go, of internal/ingest/config.go and of
-- internal/grafana/config.go. The value of an unset variable is "".
use Prim.Native.String.{String}
use devops_demo.Base.Tests.{if◌then◌else◌}
use devops_demo.Base.Keys.{text_eq}

abbrev pub Environment : Type 0
Environment = String → String

unfoldable pub env_string : Environment → String → String → String
env_string getenv key def = if text_eq (getenv key) "" then def else getenv key
