-- ===== src/SeedCommand/Program.antt =====
-- seed of cmd/analytics/seed.go as a whole: the flags, the settings from the environment, the command
-- and the Grafana annotations at its end. strconv.ParseFloat and time.ParseDuration are parameters.
pub mod Completed
use devops_demo.Base.{
  ℕ, zero, suc, String, Option, none, some, List, ℤ, pos, text_eq, if◌then◌else◌,
}
use devops_demo.Base.Environment.{Environment, env_string}
use devops_demo.Seeder.{Draws}
use devops_demo.Retention.{config_from_env}
use devops_demo.Grafana.{Api, Annotation, replace_anomaly_annotations}
use devops_demo.SeedCommand.{Options, Script, Command, seed_command}
use devops_demo.SeedCommand.Flags.{Flags, default_flags, parse_flags}

unfoldable pub float_or : {F : Type 0} → F → Option F → F
float_or def none = def
float_or def (some x) = x

unfoldable pub env_float : {F : Type 0} → (String → Option F) → Environment → String → F → F
unfolding float_or
env_float parse_float getenv key def =
    if text_eq (getenv key) "" then def else float_or def (parse_float (getenv key))

-- The parsers of the standard library, the float 1.0, and what the flags, the scale and the reference
-- time make of the profile: the draws of the seeder and the annotations.
pub record Given (F R : Type 0) : Type 0 where
  pub parse_number : String → Option ℤ
  pub parse_float : String → Option F
  pub parse_duration : String → Option ℤ
  pub one : F
  pub draws : Flags → F → ℕ → Draws R
  pub annotations : Flags → F → ℕ → List Annotation

-- Annotations are written once the marker is; their failure is logged only.
unfoldable pub annotate : {C G : Type 0} → Api G → List Annotation → ℕ × C → G → ℕ × (C × G)
annotate api anns (zero, c) g = (0, (c, (replace_anomaly_annotations api anns g).1))
annotate api anns (suc code, c) g = (suc code, (c, g))

-- The flags before the arguments are read.
unfoldable pub initial_flags : Environment → Flags
unfolding env_string
initial_flags getenv =
    default_flags (env_string getenv "ANALYTICS_LOADPROFILE_PATH" "../../loadprofile/profile.json")

module _ {F R : Type 0} (given : Given F R) (getenv : Environment) where
  unfoldable pub scale_of : F
  unfolding env_float
  scale_of = env_float given.parse_float getenv "DEMO_TIME_SCALE" given.one

  -- seeder.Config leaves its BatchSize at 0.
  unfoldable pub options_of : ℕ → Flags → Options F R
  unfolding scale_of
  options_of ref_time flags = record {
    seeder = record { days = flags.days; ref_time = ref_time; batch_size = pos 0 };
    retention =
        config_from_env given.parse_duration (getenv "ANALYTICS_RETENTION_INTERVAL")
          (getenv "ANALYTICS_RETENTION_DAYS");
    draws = given.draws flags scale_of ref_time;
    seed_value = flags.seed_value;
    scale = scale_of;
  }

  module _ {G : Type 0} (api : Api G) (stamp : ℕ → ℕ) (ref_time : ℕ) (script : Script) where
    unfoldable pub after_flags : Option Flags → Command F R × G → ℕ × (Command F R × G)
    unfolding annotate
    after_flags none (c, g) = (2, (c, g))
    after_flags (some flags) (c, g) =
        annotate api (given.annotations flags scale_of ref_time)
          (seed_command stamp (options_of ref_time flags) script c) g

    unfoldable pub seed_program : List String → Command F R × G → ℕ × (Command F R × G)
    unfolding after_flags
    seed_program args s = after_flags (parse_flags given.parse_number args (initial_flags getenv)) s
