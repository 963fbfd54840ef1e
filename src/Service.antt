-- ===== src/Service.antt =====
-- cmd/analytics/main.go: the dispatch of the subcommands. serve and healthcheck are in the child
-- modules, seed is in SeedCommand.
pub mod Serve
pub mod Health
pub mod Writes
pub mod Whole
use devops_demo.Base.{ℕ, String, List, [], ◌∷◌, text_eq, if◌then◌else◌}

module _ {S : Type 0} (serve : S → ℕ × S) (seed : List String → S → ℕ × S)
    (healthcheck : S → ℕ × S) where
  -- The switch on the subcommand; 2 for an unknown one.
  unfoldable pub run_command : String → List String → S → ℕ × S
  run_command cmd rest s =
      if text_eq cmd "serve"
      then serve s
      else if text_eq cmd "seed"
      then seed rest s
      else if text_eq cmd "healthcheck"
      then healthcheck s
      else (2, s)

  -- run: the arguments start after the program's name.
  unfoldable pub run_program : List String → S → ℕ × S
  unfolding run_command
  run_program [] s = run_command "serve" [] s
  run_program (cmd ∷ rest) s = run_command cmd rest s
