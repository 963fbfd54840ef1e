-- ===== src/SeedCommand/Program/Completed.antt =====
-- What the exit code of `analytics seed` means.
use devops_demo.Base.{
  ℕ, zero, suc, String, ◌≡◌, ◌≢◌, ◌⊎◌, inl, inr, refl, Option, none, some, List, [], arith,
}
use devops_demo.Base.Environment.{Environment}
use devops_demo.Grafana.{Api, replace_anomaly_annotations}
use devops_demo.SeedCommand.{Script, Command, seed_command}
use devops_demo.SeedCommand.Marked.{IsCompleted, seed_command-IsCompleted}
use devops_demo.SeedCommand.Flags.{Flags, parse_flags}
use devops_demo.SeedCommand.Program.{
  Given, scale_of, options_of, initial_flags, annotate, after_flags, seed_program,
}

module _ {F R G : Type 0} (given : Given F R) (getenv : Environment) (api : Api G) (stamp : ℕ → ℕ)
    (ref_time : ℕ) (script : Script) where
  -- A run that ends with 0: the arguments are flags, the command with these has completed, and the
  -- annotations have been sent to Grafana.
  pub record Succeeded (args : List String) (c : Command F R) (g : G) (r : Command F R × G)
      : Type 0 where
    flags : Flags
    parsed : parse_flags given.parse_number args (initial_flags getenv) ≡ some flags
    completed : IsCompleted stamp (options_of given getenv ref_time flags) script c r.0
    annotated :
        r.1
        ≡ (replace_anomaly_annotations api
            (given.annotations flags (scale_of given getenv) ref_time)
            g).1

  annotate-Succeeded :
      (args : List String) (c : Command F R) (g : G) (flags : Flags) (r : ℕ × Command F R)
      → parse_flags given.parse_number args (initial_flags getenv) ≡ some flags
      → (r.0 ≡ 0 → IsCompleted stamp (options_of given getenv ref_time flags) script c r.1)
      → let q = annotate api (given.annotations flags (scale_of given getenv) ref_time) r g in
        ((q.0 ≡ 0) × Succeeded args c g q.1) ⊎ ((q.0 ≢ 0) × (q.1.1 ≡ g))
  unfolding annotate
  annotate-Succeeded args c g flags (zero, c') p done =
      inl (refl, record { flags = flags; parsed = p; completed = done refl; annotated = refl })
  annotate-Succeeded args c g flags (suc code, c') p done = inr ((λ z. absurd (omega arith)), refl)

  zero-IsCompleted :
      (flags : Flags) (c : Command F R)
      → c.state.accepted ≡ []
      → c.state.pending ≡ []
      → (seed_command stamp (options_of given getenv ref_time flags) script c).0 ≡ 0
      → IsCompleted stamp
          (options_of given getenv ref_time flags)
          script
          c
          (seed_command stamp (options_of given getenv ref_time flags) script c).1
  zero-IsCompleted flags c a p z =
      elim (seed_command-IsCompleted stamp (options_of given getenv ref_time flags) script c a p) [
        | inl (same, one) ↦ absurd (omega (arith, z, one))
        | inr done ↦ done
      ]

  -- Whatever the arguments, the environment, the database, the backend and Grafana do, `analytics
  -- seed`, started with nothing handed over or pending, exits with 0 only if the arguments are flags
  -- and the command with these completed (the store acknowledged the whole history, and the marker
  -- describes the run), and then it has sent the annotations to Grafana; with any other exit code it
  -- has sent nothing to Grafana.
  pub seed_program-Succeeded :
      (args : List String) (c : Command F R) (g : G)
      → c.state.accepted ≡ []
      → c.state.pending ≡ []
      → let r = seed_program given getenv api stamp ref_time script args (c, g) in
        ((r.0 ≡ 0) × Succeeded args c g r.1) ⊎ ((r.0 ≢ 0) × (r.1.1 ≡ g))
  unfolding seed_program
  seed_program-Succeeded args c g a p =
      go (parse_flags given.parse_number args (initial_flags getenv)) refl
    where
      go :
          (o : Option Flags)
          → parse_flags given.parse_number args (initial_flags getenv) ≡ o
          → let r = after_flags given getenv api stamp ref_time script o (c, g) in
            ((r.0 ≡ 0) × Succeeded args c g r.1) ⊎ ((r.0 ≢ 0) × (r.1.1 ≡ g))
      go none e =
          inr ((λ z. absurd (unfold after_flags in ground arith)), unfold after_flags in refl)
      go (some flags) e =
          unfold after_flags in
          annotate-Succeeded args c g flags
            (seed_command stamp (options_of given getenv ref_time flags) script c) e
            (zero-IsCompleted flags c a p)
