-- ===== src/Ingest/Reconnect/Spaced.antt =====
-- How far apart the attempts are while the backend cannot be reached.
use devops_demo.Base.{
  ℕ, ◌+◌, ◌/◌, ◌*◌, ◌^◌, ◌<◌, ◌≤◌, ◌≡◌, refl, true, List, [], ◌∷◌, ◌++◌, All, pos, length, arith,
}
use devops_demo.Ingest.Backoff.Bounds.{doubled, delay-doubled, backoff_duration_bounds}
use devops_demo.Ingest.Client.{Config}
use devops_demo.Ingest.Reconnect.{Pass, Loop, looping, wait_of, run_client}
use devops_demo.Ingest.Reconnect.Outage.{all_outage, waits_from, run_client-waits_from}

-- The waits before the attempts a, a+1, and so on: each between half the doubled base and the whole.
abbrev pub AreSpaced : ℕ → ℕ → ℕ → List ℕ → Type 0
AreSpaced base cap a [] = Unit
AreSpaced base cap a (wait ∷ waits) =
    (doubled base cap a / 2 ≤ wait) × (wait ≤ doubled base cap a) × AreSpaced base cap (a + 1) waits

-- rand.Int64N stays below its argument in every round.
abbrev pub AreDraws : List Pass → Type 0
AreDraws = All (λ pass. (n : ℕ) → 0 < n → pass.int64n n < n)

length-waits_from :
    (cfg : Config) (a : ℕ) (passes : List Pass) → length (waits_from cfg a passes) ≡ length passes
length-waits_from cfg a [] = refl
length-waits_from cfg a (pass ∷ passes) = ground (arith, length-waits_from cfg (a + 1) passes)

module _ (cfg : Config) (base cap : ℕ) (is_base : cfg.backoff_base ≡ pos base)
    (is_cap : cfg.backoff_max ≡ pos cap) (some_base : 0 < base) (some_cap : 0 < cap)
    (no_wrap : base * 2 ^ 30 < 2 ^ 63) where
  wait_of_bounds :
      (pass : Pass) (a : ℕ)
      → ((n : ℕ) → 0 < n → pass.int64n n < n)
      → (doubled base cap a / 2 ≤ wait_of cfg pass a) × (wait_of cfg pass a ≤ doubled base cap a)
  wait_of_bounds pass a draw =
      let (low, high, _, _) =
        backoff_duration_bounds pass.int64n (pos a) (pos base) (pos cap) draw in
      let d = delay-doubled a base cap some_base some_cap no_wrap in
      rw (is_base, is_cap, ← d) (low, high)

  waits_from-AreSpaced :
      (a : ℕ) (passes : List Pass)
      → AreDraws passes
      → AreSpaced base cap a (waits_from cfg a passes)
  waits_from-AreSpaced a [] draws = tt
  waits_from-AreSpaced a (pass ∷ passes) (draw, draws) =
      let (low, high) = wait_of_bounds pass a draw in
      (low, high, waits_from-AreSpaced (a + 1) passes draws)

  -- After a failed attempt, while the context is not canceled and in each round the dial or
  -- ListItems fails, Run goes on, however many rounds there are, and the attempts are counted up.
  -- There is one wait for each round, before its attempt n: at least half and at most all of the
  -- base times 2^(n-1) (2^30 at most), or of the cap where that is less. The configured base and cap
  -- are positive, 2^30 times the base fits into an int64, and rand.Int64N stays below its argument.
  pub run_client-outage :
      {F : Type 0} (stamp : ℕ → ℕ) (passes : List Pass) (l : Loop F)
      → AreDraws passes
      → all_outage passes ≡ true
      → 0 < l.attempt
      → let r = run_client stamp cfg passes l in
        (r.0 ≡ looping)
        × (r.1.attempt ≡ l.attempt + length passes)
        × ((waits : List ℕ) × (r.1.waits ≡ l.waits ++ waits)
            × (length waits ≡ length passes)
            × AreSpaced base cap l.attempt waits)
  run_client-outage stamp passes l draws down again =
      let (on, next, log) = run_client-waits_from stamp cfg passes l down again in
      (
        on,
        next,
        (
          waits_from cfg l.attempt passes,
          log,
          length-waits_from cfg l.attempt passes,
          waits_from-AreSpaced l.attempt passes draws,
        ),
      )
