-- ===== src/Ingest/Reconnect.antt =====
-- Client.Run of internal/ingest/client.go: cycle after cycle, with a backoff in between, until the
-- context is canceled. Where the context is canceled is part of the script.
pub mod Outage
pub mod Spaced
use devops_demo.Base.{ℕ, ◌+◌, Bool, true, false, List, [], ◌∷◌, pos, ltb, if◌then◌else◌, ◌++◌}
use devops_demo.Store.Session.{Error}
use devops_demo.Ingest.Event.{World, Metrics}
use devops_demo.Ingest.Backoff.{backoff_duration}
use devops_demo.Ingest.Client.{Config, CycleScript, CycleResult, ended, still_running, cycle}

-- One round of the loop: whether the context is canceled when the loop tests it, during the wait and
-- after the cycle, the random draw of the backoff, and what happens during the cycle.
pub record Pass : Type 0 where
  pub canceled_before : Bool
  pub canceled_waiting : Bool
  pub canceled_after : Bool
  pub int64n : ℕ → ℕ
  pub script : CycleScript

-- The variable attempt, the waits that were begun so far (a log of `wait`), and the world.
pub record Loop (F : Type 0) : Type 0 where
  pub attempt : ℕ
  pub waits : List ℕ
  pub world : World F

-- Run has returned, is about to start a round, or is inside a cycle.
pub data Status : Type 0 where
  returned looping in_cycle : Status

abbrev pub count_reconnect : Metrics → Metrics
count_reconnect m = record m { reconnects = m.reconnects + 1 }

-- The wait before an attempt.
abbrev pub wait_of : Config → Pass → ℕ → ℕ
wait_of cfg pass attempt =
    backoff_duration pass.int64n (pos attempt) cfg.backoff_base cfg.backoff_max

module _ {F : Type 0} (stamp : ℕ → ℕ) (cfg : Config) where
  -- if attempt > 0 { ... }, up to the select.
  unfoldable pub back_off : Pass → Loop F → Loop F
  back_off pass l =
      if ltb 0 l.attempt
      then record {
        attempt = l.attempt;
        waits = l.waits ++ (wait_of cfg pass l.attempt ∷ []);
        world = record l.world { metrics = count_reconnect l.world.metrics };
      }
      else l

  unfoldable pub after_cycle : Bool → Loop F → CycleResult × World F → Status × Loop F
  after_cycle true l (ended connected e, w) = (returned, record l { world = w })
  after_cycle false l (ended connected e, w) =
      (looping, record l { attempt = (if connected then 0 else l.attempt) + 1; world = w })
  after_cycle canceled l (still_running, w) = (in_cycle, record l { world = w })

  unfoldable pub try_cycle : Pass → Loop F → Status × Loop F
  unfolding after_cycle
  try_cycle pass l =
      if ltb 0 l.attempt
      then (if pass.canceled_waiting
          then (returned, back_off pass l)
          else after_cycle pass.canceled_after (back_off pass l)
              (cycle stamp pass.script (back_off pass l).world))
      else after_cycle pass.canceled_after l (cycle stamp pass.script l.world)

  -- The body of the loop, with its condition.
  unfoldable pub pass_once : Pass → Loop F → Status × Loop F
  unfolding try_cycle
  pass_once pass l = if pass.canceled_before then (returned, l) else try_cycle pass l

  unfoldable pub go_on : (Loop F → Status × Loop F) → Status × Loop F → Status × Loop F
  go_on next (looping, l) = next l
  go_on next (returned, l) = (returned, l)
  go_on next (in_cycle, l) = (in_cycle, l)

  unfoldable pub run_client : List Pass → Loop F → Status × Loop F
  unfolding go_on
  run_client [] l = (looping, l)
  run_client (pass ∷ passes) l = go_on (run_client passes) (pass_once pass l)
