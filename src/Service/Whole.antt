-- ===== src/Service/Whole.antt =====
-- serve with its database: the goroutines of cmd/analytics/main.go and the calls of the store that
-- they make, one call at a time, in any order.
pub mod Guarded
use devops_demo.Base.{
  ℕ, ◌+◌, Bool, true, false, ◌&&◌, Option, none, some, List, [], ◌∷◌, if◌then◌else◌,
}
use devops_demo.Store.Schema.{EventRecord, SnapshotItem, Tables}
use devops_demo.Store.Session.{Reply}
use devops_demo.Store.Ingest.{ingest_event}
use devops_demo.Store.Reconcile.{reconcile_snapshot}
use devops_demo.Store.Retention.{delete_events_older_than}
use devops_demo.Service.Serve.{
  Goroutine, not_started, running, finished, Pool, unopened, opened, closed, Service, Event,
  has_exited, step,
}

-- `misuses` counts the calls that find the pool not open.
pub record Whole (F : Type 0) : Type 0 where
  pub service : Service
  pub tables : Tables F
  pub misuses : ℕ

-- An event of serve, or a call of the ingest client or of the retention runner, with what the
-- database answers to its statements.
pub data Act : Type 0 where
  control : Event → Act
  ingests : EventRecord → List Reply → Act
  reconciles : List SnapshotItem → ℕ → List Reply → Act
  expires : ℕ → List Reply → Act

unfoldable pub is_active : Goroutine → Bool
is_active running = true
is_active _ = false

unfoldable pub is_usable : Pool → Bool
is_usable opened = true
is_usable _ = false

module _ {F : Type 0} (stamp : ℕ → ℕ) where
  -- A call through the pool: a pool that is not open fails it.
  unfoldable pub through_pool : Tables F → Whole F → Whole F
  unfolding is_usable
  through_pool t w =
      if is_usable w.service.pool
      then record w { tables = t }
      else record w { misuses = w.misuses + 1 }

  -- A call of a goroutine, which can be made while it runs and the process is there.
  unfoldable pub call_store : Goroutine → Tables F → Whole F → Option (Whole F)
  unfolding through_pool is_active has_exited
  call_store g t w =
      if has_exited w.service.point
      then none
      else if is_active g
      then some (through_pool t w)
      else none

  unfoldable pub under_control : Whole F → Option Service → Option (Whole F)
  under_control w none = none
  under_control w (some s) = some (record w { service = s })

  unfoldable pub act : Act → Whole F → Option (Whole F)
  unfolding call_store under_control
  act (control e) w = under_control w (step e w.service)
  act (ingests e script) w =
      call_store w.service.ingest
        (ingest_event stamp e (record { tables = w.tables; script = script })).1.tables w
  act (reconciles items now script) w =
      call_store w.service.ingest
        (reconcile_snapshot stamp items now
          (record { tables = w.tables; script = script })).1.tables
        w
  act (expires cutoff script) w =
      call_store w.service.retention
        (delete_events_older_than stamp cutoff
          (record { tables = w.tables; script = script })).1.tables
        w

  unfoldable pub act_next : (Whole F → Option (Whole F)) → Option (Whole F) → Option (Whole F)
  act_next next none = none
  act_next next (some w) = next w

  unfoldable pub run_service : List Act → Whole F → Option (Whole F)
  unfolding act act_next
  run_service [] w = some w
  run_service (a ∷ acts) w = act_next (run_service acts) (act a w)
