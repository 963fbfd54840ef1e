-- ===== src/Retention/Deletes.antt =====
-- What a run of the retention job deletes and counts.
use devops_demo.Base.{
  ℕ, suc, ◌+◌, ◌-◌, ◌*◌, ◌≡◌, ◌⊎◌, inl, inr, refl, sym, subst, true, false, ◌&&◌, pos, leb, length,
  arith,
}
use devops_demo.Store.Schema.{EventRecord}
use devops_demo.Store.Session.{Result, ok, err, is_ok, Session}
use devops_demo.Store.Session.Laws.{answers}
use devops_demo.Store.Ingest.{has_event}
use devops_demo.Store.Retention.{delete_events_older_than}
use devops_demo.Store.Retention.Effect.{delete_events_older_than-ok}
use devops_demo.Retention.{Config, Job, cutoff_of, note_run, run_once}

module _ {F : Type 0} where
  -- The raw events that are left are those that are not older than `horizon`, and the run counts as
  -- a success with the rows that are gone.
  pub record HasDeleted (horizon : ℕ) (job job' : Job F) : Type 0 where
    pub left :
        (e : EventRecord)
        → has_event e job'.session.tables.item_events
          ≡ (leb horizon e.event_time && has_event e job.session.tables.item_events)
    pub deleted :
        job'.metrics.deleted_rows + length job'.session.tables.item_events
        ≡ job.metrics.deleted_rows + length job.session.tables.item_events
    pub success : job'.metrics.successes ≡ suc job.metrics.successes
    pub no_failure : job'.metrics.failures ≡ job.metrics.failures

  -- The two ways in which a run ends.
  abbrev pub RunEnds : ℕ → Job F → Job F → Type 0
  RunEnds horizon job job' =
      ((answers job.session ≡ true) × HasDeleted horizon job job')
      ⊎ ((answers job.session ≡ false)
          × (job'.metrics.failures ≡ suc job.metrics.failures)
          × (job'.metrics.successes ≡ job.metrics.successes)
          × (job'.metrics.deleted_rows ≡ job.metrics.deleted_rows))

module _ {F : Type 0} (stamp : ℕ → ℕ) (cfg : Config) where
  is_answered :
      (cutoff : ℕ) (s : Session F) → is_ok (delete_events_older_than stamp cutoff s).0 ≡ answers s
  unfolding delete_events_older_than
  is_answered cutoff s = ground arith

  note_run-RunEnds :
      (start cutoff : ℕ) (job : Job F) (x : Result ℕ × Session F)
      → delete_events_older_than stamp cutoff job.session ≡ x
      → is_ok x.0 ≡ answers job.session
      → RunEnds (stamp cutoff) job (note_run start job.metrics x)
  unfolding note_run
  note_run-RunEnds start cutoff job (ok n, s') h a =
      let (left, gone, buckets, items, marker) =
        delete_events_older_than-ok stamp cutoff job.session s' n h in
      inl (
        sym a,
        record {
          left = λ e. ground (arith, left e);
          deleted = omega (arith, gone);
          success = omega arith;
          no_failure = refl;
        },
      )
  note_run-RunEnds start cutoff job (err e, s') h a = inr (sym a, omega arith, refl, refl)

  -- A run with a retention of `days` days, at the time `start`: if the database answers the delete
  -- without a fault, exactly the raw events older than `start` less `days` times 24 hours are gone,
  -- they are added to the counter of deleted rows, and the run counts as a success; if not, it
  -- counts as a failure and no row is counted.
  pub run_once-HasDeleted :
      (days start : ℕ) (job : Job F)
      → cfg.retention_days ≡ pos days
      → RunEnds (stamp (start - days * 86_400_000_000_000)) job (run_once stamp cfg start job)
  unfolding run_once
  run_once-HasDeleted days start job set =
      let cutoff = cutoff_of start cfg.retention_days in
      let ends =
        note_run-RunEnds start cutoff job (delete_events_older_than stamp cutoff job.session) refl
          (is_answered cutoff job.session) in
      subst (λ n. RunEnds (stamp (cutoff_of start n)) job (run_once stamp cfg start job)) set ends
