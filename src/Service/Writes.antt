-- ===== src/Service/Writes.antt =====
-- What the parts of the service do to the tables, they do by calls of the store.
use devops_demo.Base.{ℕ, refl, if_keeps, ◌≡◌, Option, none, some, List, [], ◌∷◌}
use devops_demo.Store.Schema.{Tables}
use devops_demo.Store.Session.{Session, Result, ok, err}
use devops_demo.Store.History.{History, call, ingest, batch, reconcile, expire, mark}
use devops_demo.Store.Retention.{delete_events_older_than}
use devops_demo.Store.Marker.{upsert_seed_marker}
use devops_demo.Ingest.Client.{Config}
use devops_demo.Ingest.Reconnect.{Pass, Loop, run_client}
use devops_demo.Ingest.Keeps.{run_client-keeps}
use devops_demo.Retention.{Job, RunMetrics, cutoff_of, note_run, run_once, run_ticks, run_job}
use devops_demo.Seeder.{Item, Failure, State}
use devops_demo.Seeder.Keeps.{run_seeder-keeps}
use devops_demo.SeedCommand.{
  Options, Script, Command, closing_pass, marker_of, after_marker, after_run, after_fetch,
  fetch_backend_items, seed_command,
}

module _ {F : Type 0} (stamp : ℕ → ℕ) (t : Tables F) where
  -- The tables of a session that calls of the store have led to.
  abbrev Reached : Session F → Type 0
  Reached s = History stamp t s.tables

  -- Whatever the backend, the timers, the context and the database do, the ingest client leaves
  -- tables that a history of calls of the store leads to.
  pub run_client-History :
      (cfg : Config) (passes : List Pass) (l : Loop F)
      → Reached l.world.session
      → Reached (run_client stamp cfg passes l).1.world.session
  run_client-History cfg passes l h =
      run_client-keeps stamp Reached (λ e s h. call h (ingest e s.script))
        (λ items now s h. call h (reconcile items now s.script)) cfg passes l h

  note_run-session :
      (at : ℕ) (m : RunMetrics) (r : Result ℕ × Session F) → (note_run at m r).session ≡ r.1
  unfolding note_run
  note_run-session at m (ok deleted, s) = refl
  note_run-session at m (err e, s) = refl

  run_once-History :
      (cfg : devops_demo.Retention.Config) (at : ℕ) (job : Job F)
      → Reached job.session
      → Reached (run_once stamp cfg at job).session
  unfolding run_once
  run_once-History cfg at job h =
      rw
        (note_run-session at job.metrics
          (delete_events_older_than stamp (cutoff_of at cfg.retention_days) job.session))
        (call h (expire (cutoff_of at cfg.retention_days) job.session.script))

  run_ticks-History :
      (cfg : devops_demo.Retention.Config) (ticks : List ℕ) (job : Job F)
      → Reached job.session
      → Reached (run_ticks stamp cfg ticks job).session
  unfolding run_ticks
  run_ticks-History cfg [] job h = h
  run_ticks-History cfg (tick ∷ ticks) job h =
      run_ticks-History cfg ticks _ (run_once-History cfg tick job h)

  -- So does the retention job.
  pub run_job-History :
      (cfg : devops_demo.Retention.Config) (at : ℕ) (ticks : List ℕ) (job : Job F)
      → Reached job.session
      → Reached (run_job stamp cfg at ticks job).session
  unfolding run_job
  run_job-History cfg at ticks job h = run_ticks-History cfg ticks _ (run_once-History cfg at job h)

  module _ {R : Type 0} (o : Options F R) (script : Script) where
    after_marker-History :
        (c : Command F R) (r : Result (Unit {0}) × Session F)
        → Reached r.1
        → Reached (after_marker c r).1.state.session
    unfolding after_marker
    after_marker-History c (ok u, s) h = h
    after_marker-History c (err e, s) h = h

    after_run-History :
        (m : RunMetrics) (r : Option Failure × State F R)
        → Reached r.1.session
        → Reached (after_run stamp o script m r).1.state.session
    unfolding after_run closing_pass
    after_run-History m (some failure, st) h = h
    after_run-History m (none, st) h =
        let job : Job F = record { session = st.session; metrics = m } in
        let c = closing_pass stamp o script.retention_time (record { state = st; metrics = m }) in
        after_marker-History c
          (upsert_seed_marker stamp (marker_of o script.marker_time c) c.state.session)
          (call (run_once-History o.retention script.retention_time job h)
            (mark (marker_of o script.marker_time c) c.state.session.script))

    after_fetch-History :
        (items : Option (List Item)) (c : Command F R)
        → Reached c.state.session
        → Reached (after_fetch stamp o script items c).1.state.session
    unfolding after_fetch
    after_fetch-History none c h = h
    after_fetch-History (some []) c h = h
    after_fetch-History (some (first ∷ items)) c h = after_run-History c.metrics _ (
        run_seeder-keeps stamp Reached (λ ev s h. call h (batch ev s.script)) o.seeder o.draws
          (first ∷ items) c.state h)

    -- And so does the seed command.
    pub seed_command-History :
        (c : Command F R)
        → Reached c.state.session
        → Reached (seed_command stamp o script c).1.state.session
    unfolding seed_command
    seed_command-History c h =
        if_keeps (λ (r : ℕ × Command F R). Reached r.1.state.session) (λ r. r) _ _ _
          (after_fetch-History (fetch_backend_items script.list_items) c h) h
