-- ===== src/SeedCommand.antt =====
-- cmd/analytics/seed.go: the subcommand `analytics seed`, from the parsed flags on. What the profile
-- file, the database, the migrations and the backend answer is part of the script. The flags and the
-- annotations at its end are in the child modules.
pub mod Marked
pub mod Flags
pub mod Program
use devops_demo.Base.{
  ℕ, Bool, true, false, ◌&&◌, Option, none, some, List, [], ◌∷◌, ℤ, leb_ℤ, if◌then◌else◌,
}
use devops_demo.Store.Schema.{SeedMarker, SnapshotItem}
use devops_demo.Store.Session.{Result, ok, err, Session}
use devops_demo.Store.Connect.{Attempt, connect, is_connected}
use devops_demo.Store.Marker.{upsert_seed_marker}
use devops_demo.Ingest.Event.{unix_seconds}
use devops_demo.Ingest.Client.{Answer, gives, fails}
use devops_demo.Seeder.{Item, Draws, Failure, State, run_seeder}
use devops_demo.Retention.{Job, RunMetrics, run_once}

-- What the flags and the environment give; `scale` is DEMO_TIME_SCALE.
pub record Options (F R : Type 0) : Type 0 where
  pub seeder : devops_demo.Seeder.Config
  pub retention : devops_demo.Retention.Config
  pub draws : Draws R
  pub seed_value : ℤ
  pub scale : F

-- Whether the profile is read and parsed, how the attempts of Connect go, whether Migrate succeeds
-- and what ListItems answers; and the clock at the retention pass and at the marker.
pub record Script : Type 0 where
  pub profile_parsed : Bool
  pub dials : ℕ → Attempt
  pub migrated : Bool
  pub list_items : Answer (List SnapshotItem)
  pub retention_time : ℕ
  pub marker_time : ℕ

-- The seeder's variables and the retention metrics.
pub record Command (F R : Type 0) : Type 0 where
  pub state : State F R
  pub metrics : RunMetrics

-- slices.SortFunc by ID. The IDs of a snapshot are distinct, so its order of equal ones is not asked.
unfoldable pub insert_item : Item → List Item → List Item
insert_item item [] = item ∷ []
insert_item item (first ∷ items) =
    let rest = insert_item item items in
    if leb_ℤ item.item_id first.item_id then item ∷ first ∷ items else first ∷ rest

unfoldable pub sort_items : List Item → List Item
unfolding insert_item
sort_items [] = []
sort_items (item ∷ items) = insert_item item (sort_items items)

unfoldable pub fetch_backend_items : Answer (List SnapshotItem) → Option (List Item)
unfolding sort_items
fetch_backend_items (fails c) = none
fetch_backend_items (gives items) = some (sort_items items)

module _ {F R : Type 0} where
  abbrev pub with_session : Session F → Command F R → Command F R
  with_session s c = record c { state = record c.state { session = s } }

  -- retention.New(...).RunOnce(ctx)
  unfoldable pub closing_pass : (ℕ → ℕ) → Options F R → ℕ → Command F R → Command F R
  closing_pass stamp o start c =
      let job =
        run_once stamp o.retention start
          (record { session = c.state.session; metrics = c.metrics }) in
      record { state = record c.state { session = job.session }; metrics = job.metrics }

  abbrev pub marker_of : Options F R → ℕ → Command F R → SeedMarker F
  marker_of o now c = record {
    scale = o.scale;
    ref_unix = unix_seconds o.seeder.ref_time;
    seed = o.seed_value;
    days = o.seeder.days;
    seeded_at = now;
    events_written = c.state.total_written;
  }

  -- The exit code after UpsertSeedMarker.
  unfoldable pub after_marker : Command F R → Result (Unit {0}) × Session F → ℕ × Command F R
  after_marker c (ok u, s) = (0, with_session s c)
  after_marker c (err e, s) = (1, with_session s c)

  unfoldable pub after_run :
      (ℕ → ℕ) → Options F R → Script → RunMetrics → Option Failure × State F R → ℕ × Command F R
  unfolding after_marker closing_pass
  after_run stamp o script metrics (some failure, st) =
      (1, record { state = st; metrics = metrics })
  after_run stamp o script metrics (none, st) =
      let c =
        closing_pass stamp o script.retention_time (record { state = st; metrics = metrics }) in
      after_marker c (upsert_seed_marker stamp (marker_of o script.marker_time c) c.state.session)

  unfoldable pub after_fetch :
      (ℕ → ℕ) → Options F R → Script → Option (List Item) → Command F R → ℕ × Command F R
  unfolding after_run
  after_fetch stamp o script none c = (1, c)
  after_fetch stamp o script (some []) c = (1, c)
  after_fetch stamp o script (some (first ∷ items)) c =
      after_run stamp o script c.metrics (run_seeder stamp o.seeder o.draws (first ∷ items) c.state)

  unfoldable pub seed_command : (ℕ → ℕ) → Options F R → Script → Command F R → ℕ × Command F R
  unfolding after_fetch fetch_backend_items
  seed_command stamp o script c =
      if script.profile_parsed && (is_connected (connect script.dials 10).0 && script.migrated)
      then after_fetch stamp o script (fetch_backend_items script.list_items) c
      else (1, c)
