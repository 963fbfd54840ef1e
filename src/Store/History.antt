-- ===== src/Store/History.antt =====
-- Any sequence of calls of the store, each with whatever the database answers.
pub mod Sound
pub mod Invariant
pub mod View
pub mod Refinement
pub mod Effects
pub mod Exact
use devops_demo.Base.{ℕ, List, ℤ, none, []}
use devops_demo.Store.Schema.{EventRecord, SnapshotItem, SeedMarker, Tables}
use devops_demo.Store.Session.{Reply}
use devops_demo.Store.Ingest.{ingest_event}
use devops_demo.Store.Batch.{ingest_events_batch}
use devops_demo.Store.Reconcile.{reconcile_snapshot}
use devops_demo.Store.Retention.{delete_events_older_than}
use devops_demo.Store.Marker.{upsert_seed_marker}

-- The tables that the migrations create.
abbrev pub empty_tables : {F : Type 0} → Tables F
empty_tables = record {
  item_events = [];
  event_buckets = [];
  current_items = [];
  seed_marker = none;
}

module _ {F : Type 0} (stamp : ℕ → ℕ) where
  -- One call that may write, from the tables `t`.
  pub data Step (t : Tables F) : Tables F → Type 0 where
    ingest :
        (e : EventRecord) (script : List Reply)
        → Step t (ingest_event stamp e (record { tables = t; script = script })).1.tables
    batch :
        (ev : List EventRecord) (script : List Reply)
        → Step t (ingest_events_batch stamp ev (record { tables = t; script = script })).1.tables
    reconcile :
        (items : List SnapshotItem) (now : ℕ) (script : List Reply)
        → Step t
            (reconcile_snapshot stamp items now (record { tables = t; script = script })).1.tables
    expire :
        (cutoff : ℕ) (script : List Reply)
        → Step t
            (delete_events_older_than stamp cutoff
              (record { tables = t; script = script })).1.tables
    mark :
        (m : SeedMarker F) (script : List Reply)
        → Step t (upsert_seed_marker stamp m (record { tables = t; script = script })).1.tables

  pub data History (t : Tables F) : Tables F → Type 0 where
    start : History t t
    call : {u v : Tables F} → History t u → Step u v → History t v
