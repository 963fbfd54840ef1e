-- ===== src/Store/History/Invariant.antt =====
-- The invariant of the raw events and their buckets holds after any calls of the store.
use devops_demo.Base.{
  ℕ, ◌≤◌, ◌≡◌, refl, true, List, [], ◌∷◌, map, nat_key, text_key, pair_key, int_key, inl, inr,
  arith,
}
use devops_demo.Base.Table.{lookup}
use devops_demo.Store.Schema.{EventRecord, BucketKey, Tables}
use devops_demo.Store.Session.{Session}
use devops_demo.Store.Ingest.{stored, ingest_event}
use devops_demo.Store.Ingest.Effect.{ingest_event-atomic}
use devops_demo.Store.Batch.{all_known, ingest_events_batch}
use devops_demo.Store.Batch.Serial.{land_all}
use devops_demo.Store.Batch.Landed.{ingest_events_batch-landed}
use devops_demo.Store.Reconcile.Effect.{reconcile_snapshot-keeps}
use devops_demo.Store.Retention.{delete_older, delete_events_older_than}
use devops_demo.Store.Marker.{upsert_seed_marker}
use devops_demo.Store.History.{
  Step, History, ingest, batch, reconcile, expire, mark, start, call, empty_tables,
}
use devops_demo.Store.Schema.{SnapshotItem, SeedMarker}
use devops_demo.Store.Retention.Effect.{has_event-delete_older}
use devops_demo.Store.Reconcile.{reconcile_snapshot}
use devops_demo.Store.History.Sound.{
  occurrences, is_unique, IsSound, landed-IsSound, land_all-IsSound, IsSound-transfer,
}

delete_older-covered :
    (cutoff : ℕ) (k : BucketKey) (rows : List EventRecord)
    → occurrences k (delete_older cutoff rows) ≤ occurrences k rows
unfolding occurrences delete_older
delete_older-covered cutoff k [] = omega arith
delete_older-covered cutoff k (r ∷ rows) = ground (arith, delete_older-covered cutoff k rows)

is_unique-delete_older :
    (cutoff : ℕ) (rows : List EventRecord)
    → is_unique rows ≡ true
    → is_unique (delete_older cutoff rows) ≡ true
unfolding is_unique delete_older
is_unique-delete_older cutoff [] u = refl
is_unique-delete_older cutoff (r ∷ rows) u =
    ground (arith, is_unique-delete_older cutoff rows, has_event-delete_older r cutoff rows)

all_known-delete_older :
    (cutoff : ℕ) (rows : List EventRecord)
    → all_known rows ≡ true
    → all_known (delete_older cutoff rows) ≡ true
unfolding all_known delete_older
all_known-delete_older cutoff [] u = refl
all_known-delete_older cutoff (r ∷ rows) u = ground (arith, all_known-delete_older cutoff rows)

module _ {F : Type 0} (stamp : ℕ → ℕ) where
  ingest_event-IsSound :
      (e : EventRecord) (s : Session F)
      → IsSound s.tables
      → IsSound (ingest_event stamp e s).1.tables
  unfolding stored
  ingest_event-IsSound e s h = elim (ingest_event-atomic stamp e s) [
    | inl undone ↦ rw undone h
    | inr (known, done) ↦ rw done (landed-IsSound (stored stamp e) s.tables known h)
  ]

  ingest_events_batch-IsSound :
      (ev : List EventRecord) (s : Session F)
      → IsSound s.tables
      → IsSound (ingest_events_batch stamp ev s).1.tables
  ingest_events_batch-IsSound ev s h = elim (ingest_events_batch-landed stamp ev s) [
    | inl undone ↦ rw undone h
    | inr (known, events, buckets, table) ↦
        let new = map (stored stamp) ev in
        IsSound-transfer (ingest_events_batch stamp ev s).1.tables (land_all new s.tables) events
          buckets (land_all-IsSound new s.tables known h)
  ]

  delete_events_older_than-IsSound :
      (cutoff : ℕ) (s : Session F)
      → IsSound s.tables
      → IsSound (delete_events_older_than stamp cutoff s).1.tables
  unfolding delete_events_older_than
  delete_events_older_than-IsSound cutoff s h = record {
    unique = ground (arith, is_unique-delete_older (stamp cutoff) s.tables.item_events);
    known = ground (arith, all_known-delete_older (stamp cutoff) s.tables.item_events);
    covered = λ k.
        ground (arith, h.covered k, delete_older-covered (stamp cutoff) k s.tables.item_events);
  }

  reconcile_snapshot-IsSound :
      (items : List SnapshotItem) (now : ℕ) (s : Session F)
      → IsSound s.tables
      → IsSound (reconcile_snapshot stamp items now s).1.tables
  reconcile_snapshot-IsSound items now s h =
      let (events, buckets, marker) = reconcile_snapshot-keeps stamp items now s in
      IsSound-transfer _ s.tables events (λ k. rw buckets) h

  upsert_seed_marker-IsSound :
      (m : SeedMarker F) (s : Session F)
      → IsSound s.tables
      → IsSound (upsert_seed_marker stamp m s).1.tables
  unfolding upsert_seed_marker
  upsert_seed_marker-IsSound m s h =
      IsSound-transfer _ s.tables (ground arith) (λ k. ground arith) h

  Step-IsSound : {t u : Tables F} → Step stamp t u → IsSound t → IsSound u
  Step-IsSound (ingest e script) h = ingest_event-IsSound e _ h
  Step-IsSound (batch ev script) h = ingest_events_batch-IsSound ev _ h
  Step-IsSound (reconcile items now script) h = reconcile_snapshot-IsSound items now _ h
  Step-IsSound (expire cutoff script) h = delete_events_older_than-IsSound cutoff _ h
  Step-IsSound (mark m script) h = upsert_seed_marker-IsSound m _ h

  -- From sound tables, whatever calls of the store are made in whatever order and whatever the
  -- database answers, the tables stay sound: raw events are unique and of a known type, and every
  -- bucket counts at least the raw events of its hour and type.
  pub History-IsSound : {t u : Tables F} → IsSound t → History stamp t u → IsSound u
  History-IsSound h start = h
  History-IsSound h (call hist step) = Step-IsSound step (History-IsSound h hist)

pub IsSound-empty_tables : {F : Type 0} → IsSound (empty_tables {F = F})
unfolding is_unique all_known occurrences lookup
IsSound-empty_tables = record { unique = refl; known = refl; covered = λ k. omega arith }
