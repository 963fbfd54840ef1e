-- ===== src/Store/History/Exact.antt =====
-- The hourly buckets as long as no raw event is expired.
use devops_demo.Base.{
  ℕ, ◌≡◌, refl, Bool, true, false, ◌||◌, Option, List, [], ◌∷◌, map, nat_key, text_key, pair_key,
  int_key, inl, inr, String, has_duplicates, arith,
}
use devops_demo.Base.Table.{
  Table, lookup, upsert, upsert_all, keys, lookup-upsert, keys-upsert-has_duplicates,
}
use devops_demo.Store.Schema.{EventRecord, BucketKey, Tables, SnapshotItem, SeedMarker}
use devops_demo.Store.Session.{Session}
use devops_demo.Store.Ingest.{stored, ingest_event, bucket_of, add_count}
use devops_demo.Store.Ingest.Effect.{landed, counted, ingest_event-atomic}
use devops_demo.Store.Batch.{bucket_deltas, insert_rows, ingest_events_batch}
use devops_demo.Store.Batch.Serial.{land_all}
use devops_demo.Store.Batch.Landed.{ingest_events_batch-landed}
use devops_demo.Store.Reconcile.{reconcile_snapshot}
use devops_demo.Store.Reconcile.Effect.{reconcile_snapshot-keeps}
use devops_demo.Store.Marker.{upsert_seed_marker}
use devops_demo.Store.History.{
  Step, History, ingest, batch, reconcile, expire, mark, start, call, empty_tables,
}
use devops_demo.Store.History.Sound.{occurrences, occurrences-append, count_of}

-- A bucket counts the raw events of its hour and type, and no hour and type has two buckets.
pub record IsExact {F : Type 0} (t : Tables F) : Type 0 where
  pub counts : (k : BucketKey) → occurrences k t.item_events ≡ count_of (lookup k t.event_buckets)
  pub keyed : has_duplicates (keys t.event_buckets) ≡ false

upsert_all-keyed :
    (f : ℕ → Option ℕ → ℕ) (new t : Table BucketKey ℕ)
    → has_duplicates (keys t) ≡ false
    → has_duplicates (keys (upsert_all f new t)) ≡ false
unfolding upsert_all
upsert_all-keyed f [] t h = h
upsert_all-keyed f ((k, d) ∷ new) t h =
    upsert_all-keyed f new (upsert k (f d) t) (keys-upsert-has_duplicates k (f d) t h)

module _ {F : Type 0} where
  landed-IsExact : (row : EventRecord) (t : Tables F) → IsExact t → IsExact (landed row t)
  unfolding landed counted
  landed-IsExact row t s = record {
    counts = λ b. ground (
      arith,
      s.counts b,
      occurrences-append b t.item_events row,
      lookup-upsert (bucket_of row) b (add_count 1) t.event_buckets,
      (pair_key {A = ℕ} {B = String}).same_iff (bucket_of row) b,
    );
    keyed =
        ground (
          arith,
          s.keyed,
          keys-upsert-has_duplicates (bucket_of row) (add_count 1) t.event_buckets,
        );
  }

  land_all-IsExact :
      (rows : List EventRecord) (t : Tables F) → IsExact t → IsExact (land_all rows t)
  unfolding land_all
  land_all-IsExact [] t s = s
  land_all-IsExact (r ∷ rows) t s = land_all-IsExact rows (landed r t) (landed-IsExact r t s)

module _ {F : Type 0} (stamp : ℕ → ℕ) where
  ingest_event-IsExact :
      (e : EventRecord) (s : Session F)
      → IsExact s.tables
      → IsExact (ingest_event stamp e s).1.tables
  unfolding stored
  ingest_event-IsExact e s h = elim (ingest_event-atomic stamp e s) [
    | inl undone ↦ rw undone h
    | inr (known, done) ↦ rw done (landed-IsExact (stored stamp e) s.tables h)
  ]

  ingest_events_batch-IsExact :
      (ev : List EventRecord) (s : Session F)
      → IsExact s.tables
      → IsExact (ingest_events_batch stamp ev s).1.tables
  ingest_events_batch-IsExact ev s h = elim (ingest_events_batch-landed stamp ev s) [
    | inl undone ↦ rw undone h
    | inr (known, events, buckets, table) ↦
        let new = map (stored stamp) ev in
        let ins = insert_rows new (s.tables.item_events, []) in
        let all = land_all-IsExact new s.tables h in
        record {
          counts = λ k. rw (events, buckets k) (all.counts k);
          keyed =
              rw table
                (upsert_all-keyed add_count (bucket_deltas ins.1) s.tables.event_buckets h.keyed);
        }
  ]

  reconcile_snapshot-IsExact :
      (items : List SnapshotItem) (now : ℕ) (s : Session F)
      → IsExact s.tables
      → IsExact (reconcile_snapshot stamp items now s).1.tables
  reconcile_snapshot-IsExact items now s h =
      let (events, buckets, marker) = reconcile_snapshot-keeps stamp items now s in
      record { counts = λ k. rw (events, buckets) (h.counts k); keyed = rw buckets h.keyed }

  upsert_seed_marker-IsExact :
      (m : SeedMarker F) (s : Session F)
      → IsExact s.tables
      → IsExact (upsert_seed_marker stamp m s).1.tables
  unfolding upsert_seed_marker
  upsert_seed_marker-IsExact m s h = record {
    counts = λ k. ground (arith, h.counts k);
    keyed = ground (arith, h.keyed);
  }

  -- Whether DeleteEventsOlderThan is among the calls.
  abbrev pub is_expiry : {t u : Tables F} → Step stamp t u → Bool
  is_expiry (ingest e script) = false
  is_expiry (batch ev script) = false
  is_expiry (reconcile items now script) = false
  is_expiry (expire cutoff script) = true
  is_expiry (mark m script) = false

  abbrev pub has_expired : {t u : Tables F} → History stamp t u → Bool
  has_expired start = false
  has_expired (call hist step) = is_expiry step || has_expired hist

  Step-IsExact :
      {t u : Tables F} (step : Step stamp t u) → is_expiry step ≡ false → IsExact t → IsExact u
  Step-IsExact (ingest e script) n h = ingest_event-IsExact e _ h
  Step-IsExact (batch ev script) n h = ingest_events_batch-IsExact ev _ h
  Step-IsExact (reconcile items now script) n h = reconcile_snapshot-IsExact items now _ h
  Step-IsExact (expire cutoff script) n h = absurd (ground arith)
  Step-IsExact (mark m script) n h = upsert_seed_marker-IsExact m _ h

  pub History-IsExact :
      {t u : Tables F} (hist : History stamp t u) → has_expired hist ≡ false → IsExact t → IsExact u
  History-IsExact start n h = h
  History-IsExact (call hist step) n h =
      Step-IsExact step (ground arith) (History-IsExact hist (ground arith) h)

pub IsExact-empty_tables : {F : Type 0} → IsExact (empty_tables {F = F})
unfolding occurrences lookup
IsExact-empty_tables = record { counts = λ k. refl; keyed = refl }
