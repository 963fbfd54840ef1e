-- ===== src/Store/Batch/Equivalence.antt =====
-- The documented contract of IngestEventsBatch (services/analytics/README.md, "Batch-equals-single").
use devops_demo.Base.{
  ℕ, ◌≡◌, ◌⊎◌, refl, ap, true, false, none, some, List, [], ◌∷◌, has_duplicates, nat_key, text_key,
  pair_key, int_key, ltb, map, All, length, arith,
}
use devops_demo.Base.Table.{lookup, keys, lookup-upsert_all}
use devops_demo.Store.Schema.{EventRecord, Tables}
use devops_demo.Store.Session.{Session, ok, is_ok}
use devops_demo.Store.Ingest.{merge_row, stored}
use devops_demo.Store.Batch.Fold.{FoldedItem, fold_current_items}
use devops_demo.Store.Batch.Counts.{lookup-bucket_deltas}
use devops_demo.Store.Batch.Winners.{item_after-with_new, fold_current_items-rows}
use devops_demo.Store.Batch.Serial.{
  SameTables, land_all, land_all-insert_rows, lookup-land_all, ingest_each-ok,
  ingest_events_batch-ok,
}
use devops_demo.Store.Batch.{
  BatchResult, all_known, insert_rows, count_rows, excluded_rows, ingest_events_batch, ingest_each,
}

module _ {F : Type 0} (stamp : ℕ → ℕ) (ev : List EventRecord) where
  -- What a batch that returns no error leaves, by the rows that single calls would land.
  pub ingest_events_batch-land_all :
      (P : ℕ → Type 0) (s s' : Session F) (res : BatchResult)
      → ((i j : ℕ) → P i → P j → ltb (stamp i) (stamp j) ≡ ltb i j)
      → All (λ e. P e.event_time) ev
      → ingest_events_batch stamp ev s ≡ (ok res, s')
      → (res.inserted ≡ length (insert_rows (map (stored stamp) ev) (s.tables.item_events, [])).1)
        × SameTables s'.tables (land_all (map (stored stamp) ev) s.tables)
  ingest_events_batch-land_all P s s' res keeps p h =
      let (folded, f, distinct, rows) = fold_current_items-rows P stamp keeps ev p in
      let (inserted, events, buckets, items, marker) =
        ingest_events_batch-ok stamp ev folded s s' res f h in
      let new = map (stored stamp) ev in
      let ins = insert_rows new (s.tables.item_events, []) in
      let (events', buckets', marker') =
        land_all-insert_rows new [] s.tables s.tables.event_buckets (unfold count_rows in refl) in
      (
        inserted,
        record {
          item_events = ground arith;
          event_buckets =
              λ key. ground (arith, lookup-bucket_deltas key ins.1 s.tables.event_buckets);
          current_items = λ id. ground (
            arith,
            lookup-upsert_all merge_row id (excluded_rows stamp folded) s.tables.current_items
                distinct,
            rows id,
            item_after-with_new id new none (lookup id s.tables.current_items),
            lookup-land_all id new s.tables,
          );
          seed_marker = ground arith;
        },
      )

  -- Wherever the driver keeps the order of the events' times (`P` holds of them, and encoding two
  -- times of `P` does not change which is the earlier), IngestEventsBatch and one IngestEvent for
  -- each event in order, from the same tables and both without an error, insert the same number of
  -- events and leave the same tables: raw rows, every bucket's count, every item's row and the
  -- seed marker.
  pub ingest_events_batch-ingest_each :
      (P : ℕ → Type 0) (s s' q q' : Session F) (res : BatchResult) (n : ℕ)
      → ((i j : ℕ) → P i → P j → ltb (stamp i) (stamp j) ≡ ltb i j)
      → All (λ e. P e.event_time) ev
      → q.tables ≡ s.tables
      → ingest_events_batch stamp ev s ≡ (ok res, s')
      → ingest_each stamp ev q ≡ (ok n, q')
      → (res.inserted ≡ n) × SameTables s'.tables q'.tables
  ingest_events_batch-ingest_each P s s' q q' res n keeps p same h k =
      let (inserted, left) = ingest_events_batch-land_all P s s' res keeps p h in
      let (landed, counted) = ingest_each-ok stamp ev [] q q' n k in
      (ground arith, rw landed (rw same left))

keys-excluded_rows :
    (stamp : ℕ → ℕ) (folded : List FoldedItem)
    → keys (excluded_rows stamp folded) ≡ map (λ f. f.item_id) folded
keys-excluded_rows stamp [] = refl
keys-excluded_rows stamp (f ∷ folded) = ap (◌∷◌ f.item_id) (keys-excluded_rows stamp folded)

All-trivial : (ev : List EventRecord) → All (λ e. Unit {0}) ev
All-trivial [] = tt
All-trivial (e ∷ ev) = (tt, All-trivial ev)

-- The fold of any batch has one entry for each item, whatever the driver does to the times.
pub fold_current_items-distinct :
    (stamp : ℕ → ℕ) (ev : List EventRecord)
    → (folded : List FoldedItem) × (fold_current_items ev ≡ some folded)
      × (has_duplicates (keys (excluded_rows stamp folded)) ≡ false)
fold_current_items-distinct stamp ev =
    let (folded, f, distinct, rows) =
      fold_current_items-rows (λ t. Unit {0}) (λ t. t) (λ i j p q. refl) ev (All-trivial ev) in
    (folded, f, rw keys-excluded_rows (rw (← keys-excluded_rows (λ t. t) folded) distinct))

module _ {F : Type 0} (stamp : ℕ → ℕ) where
  -- With a database that refuses nothing, IngestEventsBatch returns no error exactly when every
  -- event of the batch has a known type: the fold neither panics nor sends an item twice.
  pub ingest_events_batch_total :
      (ev : List EventRecord) (t : Tables F)
      → is_ok (ingest_events_batch stamp ev (record { tables = t; script = [] })).0
        ≡ all_known (map (stored stamp) ev)
  unfolding ingest_events_batch all_known
  ingest_events_batch_total [] t = refl
  ingest_events_batch_total (e ∷ ev) t = ground (arith, fold_current_items-distinct stamp (e ∷ ev))

  -- Whatever the database answers to each statement, IngestEventsBatch leaves the tables as they
  -- were, or as the same call on a database that refuses nothing leaves them.
  pub ingest_events_batch-atomic :
      (ev : List EventRecord) (s : Session F)
      → ((ingest_events_batch stamp ev s).1.tables ≡ s.tables)
        ⊎ ((ingest_events_batch stamp ev s).1.tables
            ≡ (ingest_events_batch stamp ev (record { tables = s.tables; script = [] })).1.tables)
  unfolding ingest_events_batch
  ingest_events_batch-atomic [] s = ground arith
  ingest_events_batch-atomic (e ∷ ev) s = ground arith

  -- On a database that refuses nothing, a batch that fails leaves the tables as they were, and one
  -- that does not has known types only.
  pub ingest_events_batch-clean :
      (ev : List EventRecord) (t : Tables F)
      → let (r, s') = ingest_events_batch stamp ev (record { tables = t; script = [] }) in
        ((s'.tables ≡ t) × (is_ok r ≡ false))
        ⊎ ((all_known (map (stored stamp) ev) ≡ true) × (is_ok r ≡ true))
  unfolding ingest_events_batch all_known
  ingest_events_batch-clean [] t = ground arith
  ingest_events_batch-clean (e ∷ ev) t = ground (arith, fold_current_items-distinct stamp (e ∷ ev))
