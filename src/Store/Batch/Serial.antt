-- ===== src/Store/Batch/Serial.antt =====
-- A batch, against IngestEvent once for each of its events.
use devops_demo.Base.{
  ℕ, ◌+◌, ◌≡◌, refl, some, List, [], ◌∷◌, ◌++◌, length, nat_key, text_key, pair_key, int_key,
  int_eq_iff, map, ℤ, length-append, if◌then◌else◌, arith,
}
use devops_demo.Base.Table.{Table, lookup, upsert, upsert_all, lookup-upsert}
use devops_demo.Store.Schema.{EventRecord, BucketKey, Tables}
use devops_demo.Store.Session.Laws.{>>=-ok}
use devops_demo.Store.Session.{Session, ok, ◌>>=◌, pure}
use devops_demo.Store.Ingest.{bucket_of, add_count, merge_row, row_of, stored, ingest_event}
use devops_demo.Store.Ingest.Effect.{landed, counted, ingest_event-ok}
use devops_demo.Store.Batch.Fold.{FoldedItem, fold_loop, collect, fold_current_items}
use devops_demo.Store.Batch.Winners.{item_after}
use devops_demo.Store.Batch.{
  BatchResult, insert_one, insert_rows, count_rows, excluded_rows, bucket_deltas,
  ingest_events_batch, ingest_each,
}

-- The same tables, up to the order of the rows under a primary key.
pub record SameTables {F : Type 0} (t u : Tables F) : Type 0 where
  pub item_events : t.item_events ≡ u.item_events
  pub event_buckets : (k : BucketKey) → lookup k t.event_buckets ≡ lookup k u.event_buckets
  pub current_items : (id : ℤ) → lookup id t.current_items ≡ lookup id u.current_items
  pub seed_marker : t.seed_marker ≡ u.seed_marker

module _ {F : Type 0} where
  -- Rows landed one after the other.
  unfoldable pub land_all : List EventRecord → Tables F → Tables F
  land_all [] t = t
  land_all (r ∷ rows) t = land_all rows (landed r t)

count_rows-append :
    (rows : List EventRecord) (r : EventRecord) (b : Table BucketKey ℕ)
    → count_rows (rows ++ r ∷ []) b ≡ upsert (bucket_of r) (add_count 1) (count_rows rows b)
unfolding count_rows
count_rows-append [] r b = refl
count_rows-append (x ∷ rows) r b = count_rows-append rows r _

module _ {F : Type 0} where
  -- Landing rows inserts and counts just those that the batch statement returns.
  pub land_all-insert_rows :
      (rows ret : List EventRecord) (t : Tables F) (b : Table BucketKey ℕ)
      → t.event_buckets ≡ count_rows ret b
      → ((land_all rows t).item_events ≡ (insert_rows rows (t.item_events, ret)).0)
        × ((land_all rows t).event_buckets ≡ count_rows (insert_rows rows (t.item_events, ret)).1 b)
        × ((land_all rows t).seed_marker ≡ t.seed_marker)
  unfolding land_all insert_rows landed counted insert_one
  land_all-insert_rows [] ret t b h = (refl, h, refl)
  land_all-insert_rows (r ∷ rows) ret t b h = ground (
    arith,
    land_all-insert_rows rows ret (landed r t) b,
    land_all-insert_rows rows (ret ++ r ∷ []) (landed r t) b,
    count_rows-append ret r b,
  )

  pub lookup-land_all :
      (id : ℤ) (rows : List EventRecord) (t : Tables F)
      → lookup id (land_all rows t).current_items ≡ item_after id rows (lookup id t.current_items)
  unfolding land_all landed item_after
  lookup-land_all id [] t = refl
  lookup-land_all id (r ∷ rows) t = ground (
    arith,
    lookup-land_all id rows (landed r t),
    lookup-upsert r.item_id id (merge_row (row_of r)) t.current_items,
    int_eq_iff r.item_id id,
  )

  pub ingest_each-ok :
      (stamp : ℕ → ℕ) (ev ret : List EventRecord) (s s' : Session F) (n : ℕ)
      → ingest_each stamp ev s ≡ (ok n, s')
      → (s'.tables ≡ land_all (map (stored stamp) ev) s.tables)
        × (length ret + n
            ≡ length (insert_rows (map (stored stamp) ev) (s.tables.item_events, ret)).1)
  unfolding ingest_each land_all insert_rows landed counted insert_one
  ingest_each-ok stamp [] ret s s' n h = ground arith
  ingest_each-ok stamp (e ∷ ev) ret s s' n h =
      let (inserted, t, h₁, h₂) =
        >>=-ok (ingest_event stamp e)
          (λ i. ingest_each stamp ev >>= λ k. pure (if i then k + 1 else k)) s h in
      let (k, u, h₃, h₄) =
        >>=-ok (ingest_each stamp ev) (λ m. pure (if inserted then m + 1 else m)) t h₂ in
      let (known, new, after) = ingest_event-ok stamp e s t inserted h₁ in
      let row = stored stamp e in
      ground (
        arith,
        ingest_each-ok stamp ev ret t u k h₃,
        ingest_each-ok stamp ev (ret ++ row ∷ []) t u k h₃,
        length-append ret (row ∷ []),
      )

  -- What a batch that returns no error has done.
  pub ingest_events_batch-ok :
      (stamp : ℕ → ℕ) (ev : List EventRecord) (folded : List FoldedItem) (s s' : Session F)
      (res : BatchResult)
      → fold_current_items ev ≡ some folded
      → ingest_events_batch stamp ev s ≡ (ok res, s')
      → let ins = insert_rows (map (stored stamp) ev) (s.tables.item_events, []) in
        (res.inserted ≡ length ins.1)
        × (s'.tables.item_events ≡ ins.0)
        × (s'.tables.event_buckets
            ≡ upsert_all add_count (bucket_deltas ins.1) s.tables.event_buckets)
        × (s'.tables.current_items
            ≡ upsert_all merge_row (excluded_rows stamp folded) s.tables.current_items)
        × (s'.tables.seed_marker ≡ s.tables.seed_marker)
  unfolding ingest_events_batch insert_rows fold_current_items collect fold_loop count_rows
      upsert_all
  ingest_events_batch-ok stamp [] folded s s' res f h = ground arith
  ingest_events_batch-ok stamp (e ∷ ev) folded s s' res f h = ground arith
