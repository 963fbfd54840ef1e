-- ===== src/Store/Batch.antt =====
-- internal/store/seed.go: IngestEventsBatch, one transaction for a batch of events, and the fold of
-- the batch to one row for each item.
pub mod Fold
pub mod Winners
pub mod Counts
pub mod Serial
pub mod Equivalence
pub mod Landed
pub mod Precision
use devops_demo.Base.{
  ℕ, zero, ◌+◌, String, ◌≡◌, Bool, true, false, not, ◌&&◌, Option, none, some, List, [], ◌∷◌, ◌++◌,
  map, ℤ, length, has_duplicates, int_key, nat_key, text_key, pair_key, ltb, text_eq, is_some,
  if◌then◌else◌,
}
use devops_demo.Base.Table.{Table, lookup, upsert, upsert_all, keys}
use devops_demo.Store.Schema.{EventRecord, ItemRow, BucketKey, Tables}
use devops_demo.Store.Session.{
  Result, ok, err, raised, check_violation, cardinality_violation, nil_dereference, Tx, exec,
  transaction, pure, ◌>>=◌, ◌>>◌,
}
use devops_demo.Store.Ingest.{
  known_type, has_event, bucket_of, add_count, merge_row, stored, ingest_event,
}
use Fold.{FoldedItem, fold_current_items}

pub record BatchResult : Type 0 where
  pub inserted : ℕ
  pub buckets_touched : ℕ

unfoldable pub all_known : List EventRecord → Bool
all_known [] = true
all_known (r ∷ rows) = known_type r.event_type && all_known rows

-- One row of INSERT ... ON CONFLICT DO NOTHING RETURNING: the table, and the rows returned so far.
unfoldable pub insert_one :
    EventRecord → List EventRecord × List EventRecord → List EventRecord × List EventRecord
insert_one row (table, returned) =
    if has_event row table then (table, returned) else (table ++ row ∷ [], returned ++ row ∷ [])

-- The CTE ins: the rows go in one after the other, so a row conflicts with those of its own
-- statement too.
unfoldable pub insert_rows :
    List EventRecord → List EventRecord × List EventRecord → List EventRecord × List EventRecord
insert_rows [] p = p
insert_rows (r ∷ rows) p = insert_rows rows (insert_one r p)

-- One more row of its hour and type.
unfoldable pub count_rows : List EventRecord → Table BucketKey ℕ → Table BucketKey ℕ
count_rows [] t = t
count_rows (r ∷ rows) t = count_rows rows (upsert (bucket_of r) (add_count 1) t)

-- The CTE bucket_deltas: count(*) of ins, GROUP BY hour and type.
abbrev pub bucket_deltas : List EventRecord → Table BucketKey ℕ
bucket_deltas rows = count_rows rows []

-- The row of current_items that a folded item is sent as.
abbrev pub excluded : (ℕ → ℕ) → FoldedItem → ItemRow
excluded stamp f = record {
  name = f.name;
  first_seen = stamp f.first_seen;
  last_seen = stamp f.last_seen;
  tombstoned_at = elim f.tombstoned_at [ none ↦ none | some t ↦ some (stamp t) ];
}

abbrev pub excluded_rows : (ℕ → ℕ) → List FoldedItem → Table ℤ ItemRow
excluded_rows stamp = map (λ f. (f.item_id, excluded stamp f))

module _ {F : Type 0} where
  -- The first statement: raw rows, and the buckets from the rows that are new.
  unfoldable pub insert_batch : List EventRecord → Tables F → Result (BatchResult × Tables F)
  insert_batch rows t =
      let (item_events, ins) = insert_rows rows (t.item_events, []) in
      if all_known rows
      then ok (
        record { inserted = length ins; buckets_touched = length (bucket_deltas ins) },
        record t {
          item_events = item_events;
          event_buckets = upsert_all add_count (bucket_deltas ins) t.event_buckets;
        },
      )
      else err (raised check_violation)

  -- The second statement. ON CONFLICT DO UPDATE cannot affect a row a second time.
  unfoldable pub upsert_folded : Table ℤ ItemRow → Tables F → Result (Unit {0} × Tables F)
  upsert_folded new t =
      if has_duplicates (keys new)
      then err (raised cardinality_violation)
      else ok (tt, record t { current_items = upsert_all merge_row new t.current_items })

  -- The part of IngestEventsBatch below foldCurrentItems, whose panic is an error here: the
  -- deferred rollback runs in both cases.
  unfoldable pub send_folded : (ℕ → ℕ) → Option (List FoldedItem) → Tx F (Unit {0})
  unfolding exec upsert_folded
  send_folded stamp none s = (err (raised nil_dereference), s)
  send_folded stamp (some folded) s =
      exec "batch upsert current_items" (upsert_folded (excluded_rows stamp folded)) s

  unfoldable pub ingest_batch_rows : (ℕ → ℕ) → List EventRecord → Tx F BatchResult
  unfolding exec insert_batch send_folded
  ingest_batch_rows stamp ev = do
    counts ← exec "batch insert item_events/event_buckets" (insert_batch (map (stored stamp) ev))
    send_folded stamp (fold_current_items ev)
    pure counts

  unfoldable pub ingest_events_batch : (ℕ → ℕ) → List EventRecord → Tx F BatchResult
  unfolding transaction ingest_batch_rows
  ingest_events_batch stamp [] = pure (record { inserted = 0; buckets_touched = 0 })
  ingest_events_batch stamp (e ∷ ev) =
      transaction "begin batch ingest" "commit batch ingest" (ingest_batch_rows stamp (e ∷ ev))

  -- IngestEvent once for each event, in order, and how many of them were new: what
  -- IngestEventsBatch is documented to equal.
  unfoldable pub ingest_each : (ℕ → ℕ) → List EventRecord → Tx F ℕ
  ingest_each stamp [] = pure 0
  ingest_each stamp (e ∷ ev) = do
    inserted ← ingest_event stamp e
    n ← ingest_each stamp ev
    pure (if inserted then n + 1 else n)
