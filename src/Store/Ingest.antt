-- ===== src/Store/Ingest.antt =====
-- internal/store/current_items.go: IngestEvent, one transaction for one stream event.
pub mod Effect
pub mod Replay
use devops_demo.Base.{
  ℕ, ◌+◌, ◌-◌, ◌%◌, String, Bool, true, false, ◌&&◌, ◌||◌, Option, none, some, List, [], ◌∷◌, ◌++◌,
  int_eq, nat_eq, int_key, nat_key, text_key, pair_key, leb, text_eq, if◌then◌else◌,
}
use devops_demo.Base.Table.{upsert}
use devops_demo.Store.Schema.{EventRecord, ItemRow, BucketKey, Tables}
use devops_demo.Store.Session.{
  Result, ok, err, raised, check_violation, Tx, exec, transaction, pure, ◌>>=◌, ◌>>◌,
}

-- CHECK (event_type IN ('created', 'updated', 'deleted'))
unfoldable pub known_type : String → Bool
known_type t = text_eq t "created" || (text_eq t "updated" || text_eq t "deleted")

-- UNIQUE (item_id, event_type, event_time)
unfoldable pub same_event : EventRecord → EventRecord → Bool
same_event a b =
    int_eq a.item_id b.item_id
    && (text_eq a.event_type b.event_type && nat_eq a.event_time b.event_time)

unfoldable pub has_event : EventRecord → List EventRecord → Bool
unfolding same_event
has_event e [] = false
has_event e (r ∷ rows) = same_event r e || has_event e rows

-- date_trunc('hour', t, 'UTC') on microseconds: an hour has 3,600,000,000 of them.
unfoldable pub trunc_hour : ℕ → ℕ
trunc_hour t = t - t % 3_600_000_000

abbrev pub bucket_of : EventRecord → BucketKey
bucket_of row = (trunc_hour row.event_time, row.event_type)

-- SET count = event_buckets.count + EXCLUDED.count, or the VALUES row where there is none.
abbrev pub add_count : ℕ → Option ℕ → ℕ
add_count delta none = delta
add_count delta (some count) = count + delta

-- The ON CONFLICT (item_id) clause of the upserts of events: the later last_seen wins, a tie goes
-- to the new row, and first_seen stays.
abbrev pub merge_row : ItemRow → Option ItemRow → ItemRow
merge_row new none = new
merge_row new (some old) = record {
  name = if leb old.last_seen new.last_seen then new.name else old.name;
  first_seen = old.first_seen;
  last_seen = if leb old.last_seen new.last_seen then new.last_seen else old.last_seen;
  tombstoned_at = if leb old.last_seen new.last_seen then new.tombstoned_at else old.tombstoned_at;
}

-- tombstonedAt = &ev.EventTime for a "deleted" event, else nil.
unfoldable pub tombstone_of : EventRecord → Option ℕ
tombstone_of row = if text_eq row.event_type "deleted" then some row.event_time else none

-- The VALUES row of the current_items upsert.
unfoldable pub row_of : EventRecord → ItemRow
row_of row = record {
  name = row.item_name;
  first_seen = row.event_time;
  last_seen = row.event_time;
  tombstoned_at = tombstone_of row;
}

module _ {F : Type 0} where
  -- INSERT INTO item_events ... ON CONFLICT DO NOTHING, with RowsAffected() == 1.
  unfoldable pub insert_event : EventRecord → Tables F → Result (Bool × Tables F)
  insert_event row t =
      if known_type row.event_type
      then (if has_event row t.item_events
          then ok (false, t)
          else ok (true, record t { item_events = t.item_events ++ row ∷ [] }))
      else err (raised check_violation)

  -- INSERT INTO event_buckets ... ON CONFLICT DO UPDATE, with count 1. The CHECK on its event_type
  -- is that of item_events.
  unfoldable pub upsert_bucket : EventRecord → Tables F → Result (Unit {0} × Tables F)
  upsert_bucket row t =
      if known_type row.event_type
      then ok
          (tt, record t { event_buckets = upsert (bucket_of row) (add_count 1) t.event_buckets })
      else err (raised check_violation)

  -- INSERT INTO current_items ... ON CONFLICT (item_id) DO UPDATE.
  unfoldable pub upsert_current_item : EventRecord → Tables F → Result (Unit {0} × Tables F)
  upsert_current_item row t =
      ok (
        tt,
        record t { current_items = upsert row.item_id (merge_row (row_of row)) t.current_items },
      )

  -- The if inserted { ... } of IngestEvent.
  unfoldable pub count_inserted : Bool → EventRecord → Tx F (Unit {0})
  unfolding exec upsert_bucket
  count_inserted true row = exec "upsert bucket" (upsert_bucket row)
  count_inserted false row = pure tt

  -- The body of the transaction, over a row whose time is a timestamptz.
  unfoldable pub ingest_row : EventRecord → Tx F Bool
  unfolding exec insert_event count_inserted upsert_current_item
  ingest_row row = do
    inserted ← exec "insert item_event" (insert_event row)
    count_inserted inserted row
    exec "upsert current_item" (upsert_current_item row)
    pure inserted

-- `stamp` is the driver's encoding of a time.Time as a timestamptz.
unfoldable pub stored : (ℕ → ℕ) → EventRecord → EventRecord
stored stamp e = record e { event_time = stamp e.event_time }

module _ {F : Type 0} (stamp : ℕ → ℕ) where
  unfoldable pub ingest_event : EventRecord → Tx F Bool
  unfolding transaction ingest_row
  ingest_event e = transaction "begin ingest" "commit ingest" (ingest_row (stored stamp e))
