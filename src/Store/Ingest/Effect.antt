-- ===== src/Store/Ingest/Effect.antt =====
-- What IngestEvent does to the tables, whatever the database answers.
use devops_demo.Base.{
  ℕ, String, some, ◌≡◌, ◌⊎◌, Bool, true, false, not, ◌++◌, [], ◌∷◌, int_key, nat_key, text_key,
  pair_key, if◌then◌else◌, arith,
}
use devops_demo.Base.Table.{upsert, lookup, lookup-upsert}
use devops_demo.Store.Schema.{EventRecord, Tables}
use devops_demo.Store.Session.{ok, Session}
use devops_demo.Store.Ingest.{
  known_type, has_event, bucket_of, add_count, merge_row, row_of, stored, ingest_row, ingest_event,
}

module _ {F : Type 0} where
  -- The tables after the raw insert and the bucket.
  unfoldable pub counted : EventRecord → Tables F → Tables F
  counted row t = if has_event row t.item_events then t else record t {
    item_events = t.item_events ++ row ∷ [];
    event_buckets = upsert (bucket_of row) (add_count 1) t.event_buckets;
  }

  -- The tables after all three statements.
  unfoldable pub landed : EventRecord → Tables F → Tables F
  landed row t = record (counted row t) {
    current_items = upsert row.item_id (merge_row (row_of row)) t.current_items;
  }

  pub ingest_row-ok :
      (row : EventRecord) (s s' : Session F) (b : Bool)
      → ingest_row row s ≡ (ok b, s')
      → (known_type row.event_type ≡ true)
        × (b ≡ not (has_event row s.tables.item_events))
        × (s'.tables ≡ landed row s.tables)
  unfolding ingest_row landed counted
  ingest_row-ok row s s' b h = ground arith

module _ {F : Type 0} where
  -- A new row counts once in its own bucket.
  pub lookup-landed_new :
      (row : EventRecord) (t : Tables F)
      → has_event row t.item_events ≡ false
      → lookup (bucket_of row) (landed row t).event_buckets
        ≡ some (add_count 1 (lookup (bucket_of row) t.event_buckets))
  unfolding landed counted
  lookup-landed_new row t new = ground (
    arith,
    lookup-upsert (bucket_of row) (bucket_of row) (add_count 1) t.event_buckets,
    (pair_key {A = ℕ} {B = String}).same_iff (bucket_of row) (bucket_of row),
  )

module _ {F : Type 0} (stamp : ℕ → ℕ) (e : EventRecord) where
  -- Whatever the database answers to each statement, one call of IngestEvent leaves the tables as
  -- they were, or applies all of its statements, and that only for a known event type.
  pub ingest_event-atomic :
      (s : Session F)
      → ((ingest_event stamp e s).1.tables ≡ s.tables)
        ⊎ ((known_type e.event_type ≡ true)
            × ((ingest_event stamp e s).1.tables ≡ landed (stored stamp e) s.tables))
  unfolding ingest_event landed counted stored
  ingest_event-atomic s = ground arith

  -- When IngestEvent returns without an error, the event type is one of the three known ones, the
  -- returned flag is true exactly when no row had the event's key, and all statements are applied.
  pub ingest_event-ok :
      (s s' : Session F) (b : Bool)
      → ingest_event stamp e s ≡ (ok b, s')
      → (known_type e.event_type ≡ true)
        × (b ≡ not (has_event (stored stamp e) s.tables.item_events))
        × (s'.tables ≡ landed (stored stamp e) s.tables)
  unfolding ingest_event landed counted stored
  ingest_event-ok s s' b h = ground arith

  -- With a known event type and a database that refuses nothing, IngestEvent returns no error: the
  -- flag says whether the event's key was new, and all statements are applied.
  pub ingest_event_total :
      (t : Tables F)
      → known_type e.event_type ≡ true
      → ingest_event stamp e (record { tables = t; script = [] }) ≡ (
        ok (not (has_event (stored stamp e) t.item_events)),
        record { tables = landed (stored stamp e) t; script = [] },
      )
  unfolding ingest_event landed counted stored
  ingest_event_total t h = ground arith
