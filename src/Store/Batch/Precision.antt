-- ===== src/Store/Batch/Precision.antt =====
-- Where a batch and its events one after the other part: foldCurrentItems compares the Go times,
-- and the CASE of IngestEvent compares the timestamptz that the driver made of them.
use devops_demo.Base.{
  ℕ, ◌<◌, String, ◌≡◌, ◌≢◌, Option, none, some, [], ◌∷◌, int_key, int_eq_iff, text_eq,
  if◌then◌else◌, arith,
}
use devops_demo.Base.Table.{lookup, upsert, upsert_all}
use devops_demo.Store.Schema.{EventRecord, ItemRow}
use devops_demo.Store.Session.{Session, ok}
use devops_demo.Store.Ingest.{row_of, stored}
use devops_demo.Store.Batch.Fold.{
  FoldedItem, fold_current_items, fold_loop, fold_step, collect, folded_item, absorb,
}
use devops_demo.Store.Batch.Winners.{item_after}
use devops_demo.Store.Batch.Serial.{
  SameTables, lookup-land_all, ingest_each-ok, ingest_events_batch-ok,
}
use devops_demo.Store.Batch.{BatchResult, ingest_events_batch, ingest_each}

abbrev name_of : Option ItemRow → String
name_of none = ""
name_of (some r) = r.name

-- What the fold keeps of the events `a` and `b`, where `a` has the later Go time.
kept : EventRecord → FoldedItem
kept a = record {
  item_id = a.item_id;
  name = a.item_name;
  first_seen = a.event_time;
  last_seen = a.event_time;
  tombstoned_at = if text_eq a.event_type "deleted" then some a.event_time else none;
}

folded_pair :
    (a b : EventRecord)
    → a.item_id ≡ b.item_id
    → b.event_time < a.event_time
    → fold_current_items (a ∷ b ∷ []) ≡ some (kept a ∷ [])
unfolding fold_current_items fold_loop fold_step collect folded_item absorb lookup upsert kept
folded_pair a b item older =
    ground (arith, int_eq_iff a.item_id b.item_id, int_eq_iff a.item_id a.item_id)

module _ {F : Type 0} (stamp : ℕ → ℕ) (a b : EventRecord) (item : a.item_id ≡ b.item_id) where
  -- Two events of one item whose times the driver encodes alike, the earlier one later in the
  -- batch and with another name: on an empty item table the batch and its events one after the
  -- other, both without an error, do not leave the same tables.
  pub ingest_events_batch-coarse_stamp :
      (s s' q q' : Session F) (res : BatchResult) (n : ℕ)
      → stamp a.event_time ≡ stamp b.event_time
      → b.event_time < a.event_time
      → a.item_name ≢ b.item_name
      → s.tables.current_items ≡ []
      → q.tables.current_items ≡ []
      → ingest_events_batch stamp (a ∷ b ∷ []) s ≡ (ok res, s')
      → ingest_each stamp (a ∷ b ∷ []) q ≡ (ok n, q')
      → ¬ SameTables s'.tables q'.tables
  unfolding item_after row_of stored lookup upsert upsert_all kept
  ingest_events_batch-coarse_stamp s s' q q' res n tie older names e e' h k same =
      let (inserted, events, buckets, items, marker) =
        ingest_events_batch-ok stamp (a ∷ b ∷ []) (kept a ∷ []) s s' res
          (folded_pair a b item older) h in
      let (landed, counted) = ingest_each-ok stamp (a ∷ b ∷ []) [] q q' n k in
      ground (
        arith,
        same.current_items a.item_id,
        lookup-land_all a.item_id (stored stamp a ∷ stored stamp b ∷ []) q.tables,
        int_eq_iff a.item_id a.item_id,
        int_eq_iff b.item_id a.item_id,
      )
