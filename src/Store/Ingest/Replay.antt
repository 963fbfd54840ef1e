-- ===== src/Store/Ingest/Replay.antt =====
-- An event that is ingested again: the raw row is there, the bucket is not counted twice, and the
-- item's row stays.
use devops_demo.Base.{
  ℕ, ◌≡◌, Bool, true, false, ◌||◌, Option, some, List, ◌++◌, [], ◌∷◌, ℤ, int_key, nat_key, text_key,
  pair_key, int_eq_iff, text_eq_iff, arith,
}
use devops_demo.Base.Table.{Table, upsert, lookup, lookup-upsert, upsert_same}
use devops_demo.Store.Schema.{EventRecord, ItemRow, Tables}
use devops_demo.Store.Session.{ok, Session}
use devops_demo.Store.Ingest.{same_event, has_event, merge_row, row_of, stored, ingest_event}
use devops_demo.Store.Ingest.Effect.{counted, landed, ingest_event-ok}

pub same_event_refl : (e : EventRecord) → same_event e e ≡ true
unfolding same_event
same_event_refl e =
    ground (arith, int_eq_iff e.item_id e.item_id, text_eq_iff e.event_type e.event_type)

pub has_event-append :
    (e r : EventRecord) (rows : List EventRecord)
    → has_event e (rows ++ r ∷ []) ≡ (has_event e rows || same_event r e)
unfolding has_event
has_event-append e r [] = ground arith
has_event-append e r (x ∷ rows) = ground (arith, has_event-append e r rows)

pub merge_row-merge_row :
    (new : ItemRow) (o : Option ItemRow) → merge_row new (some (merge_row new o)) ≡ merge_row new o
merge_row-merge_row new o = ground arith

-- To upsert a row twice is to upsert it once.
pub upsert-merge_twice :
    (id : ℤ) (new : ItemRow) (t : Table ℤ ItemRow)
    → upsert id (merge_row new) (upsert id (merge_row new) t) ≡ upsert id (merge_row new) t
upsert-merge_twice id new t =
    upsert_same id (merge_row new) (upsert id (merge_row new) t) (merge_row new (lookup id t))
      (ground (arith, lookup-upsert id id (merge_row new) t, int_eq_iff id id))
      (merge_row-merge_row new (lookup id t))

module _ {F : Type 0} where
  pub has_event-landed :
      (row : EventRecord) (t : Tables F) → has_event row (landed row t).item_events ≡ true
  unfolding landed counted
  has_event-landed row t =
      ground (arith, has_event-append row row t.item_events, same_event_refl row)

  pub landed-landed : (row : EventRecord) (t : Tables F) → landed row (landed row t) ≡ landed row t
  unfolding landed counted
  landed-landed row t = ground (
    arith,
    has_event-append row row t.item_events,
    same_event_refl row,
    upsert-merge_twice row.item_id (row_of row) t.current_items,
  )

-- When IngestEvent has returned without an error, and a second IngestEvent of the same event on
-- the tables it left returns without an error too, the second reports a duplicate and leaves every
-- table as it is: the raw rows, the bucket counts and the item's row.
pub ingest_event-replay :
    {F : Type 0} (stamp : ℕ → ℕ) (e : EventRecord) (s s' q q' : Session F) (b c : Bool)
    → ingest_event stamp e s ≡ (ok b, s')
    → q.tables ≡ s'.tables
    → ingest_event stamp e q ≡ (ok c, q')
    → (c ≡ false) × (q'.tables ≡ s'.tables)
ingest_event-replay stamp e s s' q q' b c h k j = ground (
  arith,
  ingest_event-ok stamp e s s' b h,
  ingest_event-ok stamp e q q' c j,
  landed-landed (stored stamp e) s.tables,
  has_event-landed (stored stamp e) s.tables,
)
