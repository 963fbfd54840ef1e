-- ===== src/Store/Reconcile/Rows.antt =====
-- The row that a reconcile leaves for each item.
use devops_demo.Base.{
  pos, ℕ, ◌≡◌, ◌||◌, Option, none, some, List, [], ◌∷◌, ℤ, String, int_key, int_eq, int_eq_iff,
  elem, leb, is_some, if◌then◌else◌, arith,
}
use devops_demo.Base.Table.{Table, lookup, upsert, update_all, lookup-upsert, lookup-update_all}
use devops_demo.Store.Schema.{SnapshotItem, ItemRow}
use devops_demo.Store.Reconcile.{refresh_row, bury, ids_of}

-- The name that a snapshot gives to an item: that of its last entry.
unfoldable pub snapshot_name : ℤ → List SnapshotItem → Option String → Option String
snapshot_name id [] found = found
snapshot_name id (item ∷ items) found =
    snapshot_name id items (if int_eq item.item_id id then some item.name else found)

-- What a reconcile at `now` makes of a row, by the name in the snapshot: a listed item is live under
-- that name, a live item that is not listed is tombstoned, and a tombstone stays.
unfoldable pub reconcile_row : ℕ → Option String → Option ItemRow → Option ItemRow
reconcile_row now none none = none
reconcile_row now none (some r) =
    some (if is_some r.tombstoned_at then r else record r { tombstoned_at = some now })
reconcile_row now (some n) none =
    some (record { name = n; first_seen = now; last_seen = now; tombstoned_at = none })
reconcile_row now (some n) (some r) = some (record {
  name = n;
  first_seen = r.first_seen;
  last_seen = if leb r.last_seen now then now else r.last_seen;
  tombstoned_at = none;
})

-- The loop over the snapshot, on the table alone.
unfoldable pub upserted_rows : List SnapshotItem → ℕ → Table ℤ ItemRow → Table ℤ ItemRow
upserted_rows [] now t = t
upserted_rows (item ∷ items) now t =
    upserted_rows items now (upsert item.item_id (refresh_row item now) t)

-- The row of an item after the loop, by the last name that the loop has met.
abbrev refreshed : ℕ → Option String → Option ItemRow → Option ItemRow
refreshed now none o = o
refreshed now (some n) o = some (refresh_row (record { item_id = pos 0; name = n }) now o)

lookup-upserted_rows :
    (id : ℤ) (items : List SnapshotItem) (now : ℕ) (t : Table ℤ ItemRow) (found : Option String)
    (o : Option ItemRow)
    → lookup id t ≡ refreshed now found o
    → lookup id (upserted_rows items now t) ≡ refreshed now (snapshot_name id items found) o
unfolding upserted_rows snapshot_name
lookup-upserted_rows id [] now t found o h = h
lookup-upserted_rows id (item ∷ items) now t found o h =
    lookup-upserted_rows id items now (upsert item.item_id (refresh_row item now) t)
      (if int_eq item.item_id id then some item.name else found) o
      (ground
        (arith, lookup-upsert item.item_id id (refresh_row item now) t, int_eq_iff item.item_id id))

pub IsSome-snapshot_name :
    (id : ℤ) (items : List SnapshotItem) (found : Option String)
    → is_some (snapshot_name id items found) ≡ (is_some found || elem id (ids_of items))
unfolding snapshot_name
IsSome-snapshot_name id [] found = ground arith
IsSome-snapshot_name id (item ∷ items) found =
    ground
      (arith, IsSome-snapshot_name id items found, IsSome-snapshot_name id items (some item.name))

-- The table after the loop and the tombstones, item by item.
pub lookup-reconciled :
    (id : ℤ) (items : List SnapshotItem) (now : ℕ) (t : Table ℤ ItemRow)
    → lookup id (update_all (bury (ids_of items) now) (upserted_rows items now t))
      ≡ reconcile_row now (snapshot_name id items none) (lookup id t)
unfolding reconcile_row
lookup-reconciled id items now t = ground (
  arith,
  lookup-update_all id (bury (ids_of items) now) (upserted_rows items now t),
  lookup-upserted_rows id items now t none (lookup id t),
  IsSome-snapshot_name id items none,
)
