-- ===== src/Store/Reconcile.antt =====
-- internal/store/current_items.go: ReconcileSnapshot, one transaction that makes current_items agree
-- with a ListItems snapshot. The number in the text "upsert item %d" is left out.
pub mod Rows
pub mod Effect
use devops_demo.Base.{
  ℕ, ◌+◌, Bool, not, ◌||◌, Option, none, some, List, [], ◌∷◌, map, ℤ, int_key, elem, leb, is_some,
  if◌then◌else◌,
}
use devops_demo.Base.Table.{Table, upsert, update_all}
use devops_demo.Store.Schema.{SnapshotItem, ItemRow, Tables}
use devops_demo.Store.Session.{Result, ok, Tx, exec, transaction, pure, ◌>>=◌, ◌>>◌}

-- VALUES ($1, $2, $3, $3, NULL) ON CONFLICT (item_id) DO UPDATE: the snapshot's name, the later
-- last_seen, and no tombstone.
abbrev pub refresh_row : SnapshotItem → ℕ → Option ItemRow → ItemRow
refresh_row item now none = record {
  name = item.name;
  first_seen = now;
  last_seen = now;
  tombstoned_at = none;
}
refresh_row item now (some old) = record {
  name = item.name;
  first_seen = old.first_seen;
  last_seen = if leb old.last_seen now then now else old.last_seen;
  tombstoned_at = none;
}

-- tombstoned_at IS NULL AND item_id != ALL($2)
abbrev pub is_stale : List ℤ → ℤ → ItemRow → Bool
is_stale ids id r = not (is_some r.tombstoned_at || elem id ids)

abbrev pub bury : List ℤ → ℕ → ℤ → ItemRow → ItemRow
bury ids now id r = if is_stale ids id r then record r { tombstoned_at = some now } else r

unfoldable pub count_stale : List ℤ → Table ℤ ItemRow → ℕ
count_stale ids [] = 0
count_stale ids ((id, r) ∷ t) =
    if is_stale ids id r then count_stale ids t + 1 else count_stale ids t

-- The counts (upserted, tombstoned) that ReconcileSnapshot returns.
pub record Reconciled : Type 0 where
  pub upserted : ℕ
  pub tombstoned : ℕ

abbrev pub ids_of : List SnapshotItem → List ℤ
ids_of = map (λ item. item.item_id)

module _ {F : Type 0} where
  -- An upsert of one row affects one row.
  unfoldable pub upsert_item : SnapshotItem → ℕ → Tables F → Result (ℕ × Tables F)
  upsert_item item now t =
      ok
        (1, record t { current_items = upsert item.item_id (refresh_row item now) t.current_items })

  unfoldable pub tombstone_missing : List ℤ → ℕ → Tables F → Result (ℕ × Tables F)
  tombstone_missing ids now t = ok (
    count_stale ids t.current_items,
    record t { current_items = update_all (bury ids now) t.current_items },
  )

  -- for i, item := range items: the running count comes first.
  unfoldable pub upsert_items : ℕ → List SnapshotItem → ℕ → Tx F ℕ
  upsert_items upserted [] now = pure upserted
  upsert_items upserted (item ∷ items) now = do
    affected ← exec "upsert item" (upsert_item item now)
    upsert_items (upserted + affected) items now

  unfoldable pub reconcile_rows : List SnapshotItem → ℕ → Tx F Reconciled
  unfolding exec tombstone_missing
  reconcile_rows items now = do
    upserted ← upsert_items 0 items now
    tombstoned ← exec "tombstone missing items" (tombstone_missing (ids_of items) now)
    pure (record { upserted = upserted; tombstoned = tombstoned })

  unfoldable pub reconcile_snapshot : (ℕ → ℕ) → List SnapshotItem → ℕ → Tx F Reconciled
  unfolding transaction reconcile_rows
  reconcile_snapshot stamp items now =
      transaction "begin reconcile" "commit reconcile" (reconcile_rows items (stamp now))
