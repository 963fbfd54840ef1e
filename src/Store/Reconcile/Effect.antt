-- ===== src/Store/Reconcile/Effect.antt =====
-- What ReconcileSnapshot does to the tables, whatever the database answers.
use devops_demo.Base.{
  ℕ, ◌+◌, ◌≡◌, ◌⊎◌, refl, inl, inr, Bool, false, not, Option, none, some, List, [], ◌∷◌, ℤ, int_key,
  elem, is_some, length, arith,
}
use devops_demo.Base.Table.{lookup, update_all}
use devops_demo.Store.Schema.{SnapshotItem, ItemRow, Tables}
use devops_demo.Store.Session.Laws.{>>=-ok, transaction-atomic, transaction-ok}
use devops_demo.Store.Session.{Session, ok, exec, transaction}
use devops_demo.Store.Reconcile.{
  bury, ids_of, count_stale, Reconciled, upsert_item, upsert_items, tombstone_missing,
  reconcile_rows, reconcile_snapshot,
}
use devops_demo.Store.Reconcile.Rows.{
  snapshot_name, reconcile_row, upserted_rows, lookup-reconciled, IsSome-snapshot_name,
}

-- A row that is there and not tombstoned.
unfoldable pub is_live : Option ItemRow → Bool
is_live none = false
is_live (some r) = not (is_some r.tombstoned_at)

module _ {F : Type 0} where
  upsert_items-ok :
      (k : ℕ) (items : List SnapshotItem) (now : ℕ) (s s' : Session F) (n : ℕ)
      → upsert_items k items now s ≡ (ok n, s')
      → (n ≡ k + length items)
        × (s'.tables
            ≡ record s.tables { current_items = upserted_rows items now s.tables.current_items })
  unfolding upsert_items upserted_rows exec upsert_item
  upsert_items-ok k [] now s s' n h = ground arith
  upsert_items-ok k (item ∷ items) now s s' n h =
      let (affected, t, h₁, h₂) =
        >>=-ok (exec "upsert item" (upsert_item item now)) (λ a. upsert_items (k + a) items now) s
          h in
      ground (arith, upsert_items-ok (k + affected) items now t s' n h₂)

  -- The tables after a reconcile.
  abbrev reconciled : List SnapshotItem → ℕ → Tables F → Tables F
  reconciled items now t = record t {
    current_items = update_all (bury (ids_of items) now) (upserted_rows items now t.current_items);
  }

  reconcile_rows-ok :
      (items : List SnapshotItem) (now : ℕ) (s s' : Session F) (r : Reconciled)
      → reconcile_rows items now s ≡ (ok r, s')
      → (r.upserted ≡ length items)
        × (r.tombstoned
            ≡ count_stale (ids_of items) (upserted_rows items now s.tables.current_items))
        × (s'.tables ≡ reconciled items now s.tables)
  unfolding reconcile_rows
  reconcile_rows-ok items now s s' r h =
      let (n, t, h₁, h₂) = >>=-ok (upsert_items 0 items now) _ s h in
      ground (arith, upsert_items-ok 0 items now s t n h₁)

module _ {F : Type 0} (stamp : ℕ → ℕ) (items : List SnapshotItem) (now : ℕ) where
  -- Whatever the database answers, ReconcileSnapshot leaves the raw events, the buckets and the
  -- seed marker as they are.
  pub reconcile_snapshot-keeps :
      (s : Session F)
      → let t = (reconcile_snapshot stamp items now s).1.tables in
        (t.item_events ≡ s.tables.item_events)
        × (t.event_buckets ≡ s.tables.event_buckets)
        × (t.seed_marker ≡ s.tables.seed_marker)
  unfolding reconcile_snapshot
  reconcile_snapshot-keeps s =
      elim (transaction-atomic "begin reconcile" "commit reconcile"
        (reconcile_rows items (stamp now)) s) [
          | inl undone ↦ ground arith
          | inr (r, t, body, done) ↦ ground (arith, reconcile_rows-ok items (stamp now) _ t r body)
        ]

  -- A reconcile that leaves other tables has made every item's row what `reconcile_row` gives.
  pub reconcile_snapshot-atomic :
      (s : Session F)
      → let t = (reconcile_snapshot stamp items now s).1.tables in
        (t ≡ s.tables)
        ⊎ ((id : ℤ)
            → lookup id t.current_items
              ≡ reconcile_row
                  (stamp now)
                  (snapshot_name id items none)
                  (lookup id s.tables.current_items))
  unfolding reconcile_snapshot
  reconcile_snapshot-atomic s =
      elim (transaction-atomic "begin reconcile" "commit reconcile"
        (reconcile_rows items (stamp now)) s) [
          | inl undone ↦ inl undone
          | inr (r, t, body, done) ↦ inr (λ id.
              let (upserted, tombstoned, rows) = reconcile_rows-ok items (stamp now) _ t r body in
              ground (arith, lookup-reconciled id items (stamp now) s.tables.current_items))
        ]

  module _ (s s' : Session F) (r : Reconciled)
      (h : reconcile_snapshot stamp items now s ≡ (ok r, s')) where
    -- When ReconcileSnapshot returns without an error, it counts each entry of the snapshot as an
    -- upsert, and every item's row is what `reconcile_row` makes of the row before: listed items are
    -- live under their last name in the snapshot with first_seen kept and last_seen never moved
    -- back, live items that are not listed are tombstoned at the snapshot's time, and the rest stay.
    pub reconcile_snapshot-reconcile_row :
        (r.upserted ≡ length items)
        × ((id : ℤ)
            → lookup id s'.tables.current_items
              ≡ reconcile_row
                  (stamp now)
                  (snapshot_name id items none)
                  (lookup id s.tables.current_items))
    unfolding reconcile_snapshot
    reconcile_snapshot-reconcile_row =
        let (t, body, done) =
          transaction-ok "begin reconcile" "commit reconcile" (reconcile_rows items (stamp now)) s
            s' r h in
        let (upserted, tombstoned, rows) = reconcile_rows-ok items (stamp now) _ t r body in
        (
          upserted,
          λ id. ground (arith, lookup-reconciled id items (stamp now) s.tables.current_items),
        )

    -- When ReconcileSnapshot returns without an error, the live items are exactly those of the
    -- snapshot.
    pub reconcile_snapshot-is_live :
        (id : ℤ) → is_live (lookup id s'.tables.current_items) ≡ elem id (ids_of items)
    unfolding is_live reconcile_row
    reconcile_snapshot-is_live id =
        ground (arith, reconcile_snapshot-reconcile_row.1 id, IsSome-snapshot_name id items none)

module _ {F : Type 0} where
  upsert_items_total :
      (k : ℕ) (items : List SnapshotItem) (now : ℕ) (t : Tables F)
      → (n : ℕ) × (u : Tables F) × (upsert_items k items now (record { tables = t; script = [] })
          ≡ (ok n, record { tables = u; script = [] }))
  unfolding upsert_items exec upsert_item
  upsert_items_total k [] now t = (k, t, refl)
  upsert_items_total k (item ∷ items) now t = upsert_items_total (k + 1) items now _

  -- With a database that refuses nothing, ReconcileSnapshot returns no error.
  pub reconcile_snapshot_total :
      (stamp : ℕ → ℕ) (items : List SnapshotItem) (now : ℕ) (t : Tables F)
      → (r : Reconciled) × (u : Tables F) × (reconcile_snapshot stamp items now
            (record { tables = t; script = [] })
          ≡ (ok r, record { tables = u; script = [] }))
  unfolding reconcile_snapshot reconcile_rows transaction exec tombstone_missing
  reconcile_snapshot_total stamp items now t =
      let (n, u, run) = upsert_items_total 0 items (stamp now) t in
      (
        record { upserted = n; tombstoned = count_stale (ids_of items) u.current_items },
        record u { current_items = update_all (bury (ids_of items) (stamp now)) u.current_items },
        rw run refl,
      )
