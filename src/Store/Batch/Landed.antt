-- ===== src/Store/Batch/Landed.antt =====
-- The raw events and the buckets that a batch leaves, whatever the database answers.
use devops_demo.Base.{
  ℕ, ◌≡◌, ◌⊎◌, inl, inr, refl, sym, ◌∙◌, true, List, [], map, nat_key, text_key, pair_key, int_key,
  arith,
}
use devops_demo.Base.Table.{lookup, upsert_all}
use devops_demo.Store.Schema.{EventRecord, BucketKey, Tables}
use devops_demo.Store.Session.{Session}
use devops_demo.Store.Session.Laws.{is_ok-ok}
use devops_demo.Store.Ingest.{stored, add_count}
use devops_demo.Store.Batch.{all_known, insert_rows, count_rows, bucket_deltas, ingest_events_batch}
use devops_demo.Store.Batch.Serial.{land_all, land_all-insert_rows, ingest_events_batch-ok}
use devops_demo.Store.Batch.Counts.{lookup-bucket_deltas}
use devops_demo.Store.Batch.Equivalence.{
  ingest_events_batch-atomic, ingest_events_batch-clean, fold_current_items-distinct,
}

module _ {F : Type 0} (stamp : ℕ → ℕ) (ev : List EventRecord) where
  -- The raw events and the counts are those of landing the rows one by one, and the buckets are
  -- upserted.
  abbrev pub LandedRows : Tables F → Tables F → Type 0
  LandedRows t u =
      let new = map (stored stamp) ev in
      let ins = insert_rows new (t.item_events, []) in
      (all_known new ≡ true)
      × (u.item_events ≡ (land_all new t).item_events)
      × ((k : BucketKey) → lookup k u.event_buckets ≡ lookup k (land_all new t).event_buckets)
      × (u.event_buckets ≡ upsert_all add_count (bucket_deltas ins.1) t.event_buckets)

  clean-landed :
      (t : Tables F)
      → let u = (ingest_events_batch stamp ev (record { tables = t; script = [] })).1.tables in
        (u ≡ t) ⊎ LandedRows t u
  clean-landed t = elim (ingest_events_batch-clean stamp ev t) [
    | inl (undone, _) ↦ inl undone
    | inr (known, done) ↦
        let start : Session F = record { tables = t; script = [] } in
        let new = map (stored stamp) ev in
        let (res, s', run) = is_ok-ok (ingest_events_batch stamp ev start) done in
        let (folded, f, distinct) = fold_current_items-distinct stamp ev in
        let (inserted, events, buckets, items, marker) =
          ingest_events_batch-ok stamp ev folded start s' res f run in
        let (events', buckets', marker') =
          land_all-insert_rows new [] t t.event_buckets (unfold count_rows in refl) in
        let ins = insert_rows new (t.item_events, []) in
        rw run (
          inr (
            known,
            events ∙ sym events',
            λ k. ground (arith, lookup-bucket_deltas k ins.1 t.event_buckets),
            buckets,
          ))
  ]

  pub ingest_events_batch-landed :
      (s : Session F)
      → let u = (ingest_events_batch stamp ev s).1.tables in (u ≡ s.tables) ⊎ LandedRows s.tables u
  ingest_events_batch-landed s = elim (ingest_events_batch-atomic stamp ev s) [
    | inl undone ↦ inl undone
    | inr done ↦ rw done (clean-landed s.tables)
  ]
