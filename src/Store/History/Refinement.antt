-- ===== src/Store/History/Refinement.antt =====
-- The store implements its view: every call of a history takes its effect on the view, or none.
use devops_demo.Base.{
  ℕ, none, ℤ, int_key, nat_key, text_key, pair_key, ◌≡◌, refl, ◌∙◌, ap, ◌⊎◌, inl, inr, Bool,
  Bool-cases, true, false, List, [], ◌∷◌, map, All, ltb, arith,
}
use devops_demo.Store.Schema.{EventRecord, SnapshotItem, SeedMarker, Tables}
use devops_demo.Store.Session.{Session, is_ok}
use devops_demo.Store.Session.Laws.{is_ok-ok}
use devops_demo.Store.Ingest.{stored, has_event, ingest_event}
use devops_demo.Store.Ingest.Effect.{landed, ingest_event-atomic, ingest_event-ok}
use devops_demo.Store.Batch.{ingest_events_batch}
use devops_demo.Store.Batch.Serial.{SameTables, land_all}
use devops_demo.Store.Batch.Equivalence.{
  ingest_events_batch-land_all, ingest_events_batch-atomic, ingest_events_batch-clean,
}
use devops_demo.Store.Reconcile.{reconcile_snapshot}
use devops_demo.Store.Reconcile.Effect.{
  reconcile_snapshot-keeps, reconcile_snapshot-atomic, reconcile_snapshot-reconcile_row,
}
use devops_demo.Store.Reconcile.Rows.{snapshot_name, reconcile_row}
use devops_demo.Base.Table.{lookup}
use devops_demo.Store.Retention.Effect.{has_event-delete_older}
use devops_demo.Store.Retention.{delete_older, delete_events_older_than}
use devops_demo.Store.Marker.{upsert_seed_marker}
use devops_demo.Store.History.View.{
  Effect, arrives, listed, expired, marked, view, take_effect, replay, View-ext, view-landed,
}

module _ {F : Type 0} where
  -- Nothing happened to a view, and the call was not acknowledged, or its effects took place.
  abbrev pub Refines : Bool → List (Effect F) → Tables F → Tables F → Type 0
  Refines acknowledged fs t u =
      ((view u ≡ view t) × (acknowledged ≡ false)) ⊎ (view u ≡ replay fs (view t))

  pub view-land_all :
      (rows : List EventRecord) (t : Tables F)
      → view (land_all rows t) ≡ replay (map arrives rows) (view t)
  unfolding land_all replay
  view-land_all [] t = refl
  view-land_all (r ∷ rows) t =
      view-land_all rows (landed r t) ∙ ap (replay (map arrives rows)) (view-landed r t)

  SameTables-view : (t u : Tables F) → SameTables t u → view t ≡ view u
  unfolding view
  SameTables-view t u same =
      View-ext _ _ (λ e. ap (has_event e) same.item_events) same.event_buckets same.current_items
        same.seed_marker

module _ {F : Type 0} (stamp : ℕ → ℕ) where
  pub ingest_event-Refines :
      (e : EventRecord) (s : Session F)
      → let r = ingest_event stamp e s in
        Refines (is_ok r.0) (arrives (stored stamp e) ∷ []) s.tables r.1.tables
  unfolding replay
  ingest_event-Refines e s = elim (Bool-cases (is_ok (ingest_event stamp e s).0)) [
    | inl good ↦
        let (b, s', run) = is_ok-ok (ingest_event stamp e s) good in
        let (known, new, after) = ingest_event-ok stamp e s s' b run in
        inr (ap (λ r. view r.1.tables) run ∙ ap view after ∙ view-landed (stored stamp e) s.tables)
    | inr bad ↦ elim (ingest_event-atomic stamp e s) [
      | inl undone ↦ inl (ap view undone, bad)
      | inr (known, done) ↦ inr (ap view done ∙ view-landed (stored stamp e) s.tables)
    ]
  ]

  module _ (P : ℕ → Type 0)
      (keeps : (i j : ℕ) → P i → P j → ltb (stamp i) (stamp j) ≡ ltb i j) where
    batch_ok-view :
        (ev : List EventRecord) (s : Session F)
        → All (λ e. P e.event_time) ev
        → is_ok (ingest_events_batch stamp ev s).0 ≡ true
        → view (ingest_events_batch stamp ev s).1.tables
          ≡ replay (map arrives (map (stored stamp) ev)) (view s.tables)
    batch_ok-view ev s p good =
        let (res, s', run) = is_ok-ok (ingest_events_batch stamp ev s) good in
        let (inserted, same) = ingest_events_batch-land_all stamp ev P s s' res keeps p run in
        ap (λ r. view r.1.tables) run
        ∙ SameTables-view s'.tables _ same
        ∙ view-land_all (map (stored stamp) ev) s.tables

    pub ingest_events_batch-Refines :
        (ev : List EventRecord) (s : Session F)
        → All (λ e. P e.event_time) ev
        → let r = ingest_events_batch stamp ev s in
          Refines (is_ok r.0) (map arrives (map (stored stamp) ev)) s.tables r.1.tables
    ingest_events_batch-Refines ev s p =
        elim (Bool-cases (is_ok (ingest_events_batch stamp ev s).0)) [
          | inl good ↦ inr (batch_ok-view ev s p good)
          | inr bad ↦ elim (ingest_events_batch-atomic stamp ev s) [
            | inl undone ↦ inl (ap view undone, bad)
            | inr done ↦ elim (ingest_events_batch-clean stamp ev s.tables) [
              | inl (undone, _) ↦ inl (ap view (done ∙ undone), bad)
              | inr (known, good) ↦ inr (
                  ap view done
                  ∙ batch_ok-view ev (record { tables = s.tables; script = [] }) p good)
            ]
          ]
        ]

  pub reconciled-view :
      (items : List SnapshotItem) (now : ℕ) (s : Session F)
      → let t = (reconcile_snapshot stamp items now s).1.tables in
        ((id : ℤ)
          → lookup id t.current_items
            ≡ reconcile_row
                (stamp now)
                (snapshot_name id items none)
                (lookup id s.tables.current_items))
        → view t ≡ replay (listed items (stamp now) ∷ []) (view s.tables)
  unfolding view replay take_effect
  reconciled-view items now s rows =
      let (events, buckets, marker) = reconcile_snapshot-keeps stamp items now s in
      View-ext _ _ (λ e. ap (has_event e) events) (λ k. ap (lookup k) buckets) rows marker

  pub reconcile_snapshot-Refines :
      (items : List SnapshotItem) (now : ℕ) (s : Session F)
      → let r = reconcile_snapshot stamp items now s in
        Refines (is_ok r.0) (listed items (stamp now) ∷ []) s.tables r.1.tables
  reconcile_snapshot-Refines items now s =
      elim (Bool-cases (is_ok (reconcile_snapshot stamp items now s).0)) [
        | inl good ↦
            let (r, s', run) = is_ok-ok (reconcile_snapshot stamp items now s) good in
            inr (
              reconciled-view items now s (λ id.
                ap (λ q. lookup id q.1.tables.current_items) run
                ∙ (reconcile_snapshot-reconcile_row stamp items now s s' r run).1 id))
        | inr bad ↦ elim (reconcile_snapshot-atomic stamp items now s) [
          | inl undone ↦ inl (ap view undone, bad)
          | inr rows ↦ inr (reconciled-view items now s rows)
        ]
      ]

  delete_events-view :
      (cutoff : ℕ) (t u : Tables F)
      → u ≡ record t { item_events = delete_older cutoff t.item_events }
      → view u ≡ replay (expired cutoff ∷ []) (view t)
  unfolding view replay take_effect
  delete_events-view cutoff t u h =
      ap view h
      ∙ View-ext _ _ (λ e. has_event-delete_older e cutoff t.item_events) (λ k. refl) (λ id. refl)
          refl

  pub delete_events_older_than-Refines :
      (cutoff : ℕ) (s : Session F)
      → let r = delete_events_older_than stamp cutoff s in
        Refines (is_ok r.0) (expired (stamp cutoff) ∷ []) s.tables r.1.tables
  delete_events_older_than-Refines cutoff s = elim (deleted s) [
    | inl (undone, bad) ↦ inl (ap view undone, bad)
    | inr done ↦ inr (delete_events-view (stamp cutoff) s.tables _ done)
  ]
    where
      deleted :
          (s : Session F)
          → let r = delete_events_older_than stamp cutoff s in
            ((r.1.tables ≡ s.tables) × (is_ok r.0 ≡ false))
            ⊎ (r.1.tables ≡ record s.tables {
              item_events = delete_older (stamp cutoff) s.tables.item_events;
            })
      deleted s = unfold delete_events_older_than in ground arith

  pub upsert_seed_marker-Refines :
      (m : SeedMarker F) (s : Session F)
      → let r = upsert_seed_marker stamp m s in
        Refines
          (is_ok r.0)
          (marked (record m { seeded_at = stamp m.seeded_at }) ∷ [])
          s.tables
          r.1.tables
  unfolding upsert_seed_marker view replay take_effect
  upsert_seed_marker-Refines m s = ground arith
