-- ===== src/SeedCommand/Marked.antt =====
-- The seed marker means that a seed run completed.
use devops_demo.Base.{
  ℕ, Bool-cases, ◌≡◌, ◌⊎◌, inl, inr, refl, ◌∙◌, ap, false, ◌&&◌, Option, none, some, List, [], ◌∷◌,
  pos, leb_ℤ, arith,
}
use devops_demo.Store.Schema.{EventRecord, SeedMarker, Tables}
use devops_demo.Store.Session.{Result, ok, err, is_ok, Session}
use devops_demo.Store.Session.Laws.{is_ok-ok}
use devops_demo.Store.Batch.{ingest_events_batch}
use devops_demo.Store.Batch.Serial.{ingest_events_batch-ok}
use devops_demo.Store.Batch.Equivalence.{
  ingest_events_batch-atomic, ingest_events_batch-clean, fold_current_items-distinct,
}
use devops_demo.Store.Connect.{connect, is_connected}
use devops_demo.Store.Marker.{upsert_seed_marker, write_marker}
use devops_demo.Ingest.Event.{unix_seconds}
use devops_demo.Seeder.{Item, Failure, State, run_seeder, total_hours}
use devops_demo.Seeder.Progress.{window_history}
use devops_demo.Seeder.Complete.{run_seeder_complete}
use devops_demo.Seeder.Keeps.{run_seeder-keeps}
use devops_demo.Retention.Horizon.{run_once-Expired}
use devops_demo.SeedCommand.{
  Options, Script, Command, fetch_backend_items, with_session, closing_pass, marker_of,
  after_marker, after_run, after_fetch, seed_command,
}

-- IngestEventsBatch does not touch the seed marker.
module _ {F : Type 0} (stamp : ℕ → ℕ) where
  clean-marker :
      (ev : List EventRecord) (t : Tables F)
      → (ingest_events_batch stamp ev (record { tables = t; script = [] })).1.tables.seed_marker
        ≡ t.seed_marker
  clean-marker ev t = elim (ingest_events_batch-clean stamp ev t) [
    | inl (undone, _) ↦ ap (λ u. u.seed_marker) undone
    | inr (known, done) ↦
        let start : Session F = record { tables = t; script = [] } in
        let (res, s', run) = is_ok-ok (ingest_events_batch stamp ev start) done in
        let (folded, f, distinct) = fold_current_items-distinct stamp ev in
        let (inserted, events, buckets, items, marker) =
          ingest_events_batch-ok stamp ev folded start s' res f run in
        ap (λ r. r.1.tables.seed_marker) run ∙ marker
  ]

  ingest_events_batch-marker :
      (ev : List EventRecord) (s : Session F)
      → (ingest_events_batch stamp ev s).1.tables.seed_marker ≡ s.tables.seed_marker
  ingest_events_batch-marker ev s = elim (ingest_events_batch-atomic stamp ev s) [
    | inl undone ↦ ap (λ u. u.seed_marker) undone
    | inr done ↦ ap (λ u. u.seed_marker) done ∙ clean-marker ev s.tables
  ]

  upsert_seed_marker-written :
      (m : SeedMarker F) (s : Session F)
      → let r = upsert_seed_marker stamp m s in
        ((r.1.tables.seed_marker ≡ s.tables.seed_marker) × (is_ok r.0 ≡ false))
        ⊎ (r.1.tables.seed_marker ≡ some (record m { seeded_at = stamp m.seeded_at }))
  unfolding upsert_seed_marker write_marker
  upsert_seed_marker-written m s = ground arith

module _ {F R : Type 0} (stamp : ℕ → ℕ) (o : Options F R) (script : Script) where
  abbrev pub marker_in : Command F R → Option (SeedMarker F)
  marker_in c = c.state.session.tables.seed_marker

  -- The seeder handed over the whole history of the sorted items, and the marker describes the run.
  pub record IsCompleted (c c' : Command F R) : Type 0 where
    first : Item
    items : List Item
    fetched : fetch_backend_items script.list_items ≡ some (first ∷ items)
    accepted :
        c'.state.accepted
        ≡ (window_history o.seeder o.draws first items 0 (total_hours o.seeder) c.state.rng).0
    pending : c'.state.pending ≡ []
    marker :
        c'.state.session.tables.seed_marker
        ≡ some (record {
          scale = o.scale;
          ref_unix = unix_seconds o.seeder.ref_time;
          seed = o.seed_value;
          days = o.seeder.days;
          seeded_at = stamp script.marker_time;
          events_written = c'.state.total_written;
        })

  -- The two ways in which the command ends.
  abbrev Ended : Command F R → ℕ × Command F R → Type 0
  Ended c r = ((marker_in r.1 ≡ marker_in c) × (r.0 ≡ 1)) ⊎ IsCompleted c r.1

  after_marker-err :
      (c : Command F R) (r : Result (Unit {0}) × Session F)
      → is_ok r.0 ≡ false
      → ((after_marker c r).0 ≡ 1)
  unfolding after_marker
  after_marker-err c (ok u, s) h = absurd (ground arith)
  after_marker-err c (err e, s) h = refl

  after_marker-state :
      (c : Command F R) (r : Result (Unit {0}) × Session F)
      → (after_marker c r).1 ≡ with_session r.1 c
  unfolding after_marker
  after_marker-state c (ok u, s) = refl
  after_marker-state c (err e, s) = refl

  seeder_keeps_marker :
      (items : List Item) (st : State F R)
      → (run_seeder stamp o.seeder o.draws items st).1.session.tables.seed_marker
        ≡ st.session.tables.seed_marker
  seeder_keeps_marker items st =
      run_seeder-keeps stamp (λ s. s.tables.seed_marker ≡ st.session.tables.seed_marker)
        (λ ev s p. ingest_events_batch-marker stamp ev s ∙ p) o.seeder o.draws items st refl

  after_run-Ended :
      (first : Item) (items : List Item) (c : Command F R) (r : Option Failure × State F R)
      → fetch_backend_items script.list_items ≡ some (first ∷ items)
      → r.1.session.tables.seed_marker ≡ marker_in c
      → (r.0 ≡ none
          → (r.1.accepted
              ≡ (window_history o.seeder o.draws first items 0
                  (total_hours o.seeder)
                  c.state.rng).0)
            × (r.1.pending ≡ []))
      → Ended c (after_run stamp o script c.metrics r)
  unfolding after_run closing_pass
  after_run-Ended first items c (some failure, st) f m done = inl (m, refl)
  after_run-Ended first items c (none, st) f m done =
      let c₁ =
        closing_pass stamp o script.retention_time (record { state = st; metrics = c.metrics }) in
      let pass =
        run_once-Expired stamp o.retention script.retention_time
          (record { session = st.session; metrics = c.metrics }) in
      let written = upsert_seed_marker stamp (marker_of o script.marker_time c₁) c₁.state.session in
      let same = after_marker-state c₁ written in
      elim (upsert_seed_marker-written stamp (marker_of o script.marker_time c₁) c₁.state.session) [
        | inl (kept, bad) ↦
            inl (ap marker_in same ∙ kept ∙ pass.marker ∙ m, after_marker-err c₁ written bad)
        | inr new ↦ inr (record {
          first = first;
          items = items;
          fetched = f;
          accepted = ap (λ c. c.state.accepted) same ∙ (done refl).0;
          pending = ap (λ c. c.state.pending) same ∙ (done refl).1;
          marker = rw same new;
        })
      ]

  seeder_ran_whole :
      (first : Item) (items : List Item) (st : State F R)
      → st.accepted ≡ []
      → st.pending ≡ []
      → (run_seeder stamp o.seeder o.draws (first ∷ items) st).0 ≡ none
      → ((run_seeder stamp o.seeder o.draws (first ∷ items) st).1.accepted
          ≡ (window_history o.seeder o.draws first items 0 (total_hours o.seeder) st.rng).0)
        × ((run_seeder stamp o.seeder o.draws (first ∷ items) st).1.pending ≡ [])
  unfolding run_seeder
  seeder_ran_whole first items st a p h = elim (Bool-cases (leb_ℤ o.seeder.days (pos 0))) [
    | inl none_asked ↦ absurd (ground arith)
    | inr positive ↦ run_seeder_complete stamp o.seeder o.draws first items st positive a p h
  ]

  -- `analytics seed`, started with nothing pending: either the seed marker is as it was and the
  -- exit code is 1, whatever failed or was canceled, or the store acknowledged the whole history
  -- of the backend's items sorted by id, nothing is pending, and the marker describes this run,
  -- with the number of events written.
  pub seed_command-IsCompleted :
      (c : Command F R)
      → c.state.accepted ≡ []
      → c.state.pending ≡ []
      → ((marker_in (seed_command stamp o script c).1 ≡ marker_in c)
          × ((seed_command stamp o script c).0 ≡ 1))
        ⊎ IsCompleted c (seed_command stamp o script c).1
  unfolding seed_command after_fetch
  seed_command-IsCompleted c a p =
      elim (Bool-cases
        (script.profile_parsed && (is_connected (connect script.dials 10).0 && script.migrated))) [
          | inl ready ↦ rw ready (go (fetch_backend_items script.list_items) refl)
          | inr early ↦ rw early (inl (refl, refl))
        ]
    where
      go :
          (f : Option (List Item))
          → fetch_backend_items script.list_items ≡ f
          → ((marker_in (after_fetch stamp o script f c).1 ≡ marker_in c)
              × ((after_fetch stamp o script f c).0 ≡ 1))
            ⊎ IsCompleted c (after_fetch stamp o script f c).1
      go none e = inl (refl, refl)
      go (some []) e = inl (refl, refl)
      go (some (first ∷ items)) e =
          after_run-Ended first items c (run_seeder stamp o.seeder o.draws (first ∷ items) c.state)
            e (seeder_keeps_marker (first ∷ items) c.state)
            (seeder_ran_whole first items c.state a p)
