-- ===== src/Seeder/Keeps.antt =====
-- What every batch keeps, a whole run of the seeder keeps.
use devops_demo.Base.{
  if_keeps, ℕ, zero, suc, ◌+◌, Option, none, some, List, [], ◌∷◌, leb, leb_ℤ, pos, length,
}
use devops_demo.Store.Schema.{EventRecord}
use devops_demo.Store.Session.{Result, ok, err, Error, Session}
use devops_demo.Store.Batch.{BatchResult, ingest_events_batch}
use devops_demo.Seeder.{
  Item, Config, Draws, Failure, State, batch_size_of, total_hours, hour_start_of, canceled_after,
  canceled_at_final_flush, draw_event, is_canceled, checked, flushed, flush_pending, flush,
  flush_detached, after_failure, after_flush, unless_failed, appended, flush_full, seed_events,
  seed_hour, seed_hours, seed_window, run_seeder,
}

module _ {F R : Type 0} (stamp : ℕ → ℕ) (P : Session F → Type 0)
    (keeps : (ev : List EventRecord) (s : Session F)
      → P s
      → P (ingest_events_batch stamp ev s).1) where
  flushed-keeps :
      (st : State F R) (r : Result BatchResult × Session F) → P r.1 → P (flushed st r).1.session
  unfolding flushed
  flushed-keeps st (ok res, s) p = p
  flushed-keeps st (err e, s) p = p

  flush-keeps : (st : State F R) → P st.session → P (flush stamp st).1.session
  unfolding flush flush_pending
  flush-keeps st p = go st.pending
    where
      go : (pending : List EventRecord) → P (flush_pending stamp pending st).1.session
      go [] = p
      go (e ∷ pending) =
          flushed-keeps st (ingest_events_batch stamp (e ∷ pending) st.session)
            (keeps (e ∷ pending) st.session p)

  after_failure-keeps :
      (canceled : Failure) (e : Error) (st : State F R)
      → P st.session
      → P (after_failure stamp canceled e st).1.session
  unfolding after_failure flush_detached
  after_failure-keeps canceled e st p =
      if_keeps P (λ (r : Failure × State F R). r.1.session) (is_canceled st.checks) _ _
        (flush-keeps (checked st) p) p

  after_flush-keeps :
      (canceled : Failure) (r : Option Error × State F R)
      → P r.1.session
      → P (after_flush stamp canceled r).1.session
  unfolding after_flush
  after_flush-keeps canceled (none, st) p = p
  after_flush-keeps canceled (some e, st) p = after_failure-keeps canceled e st p

  unless_failed-keeps :
      (next : State F R → Option Failure × State F R) (r : Option Failure × State F R)
      → ((st : State F R) → P st.session → P (next st).1.session)
      → P r.1.session
      → P (unless_failed next r).1.session
  unfolding unless_failed
  unless_failed-keeps next (none, st) after p = after st p
  unless_failed-keeps next (some failure, st) after p = p

  module _ (cfg : Config) (draws : Draws R) (first : Item) (items : List Item) where
    flush_full-keeps :
        (canceled : Failure) (st : State F R)
        → P st.session
        → P (flush_full stamp cfg draws first items canceled st).1.session
    unfolding flush_full
    flush_full-keeps canceled st p =
        if_keeps P (λ (r : Option Failure × State F R). r.1.session)
          (leb (batch_size_of cfg.batch_size) (length st.pending)) _ _
          (after_flush-keeps canceled (flush stamp st) (flush-keeps st p)) p

    seed_events-keeps :
        (h hour_start n : ℕ) (st : State F R)
        → P st.session
        → P (seed_events stamp cfg draws first items h hour_start n st).1.session
    unfolding seed_events
    seed_events-keeps h hour_start zero st p = p
    seed_events-keeps h hour_start (suc n) st p =
        unless_failed-keeps (seed_events stamp cfg draws first items h hour_start n) _
          (seed_events-keeps h hour_start n)
          (flush_full-keeps (canceled_after h (total_hours cfg))
            (appended (draw_event draws first items hour_start st.rng) st) p)

    seed_hour-keeps :
        (h : ℕ) (st : State F R)
        → P st.session
        → P (seed_hour stamp cfg draws first items h st).1.session
    unfolding seed_hour flush_detached
    seed_hour-keeps h st p =
        if_keeps P (λ (r : Option Failure × State F R). r.1.session) (is_canceled st.checks) _ _
          (flush-keeps (checked st) p) (seed_events-keeps h (hour_start_of cfg h) _ (checked st) p)

    seed_hours-keeps :
        (h left : ℕ) (st : State F R)
        → P st.session
        → P (seed_hours stamp cfg draws first items h left st).1.session
    unfolding seed_hours
    seed_hours-keeps h zero st p = p
    seed_hours-keeps h (suc left) st p =
        unless_failed-keeps (seed_hours stamp cfg draws first items (h + 1) left) _
          (seed_hours-keeps (h + 1) left) (seed_hour-keeps h st p)

    seed_window-keeps :
        (st : State F R) → P st.session → P (seed_window stamp cfg draws first items st).1.session
    unfolding seed_window
    seed_window-keeps st p =
        unless_failed-keeps (λ st'. after_flush stamp canceled_at_final_flush (flush stamp st')) _
          (λ st' q. after_flush-keeps canceled_at_final_flush (flush stamp st') (flush-keeps st' q))
          (seed_hours-keeps 0 (total_hours cfg) st p)

  pub run_seeder-keeps :
      (cfg : Config) (draws : Draws R) (items : List Item) (st : State F R)
      → P st.session
      → P (run_seeder stamp cfg draws items st).1.session
  unfolding run_seeder
  run_seeder-keeps cfg draws [] st p = p
  run_seeder-keeps cfg draws (first ∷ items) st p =
      if_keeps P (λ (r : Option Failure × State F R). r.1.session) (leb_ℤ cfg.days (pos 0)) _ _ p
        (seed_window-keeps cfg draws first items st p)
