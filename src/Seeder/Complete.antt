-- ===== src/Seeder/Complete.antt =====
-- What seeder.Run has handed to the store when it returns.
use devops_demo.Base.{
  ℕ, ◌≡◌, refl, sym, ◌∙◌, ap, subst, false, Option, none, some, List, [], ◌∷◌, ◌++◌, leb_ℤ, pos,
  arith,
}
use mathlib.Core.List.{append-nil}
use devops_demo.Store.Schema.{EventRecord}
use devops_demo.Store.Session.{Result, ok, err, Error, Session}
use devops_demo.Store.Batch.{BatchResult, ingest_events_batch}
use devops_demo.Seeder.{
  Item, Config, Draws, Failure, State, canceled_at_final_flush, total_hours, flushed, flush_pending,
  flush, after_flush, unless_failed, seed_hours, seed_window, run_seeder,
}
use devops_demo.Seeder.Progress.{
  window_history, made, Progress, flush-made, unless_failed-Progress, after_flush-Progress,
  seed_hours-Progress,
}

module _ {F R : Type 0} (stamp : ℕ → ℕ) where
  flushed-empty :
      (st : State F R) (r : Result BatchResult × Session F)
      → (flushed st r).0 ≡ none
      → (flushed st r).1.pending ≡ []
  unfolding flushed
  flushed-empty st (ok res, s) h = refl
  flushed-empty st (err e, s) h = absurd (ground arith)

  flush-empty : (st : State F R) → (flush stamp st).0 ≡ none → (flush stamp st).1.pending ≡ []
  unfolding flush flush_pending
  flush-empty st h = go st.pending refl h
    where
      go :
          (p : List EventRecord)
          → st.pending ≡ p
          → (flush_pending stamp p st).0 ≡ none
          → (flush_pending stamp p st).1.pending ≡ []
      go [] e k = e
      go (x ∷ p) e k = flushed-empty st (ingest_events_batch stamp (x ∷ p) st.session) k

  after_flush-none :
      (canceled : Failure) (r : Option Error × State F R)
      → (after_flush stamp canceled r).0 ≡ none
      → (r.0 ≡ none) × ((after_flush stamp canceled r).1 ≡ r.1)
  unfolding after_flush
  after_flush-none canceled (none, st) h = (refl, refl)
  after_flush-none canceled (some e, st) h = absurd (ground arith)

  unless_failed-none :
      (next : State F R → Option Failure × State F R) (r : Option Failure × State F R)
      → (unless_failed next r).0 ≡ none
      → unless_failed next r ≡ next r.1
  unfolding unless_failed
  unless_failed-none next (none, st) h = refl
  unless_failed-none next (some failure, st) h = absurd (ground arith)

  module _ (cfg : Config) (draws : Draws R) (first : Item) (items : List Item) where
    seed_window-Progress :
        (st : State F R)
        → Progress st
            ((window_history cfg draws first items 0 (total_hours cfg) st.rng).0 ++ [])
            (window_history cfg draws first items 0 (total_hours cfg) st.rng).1
            (seed_window stamp cfg draws first items st)
    unfolding seed_window
    seed_window-Progress st =
        let history = window_history cfg draws first items 0 (total_hours cfg) st.rng in
        unless_failed-Progress st history.0 [] history.1 history.1 _ _
          (seed_hours-Progress stamp cfg draws first items 0 (total_hours cfg) st)
          (λ st' g.
            let (m, g') = flush-made stamp st' in
            subst
              (λ rng.
                Progress st' [] rng (after_flush stamp canceled_at_final_flush (flush stamp st')))
              g (after_flush-Progress stamp canceled_at_final_flush st' (flush stamp st') m g'))

    seed_window-empty :
        (st : State F R)
        → (seed_window stamp cfg draws first items st).0 ≡ none
        → (seed_window stamp cfg draws first items st).1.pending ≡ []
    unfolding seed_window
    seed_window-empty st h =
        let r = seed_hours stamp cfg draws first items 0 (total_hours cfg) st in
        let same =
          unless_failed-none (λ st'. after_flush stamp canceled_at_final_flush (flush stamp st')) r
            h in
        let (flushed_ok, end) =
          after_flush-none canceled_at_final_flush (flush stamp r.1)
            (sym (ap (λ x. x.0) same) ∙ h) in
        ap (λ x. x.1.pending) same ∙ ap (λ x. x.pending) end ∙ flush-empty r.1 flushed_ok

    run_seeder-seed_window :
        (st : State F R)
        → leb_ℤ cfg.days (pos 0) ≡ false
        → run_seeder stamp cfg draws (first ∷ items) st ≡ seed_window stamp cfg draws first items st
    unfolding run_seeder
    run_seeder-seed_window st positive = rw positive refl

    started :
        (st : State F R)
        → st.accepted ≡ []
        → st.pending ≡ []
        → (xs : List EventRecord) → made st ++ (xs ++ []) ≡ xs
    started st a p xs = rw (a, p, append-nil) refl

    -- Run with at least one item and a positive number of days, started with nothing pending: on
    -- every return (the end, an error of the store, a cancellation wherever it strikes) the events
    -- of the batches that the store acknowledged, followed by those still pending, are the first
    -- events of the history that the parameters determine, each once and in order.
    pub run_seeder-prefix :
        (st : State F R)
        → leb_ℤ cfg.days (pos 0) ≡ false
        → st.accepted ≡ []
        → st.pending ≡ []
        → let r = run_seeder stamp cfg draws (first ∷ items) st in
          (rest : List EventRecord) × ((r.1.accepted ++ r.1.pending) ++ rest
            ≡ (window_history cfg draws first items 0 (total_hours cfg) st.rng).0)
    unfolding run_seeder
    run_seeder-prefix st positive a p =
        let q = seed_window-Progress st in
        (
          q.rest,
          ap (λ r. made r.1 ++ q.rest) (run_seeder-seed_window st positive)
              ∙ q.events
              ∙ started st a p _,
        )

    -- When Run with at least one item and a positive number of days, started with nothing pending,
    -- returns no error, the store acknowledged exactly the history that the parameters determine,
    -- in order, and nothing is pending.
    pub run_seeder_complete :
        (st : State F R)
        → leb_ℤ cfg.days (pos 0) ≡ false
        → st.accepted ≡ []
        → st.pending ≡ []
        → (run_seeder stamp cfg draws (first ∷ items) st).0 ≡ none
        → ((run_seeder stamp cfg draws (first ∷ items) st).1.accepted
            ≡ (window_history cfg draws first items 0 (total_hours cfg) st.rng).0)
          × ((run_seeder stamp cfg draws (first ∷ items) st).1.pending ≡ [])
    unfolding run_seeder
    run_seeder_complete st positive a p h =
        let same = run_seeder-seed_window st positive in
        let q = seed_window-Progress st in
        let ended = sym (ap (λ r. r.0) same) ∙ h in
        let empty = seed_window-empty st ended in
        let events = q.events ∙ started st a p _ in
        (
          ap (λ r. r.1.accepted) same
              ∙ sym (rw (empty, (q.done ended).0, append-nil, append-nil) refl)
              ∙ events,
          ap (λ r. r.1.pending) same ∙ empty,
        )
