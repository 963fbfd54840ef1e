-- ===== src/Seeder/Progress.antt =====
-- The history that the parameters of seeder.Run determine, and how far each part of Run gets in it.
use devops_demo.Base.{
  ℕ, zero, suc, ◌+◌, ◌≡◌, refl, sym, ◌∙◌, ap, subst, true, false, Option, none, some, List, [], ◌∷◌,
  ◌++◌, leb, length, arith, if◌then◌else◌,
}
use mathlib.Core.List.{append_assoc, append-nil}
use devops_demo.Store.Schema.{EventRecord}
use devops_demo.Store.Session.{Result, ok, err, Error, Session}
use devops_demo.Store.Batch.{BatchResult, ingest_events_batch}
use devops_demo.Seeder.{
  Item, Config, Draws, Failure, State, canceled_after, batch_size_of, total_hours, hour_start_of,
  draw_event, is_canceled, checked, flushed, flush_pending, flush, flush_detached, after_failure,
  after_flush, unless_failed, appended, flush_full, seed_events, seed_hour, seed_hours,
}

-- The history: n events of an hour, then hour after hour.
module _ {R : Type 0} (cfg : Config) (draws : Draws R) (first : Item) (items : List Item) where
  unfoldable pub hour_history : ℕ → ℕ → R → List EventRecord × R
  hour_history hour_start zero rng = ([], rng)
  hour_history hour_start (suc n) rng =
      let (e, rng₁) = draw_event draws first items hour_start rng in
      let (later, rng₂) = hour_history hour_start n rng₁ in (e ∷ later, rng₂)

  unfoldable pub window_history : ℕ → ℕ → R → List EventRecord × R
  unfolding hour_history
  window_history h zero rng = ([], rng)
  window_history h (suc left) rng =
      let (now, rng₁) =
        hour_history (hour_start_of cfg h) (draws.events_in (hour_start_of cfg h)) rng in
      let (later, rng₂) = window_history (h + 1) left rng₁ in (now ++ later, rng₂)

module _ {F R : Type 0} where
  -- The events that have left the generator: those the store took, and those still pending.
  abbrev pub made : State F R → List EventRecord
  made st = st.accepted ++ st.pending

  -- From st on, a part of the code made the events `drawn` and left the generator at `rng`, or it
  -- stopped early and made the first of them.
  pub record Progress (st : State F R) (drawn : List EventRecord) (rng : R)
      (r : Option Failure × State F R) : Type 0 where
    pub rest : List EventRecord
    pub events : made r.1 ++ rest ≡ made st ++ drawn
    pub done : r.0 ≡ none → (rest ≡ []) × (r.1.rng ≡ rng)

  flushed-made :
      (st : State F R) (r : Result BatchResult × Session F)
      → (made (flushed st r).1 ≡ made st) × ((flushed st r).1.rng ≡ st.rng)
  unfolding flushed
  flushed-made st (ok res, s) = (append-nil _, refl)
  flushed-made st (err e, s) = (refl, refl)

  pub flush-made :
      (stamp : ℕ → ℕ) (st : State F R)
      → (made (flush stamp st).1 ≡ made st) × ((flush stamp st).1.rng ≡ st.rng)
  unfolding flush
  flush-made stamp st = go st.pending
    where
      go :
          (p : List EventRecord)
          → (made (flush_pending stamp p st).1 ≡ made st)
            × ((flush_pending stamp p st).1.rng ≡ st.rng)
      go [] = (refl, refl)
      go (e ∷ p) = flushed-made st (ingest_events_batch stamp (e ∷ p) st.session)

  pub unless_failed-Progress :
      (st : State F R) (xs ys : List EventRecord) (rng₁ rng₂ : R)
      (next : State F R → Option Failure × State F R) (r : Option Failure × State F R)
      → Progress st xs rng₁ r
      → ((st' : State F R) → st'.rng ≡ rng₁ → Progress st' ys rng₂ (next st'))
      → Progress st (xs ++ ys) rng₂ (unless_failed next r)
  unfolding unless_failed
  unless_failed-Progress st xs ys rng₁ rng₂ next (none, st') p q =
      let (empty, same) = p.done refl in
      let p' = q st' same in
      record {
        rest = p'.rest;
        events =
            p'.events
            ∙ ap (◌++ ys) (sym (append-nil _) ∙ ap (made st' ++◌) (sym empty) ∙ p.events)
            ∙ append_assoc (made st) xs ys;
        done = p'.done;
      }
  unless_failed-Progress st xs ys rng₁ rng₂ next (some failure, st') p q = record {
    rest = p.rest ++ ys;
    events =
        sym (append_assoc (made st') p.rest ys)
        ∙ ap (◌++ ys) p.events
        ∙ append_assoc (made st) xs ys;
    done = λ e. absurd (ground arith);
  }

  -- A part that makes no event.
  same-Progress :
      (st : State F R) (r : Option Failure × State F R)
      → made r.1 ≡ made st
      → r.1.rng ≡ st.rng
      → Progress st [] st.rng r
  same-Progress st r m g = record {
    rest = [];
    events = append-nil _ ∙ m ∙ sym (append-nil _);
    done = λ e. (refl, g);
  }

  after_failure-made :
      (stamp : ℕ → ℕ) (canceled : Failure) (e : Error) (st : State F R)
      → (made (after_failure stamp canceled e st).1 ≡ made st)
        × ((after_failure stamp canceled e st).1.rng ≡ st.rng)
  unfolding after_failure flush_detached
  after_failure-made stamp canceled e st = ground (arith, flush-made stamp (checked st))

  pub after_flush-Progress :
      (stamp : ℕ → ℕ) (canceled : Failure) (st : State F R) (r : Option Error × State F R)
      → made r.1 ≡ made st
      → r.1.rng ≡ st.rng
      → Progress st [] st.rng (after_flush stamp canceled r)
  unfolding after_flush
  after_flush-Progress stamp canceled st (none, st') m g = same-Progress st (none, st') m g
  after_flush-Progress stamp canceled st (some e, st') m g =
      let (m', g') = after_failure-made stamp canceled e st' in same-Progress st _ (m' ∙ m) (g' ∙ g)

  module _ (stamp : ℕ → ℕ) (cfg : Config) (draws : Draws R) (first : Item) (items : List Item) where
    flush_full-Progress :
        (canceled : Failure) (st : State F R)
        → Progress st [] st.rng (flush_full stamp cfg draws first items canceled st)
    unfolding flush_full
    flush_full-Progress canceled st =
        let (m, g) = flush-made stamp st in
        elim (leb (batch_size_of cfg.batch_size) (length st.pending))
          as (λ b.
            Progress st [] st.rng
              (if b then after_flush stamp canceled (flush stamp st) else (none, st))) [
                | true ↦ after_flush-Progress stamp canceled st (flush stamp st) m g
                | false ↦ same-Progress st (none, st) refl refl
              ]

    -- One turn of the inner loop.
    turn-Progress :
        (canceled : Failure) (e : EventRecord) (rng : R) (st : State F R)
        → Progress st
            (e ∷ [])
            rng
            (flush_full stamp cfg draws first items canceled (appended (e, rng) st))
    turn-Progress canceled e rng st =
        let p = flush_full-Progress canceled (appended (e, rng) st) in
        record {
          rest = p.rest;
          events = p.events ∙ append-nil _ ∙ sym (append_assoc st.accepted st.pending (e ∷ []));
          done = p.done;
        }

    seed_events-Progress :
        (h hour_start n : ℕ) (st : State F R)
        → Progress st
            (hour_history cfg draws first items hour_start n st.rng).0
            (hour_history cfg draws first items hour_start n st.rng).1
            (seed_events stamp cfg draws first items h hour_start n st)
    unfolding seed_events hour_history
    seed_events-Progress h hour_start zero st = same-Progress st (none, st) refl refl
    seed_events-Progress h hour_start (suc n) st =
        let d = draw_event draws first items hour_start st.rng in
        let history = hour_history cfg draws first items hour_start n in
        unless_failed-Progress st (d.0 ∷ []) (history d.1).0 d.1 (history d.1).1
          (seed_events stamp cfg draws first items h hour_start n) _
          (turn-Progress (canceled_after h (total_hours cfg)) d.0 d.1 st)
          (λ st' g.
            subst
              (λ rng.
                Progress st' (history rng).0 (history rng).1
                  (seed_events stamp cfg draws first items h hour_start n st'))
              g (seed_events-Progress h hour_start n st'))

    -- An hour that is not started: all its events are missing.
    skipped-Progress :
        (st : State F R) (xs : List EventRecord) (rng : R) (failure : Failure) (st' : State F R)
        → made st' ≡ made st
        → Progress st xs rng (some failure, st')
    skipped-Progress st xs rng failure st' m = record {
      rest = xs;
      events = ap (◌++ xs) m;
      done = λ e. absurd (ground arith);
    }

    seed_hour-Progress :
        (h : ℕ) (st : State F R)
        → let r =
            hour_history cfg draws first items
              (hour_start_of cfg h)
              (draws.events_in (hour_start_of cfg h))
              st.rng in
          Progress st r.0 r.1 (seed_hour stamp cfg draws first items h st)
    unfolding seed_hour flush_detached
    seed_hour-Progress h st =
        let start = hour_start_of cfg h in
        let n = draws.events_in start in
        let r = hour_history cfg draws first items start n st.rng in
        elim (is_canceled st.checks)
          as (λ b. Progress st r.0 r.1 (
            if b
            then (some (canceled_after h (total_hours cfg)), flush_detached stamp (checked st))
            else seed_events stamp cfg draws first items h start n (checked st))) [
              | true ↦
                  skipped-Progress st r.0 r.1 _ (flush_detached stamp (checked st))
                    (flush-made stamp (checked st)).0
              | false ↦
                  let p = seed_events-Progress h start n (checked st) in
                  record { rest = p.rest; events = p.events; done = p.done }
            ]

    pub seed_hours-Progress :
        (h left : ℕ) (st : State F R)
        → Progress st
            (window_history cfg draws first items h left st.rng).0
            (window_history cfg draws first items h left st.rng).1
            (seed_hours stamp cfg draws first items h left st)
    unfolding seed_hours window_history
    seed_hours-Progress h zero st = same-Progress st (none, st) refl refl
    seed_hours-Progress h (suc left) st =
        let start = hour_start_of cfg h in
        let now = hour_history cfg draws first items start (draws.events_in start) st.rng in
        let history = window_history cfg draws first items (h + 1) left in
        unless_failed-Progress st now.0 (history now.1).0 now.1 (history now.1).1
          (seed_hours stamp cfg draws first items (h + 1) left) _ (seed_hour-Progress h st)
          (λ st' g.
            subst
              (λ rng.
                Progress st' (history rng).0 (history rng).1
                  (seed_hours stamp cfg draws first items (h + 1) left st'))
              g (seed_hours-Progress (h + 1) left st'))
