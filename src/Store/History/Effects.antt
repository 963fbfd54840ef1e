-- ===== src/Store/History/Effects.antt =====
-- A history of calls against the abstract store of Store.History.View.
use devops_demo.Base.{
  ℕ, ◌≡◌, refl, sym, ◌∙◌, ap, inl, inr, Bool, false, List, [], ◌∷◌, ◌++◌, map, All, ltb,
}
use devops_demo.Store.Schema.{Tables}
use devops_demo.Store.Session.{is_ok}
use devops_demo.Store.Ingest.{stored, ingest_event}
use devops_demo.Store.Batch.{ingest_events_batch}
use devops_demo.Store.Reconcile.{reconcile_snapshot}
use devops_demo.Store.Retention.{delete_events_older_than}
use devops_demo.Store.Marker.{upsert_seed_marker}
use devops_demo.Store.History.{Step, History, ingest, batch, reconcile, expire, mark, start, call}
use devops_demo.Store.History.View.{
  Effect, arrives, listed, expired, marked, view, replay, replay-append,
}
use devops_demo.Store.History.Refinement.{
  Refines, ingest_event-Refines, ingest_events_batch-Refines, reconcile_snapshot-Refines,
  delete_events_older_than-Refines, upsert_seed_marker-Refines,
}

module _ {F : Type 0} (stamp : ℕ → ℕ) where
  -- What a call is asked to do to the abstract store.
  abbrev pub effects : {t u : Tables F} → Step stamp t u → List (Effect F)
  effects (ingest e script) = arrives (stored stamp e) ∷ []
  effects (batch ev script) = map arrives (map (stored stamp) ev)
  effects (reconcile items now script) = listed items (stamp now) ∷ []
  effects (expire cutoff script) = expired (stamp cutoff) ∷ []
  effects (mark m script) = marked (record m { seeded_at = stamp m.seeded_at }) ∷ []

  -- Whether a call returns without an error.
  abbrev pub acknowledged : {t u : Tables F} → Step stamp t u → Bool
  acknowledged {t = t} (ingest e script) =
      is_ok (ingest_event stamp e (record { tables = t; script = script })).0
  acknowledged {t = t} (batch ev script) =
      is_ok (ingest_events_batch stamp ev (record { tables = t; script = script })).0
  acknowledged {t = t} (reconcile items now script) =
      is_ok (reconcile_snapshot stamp items now (record { tables = t; script = script })).0
  acknowledged {t = t} (expire cutoff script) =
      is_ok (delete_events_older_than stamp cutoff (record { tables = t; script = script })).0
  acknowledged {t = t} (mark m script) =
      is_ok (upsert_seed_marker stamp m (record { tables = t; script = script })).0

  -- The effects of a history, in order: a call that is not acknowledged may be left out.
  pub data Effects (t : Tables F)
      : (u : Tables F) → History stamp t u → List (Effect F) → Type 0 where
    nothing : Effects t t start []
    missed :
        {u v : Tables F} {h : History stamp t u} {fs : List (Effect F)} (step : Step stamp u v)
        → Effects t u h fs
        → acknowledged step ≡ false
        → Effects t v (call h step) fs
    happened :
        {u v : Tables F} {h : History stamp t u} {fs : List (Effect F)} (step : Step stamp u v)
        → Effects t u h fs
        → Effects t v (call h step) (fs ++ effects step)

  module _ (P : ℕ → Type 0) where
    -- The times of the batches' events are those that the driver keeps apart.
    abbrev pub KeptStep : {t u : Tables F} → Step stamp t u → Type 0
    KeptStep (batch ev script) = All (λ e. P e.event_time) ev
    KeptStep _ = Unit

    abbrev pub KeptTimes : {t u : Tables F} → History stamp t u → Type 0
    KeptTimes start = Unit
    KeptTimes (call h step) = KeptTimes h × KeptStep step

    Step-Refines :
        ((i j : ℕ) → P i → P j → ltb (stamp i) (stamp j) ≡ ltb i j)
        → {t u : Tables F} (step : Step stamp t u) → KeptStep step
        → Refines (acknowledged step) (effects step) t u
    Step-Refines keeps (ingest e script) k = ingest_event-Refines stamp e _
    Step-Refines keeps (batch ev script) k = ingest_events_batch-Refines stamp P keeps ev _ k
    Step-Refines keeps (reconcile items now script) k = reconcile_snapshot-Refines stamp items now _
    Step-Refines keeps (expire cutoff script) k = delete_events_older_than-Refines stamp cutoff _
    Step-Refines keeps (mark m script) k = upsert_seed_marker-Refines stamp m _

    -- The store refines its abstract view. Whatever calls are made in whatever order and whatever
    -- the database answers, where the driver keeps the order of the times of batched events, the
    -- view of the tables is what the effects of the calls make of the first view, in order: every
    -- acknowledged call has its whole effect, and any other its whole effect or none.
    pub History-Effects :
        {t u : Tables F} (h : History stamp t u)
        → ((i j : ℕ) → P i → P j → ltb (stamp i) (stamp j) ≡ ltb i j)
        → KeptTimes h
        → (fs : List (Effect F)) × Effects t u h fs × (view u ≡ replay fs (view t))
    unfolding replay
    History-Effects start keeps k = ([], nothing, refl)
    History-Effects (call h step) keeps k =
        let (fs, e, same) = History-Effects h keeps k.0 in
        elim (Step-Refines keeps step k.1) [
          | inl (stays, bad) ↦ (fs, missed step e bad, stays ∙ same)
          | inr done ↦ (
            fs ++ effects step,
            happened step e,
            done ∙ ap (replay (effects step)) same ∙ sym (replay-append fs (effects step) (view _)),
          )
        ]
