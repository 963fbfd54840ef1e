-- ===== src/Ingest/Persist/Exactly.antt =====
-- An event is stored exactly once, however often the loop tries, and nothing but a malformed event
-- is dropped.
use devops_demo.Base.{
  ℕ, is_some, ◌≡◌, ◌≢◌, ◌⊎◌, inl, inr, refl, ap, subst, sym, ◌∙◌, String, Bool, true, false, not,
  Bool-cases, Option, none, some, List, [], ◌∷◌, arith,
}
use mathlib.Core.Option.{some-injective}
use devops_demo.Store.Schema.{EventRecord}
use devops_demo.Store.Session.{Result, ok, err, Error, Session}
use devops_demo.Store.Ingest.{known_type, has_event, stored, ingest_event}
use devops_demo.Store.Ingest.Effect.{landed, ingest_event-atomic, ingest_event_total}
use devops_demo.Store.Ingest.Replay.{landed-landed}
use devops_demo.Ingest.Event.{
  ItemEvent, EventType, created, updated, deleted, other, World, Metrics, event_type_name,
  record_of, count_event, recorded, handle_named, handle_event,
}
use devops_demo.Ingest.Event.Handled.{IsStored, handle_event-ok}
use devops_demo.Ingest.Persist.{
  is_malformed, Wait, elapsed, canceled, Outcome, handled, discarded, after_attempt, persist,
}

-- The names of the contract's event types are those that the tables take.
pub known_type-event_type_name :
    (ty : EventType) (name : String) → event_type_name ty ≡ some name → known_type name ≡ true
unfolding event_type_name known_type
known_type-event_type_name created name h =
    subst (λ n. known_type n ≡ true) (some-injective _ _ h) refl
known_type-event_type_name updated name h =
    subst (λ n. known_type n ≡ true) (some-injective _ _ h) refl
known_type-event_type_name deleted name h =
    subst (λ n. known_type n ≡ true) (some-injective _ _ h) refl
known_type-event_type_name (other n) name h = absurd (ground arith)

module _ {F : Type 0} (stamp : ℕ → ℕ) (event : ItemEvent) where
  -- The tables are as before, or the event is stored.
  abbrev Untouched : World F → World F → Type 0
  Untouched w w' = (w'.session.tables ≡ w.session.tables) ⊎ IsStored stamp event w w'

  -- What an error of handleEvent says: a malformed event changes nothing, and any other error is one
  -- of the store.
  record Failed (x : Error) (w w' : World F) : Type 0 where
    metrics : w'.metrics ≡ w.metrics
    tables : Untouched w w'
    malformed : is_malformed x ≡ not (is_some (event_type_name event.event_type))

  not_malformed :
      (ev : EventRecord) (s s' : Session F) (x : Error)
      → ingest_event stamp ev s ≡ (err x, s')
      → is_malformed x ≡ false
  unfolding ingest_event is_malformed
  not_malformed ev s s' x h = ground arith

  recorded-err :
      (ev : EventRecord) (m : Metrics) (r : Result Bool × Session F) (x : Error) (w' : World F)
      → recorded ev m r ≡ (err x, w')
      → (y : Error) × (r ≡ (err y, w'.session))
        × (is_malformed x ≡ is_malformed y)
        × (w'.metrics ≡ m)
  unfolding recorded is_malformed
  recorded-err ev m (ok b, s) x w' h = absurd (ground arith)
  recorded-err ev m (err e, s) x w' h = (e, ground arith, ground arith, ground arith)

  handle_event-err :
      (w w' : World F) (x : Error) → handle_event stamp event w ≡ (err x, w') → Failed x w w'
  unfolding handle_event
  handle_event-err w w' x h = go (event_type_name event.event_type) refl h
    where
      go :
          (o : Option String)
          → event_type_name event.event_type ≡ o
          → handle_named stamp event o w ≡ (err x, w')
          → Failed x w w'
      go none e k = record {
        metrics = ground arith;
        tables = inl (ground arith);
        malformed = rw e (unfold is_malformed in ground arith);
      }
      go (some name) e k =
          let ev = record_of event name in
          let (y, run, same, metrics) =
            recorded-err ev w.metrics (ingest_event stamp ev w.session) x w' k in
          record {
            metrics = metrics;
            tables = elim (ingest_event-atomic stamp ev w.session) [
              | inl undone ↦ inl (ground arith)
              | inr (known, done) ↦ inr (name, e, ground arith)
            ];
            malformed = rw e (same ∙ not_malformed ev w.session w'.session y run);
          }

  -- One round of the loop ends it, or is an error and one more round.
  after_attempt-cases :
      (wait : Wait) (again : World F → Outcome × World F) (r : Result (Unit {0}) × World F)
      (o : Outcome) (w' : World F)
      → after_attempt stamp wait again r ≡ (o, w')
      → ((u : Unit {0}) × (r ≡ (ok u, w')) × (o ≡ handled))
        ⊎ ((x : Error) × (v : World F) × (r ≡ (err x, v))
            × (((v ≡ w') × (o ≢ handled) × (o ≡ discarded → is_malformed x ≡ true))
                ⊎ (again v ≡ (o, w'))))
  unfolding after_attempt
  after_attempt-cases wait again (ok u, v) o w' h = inl (u, ground arith, ground arith)
  after_attempt-cases elapsed again (err x, v) o w' h = elim (Bool-cases (is_malformed x)) [
    | inl m ↦ inr (x, v, refl, inl (ground arith, ground arith, λ d. m))
    | inr m ↦ inr (x, v, refl, inr (ground arith))
  ]
  after_attempt-cases canceled again (err x, v) o w' h = elim (Bool-cases (is_malformed x)) [
    | inl m ↦ inr (x, v, refl, inl (ground arith, ground arith, λ d. m))
    | inr m ↦ inr (x, v, refl, inl (ground arith, ground arith, λ d. ground arith))
  ]

  IsStored-chain :
      (w v w' : World F) → Untouched w v → IsStored stamp event v w' → IsStored stamp event w w'
  IsStored-chain w v w' (inl same) (name, e, t) = (name, e, rw (← same) t)
  IsStored-chain w v w' (inr (name₀, e₀, t₀)) (name, e, t) =
      let same : name ≡ name₀ = ground (arith, e, e₀) in
      (
        name,
        e,
        t ∙ rw (t₀, same) (landed-landed (stored stamp (record_of event name₀)) w.session.tables),
      )

  Untouched-chain : (w v w' : World F) → Untouched w v → Untouched v w' → Untouched w w'
  Untouched-chain w v w' h (inr stored) = inr (IsStored-chain w v w' h stored)
  Untouched-chain w v w' (inl same) (inl same') = inl (same' ∙ same)
  Untouched-chain w v w' (inr (name, e, t)) (inl same') = inr (name, e, same' ∙ t)

  -- The event is counted once, as ingested or as deduplicated.
  abbrev pub IsCounted : World F → World F → Type 0
  IsCounted w w' =
      (name : String) × (event_type_name event.event_type ≡ some name)
      × (b : Bool) × (w'.metrics ≡ count_event b (record_of event name) w.metrics)

  -- When the loop ends with the event handled, its type has a name, the tables are as after storing
  -- it once, however many attempts failed before and whichever acknowledgements were lost, and the
  -- metrics count it once, as ingested or as deduplicated.
  pub persist-handled :
      (waits : List Wait) (w w' : World F)
      → persist stamp event waits w ≡ (handled, w')
      → IsStored stamp event w w' × IsCounted w w'
  unfolding persist
  persist-handled [] w w' h = absurd (ground arith)
  persist-handled (wait ∷ waits) w w' h =
      elim (after_attempt-cases wait (persist stamp event waits) (handle_event stamp event w)
        handled w' h) [
          | inl (u, done, _) ↦
              let (name, e, t, m) = handle_event-ok stamp event w w' u done in
              ((name, e, t), (name, e, _, m))
          | inr (x, v, failed, inl (_, end, _)) ↦ absurd (end refl)
          | inr (x, v, failed, inr again) ↦
              let f = handle_event-err w v x failed in
              let (stored, counted) = persist-handled waits v w' again in
              let (name, e, b, m) = counted in
              (IsStored-chain w v w' f.tables stored, (name, e, b, rw (← f.metrics) m))
        ]

  persist-Untouched :
      (waits : List Wait) (w w' : World F) (o : Outcome)
      → persist stamp event waits w ≡ (o, w')
      → o ≢ handled
      → (w'.metrics ≡ w.metrics)
        × ((w'.session.tables ≡ w.session.tables) ⊎ IsStored stamp event w w')
  unfolding persist
  persist-Untouched [] w w' o h ne = (ground arith, inl (ground arith))
  persist-Untouched (wait ∷ waits) w w' o h ne =
      elim (after_attempt-cases wait (persist stamp event waits) (handle_event stamp event w) o w'
        h) [
          | inl (u, done, e) ↦ absurd (ne e)
          | inr (x, v, failed, inl (e, _, _)) ↦
              let f = handle_event-err w v x failed in
              subst (λ z. (z.metrics ≡ w.metrics) × Untouched w z) e (f.metrics, f.tables)
          | inr (x, v, failed, inr again) ↦
              let f = handle_event-err w v x failed in
              let (m, t) = persist-Untouched waits v w' o again ne in
              (m ∙ f.metrics, Untouched-chain w v w' f.tables t)
        ]

  -- An event is discarded only if its type has no name.
  persist-discarded :
      (waits : List Wait) (w w' : World F)
      → persist stamp event waits w ≡ (discarded, w')
      → event_type_name event.event_type ≡ none
  unfolding persist
  persist-discarded [] w w' h = absurd (ground arith)
  persist-discarded (wait ∷ waits) w w' h =
      elim (after_attempt-cases wait (persist stamp event waits) (handle_event stamp event w)
        discarded w' h) [
          | inl (u, done, e) ↦ absurd (ground arith)
          | inr (x, v, failed, inl (_, _, m)) ↦
              let f = (handle_event-err w v x failed).malformed in ground (arith, f, m refl)
          | inr (x, v, failed, inr again) ↦ persist-discarded waits v w' again
        ]

  -- When the loop has not handled the event, whether it is canceled, discards the event or still
  -- retries: the metrics are as before, and so are the tables unless the event is stored and only an
  -- acknowledgement was lost; and an event is discarded only if its type has no name.
  pub persist-unhandled :
      (waits : List Wait) (w w' : World F) (o : Outcome)
      → persist stamp event waits w ≡ (o, w')
      → o ≢ handled
      → (w'.metrics ≡ w.metrics)
        × ((w'.session.tables ≡ w.session.tables) ⊎ IsStored stamp event w w')
        × (o ≡ discarded → event_type_name event.event_type ≡ none)
  persist-unhandled waits w w' o h ne =
      let (m, t) = persist-Untouched waits w w' o h ne in
      (m, t, λ d. persist-discarded waits w w' (h ∙ ap (λ o. (o, w')) d))

  -- While the database refuses nothing, the first attempt handles an event whose type has a name.
  pub persist_total :
      (name : String) (wait : Wait) (waits : List Wait) (w : World F)
      → event_type_name event.event_type ≡ some name
      → w.session.script ≡ []
      → (persist stamp event (wait ∷ waits) w).0 ≡ handled
  unfolding persist handle_event after_attempt
  persist_total name wait waits w e clean =
      let ev = record_of event name in
      let t = w.session.tables in
      let stores : ingest_event stamp ev w.session ≡ (
        ok (not (has_event (stored stamp ev) t.item_events)),
        record { tables = landed (stored stamp ev) t; script = [] },
      ) =
        subst
          (λ script. ingest_event stamp ev (record { tables = t; script = script }) ≡ (
            ok (not (has_event (stored stamp ev) t.item_events)),
            record { tables = landed (stored stamp ev) t; script = [] },
          ))
          (sym clean)
          (ingest_event_total stamp ev t (known_type-event_type_name event.event_type name e)) in
      ground (arith, stores)
