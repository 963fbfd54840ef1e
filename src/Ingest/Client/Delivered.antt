-- ===== src/Ingest/Client/Delivered.antt =====
-- What a cycle leaves when neither the backend nor the database fails.
use devops_demo.Base.{
  ℕ, ◌≡◌, ◌⊎◌, inl, inr, refl, sym, ◌∙◌, ap, String, Bool, true, false, not, ◌&&◌, int_key, Option,
  none, some, List, [], ◌∷◌, ◌++◌, arith,
}
use devops_demo.Base.Table.{lookup}
use devops_demo.Store.Schema.{SnapshotItem, Tables}
use devops_demo.Store.Session.{ok, Session}
use devops_demo.Store.Ingest.{has_event, stored}
use devops_demo.Store.Ingest.Effect.{landed, ingest_event_total}
use devops_demo.Store.Reconcile.Effect.{reconcile_snapshot_total, reconcile_snapshot-reconcile_row}
use devops_demo.Store.History.View.{
  Effect, arrives, listed, view, replay, replay-append, view-landed,
}
use devops_demo.Store.History.Refinement.{reconciled-view}
use devops_demo.Ingest.Event.{
  ItemEvent, World, Metrics, count_event, record_of, event_type_name, handle_named, recorded,
  handle_event,
}
use devops_demo.Ingest.Persist.{
  Wait, elapsed, canceled, Outcome, handled, discarded, stopped, retrying, is_malformed,
  after_attempt, persist,
}
use devops_demo.Ingest.Persist.Exactly.{known_type-event_type_name}
use devops_demo.Ingest.Client.{
  gives, Received, StreamEnd, CycleScript, CycleResult, ended, note_reconcile, snapshot_reconcile,
  stream_error, after_persist, set_connected, consume, disconnected, watch, after_reconcile,
  after_dial, cycle,
}

abbrev is_nil : {A : Type 0} → List A → Bool
is_nil [] = true
is_nil (x ∷ xs) = false

-- The first attempt of a persist loop needs no wait, and the script has one after it.
abbrev pub all_attempted : List Received → Bool
all_attempted [] = true
all_attempted (r ∷ rest) = not (is_nil r.waits) && all_attempted rest

module _ {F : Type 0} (stamp : ℕ → ℕ) where
  -- What one event is to do: an unknown type is dropped.
  abbrev named_effects : ItemEvent → Option String → List (Effect F)
  named_effects event none = []
  named_effects event (some name) = arrives (stored stamp (record_of event name)) ∷ []

  abbrev pub effects_of : List Received → List (Effect F)
  effects_of [] = []
  effects_of (r ∷ rest) =
      named_effects r.event (event_type_name r.event.event_type) ++ effects_of rest

  -- A database that refuses nothing.
  abbrev clean : Tables F → Metrics → World F
  clean t m = record { session = record { tables = t; script = [] }; metrics = m }

  -- The loop is done with an event, and the database is as before but for the event's effect.
  record Delivered (event : ItemEvent) (t : Tables F) (r : Outcome × World F) : Type 0 where
    outcome : Outcome
    tables : Tables F
    metrics : Metrics
    result : r ≡ (outcome, clean tables metrics)
    done : (outcome ≡ handled) ⊎ (outcome ≡ discarded)
    seen : view tables ≡ replay (named_effects event (event_type_name event.event_type)) (view t)

  malformed-Delivered :
      (event : ItemEvent) (wait : Wait) (again : World F → Outcome × World F) (t : Tables F)
      (m : Metrics)
      → event_type_name event.event_type ≡ none
      → Delivered event t
          (after_attempt stamp wait again (handle_named stamp event none (clean t m)))
  unfolding after_attempt handle_named is_malformed replay
  malformed-Delivered event elapsed again t m e = record {
    outcome = discarded;
    tables = t;
    metrics = m;
    result = refl;
    done = inr refl;
    seen = rw e refl;
  }
  malformed-Delivered event canceled again t m e = record {
    outcome = discarded;
    tables = t;
    metrics = m;
    result = refl;
    done = inr refl;
    seen = rw e refl;
  }

  named-Delivered :
      (event : ItemEvent) (name : String) (wait : Wait) (again : World F → Outcome × World F)
      (t : Tables F) (m : Metrics)
      → event_type_name event.event_type ≡ some name
      → Delivered event t
          (after_attempt stamp wait again (handle_named stamp event (some name) (clean t m)))
  unfolding after_attempt handle_named recorded replay
  named-Delivered event name wait again t m e =
      let ev = record_of event name in
      let stores =
        ingest_event_total stamp ev t (known_type-event_type_name event.event_type name e) in
      record {
        outcome = handled;
        tables = landed (stored stamp ev) t;
        metrics = count_event (not (has_event (stored stamp ev) t.item_events)) ev m;
        result = rw stores refl;
        done = inl refl;
        seen = rw e (view-landed (stored stamp ev) t);
      }

  persist-Delivered :
      (event : ItemEvent) (wait : Wait) (waits : List Wait) (t : Tables F) (m : Metrics)
      → Delivered event t (persist stamp event (wait ∷ waits) (clean t m))
  unfolding persist handle_event
  persist-Delivered event wait waits t m = go (event_type_name event.event_type) refl
    where
      go :
          (o : Option String)
          → event_type_name event.event_type ≡ o
          → Delivered event t (
              after_attempt stamp wait
                (persist stamp event waits)
                (handle_named stamp event o (clean t m)))
      go none e = malformed-Delivered event wait _ t m e
      go (some name) e = named-Delivered event name wait _ t m e

  attempted-Delivered :
      (event : ItemEvent) (waits : List Wait) (t : Tables F) (m : Metrics)
      → is_nil waits ≡ false
      → Delivered event t (persist stamp event waits (clean t m))
  attempted-Delivered event [] t m h = absurd (ground arith)
  attempted-Delivered event (wait ∷ waits) t m h = persist-Delivered event wait waits t m

  after_persist-done :
      (again : World F → CycleResult × World F) (o : Outcome) (w : World F)
      → (o ≡ handled) ⊎ (o ≡ discarded)
      → after_persist stamp again (o, w) ≡ again w
  unfolding after_persist
  after_persist-done again handled w h = refl
  after_persist-done again discarded w h = refl
  after_persist-done again stopped w h = absurd (ground arith)
  after_persist-done again retrying w h = absurd (ground arith)

  -- The stream's loop ends with the stream, after the effects of what it received.
  record Consumed (received : List Received) (end : StreamEnd) (t : Tables F)
      (r : CycleResult × World F) : Type 0 where
    tables : Tables F
    metrics : Metrics
    result : r ≡ (ended true (stream_error end), clean tables metrics)
    seen : view tables ≡ replay (effects_of received) (view t)

  consume-Consumed :
      (received : List Received) (end : StreamEnd) (t : Tables F) (m : Metrics)
      → all_attempted received ≡ true
      → Consumed received end t (consume stamp received end (clean t m))
  unfolding consume
  consume-Consumed [] end t m h = record {
    tables = t;
    metrics = m;
    result = refl;
    seen = unfold replay in refl;
  }
  consume-Consumed (r ∷ rest) end t m h =
      let one = attempted-Delivered r.event r.waits t m (ground arith) in
      let more = consume-Consumed rest end one.tables one.metrics (ground arith) in
      let fs = named_effects r.event (event_type_name r.event.event_type) in
      record {
        tables = more.tables;
        metrics = more.metrics;
        result =
            ap (after_persist stamp (consume stamp rest end)) one.result
            ∙ after_persist-done (consume stamp rest end) one.outcome _ one.done
            ∙ more.result;
        seen =
            more.seen
            ∙ ap (replay (effects_of rest)) one.seen
            ∙ sym (replay-append fs (effects_of rest) (view t));
      }

  note_reconciled :
      (items : List SnapshotItem) (now : ℕ) (t : Tables F) (m : Metrics)
      → (u : Tables F) × (m₁ : Metrics) × (snapshot_reconcile stamp (gives items) now (clean t m)
          ≡ (ok tt, clean u m₁))
        × (view u ≡ replay (listed items (stamp now) ∷ []) (view t))
  unfolding snapshot_reconcile note_reconcile
  note_reconciled items now t m =
      let (r, u, run) = reconcile_snapshot_total stamp items now t in
      let start : Session F = record { tables = t; script = [] } in
      let (upserted, rows) =
        reconcile_snapshot-reconcile_row stamp items now start (record { tables = u; script = [] })
          r run in
      (
        u,
        _,
        ap (λ q. note_reconcile stamp items q (clean t m)) run,
        ap (λ q. view q.1.tables) (sym run)
            ∙ reconciled-view stamp items now start
                (λ id. ap (λ q. lookup id q.1.tables.current_items) run ∙ rows id),
      )

  -- A cycle in which neither the dial, ListItems and WatchItemEvents nor the database fails ends
  -- only with its stream, having been connected, and the view of the tables is then what the
  -- snapshot and after it the received events of a known type, in their order, make of it.
  pub cycle-replay :
      (script : CycleScript) (items : List SnapshotItem) (t : Tables F) (m : Metrics)
      → script.dial ≡ gives tt
      → script.list_items ≡ gives items
      → script.open_stream ≡ gives tt
      → all_attempted script.received ≡ true
      → let (result, w) = cycle stamp script (clean t m) in
        (result ≡ ended true (stream_error script.end))
        × (view w.session.tables
            ≡ replay (listed items (stamp script.now) ∷ effects_of script.received) (view t))
  unfolding cycle after_dial after_reconcile watch disconnected replay
  cycle-replay script items t m d l s h =
      let (u, m₁, run, first) = note_reconciled items script.now t m in
      let stream = consume-Consumed script.received script.end u (set_connected 1 m₁) h in
      rw (d, l, run, s, stream.result)
        (refl, stream.seen ∙ ap (replay (effects_of script.received)) first)
