-- ===== src/Ingest/Event/Handled.antt =====
-- What handleEvent does to the tables and the metrics.
use devops_demo.Base.{ℕ, ◌≡◌, refl, String, Bool, not, Option, none, some, arith}
use devops_demo.Store.Schema.{EventRecord}
use devops_demo.Store.Session.{Result, ok, err, Session}
use devops_demo.Store.Ingest.{has_event, stored}
use devops_demo.Store.Ingest.Effect.{landed, ingest_event-ok}
use devops_demo.Ingest.Event.{
  ItemEvent, World, Metrics, event_type_name, record_of, count_event, recorded, handle_named,
  handle_event,
}

module _ {F : Type 0} (stamp : ℕ → ℕ) (event : ItemEvent) where
  -- The event's type has a name, and the tables are as after storing it.
  abbrev pub IsStored : World F → World F → Type 0
  IsStored w w' =
      (name : String) × (event_type_name event.event_type ≡ some name)
      × (w'.session.tables ≡ landed (stored stamp (record_of event name)) w.session.tables)

  recorded-ok :
      (ev : EventRecord) (m : Metrics) (r : Result Bool × Session F) (u : Unit {0}) (w' : World F)
      → recorded ev m r ≡ (ok u, w')
      → (b : Bool) × (r ≡ (ok b, w'.session)) × (w'.metrics ≡ count_event b ev m)
  unfolding recorded
  recorded-ok ev m (ok b, s) u w' h = (b, ground arith, ground arith)
  recorded-ok ev m (err e, s) u w' h = absurd (ground arith)

  -- When handleEvent returns no error, the event's type has a name, the event is stored, and it is
  -- counted as ingested if it was new and as deduplicated if it was not.
  pub handle_event-ok :
      (w w' : World F) (u : Unit {0})
      → handle_event stamp event w ≡ (ok u, w')
      → (name : String) × (event_type_name event.event_type ≡ some name)
        × (w'.session.tables ≡ landed (stored stamp (record_of event name)) w.session.tables)
        × (w'.metrics
            ≡ count_event
                (not (has_event (stored stamp (record_of event name)) w.session.tables.item_events))
                (record_of event name)
                w.metrics)
  unfolding handle_event
  handle_event-ok w w' u h = go (event_type_name event.event_type) refl h
    where
      go :
          (o : Option String)
          → event_type_name event.event_type ≡ o
          → handle_named stamp event o w ≡ (ok u, w')
          → (name : String) × (event_type_name event.event_type ≡ some name)
            × (w'.session.tables ≡ landed (stored stamp (record_of event name)) w.session.tables)
            × (w'.metrics
                ≡ count_event
                    (not (
                      has_event (stored stamp (record_of event name)) w.session.tables.item_events))
                    (record_of event name)
                    w.metrics)
      go none e k = absurd (ground arith)
      go (some name) e k =
          let ev = record_of event name in
          let (b, run, counted) = recorded-ok ev w.metrics _ u w' k in
          let (known, new, after) = ingest_event-ok stamp ev w.session w'.session b run in
          (name, e, after, ground arith)
