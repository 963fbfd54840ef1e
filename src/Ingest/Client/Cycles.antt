-- ===== src/Ingest/Client/Cycles.antt =====
-- The gauge analytics_stream_connected over one cycle.
use devops_demo.Base.{
  ℕ, ◌≡◌, refl, ◌∙◌, String, Bool, true, false, Option, none, some, List, [], ◌∷◌, arith,
  if◌then◌else◌,
}
use devops_demo.Store.Schema.{EventRecord}
use devops_demo.Store.Session.{Result, ok, err, Session}
use devops_demo.Store.Ingest.{ingest_event}
use devops_demo.Ingest.Event.{
  ItemEvent, World, Metrics, event_type_name, record_of, count_event, recorded, handle_named,
  handle_event,
}
use devops_demo.Ingest.Persist.{
  Wait, elapsed, canceled, Outcome, handled, discarded, stopped, retrying, after_attempt, persist,
}
use devops_demo.Ingest.Client.{
  Answer, gives, fails, Received, StreamEnd, CycleScript, CycleResult, ended, still_running,
  consume, disconnected, not_connected, watch, after_reconcile, after_dial, snapshot_reconcile,
  cycle, is_running, after_persist, with_metrics, set_connected,
}

module _ {F : Type 0} (stamp : ℕ → ℕ) where
  gauge : World F → ℕ
  gauge w = w.metrics.stream_connected

  recorded-gauge :
      (ev : EventRecord) (m : Metrics) (r : Result Bool × Session F)
      → (recorded ev m r).1.metrics.stream_connected ≡ m.stream_connected
  unfolding recorded count_event
  recorded-gauge ev m (ok true, s) = refl
  recorded-gauge ev m (ok false, s) = refl
  recorded-gauge ev m (err e, s) = refl

  handle_named-gauge :
      (event : ItemEvent) (o : Option String) (w : World F)
      → (handle_named stamp event o w).1.metrics.stream_connected ≡ w.metrics.stream_connected
  unfolding handle_named
  handle_named-gauge event none w = refl
  handle_named-gauge event (some name) w =
      recorded-gauge (record_of event name) w.metrics
        (ingest_event stamp (record_of event name) w.session)

  after_attempt-gauge :
      (wait : Wait) (again : World F → Outcome × World F) (r : Result (Unit {0}) × World F)
      → ((w : World F) → (again w).1.metrics.stream_connected ≡ w.metrics.stream_connected)
      → (after_attempt stamp wait again r).1.metrics.stream_connected ≡ r.1.metrics.stream_connected
  unfolding after_attempt
  after_attempt-gauge wait again (ok u, w) keeps = refl
  after_attempt-gauge elapsed again (err e, w) keeps = ground (arith, keeps w)
  after_attempt-gauge canceled again (err e, w) keeps = ground arith

  persist-gauge :
      (event : ItemEvent) (waits : List Wait) (w : World F)
      → (persist stamp event waits w).1.metrics.stream_connected ≡ w.metrics.stream_connected
  unfolding persist handle_event
  persist-gauge event [] w = refl
  persist-gauge event (wait ∷ waits) w =
      after_attempt-gauge wait (persist stamp event waits) (handle_event stamp event w)
        (persist-gauge event waits)
      ∙ handle_named-gauge event (event_type_name event.event_type) w

  after_persist-gauge :
      (again : World F → CycleResult × World F) (r : Outcome × World F)
      → ((w : World F) → (again w).1.metrics.stream_connected ≡ w.metrics.stream_connected)
      → (after_persist stamp again r).1.metrics.stream_connected ≡ r.1.metrics.stream_connected
  unfolding after_persist
  after_persist-gauge again (handled, w) keeps = keeps w
  after_persist-gauge again (discarded, w) keeps = keeps w
  after_persist-gauge again (stopped, w) keeps = refl
  after_persist-gauge again (retrying, w) keeps = refl

  -- The gauge while consume runs is 1.
  consume-gauge :
      (received : List Received) (end : StreamEnd) (w : World F)
      → (consume stamp received end w).1.metrics.stream_connected ≡ w.metrics.stream_connected
  unfolding consume
  consume-gauge [] end w = refl
  consume-gauge (r ∷ rest) end w =
      after_persist-gauge (consume stamp rest end) (persist stamp r.event r.waits w)
        (consume-gauge rest end)
      ∙ persist-gauge r.event r.waits w

  -- What is claimed of the gauge: 1 exactly while the cycle has not returned.
  abbrev Shown : CycleResult × World F → Type 0
  Shown (r, w) = w.metrics.stream_connected ≡ (if is_running r then 1 else 0)

  disconnected-gauge :
      (r : CycleResult × World F) → r.1.metrics.stream_connected ≡ 1 → Shown (disconnected stamp r)
  unfolding disconnected is_running
  disconnected-gauge (ended connected e, w) h = refl
  disconnected-gauge (still_running, w) h = h

  watch-gauge :
      (a : Answer (Unit {0})) (script : CycleScript) (w : World F) → Shown (watch stamp a script w)
  unfolding watch not_connected is_running
  watch-gauge (fails c) script w = refl
  watch-gauge (gives u) script w =
      disconnected-gauge
        (consume stamp script.received script.end (with_metrics stamp (set_connected 1) w))
        (consume-gauge script.received script.end (with_metrics stamp (set_connected 1) w))

  after_reconcile-gauge :
      (script : CycleScript) (r : Result (Unit {0}) × World F)
      → Shown (after_reconcile stamp script r)
  unfolding after_reconcile not_connected is_running
  after_reconcile-gauge script (ok u, w) = watch-gauge script.open_stream script w
  after_reconcile-gauge script (err e, w) = refl

  after_dial-gauge :
      (a : Answer (Unit {0})) (script : CycleScript) (w : World F)
      → Shown (after_dial stamp a script w)
  unfolding after_dial not_connected is_running
  after_dial-gauge (fails c) script w = refl
  after_dial-gauge (gives u) script w =
      after_reconcile-gauge script (snapshot_reconcile stamp script.list_items script.now w)

  -- Whatever the backend, the database and the timers do, the gauge stream_connected is 0 once a
  -- cycle has returned, on each of its return paths, and 1 when it is left in the loop that retries
  -- an event.
  pub cycle-stream_connected :
      (script : CycleScript) (w : World F)
      → (cycle stamp script w).1.metrics.stream_connected
        ≡ (if is_running (cycle stamp script w).0 then 1 else 0)
  unfolding cycle
  cycle-stream_connected script w = after_dial-gauge script.dial script w
