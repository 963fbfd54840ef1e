-- ===== src/Ingest/Keeps.antt =====
-- What every IngestEvent and every ReconcileSnapshot keeps, a whole run of the client keeps.
use devops_demo.Base.{
  ℕ, if_keeps, Bool-cases, inl, inr, ltb, String, Bool, true, false, Option, none, some, List, [],
  ◌∷◌,
}
use devops_demo.Store.Schema.{EventRecord, SnapshotItem}
use devops_demo.Store.Session.{Result, ok, err, Session}
use devops_demo.Store.Ingest.{ingest_event}
use devops_demo.Store.Reconcile.{Reconciled, reconcile_snapshot}
use devops_demo.Ingest.Event.{
  ItemEvent, Metrics, World, record_of, recorded, handle_named, handle_event, event_type_name,
}
use devops_demo.Ingest.Persist.{
  Wait, elapsed, canceled, Outcome, handled, discarded, stopped, retrying, is_malformed,
  after_attempt, persist,
}
use devops_demo.Ingest.Client.{
  Config, Answer, gives, fails, Received, StreamEnd, CycleScript, CycleResult, ended, still_running,
  note_reconcile, snapshot_reconcile, after_persist, consume, disconnected, not_connected, watch,
  after_reconcile, after_dial, cycle,
}
use devops_demo.Ingest.Reconnect.{
  Pass, Loop, Status, returned, looping, in_cycle, back_off, after_cycle, try_cycle, pass_once,
  go_on, run_client,
}

module _ {F : Type 0} (stamp : ℕ → ℕ) (P : Session F → Type 0)
    (events : (e : EventRecord) (s : Session F) → P s → P (ingest_event stamp e s).1)
    (snapshots : (items : List SnapshotItem) (now : ℕ) (s : Session F)
      → P s
      → P (reconcile_snapshot stamp items now s).1) where
  recorded-keeps :
      (ev : EventRecord) (m : Metrics) (r : Result Bool × Session F)
      → P r.1
      → P (recorded ev m r).1.session
  unfolding recorded
  recorded-keeps ev m (ok inserted, s) p = p
  recorded-keeps ev m (err e, s) p = p

  handle_named-keeps :
      (event : ItemEvent) (o : Option String) (w : World F)
      → P w.session
      → P (handle_named stamp event o w).1.session
  unfolding handle_named
  handle_named-keeps event none w p = p
  handle_named-keeps event (some name) w p =
      recorded-keeps (record_of event name) w.metrics _ (events (record_of event name) w.session p)

  after_attempt-keeps :
      (wait : Wait) (again : World F → Outcome × World F) (r : Result (Unit {0}) × World F)
      → ((w : World F) → P w.session → P (again w).1.session)
      → P r.1.session
      → P (after_attempt stamp wait again r).1.session
  unfolding after_attempt
  after_attempt-keeps wait again (ok u, w) next p = p
  after_attempt-keeps elapsed again (err e, w) next p = elim (Bool-cases (is_malformed e)) [
    | inl malformed ↦ rw (after_attempt, malformed) p
    | inr transient ↦ rw (after_attempt, transient) (next w p)
  ]
  after_attempt-keeps canceled again (err e, w) next p = elim (Bool-cases (is_malformed e)) [
    | inl malformed ↦ rw (after_attempt, malformed) p
    | inr transient ↦ rw (after_attempt, transient) p
  ]

  persist-keeps :
      (event : ItemEvent) (waits : List Wait) (w : World F)
      → P w.session
      → P (persist stamp event waits w).1.session
  unfolding persist handle_event
  persist-keeps event [] w p = p
  persist-keeps event (wait ∷ waits) w p =
      after_attempt-keeps wait (persist stamp event waits) (handle_event stamp event w)
        (persist-keeps event waits)
        (handle_named-keeps event (event_type_name event.event_type) w p)

  note_reconcile-keeps :
      (items : List SnapshotItem) (r : Result Reconciled × Session F) (w : World F)
      → P r.1
      → P (note_reconcile stamp items r w).1.session
  unfolding note_reconcile
  note_reconcile-keeps items (ok r, s) w p = p
  note_reconcile-keeps items (err e, s) w p = p

  snapshot_reconcile-keeps :
      (answer : Answer (List SnapshotItem)) (now : ℕ) (w : World F)
      → P w.session
      → P (snapshot_reconcile stamp answer now w).1.session
  unfolding snapshot_reconcile
  snapshot_reconcile-keeps (fails c) now w p = p
  snapshot_reconcile-keeps (gives items) now w p =
      note_reconcile-keeps items _ w (snapshots items now w.session p)

  after_persist-keeps :
      (again : World F → CycleResult × World F) (r : Outcome × World F)
      → ((w : World F) → P w.session → P (again w).1.session)
      → P r.1.session
      → P (after_persist stamp again r).1.session
  unfolding after_persist
  after_persist-keeps again (handled, w) next p = next w p
  after_persist-keeps again (discarded, w) next p = next w p
  after_persist-keeps again (stopped, w) next p = p
  after_persist-keeps again (retrying, w) next p = p

  consume-keeps :
      (received : List Received) (end : StreamEnd) (w : World F)
      → P w.session
      → P (consume stamp received end w).1.session
  unfolding consume
  consume-keeps [] end w p = p
  consume-keeps (r ∷ rest) end w p =
      after_persist-keeps (consume stamp rest end) _ (consume-keeps rest end)
        (persist-keeps r.event r.waits w p)

  disconnected-keeps :
      (r : CycleResult × World F) → P r.1.session → P (disconnected stamp r).1.session
  unfolding disconnected
  disconnected-keeps (ended connected e, w) p = p
  disconnected-keeps (still_running, w) p = p

  watch-keeps :
      (answer : Answer (Unit {0})) (script : CycleScript) (w : World F)
      → P w.session
      → P (watch stamp answer script w).1.session
  unfolding watch not_connected
  watch-keeps (fails c) script w p = p
  watch-keeps (gives u) script w p =
      disconnected-keeps _ (consume-keeps script.received script.end _ p)

  after_reconcile-keeps :
      (script : CycleScript) (r : Result (Unit {0}) × World F)
      → P r.1.session
      → P (after_reconcile stamp script r).1.session
  unfolding after_reconcile not_connected
  after_reconcile-keeps script (ok u, w) p = watch-keeps script.open_stream script w p
  after_reconcile-keeps script (err e, w) p = p

  after_dial-keeps :
      (dial : Answer (Unit {0})) (script : CycleScript) (w : World F)
      → P w.session
      → P (after_dial stamp dial script w).1.session
  unfolding after_dial not_connected
  after_dial-keeps (fails c) script w p = p
  after_dial-keeps (gives u) script w p =
      after_reconcile-keeps script _ (snapshot_reconcile-keeps script.list_items script.now w p)

  pub cycle-keeps :
      (script : CycleScript) (w : World F) → P w.session → P (cycle stamp script w).1.session
  unfolding cycle
  cycle-keeps script w p = after_dial-keeps script.dial script w p

  module _ (cfg : Config) where
    after_cycle-keeps :
        (stop : Bool) (l : Loop F) (r : CycleResult × World F)
        → P r.1.session
        → P (after_cycle stamp cfg stop l r).1.world.session
    unfolding after_cycle
    after_cycle-keeps true l (ended connected e, w) p = p
    after_cycle-keeps false l (ended connected e, w) p = p
    after_cycle-keeps true l (still_running, w) p = p
    after_cycle-keeps false l (still_running, w) p = p

    back_off-keeps :
        (pass : Pass) (l : Loop F) → P l.world.session → P (back_off stamp cfg pass l).world.session
    unfolding back_off
    back_off-keeps pass l p =
        if_keeps (λ (r : Loop F). P r.world.session) (λ r. r) (ltb 0 l.attempt) _ _ p p

    try_cycle-keeps :
        (pass : Pass) (l : Loop F)
        → P l.world.session
        → P (try_cycle stamp cfg pass l).1.world.session
    unfolding try_cycle
    try_cycle-keeps pass l p =
        let waited = back_off-keeps pass l p in
        if_keeps (λ (r : Status × Loop F). P r.1.world.session) (λ r. r) (ltb 0 l.attempt) _ _
          (if_keeps (λ (r : Status × Loop F). P r.1.world.session) (λ r. r) pass.canceled_waiting _
            _ waited (after_cycle-keeps pass.canceled_after _ _ (cycle-keeps pass.script _ waited)))
          (after_cycle-keeps pass.canceled_after _ _ (cycle-keeps pass.script _ p))

    pass_once-keeps :
        (pass : Pass) (l : Loop F)
        → P l.world.session
        → P (pass_once stamp cfg pass l).1.world.session
    unfolding pass_once
    pass_once-keeps pass l p =
        if_keeps (λ (r : Status × Loop F). P r.1.world.session) (λ r. r) pass.canceled_before _ _ p
          (try_cycle-keeps pass l p)

    go_on-keeps :
        (next : Loop F → Status × Loop F) (r : Status × Loop F)
        → ((l : Loop F) → P l.world.session → P (next l).1.world.session)
        → P r.1.world.session
        → P (go_on stamp cfg next r).1.world.session
    unfolding go_on
    go_on-keeps next (looping, l) after p = after l p
    go_on-keeps next (returned, l) after p = p
    go_on-keeps next (in_cycle, l) after p = p

    pub run_client-keeps :
        (passes : List Pass) (l : Loop F)
        → P l.world.session
        → P (run_client stamp cfg passes l).1.world.session
    unfolding run_client
    run_client-keeps [] l p = p
    run_client-keeps (pass ∷ passes) l p =
        go_on-keeps (run_client stamp cfg passes) _ (run_client-keeps passes)
          (pass_once-keeps pass l p)
