-- ===== src/Ingest/Client.antt =====
-- Client.snapshotReconcile, Client.cycle and Client.Run of internal/ingest/client.go. What the
-- backend, the timers and the context do is a script of answers: gRPC is not part of the repository.
pub mod Cycles
pub mod Delivered
use devops_demo.Base.{
  ℕ, zero, suc, ◌+◌, String, Bool, true, false, Option, none, some, List, [], ◌∷◌, ℤ, pos, length,
  map, if◌then◌else◌,
}
use devops_demo.Store.Schema.{SnapshotItem}
use devops_demo.Store.Session.{
  Result, ok, err, Error, Cause, Fault, raised, wrap, database, Session, canceled,
}
use devops_demo.Store.Reconcile.{Reconciled, reconcile_snapshot}
use devops_demo.Ingest.Event.{ItemEvent, World, Metrics}
use devops_demo.Ingest.Persist.{Wait, Outcome, handled, discarded, stopped, retrying, persist}
use devops_demo.Ingest.Backoff.{backoff_duration}

pub record Config : Type 0 where
  pub backend_addr : String
  pub backoff_base : ℤ
  pub backoff_max : ℤ

-- What a gRPC call or a Recv gives.
pub data Answer {ℓ} (A : Type ℓ) : Type ℓ where
  gives : A → Answer A
  fails : Fault → Answer A

-- One Recv that gives an event, and how the waits of its persist loop end.
pub record Received : Type 0 where
  pub event : ItemEvent
  pub waits : List Wait

-- How the stream ends, when it does: io.EOF or another error.
pub data StreamEnd : Type 0 where
  eof : Fault → StreamEnd
  broken : Fault → StreamEnd

-- What the environment does during one cycle.
pub record CycleScript : Type 0 where
  pub dial : Answer (Unit {0})
  pub list_items : Answer (List SnapshotItem)
  pub now : ℕ
  pub open_stream : Answer (Unit {0})
  pub received : List Received
  pub end : StreamEnd

-- The results (connected, err) of cycle. `still_running` is a persist loop that has not ended.
pub data CycleResult : Type 0 where
  ended : Bool → Error → CycleResult
  still_running : CycleResult

-- Whether cycle has not returned.
unfoldable pub is_running : CycleResult → Bool
is_running (ended connected e) = false
is_running still_running = true

abbrev pub set_connected : ℕ → Metrics → Metrics
set_connected n m = record m { stream_connected = n }

unfoldable pub stream_error : StreamEnd → Error
stream_error (eof c) = wrap "stream closed by server" (raised (database c))
stream_error (broken c) = wrap "stream recv" (raised (database c))

module _ {F : Type 0} (stamp : ℕ → ℕ) where
  abbrev pub with_metrics : (Metrics → Metrics) → World F → World F
  with_metrics f w = record w { metrics = f w.metrics }

  -- The counters after a reconcile that worked.
  unfoldable pub note_reconcile :
      List SnapshotItem → Result Reconciled × Session F → World F → Result (Unit {0}) × World F
  note_reconcile items (ok r, s) w = (
    ok tt,
    record {
      session = s;
      metrics = record w.metrics {
        snapshot_reconciles = w.metrics.snapshot_reconciles + 1;
        snapshot_items = length items;
      };
    },
  )
  note_reconcile items (err e, s) w = (err (wrap "reconcile" e), record w { session = s })

  unfoldable pub snapshot_reconcile :
      Answer (List SnapshotItem) → ℕ → World F → Result (Unit {0}) × World F
  unfolding note_reconcile
  snapshot_reconcile (fails c) now w = (err (wrap "ListItems" (raised (database c))), w)
  snapshot_reconcile (gives items) now w =
      note_reconcile items (reconcile_snapshot stamp items now w.session) w

  -- What follows the inner loop; `stopped` returns ctx.Err(), and `again` goes on with the next Recv.
  unfoldable pub after_persist :
      (World F → CycleResult × World F) → Outcome × World F → CycleResult × World F
  after_persist again (handled, w) = again w
  after_persist again (discarded, w) = again w
  after_persist again (stopped, w) = (ended true (raised (database canceled)), w)
  after_persist again (retrying, w) = (still_running, w)

  -- The outer for loop of cycle.
  unfoldable pub consume : List Received → StreamEnd → World F → CycleResult × World F
  unfolding stream_error after_persist
  consume [] end w = (ended true (stream_error end), w)
  consume (r ∷ rest) end w = after_persist (consume rest end) (persist stamp r.event r.waits w)

  -- The deferred streamConnected.Set(0).
  unfoldable pub disconnected : CycleResult × World F → CycleResult × World F
  disconnected (ended connected e, w) = (ended connected e, with_metrics (set_connected 0) w)
  disconnected (still_running, w) = (still_running, w)

  -- A return before the stream is open.
  unfoldable pub not_connected : String → Error → World F → CycleResult × World F
  not_connected context e w = (ended false (wrap context e), with_metrics (set_connected 0) w)

  unfoldable pub watch : Answer (Unit {0}) → CycleScript → World F → CycleResult × World F
  unfolding disconnected not_connected consume
  watch (fails c) script w = not_connected "open watch stream" (raised (database c)) w
  watch (gives u) script w =
      disconnected (consume script.received script.end (with_metrics (set_connected 1) w))

  unfoldable pub after_reconcile : CycleScript → Result (Unit {0}) × World F → CycleResult × World F
  unfolding watch not_connected
  after_reconcile script (ok u, w) = watch script.open_stream script w
  after_reconcile script (err e, w) = not_connected "snapshot reconcile" e w

  unfoldable pub after_dial : Answer (Unit {0}) → CycleScript → World F → CycleResult × World F
  unfolding after_reconcile not_connected snapshot_reconcile
  after_dial (fails c) script w = not_connected "dial" (raised (database c)) w
  after_dial (gives u) script w =
      after_reconcile script (snapshot_reconcile script.list_items script.now w)

  -- The error of a dial leaves out the address.
  unfoldable pub cycle : CycleScript → World F → CycleResult × World F
  unfolding after_dial
  cycle script w = after_dial script.dial script w
