-- ===== src/Service/Serve/Shutdown.antt =====
-- The order in which serve stops.
use devops_demo.Base.{
  ℕ, ◌≡◌, ◌≢◌, ◌⊎◌, refl, Bool, true, false, Option, none, some, List, [], ◌∷◌, arith,
}
use devops_demo.Service.Serve.{
  Goroutine, not_started, running, shut, signal_received, server_failed, Point, connecting,
  migrating, selecting, awaiting_ingest, awaiting_retention, shutting_down, unwinding, exited, Pool,
  unopened, opened, closed, Service, Event, initial_service, has_exited, on_connects, on_connected,
  on_migrates, is_ready, on_selects, on_ingest_returns, on_retention_returns, on_ingest_done,
  on_retention_done, on_shutdown, on_unwinds, close_pool, on_request_ends, react, step, and_then,
  serve,
}

-- Whether a goroutine may still use the pool.
abbrev pub is_running : Goroutine → Bool
is_running running = true
is_running _ = false

-- What holds at each point of main's goroutine.
abbrev pub AtPoint : Point → Service → Type 0
AtPoint connecting s = (s.pool ≡ unopened) × (s.ingest ≡ not_started) × (s.retention ≡ not_started)
AtPoint migrating s = (s.pool ≡ opened) × (s.ingest ≡ not_started) × (s.retention ≡ not_started)
AtPoint selecting s = s.pool ≡ opened
AtPoint (awaiting_ingest signal_received) s = (s.pool ≡ opened) × (s.signaled ≡ true)
AtPoint (awaiting_ingest server_failed) s = s.pool ≡ opened
AtPoint (awaiting_retention signal_received) s =
    (s.pool ≡ opened) × (s.signaled ≡ true) × (is_running s.ingest ≡ false)
AtPoint (awaiting_retention server_failed) s = (s.pool ≡ opened) × (is_running s.ingest ≡ false)
AtPoint shutting_down s =
    (s.pool ≡ opened)
    × (s.signaled ≡ true)
    × (is_running s.ingest ≡ false)
    × (is_running s.retention ≡ false)
AtPoint (unwinding code) s =
    (is_running s.ingest ≡ false)
    × (is_running s.retention ≡ false)
    × (((code ≡ 0) × (s.signaled ≡ true) × (s.in_flight ≡ 0) × (s.listener ≡ shut)) ⊎ (code ≡ 1))
AtPoint (exited code) s =
    (is_running s.ingest ≡ false)
    × (is_running s.retention ≡ false)
    × (s.pool ≢ opened)
    × (((code ≡ 0) × (s.signaled ≡ true) × (s.in_flight ≡ 0) × (s.listener ≡ shut)) ⊎ (code ≡ 1))

abbrev pub Holds : Option Service → Type 0
Holds none = Unit
Holds (some s) = AtPoint s.point s

close_pool-closes : (p : Pool) → close_pool p ≢ opened
unfolding close_pool
close_pool-closes unopened h = absurd (ground arith)
close_pool-closes opened h = absurd (ground arith)
close_pool-closes closed h = absurd (ground arith)

react-Holds :
    (e : Event) (s : Service) → has_exited s.point ≡ false → AtPoint s.point s → Holds (react e s)
unfolding react on_connects on_connected on_migrates on_selects on_ingest_returns
    on_retention_returns on_ingest_done on_retention_done on_shutdown on_unwinds on_request_ends
    has_exited is_ready
react-Holds e s x h = ground (arith, close_pool-closes s.pool)

pub step-Holds : (e : Event) (s : Service) → AtPoint s.point s → Holds (step e s)
unfolding step
step-Holds e s h = ground (arith, react-Holds e s)

serve-AtPoint :
    (events : List Event) (s s' : Service)
    → AtPoint s.point s
    → serve events s ≡ some s'
    → AtPoint s'.point s'
unfolding serve
serve-AtPoint [] s s' h r = ground arith
serve-AtPoint (e ∷ events) s s' h r =
    go (step e s) (step-Holds e s h) (λ t p q. serve-AtPoint events t s' p q) r
  where
    go :
        (o : Option Service)
        → Holds o
        → ((t : Service) → AtPoint t.point t → serve events t ≡ some s' → AtPoint s'.point s')
        → and_then (serve events) o ≡ some s'
        → AtPoint s'.point s'
    go none k next q = absurd (unfold and_then in ground arith)
    go (some t) k next q = next t k (unfold and_then in q)

-- What serve guards its goroutines by.
pub record IsOrderly (s : Service) : Type 0 where
  pub ingest_usable : is_running s.ingest ≡ true → s.pool ≡ opened
  pub retention_usable : is_running s.retention ≡ true → s.pool ≡ opened
  pub stopped_first :
      has_exited s.point ≡ true
      → (is_running s.ingest ≡ false) × (is_running s.retention ≡ false) × (s.pool ≢ opened)

AtPoint-IsOrderly : (p : Point) (s : Service) → s.point ≡ p → AtPoint p s → IsOrderly s
unfolding has_exited
AtPoint-IsOrderly p s e h = record {
  ingest_usable = ground arith;
  retention_usable = ground arith;
  stopped_first = ground arith;
}

-- In whatever order the goroutines, the requests, a failure of the listener and the signals come,
-- and however Connect, Migrate and Shutdown end: while the ingest client or the retention runner
-- runs, the pool is open, and when serve has returned, both have stopped and the pool is not open.
pub serve-IsOrderly :
    (events : List Event) (s : Service) → serve events initial_service ≡ some s → IsOrderly s
serve-IsOrderly events s r =
    AtPoint-IsOrderly s.point s refl (serve-AtPoint events initial_service s (refl, refl, refl) r)

-- serve exits with 0 or 1, and with 0 only after SIGINT or SIGTERM, once the listener is shut and the
-- handler of every request has returned.
pub serve_exit_code :
    (events : List Event) (s : Service) (code : ℕ)
    → serve events initial_service ≡ some s
    → s.point ≡ exited code
    → ((code ≡ 0) × (s.signaled ≡ true) × (s.in_flight ≡ 0) × (s.listener ≡ shut)) ⊎ (code ≡ 1)
serve_exit_code events s code r e =
    ground (arith, serve-AtPoint events initial_service s (refl, refl, refl) r)
