-- ===== src/Service/Serve/Progress.antt =====
-- serve comes to an end.
use devops_demo.Base.{
  ℕ, ◌+◌, ◌≤◌, ◌≡◌, ◌≢◌, ◌⊎◌, refl, Bool, true, false, if◌then◌else◌, Option, none, some, List, [],
  ◌∷◌, arith,
}
use devops_demo.Store.Connect.{reached}
use devops_demo.Service.Serve.{
  Goroutine, not_started, running, signal_received, server_failed, Point, connecting, migrating,
  selecting, awaiting_ingest, awaiting_retention, shutting_down, unwinding, exited, Service, Event,
  initial_service, has_exited, on_connects, on_connected, on_migrates, is_ready, is_failed,
  on_selects, on_ingest_returns, on_retention_returns, on_ingest_done, on_retention_done,
  on_shutdown, on_unwinds, on_request_ends, react, step, and_then, serve, signal, listener_fails,
  request_begins, request_ends, connects, migrates, selects, ingest_returns, retention_returns,
  ingest_done, retention_done, shutdown_returns, unwinds,
}

-- Whether an event is of serve and its two goroutines, and not of the environment.
abbrev pub is_own : Event → Bool
is_own signal = false
is_own listener_fails = false
is_own request_begins = false
is_own request_ends = false
is_own _ = true

abbrev pub count_own : List Event → ℕ
count_own [] = 0
count_own (e ∷ events) = (if is_own e then 1 else 0) + count_own events

-- How many own events may still come.
abbrev point_weight : Point → ℕ
point_weight connecting = 9
point_weight migrating = 8
point_weight selecting = 5
point_weight (awaiting_ingest r) = 4
point_weight (awaiting_retention r) = 3
point_weight shutting_down = 2
point_weight (unwinding code) = 1
point_weight (exited code) = 0

abbrev goroutine_weight : Goroutine → ℕ
goroutine_weight running = 1
goroutine_weight _ = 0

abbrev weight : Service → ℕ
weight s = point_weight s.point + (goroutine_weight s.ingest + goroutine_weight s.retention)

-- main's goroutine starts the other two, and waits for them before it shuts down.
abbrev Underway : Point → Service → Type 0
Underway connecting s = (s.ingest ≡ not_started) × (s.retention ≡ not_started)
Underway migrating s = (s.ingest ≡ not_started) × (s.retention ≡ not_started)
Underway selecting s = (s.ingest ≢ not_started) × (s.retention ≢ not_started)
Underway (awaiting_ingest r) s =
    (s.ingest ≢ not_started)
    × (s.retention ≢ not_started)
    × (s.ingest_canceled ≡ true)
    × (s.retention_canceled ≡ true)
Underway (awaiting_retention r) s = (s.retention ≢ not_started) × (s.retention_canceled ≡ true)
Underway _ s = Unit

-- The next state is within the weight.
abbrev Lighter : Event → Service → Option Service → Type 0
Lighter e s none = Unit
Lighter e s (some t) = Underway t.point t × ((if is_own e then 1 else 0) + weight t ≤ weight s)

react-Lighter : (e : Event) (s : Service) → Underway s.point s → Lighter e s (react e s)
unfolding react on_connects on_connected on_migrates on_selects on_ingest_returns
    on_retention_returns on_ingest_done on_retention_done on_shutdown on_unwinds on_request_ends
    is_ready
react-Lighter e s h = ground arith

step-Lighter : (e : Event) (s : Service) → Underway s.point s → Lighter e s (step e s)
unfolding step
step-Lighter e s h = ground (arith, react-Lighter e s)

serve-Lighter :
    (events : List Event) (s s' : Service)
    → Underway s.point s
    → serve events s ≡ some s'
    → Underway s'.point s' × (count_own events + weight s' ≤ weight s)
unfolding serve
serve-Lighter [] s s' h r = (ground arith, ground arith)
serve-Lighter (e ∷ events) s s' h r =
    go (step e s) (step-Lighter e s h) (λ t p q. serve-Lighter events t s' p q) r
  where
    go :
        (o : Option Service)
        → Lighter e s o
        → ((t : Service)
            → Underway t.point t
            → serve events t ≡ some s'
            → Underway s'.point s' × (count_own events + weight s' ≤ weight t))
        → and_then (serve events) o ≡ some s'
        → Underway s'.point s' × (count_own (e ∷ events) + weight s' ≤ weight s)
    go none k next q = absurd (unfold and_then in ground arith)
    go (some t) k next q =
        let (p, w) = next t k.0 (unfold and_then in q) in (p, omega (arith, k.1, w))

-- An event of the goroutine if it still runs, or else what main's goroutine does next.
abbrev or_return : Goroutine → Event → Event → Event
or_return running returns done = returns
or_return _ returns done = done

abbrev select_next : Bool → Event
select_next true = selects signal_received
select_next false = selects server_failed

-- An event that can happen next, unless the select waits.
abbrev next_event : Point → Service → Event
next_event connecting s = connects (λ k. record { dial = reached; canceled = false })
next_event migrating s = migrates true
next_event selecting s = select_next s.signaled
next_event (awaiting_ingest r) s = or_return s.ingest ingest_returns ingest_done
next_event (awaiting_retention r) s = or_return s.retention retention_returns retention_done
next_event shutting_down s = shutdown_returns false
next_event _ s = unwinds

-- The select waits for a signal or for the HTTP server.
pub record Waits (s : Service) : Type 0 where
  pub at_select : s.point ≡ selecting
  pub no_signal : s.signaled ≡ false
  pub server_up : is_failed s.listener ≡ false

next_event-own : (s : Service) → is_own (next_event s.point s) ≡ true
next_event-own s = ground arith

next_event-happens :
    (s : Service)
    → Underway s.point s
    → step (next_event s.point s) s ≡ none
    → (has_exited s.point ≡ true) ⊎ Waits s
unfolding step has_exited react on_connects on_migrates on_selects on_ingest_returns
    on_retention_returns on_ingest_done on_retention_done on_shutdown on_unwinds is_ready
next_event-happens s h n = ground arith

-- serve comes to an end: in any run from its beginning at most nine events are its own (the returns of
-- Connect, Migrate, the select, the two goroutines, the two receives, Shutdown and the deferred
-- calls), and whenever none of these can happen, serve has returned, or its select waits while
-- there was no signal and the HTTP server has not failed.
pub serve_ends :
    (events : List Event) (s : Service)
    → serve events initial_service ≡ some s
    → (count_own events ≤ 9)
      × (((e : Event) → is_own e ≡ true → step e s ≡ none) → (has_exited s.point ≡ true) ⊎ Waits s)
serve_ends events s r =
    let (p, w) = serve-Lighter events initial_service s (refl, refl) r in
    (
      omega (arith, w),
      λ stuck. next_event-happens s p (stuck (next_event s.point s) (next_event-own s)),
    )
