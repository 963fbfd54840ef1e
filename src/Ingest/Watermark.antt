-- ===== src/Ingest/Watermark.antt =====
-- internal/ingest/metrics.go: advanceLastEventTime, the compare-and-swap loop that moves the
-- watermark, for any number of goroutines. Unix seconds are integers.
pub mod Advance
pub mod Races
use devops_demo.Base.{
  ℕ, zero, suc, List, [], ◌∷◌, Bool, ◌≡◌, ◌≢◌, ℤ, leb_ℤ, int_eq, nat_eq, if◌then◌else◌,
}

-- lastEventTimeUnix and the gauge lastEventTimeSeconds.
pub record Watermark : Type 0 where
  pub last_event_time_unix : ℤ
  pub last_event_time_seconds : ℤ

-- Where a goroutine stands in advanceLastEventTime: before Load, before the CompareAndSwap with the
-- value that it loaded, before gauge.Set, or returned.
pub data Place : Type 0 where
  loading : Place
  swapping : ℤ → Place
  setting : Place
  returned : Place

-- One goroutine's next operation, with its argument.
unfoldable pub advance_step : ℤ → Place → Watermark → Place × Watermark
advance_step next loading w =
    (if leb_ℤ next w.last_event_time_unix then returned else swapping w.last_event_time_unix, w)
advance_step next (swapping current) w =
    if int_eq w.last_event_time_unix current
    then (setting, record w { last_event_time_unix = next })
    else (loading, w)
advance_step next setting w = (returned, record w { last_event_time_seconds = next })
advance_step next returned w = (returned, w)

-- The call without interference: three operations suffice.
unfoldable pub advance_last_event_time : ℤ → Watermark → Watermark
unfolding advance_step
advance_last_event_time next w =
    let (p₁, w₁) = advance_step next loading w in
    let (p₂, w₂) = advance_step next p₁ w₁ in (advance_step next p₂ w₂).1

-- The goroutines: the argument and the place of each.
pub record Machine : Type 0 where
  pub watermark : Watermark
  pub next : ℕ → ℤ
  pub place : ℕ → Place

abbrev pub move : (ℕ → Place) → ℕ → Place → ℕ → Place
move places i p j = if nat_eq i j then p else places j

-- Goroutine `i` makes its next operation.
unfoldable pub schedule : ℕ → Machine → Machine
schedule i m =
    let (p, w) = advance_step (m.next i) (m.place i) m.watermark in
    record m { watermark = w; place = move m.place i p }

-- A schedule names the goroutine that moves, one operation after the other.
unfoldable pub run : List ℕ → Machine → Machine
run [] m = m
run (i ∷ rest) m = run rest (schedule i m)
