-- ===== src/Seeder.antt =====
-- internal/seeder/seeder.go: Run. Its floating-point arithmetic is a parameter: how many events an
-- hour has (loadshape.Rate and math.Round) and what the PCG generator draws.
pub mod Complete
pub mod Progress
pub mod Keeps
pub mod Hours
pub mod Window
use devops_demo.Base.{
  ℕ, zero, suc, ◌+◌, ◌-◌, ◌*◌, ◌/◌, ◌%◌, ◌^◌, String, Bool, true, false, Option, none, some, List,
  [], ◌∷◌, ◌++◌, ℤ, pos, negsuc, leb_ℤ, leb, length, if◌then◌else◌,
}
use devops_demo.Store.Schema.{EventRecord, SnapshotItem}
use devops_demo.Store.Session.{Result, ok, err, Error, wrap, Session}
use devops_demo.Store.Batch.{BatchResult, ingest_events_batch}

-- seeder.Item has the fields of a SnapshotItem.
abbrev pub Item : Type 0
Item = SnapshotItem

-- Scale, SeedValue and the profile enter only the two functions of `Draws`.
pub record Config : Type 0 where
  pub days : ℤ
  pub ref_time : ℕ
  pub batch_size : ℤ

-- The generator's state R, and what is computed from it and from the profile: the number of events
-- of the hour that starts at a time, rng.Float64()*3600 as nanoseconds, rng.IntN(n), and whether
-- rng.Float64() < createdWeight.
pub record Draws (R : Type 0) : Type 0 where
  pub events_in : ℕ → ℕ
  pub offset : R → ℕ × R
  pub int_n : ℕ → R → ℕ × R
  pub is_created : R → Bool × R

-- Why Run returns an error, with the hours completed where the text has them.
pub data Failure : Type 0 where
  no_items : Failure
  days_not_positive : Failure
  canceled_after : ℕ → ℕ → Failure
  canceled_at_final_flush : Failure
  batch_failed : Error → Failure

abbrev pub hour : ℕ
hour = 3_600_000_000_000

abbrev pub default_batch_size : ℕ
default_batch_size = 8000

abbrev pub batch_size_of : ℤ → ℕ
batch_size_of (pos n) = if leb n 0 then default_batch_size else n
batch_size_of (negsuc n) = default_batch_size

-- windowEnd, windowStart and totalHours, where the length of the window is a time.Duration.
abbrev pub window_end : Config → ℕ
window_end cfg = cfg.ref_time - cfg.ref_time % hour

abbrev pub days_of : ℤ → ℕ
days_of (pos n) = n
days_of (negsuc n) = 0

-- time.Duration(cfg.Days) * 24 * time.Hour, in 64 bits.
abbrev pub window_length : Config → ℕ
window_length cfg = days_of cfg.days * 24 * hour % 2 ^ 64

-- windowEnd.Add of the negated length, which as a signed number is positive if the length is above
-- 2^63.
abbrev pub window_start : Config → ℕ
window_start cfg =
    if leb (window_length cfg) (2 ^ 63)
    then window_end cfg - window_length cfg
    else window_end cfg + (2 ^ 64 - window_length cfg)

-- The rounding of Duration.Hours is left out: whole hours have none. A negative count is no round of
-- the loop.
abbrev pub total_hours : Config → ℕ
total_hours cfg = (window_end cfg - window_start cfg) / hour

-- hourStart
abbrev pub hour_start_of : Config → ℕ → ℕ
hour_start_of cfg h = window_start cfg + h * hour

-- items[i]
abbrev pub item_at : Item → List Item → ℕ → Item
item_at first [] i = first
item_at first (item ∷ items) i = if leb i 0 then first else item_at item items (i - 1)

-- drawEventType
abbrev pub draw_event_type : Bool → String
draw_event_type true = "created"
draw_event_type false = "deleted"

module _ {R : Type 0} (draws : Draws R) (first : Item) (items : List Item) where
  -- The event that one turn of the inner loop appends, and the generator after it. The items are
  -- `first` and `items`: there is at least one.
  unfoldable pub draw_event : ℕ → R → EventRecord × R
  draw_event hour_start rng =
      let (offset, rng₁) = draws.offset rng in
      let (i, rng₂) = draws.int_n (length items + 1) rng₁ in
      let (is_created, rng₃) = draws.is_created rng₂ in
      let item = item_at first items i in
      (
        record {
          item_id = item.item_id;
          item_name = item.name;
          event_type = draw_event_type is_created;
          event_time = hour_start + offset;
        },
        rng₃,
      )

-- The variables of Run. `checks` is what ctx.Err() answers (true: canceled) each time it is asked,
-- and false once it is used up; `accepted` logs the events of the batches that the store took.
pub record State (F R : Type 0) : Type 0 where
  pub rng : R
  pub pending : List EventRecord
  pub total_written : ℕ
  pub accepted : List EventRecord
  pub checks : List Bool
  pub session : Session F

abbrev pub is_canceled : List Bool → Bool
is_canceled [] = false
is_canceled (c ∷ checks) = c

abbrev pub later : List Bool → List Bool
later [] = []
later (c ∷ checks) = checks

module _ {F R : Type 0} where
  abbrev pub checked : State F R → State F R
  checked st = record st { checks = later st.checks }

  -- What flush does with the result of IngestEventsBatch.
  unfoldable pub flushed : State F R → Result BatchResult × Session F → Option Error × State F R
  flushed st (ok res, s) = (
    none,
    record st {
      pending = [];
      total_written = st.total_written + res.inserted;
      accepted = st.accepted ++ st.pending;
      session = s;
    },
  )
  flushed st (err e, s) = (some (wrap "ingest batch" e), record st { session = s })

  unfoldable pub flush_pending : (ℕ → ℕ) → List EventRecord → State F R → Option Error × State F R
  unfolding flushed
  flush_pending stamp [] st = (none, st)
  flush_pending stamp (e ∷ pending) st =
      flushed st (ingest_events_batch stamp (e ∷ pending) st.session)

  unfoldable pub flush : (ℕ → ℕ) → State F R → Option Error × State F R
  unfolding flush_pending
  flush stamp st = flush_pending stamp st.pending st

  -- flushDetachedOnCancel: its error is logged only.
  unfoldable pub flush_detached : (ℕ → ℕ) → State F R → State F R
  flush_detached stamp st = (flush stamp st).1

  -- What a failed flush makes of Run: the context decides which error it is.
  unfoldable pub after_failure : (ℕ → ℕ) → Failure → Error → State F R → Failure × State F R
  after_failure stamp canceled e st =
      if is_canceled st.checks
      then (canceled, flush_detached stamp (checked st))
      else (batch_failed e, checked st)

  unfoldable pub after_flush :
      (ℕ → ℕ) → Failure → Option Error × State F R → Option Failure × State F R
  unfolding after_failure
  after_flush stamp canceled (none, st) = (none, st)
  after_flush stamp canceled (some e, st) =
      let (failure, st') = after_failure stamp canceled e st in (some failure, st')

  -- A return from inside a loop.
  unfoldable pub unless_failed :
      (State F R → Option Failure × State F R)
      → Option Failure × State F R
      → Option Failure × State F R
  unless_failed next (none, st) = next st
  unless_failed next (some failure, st) = (some failure, st)

  abbrev pub appended : EventRecord × R → State F R → State F R
  appended (e, rng) st = record st { rng = rng; pending = st.pending ++ e ∷ [] }

  module _ (stamp : ℕ → ℕ) (cfg : Config) (draws : Draws R) (first : Item) (items : List Item) where
    -- if len(pending) >= batchSize { ... }
    unfoldable pub flush_full : Failure → State F R → Option Failure × State F R
    unfolding after_flush
    flush_full canceled st =
        if leb (batch_size_of cfg.batch_size) (length st.pending)
        then after_flush stamp canceled (flush stamp st)
        else (none, st)

    -- for range n, in hour h.
    unfoldable pub seed_events : ℕ → ℕ → ℕ → State F R → Option Failure × State F R
    unfolding unless_failed flush_full
    seed_events h hour_start zero st = (none, st)
    seed_events h hour_start (suc n) st = unless_failed (seed_events h hour_start n) (
        flush_full (canceled_after h (total_hours cfg))
          (appended (draw_event draws first items hour_start st.rng) st))

    -- The test of ctx.Err() and the hour's events.
    unfoldable pub seed_hour : ℕ → State F R → Option Failure × State F R
    unfolding seed_events
    seed_hour h st =
        if is_canceled st.checks
        then (some (canceled_after h (total_hours cfg)), flush_detached stamp (checked st))
        else seed_events h (hour_start_of cfg h) (draws.events_in (hour_start_of cfg h))
            (checked st)

    -- for h := range totalHours, where `left` hours remain from h on.
    unfoldable pub seed_hours : ℕ → ℕ → State F R → Option Failure × State F R
    unfolding unless_failed seed_hour
    seed_hours h zero st = (none, st)
    seed_hours h (suc left) st = unless_failed (seed_hours (h + 1) left) (seed_hour h st)

    -- The loop and the final flush.
    unfoldable pub seed_window : State F R → Option Failure × State F R
    unfolding unless_failed seed_hours after_flush
    seed_window st =
        unless_failed (λ st'. after_flush stamp canceled_at_final_flush (flush stamp st'))
          (seed_hours 0 (total_hours cfg) st)

  -- Run. The Result is total_written.
  unfoldable pub run_seeder :
      (ℕ → ℕ) → Config → Draws R → List Item → State F R → Option Failure × State F R
  unfolding seed_window
  run_seeder stamp cfg draws [] st = (some no_items, st)
  run_seeder stamp cfg draws (first ∷ items) st =
      if leb_ℤ cfg.days (pos 0)
      then (some days_not_positive, st)
      else seed_window stamp cfg draws first items st
