-- ===== src/Ingest/Watermark/Races.antt =====
-- The gauge is set after the swap, not with it: two calls that overlap can leave it behind.
use devops_demo.Base.{ℕ, ◌≡◌, false, leb_ℤ, int_eq_iff, List, [], ◌∷◌, arith}
use devops_demo.Ingest.Watermark.{loading, returned, advance_step, Machine, schedule, run}

-- The first goroutine swaps, the second runs to its end, and the first sets the gauge last.
abbrev pub overlap : List ℕ
overlap = 0 ∷ 0 ∷ 1 ∷ 1 ∷ 1 ∷ 0 ∷ []

-- For any two event times above the watermark, the second above the first, there is an interleaving
-- of the two calls after which both have returned, the cell holds the later time and the gauge the
-- earlier one.
pub run-overlap :
    (m : Machine)
    → ((j : ℕ) → m.place j ≡ loading)
    → leb_ℤ (m.next 0) m.watermark.last_event_time_unix ≡ false
    → leb_ℤ (m.next 1) (m.next 0) ≡ false
    → ((run overlap m).place 0 ≡ returned)
      × ((run overlap m).place 1 ≡ returned)
      × ((run overlap m).watermark
          ≡ record { last_event_time_unix = m.next 1; last_event_time_seconds = m.next 0 })
unfolding run schedule advance_step
run-overlap m entered above later = ground (
  arith,
  entered 0,
  entered 1,
  int_eq_iff m.watermark.last_event_time_unix m.watermark.last_event_time_unix,
  int_eq_iff (m.next 0) (m.next 0),
)
