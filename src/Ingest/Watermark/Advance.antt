-- ===== src/Ingest/Watermark/Advance.antt =====
-- One goroutine alone, and the atomic cell under any schedule.
use devops_demo.Base.{
  ℕ, ◌≡◌, ◌≤◌, subst, Bool-cases, inl, inr, true, false, ◌+◌, ℤ, pos_part, neg_part, leb_ℤ, int_eq,
  int_eq_iff, nat_eq, nat_eq_iff, List, [], ◌∷◌, arith,
}
use devops_demo.Ingest.Watermark.{
  Watermark, Place, loading, swapping, setting, returned, advance_step, Machine, schedule, run,
}

infix 50 ◌≤ℤ◌
abbrev pub ◌≤ℤ◌ : ℤ → ℤ → Type 0
a ≤ℤ b = pos_part a + neg_part b ≤ pos_part b + neg_part a

-- A goroutine that is about to swap has loaded a value below its argument, and one that has swapped
-- or returned finds the cell at its argument or later.
abbrev pub IsPlaced : ℤ → Place → Watermark → Type 0
IsPlaced next loading w = Unit
IsPlaced next (swapping current) w = (leb_ℤ next current ≡ false)
IsPlaced next setting w = (next ≤ℤ w.last_event_time_unix)
IsPlaced next returned w = (next ≤ℤ w.last_event_time_unix)

≤ℤ_of_leb_ℤ : (a b : ℤ) → leb_ℤ a b ≡ true → a ≤ℤ b
≤ℤ_of_leb_ℤ a b h = ground arith

≤ℤ_of_not-leb_ℤ : (a b : ℤ) → leb_ℤ a b ≡ false → b ≤ℤ a
≤ℤ_of_not-leb_ℤ a b h = ground arith

IsPlaced-grow :
    (next : ℤ) (p : Place) (w w' : Watermark)
    → w.last_event_time_unix ≤ℤ w'.last_event_time_unix
    → IsPlaced next p w
    → IsPlaced next p w'
IsPlaced-grow next loading w w' h q = tt
IsPlaced-grow next (swapping current) w w' h q = q
IsPlaced-grow next setting w w' h q = omega arith
IsPlaced-grow next returned w w' h q = omega arith

advance_step-IsPlaced :
    (next : ℤ) (p : Place) (w : Watermark)
    → IsPlaced next p w
    → (w.last_event_time_unix ≤ℤ (advance_step next p w).1.last_event_time_unix)
      × IsPlaced next (advance_step next p w).0 (advance_step next p w).1
unfolding advance_step
advance_step-IsPlaced next loading w q = elim (Bool-cases (leb_ℤ next w.last_event_time_unix)) [
  | inl late ↦ (omega arith, rw late (≤ℤ_of_leb_ℤ next w.last_event_time_unix late))
  | inr early ↦ (omega arith, rw early early)
]
advance_step-IsPlaced next (swapping current) w q =
    elim (Bool-cases (int_eq w.last_event_time_unix current)) [
      | inl swapped ↦
          let e : w.last_event_time_unix ≡ current =
            (int_eq_iff w.last_event_time_unix current).0 swapped in
          (rw (swapped, e) (≤ℤ_of_not-leb_ℤ next current q), rw swapped (omega arith))
      | inr failed ↦ (rw failed (omega arith), rw failed tt)
    ]
advance_step-IsPlaced next setting w q = (omega arith, q)
advance_step-IsPlaced next returned w q = (omega arith, q)

abbrev pub AllPlaced : Machine → Type 0
AllPlaced m = (i : ℕ) → IsPlaced (m.next i) (m.place i) m.watermark

schedule-AllPlaced :
    (i : ℕ) (m : Machine)
    → AllPlaced m
    → (m.watermark.last_event_time_unix ≤ℤ (schedule i m).watermark.last_event_time_unix)
      × AllPlaced (schedule i m)
unfolding schedule
schedule-AllPlaced i m q =
    let (grows, placed) = advance_step-IsPlaced (m.next i) (m.place i) m.watermark (q i) in
    (
      grows,
      λ j. elim (Bool-cases (nat_eq i j)) [
        | inl here ↦ rw here (rw (← (nat_eq_iff i j).0 here) placed)
        | inr there ↦ rw there (IsPlaced-grow (m.next j) (m.place j) m.watermark _ grows (q j))
      ],
    )

run-AllPlaced :
    (is : List ℕ) (m : Machine)
    → AllPlaced m
    → (m.watermark.last_event_time_unix ≤ℤ (run is m).watermark.last_event_time_unix)
      × AllPlaced (run is m)
unfolding run
run-AllPlaced [] m q = (omega arith, q)
run-AllPlaced (i ∷ is) m q =
    let (grows, placed) = schedule-AllPlaced i m q in
    let (grows', placed') = run-AllPlaced is (schedule i m) placed in (omega arith, placed')

-- However any number of goroutines that enter advanceLastEventTime interleave, the cell
-- lastEventTimeUnix never moves back, and when a call has returned the cell is at its argument or
-- later.
pub run-advances :
    (is : List ℕ) (m : Machine) (i : ℕ)
    → ((j : ℕ) → m.place j ≡ loading)
    → (run is m).place i ≡ returned
    → (m.watermark.last_event_time_unix ≤ℤ (run is m).watermark.last_event_time_unix)
      × ((run is m).next i ≤ℤ (run is m).watermark.last_event_time_unix)
run-advances is m i entered left =
    let (grows, placed) = run-AllPlaced is m (λ j. rw (entered j) tt) in
    (grows, subst (λ p. IsPlaced ((run is m).next i) p (run is m).watermark) left (placed i))
