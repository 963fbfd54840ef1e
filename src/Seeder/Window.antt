-- ===== src/Seeder/Window.antt =====
-- The hours that Run seeds, and the number of days from which the window's length overflows.
use devops_demo.Base.{
  ℕ, ◌+◌, ◌*◌, ◌≤◌, ◌<◌, ◌≡◌, refl, false, none, List, [], ◌∷◌, ℤ, pos, leb_ℤ, arith,
}
use devops_demo.Seeder.{
  Item, Config, Draws, State, hour, window_end, window_start, total_hours, hour_start_of,
  flush_pending, flush, after_flush, unless_failed, seed_hours, seed_window, run_seeder,
}

-- A window of 106751 days at most (292 years), which does not reach back before year 1, has 24 hours
-- for each day, each of them between its start and its end, and starts that many days before its
-- end.
pub total_hours-days :
    (n ref_time h : ℕ) (batch_size : ℤ)
    → let cfg : Config = record { days = pos n; ref_time = ref_time; batch_size = batch_size } in
      n ≤ 106_751
      → n * 24 * hour ≤ window_end cfg
      → (total_hours cfg ≡ n * 24)
        × (window_start cfg + n * 24 * hour ≡ window_end cfg)
        × (h < n * 24 → hour_start_of cfg h + hour ≤ window_end cfg)
total_hours-days n ref_time h batch_size fits back = ground arith

overflowing_hours :
    (n ref_time : ℕ) (batch_size : ℤ)
    → 106_752 ≤ n
    → n ≤ 213_503
    → total_hours (record { days = pos n; ref_time = ref_time; batch_size = batch_size }) ≡ 0
overflowing_hours n ref_time batch_size low high = ground arith

module _ {F R : Type 0} (stamp : ℕ → ℕ) (draws : Draws R) (first : Item) (items : List Item) where
  no_hours :
      (cfg : Config) (st : State F R)
      → total_hours cfg ≡ 0
      → st.pending ≡ []
      → seed_window stamp cfg draws first items st ≡ (none, st)
  unfolding seed_window seed_hours unless_failed flush after_flush flush_pending
  no_hours cfg st none_left p = rw (none_left, p) refl

  -- For 106752 to 213503 days the window's length overflows, and Run returns without an error at
  -- once: it generates no event at all and leaves everything as it is.
  pub run_seeder-overflow :
      (n ref_time : ℕ) (batch_size : ℤ) (st : State F R)
      → 106_752 ≤ n
      → n ≤ 213_503
      → st.pending ≡ []
      → run_seeder stamp
          (record { days = pos n; ref_time = ref_time; batch_size = batch_size })
          draws
          (first ∷ items)
          st
        ≡ (none, st)
  unfolding run_seeder
  run_seeder-overflow n ref_time batch_size st low high p =
      let cfg : Config = record { days = pos n; ref_time = ref_time; batch_size = batch_size } in
      let positive : leb_ℤ cfg.days (pos 0) ≡ false = ground arith in
      rw positive (no_hours cfg st (overflowing_hours n ref_time batch_size low high) p)
