-- ===== src/Tests/Shaping.antt =====
-- Examples of the load shape, over whole numbers in place of floats.
use devops_demo.Base.{
  pos_part, ℕ, ◌+◌, ◌-◌, ◌*◌, ◌/◌, ◌≡◌, refl, some, [], ◌∷◌, pos, negsuc, ltb, leb, if◌then◌else◌,
}
use devops_demo.Ingest.Event.{unix_epoch}
use devops_demo.Tests.{seconds}
use devops_demo.Seeder.Hours.{events_of, events_in_hour}
use devops_demo.Loadshape.{
  rate_with, weekday_of, coefficient, hour_of_day, noise_sample, anomaly_product, anomaly_factor,
  active_factor, Floats, Profile, known_anomaly, all_known_anomalies, parse_profile, monday_index,
  xor_bits, splitmix64, coefficient_at, rate, rate_at,
}
use devops_demo.Loadshape.Weekdays.{IsWeekday, rate-parse_profile}

first_draw : splitmix64 0 ≡ 16_294_208_416_658_607_535
unfolding splitmix64 xor_bits
first_draw = refl

-- The last day before the epoch was a Wednesday.
before_epoch : monday_index (negsuc 0) ≡ pos 2
unfolding monday_index
before_epoch = refl

abbrev pub whole : Floats ℕ
whole = record {
  of_ℕ = λ n. n;
  of_ℤ = pos_part;
  add = ◌+◌;
  sub = ◌-◌;
  mul = ◌*◌;
  div = ◌/◌;
  max = λ a b. if leb a b then b else a;
  cos = λ a. 1;
  pi = 3;
  lt = ltb;
  floor = λ a. a;
  to_int64 = pos;
}

abbrev pub shop : Profile ℕ
shop = record {
  base_rate_per_s = 2;
  diurnal = record { amplitude = 1; phase_hours = 12 };
  weekday_coefficients = 1 ∷ 2 ∷ 3 ∷ 4 ∷ 5 ∷ 6 ∷ 7 ∷ [];
  noise_pct = 0;
  pct_per_day = 0;
  anomalies =
      record { anomaly_type = "spike"; offset_days = 1; duration_hours = 2; multiplier = 4 } ∷ [];
}

shop_is_accepted : parse_profile (some shop) ≡ some shop
unfolding parse_profile all_known_anomalies known_anomaly
shop_is_accepted = refl

rate-parse_profile_example :
    (i : ℕ) × (c : ℕ) × IsWeekday (pos (900_000 / 86_400)) i
    × (coefficient_at (1 ∷ 2 ∷ 3 ∷ 4 ∷ 5 ∷ 6 ∷ 7 ∷ []) i ≡ some c)
    × (rate whole 900_000 shop 800_000 1 ≡ some (rate_at whole shop 800_000 900_000 c))
rate-parse_profile_example =
    rate-parse_profile whole (some shop) shop 900_000 800_000 1 shop_is_accepted

-- Ten days after the epoch, on a Sunday, without an anomaly: 2 * 2 * 7 events in each second.
sunday_hour :
    events_in_hour whole
      (λ r. r)
      shop
      (unix_epoch + seconds 864_000)
      1
      (unix_epoch + seconds 867_600)
    ≡ some 100_800
unfolding events_in_hour events_of rate rate_with rate_at weekday_of monday_index coefficient
    coefficient_at hour_of_day noise_sample splitmix64 xor_bits anomaly_product anomaly_factor
    active_factor
sunday_hour = refl
