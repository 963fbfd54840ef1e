-- ===== src/Seeder/Hours.antt =====
-- The number of events that Run generates for one hour, from the load shape.
use devops_demo.Base.{ℕ, ◌+◌, ◌≡◌, ap, Option, none, some, ℤ, pos, negsuc}
use devops_demo.Ingest.Event.{unix_seconds}
use devops_demo.Loadshape.{Floats, Profile, Document, parse_profile, rate}
use devops_demo.Loadshape.Weekdays.{rate-parse_profile}

-- bucketMid
abbrev pub bucket_mid : ℕ → ℕ
bucket_mid hour_start = hour_start + 1_800_000_000_000

-- for range n: a negative n is no turn.
abbrev pub turns : ℤ → ℕ
turns (pos n) = n
turns (negsuc n) = 0

module _ {F : Type 0} (fl : Floats F) (round : F → F) where
  unfoldable pub events_of : Option F → Option ℕ
  events_of none = none
  events_of (some r) = some (turns (fl.to_int64 (round (fl.mul r (fl.of_ℕ 3600)))))

  -- n, where `round` is math.Round; `none` is a panic of Rate. This is what `events_in` of Draws
  -- stands for.
  unfoldable pub events_in_hour : Profile F → ℕ → F → ℕ → Option ℕ
  unfolding events_of
  events_in_hour p ref_time scale hour_start = events_of (
      rate fl (fl.of_ℤ (unix_seconds (bucket_mid hour_start))) p (fl.of_ℤ (unix_seconds ref_time))
        scale)

  -- Counting the events of an hour never panics for a profile that ParseProfile accepts.
  pub events_in_hour-parse_profile :
      (d : Document F) (p : Profile F) (ref_time : ℕ) (scale : F) (hour_start : ℕ)
      → parse_profile d ≡ some p
      → (n : ℕ) × (events_in_hour p ref_time scale hour_start ≡ some n)
  unfolding events_in_hour events_of
  events_in_hour-parse_profile d p ref_time scale hour_start h =
      let (i, c, weekday, found, rated) =
        rate-parse_profile fl d p (fl.of_ℤ (unix_seconds (bucket_mid hour_start)))
          (fl.of_ℤ (unix_seconds ref_time)) scale h in
      (_, ap events_of rated)
