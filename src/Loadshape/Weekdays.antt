-- ===== src/Loadshape/Weekdays.antt =====
-- The weekday of a time, and the coefficient that is looked up for it.
use devops_demo.Base.{
  ℕ, zero, suc, ◌+◌, ◌-◌, ◌%◌, ◌≡◌, ◌<◌, refl, ap, ◌∙◌, true, none, some, List, [], ◌∷◌, ℤ, pos,
  negsuc, length, nat_eq_iff, arith,
}
use devops_demo.Loadshape.{
  Floats, rate, rate_at, rate_with, weekday_of, Profile, Document, parse_profile,
  all_known_anomalies, index_of, monday_index, coefficient_at, coefficient,
}

-- The weekday of day d of the epoch, Monday being 0: d + 3 and it agree modulo 7.
abbrev pub IsWeekday : ℤ → ℕ → Type 0
IsWeekday (pos n) i = (i < 7) × ((n + 3) % 7 ≡ i)
IsWeekday (negsuc n) i = (i < 7) × ((i + n + 1) % 7 ≡ 3)

monday_index-IsWeekday : (days : ℤ) → (i : ℕ) × (monday_index days ≡ pos i) × IsWeekday days i
unfolding monday_index
monday_index-IsWeekday (pos n) = ((n + 3) % 7, ground arith, (omega arith, refl))
monday_index-IsWeekday (negsuc n) =
    ((10 - (n + 1) % 7) % 7, ground arith, (omega arith, omega arith))

IsWeekday-lt : (days : ℤ) (i : ℕ) → IsWeekday days i → i < 7
IsWeekday-lt (pos n) i w = w.0
IsWeekday-lt (negsuc n) i w = w.0

coefficient_at-some :
    {F : Type 0} (cs : List F) (i : ℕ) → i < length cs → (c : F) × (coefficient_at cs i ≡ some c)
unfolding coefficient_at
coefficient_at-some [] i h = absurd (omega arith)
coefficient_at-some (c ∷ cs) zero h = (c, refl)
coefficient_at-some (c ∷ cs) (suc i) h = coefficient_at-some cs i (omega arith)

-- A profile that ParseProfile accepts has seven coefficients and no unknown anomaly type.
parse_profile-some :
    {F : Type 0} (d : Document F) (p : Profile F)
    → parse_profile d ≡ some p
    → (length p.weekday_coefficients ≡ 7) × (all_known_anomalies p.anomalies ≡ true)
unfolding parse_profile
parse_profile-some none p h = absurd (ground arith)
parse_profile-some (some q) p h =
    (ground (arith, nat_eq_iff (length q.weekday_coefficients) 7), ground arith)

-- For a profile that ParseProfile accepts, Rate never panics, whatever the time, the reference and
-- the scale, and it takes the coefficient of the UTC weekday (0 for Monday to 6 for Sunday) of the
-- profile time, for days before the epoch too.
pub rate-parse_profile :
    {F : Type 0} (fl : Floats F) (d : Document F) (p : Profile F) (unix_seconds ref scale : F)
    → parse_profile d ≡ some p
    → let profile_time = fl.add ref (fl.mul (fl.sub unix_seconds ref) scale) in
      (i : ℕ) × (c : F) × IsWeekday
        (fl.to_int64 (fl.floor (fl.div profile_time (fl.of_ℕ 86_400))))
        i
      × (coefficient_at p.weekday_coefficients i ≡ some c)
      × (rate fl unix_seconds p ref scale ≡ some (rate_at fl p ref profile_time c))
unfolding rate rate_with weekday_of coefficient
rate-parse_profile fl d p unix_seconds ref scale h =
    let profile_time = fl.add ref (fl.mul (fl.sub unix_seconds ref) scale) in
    let days = fl.to_int64 (fl.floor (fl.div profile_time (fl.of_ℕ 86_400))) in
    let (i, index, weekday) = monday_index-IsWeekday days in
    let (seven, known) = parse_profile-some d p h in
    let (c, found) =
      coefficient_at-some p.weekday_coefficients i (ground (arith, IsWeekday-lt days i weekday)) in
    (
      i,
      c,
      weekday,
      found,
      ap (rate_with fl p ref profile_time)
          (ap (λ w. coefficient p.weekday_coefficients (index_of w)) index ∙ found),
    )
