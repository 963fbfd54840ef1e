-- ===== src/Loadshape.antt =====
-- internal/loadshape/loadshape.go. A float64 is a type F with its operations as a parameter; the
-- integer parts are written out. The JSON decoder is the standard library's: what it gives for a
-- document is a `Document`.
pub mod Weekdays
use devops_demo.Base.{
  ℕ, zero, suc, ◌+◌, ◌-◌, ◌*◌, ◌/◌, ◌%◌, ◌^◌, String, Bool, true, false, not, ◌&&◌, ◌||◌, Option,
  none, some, List, [], ◌∷◌, ℤ, pos, negsuc, sub_ℕ, length, nat_eq, text_eq, if◌then◌else◌,
}

pub record Floats (F : Type 0) : Type 0 where
  pub of_ℕ : ℕ → F
  pub of_ℤ : ℤ → F
  pub add : F → F → F
  pub sub : F → F → F
  pub mul : F → F → F
  pub div : F → F → F
  pub max : F → F → F
  pub cos : F → F
  pub pi : F
  pub lt : F → F → Bool
  pub floor : F → F
  -- int64(x)
  pub to_int64 : F → ℤ

pub record Diurnal (F : Type 0) : Type 0 where
  pub amplitude : F
  pub phase_hours : F

-- Anomaly.Name is only printed.
pub record Anomaly (F : Type 0) : Type 0 where
  pub anomaly_type : String
  pub offset_days : F
  pub duration_hours : F
  pub multiplier : F

-- The fixed array of seven coefficients is a list; pct_per_day is the only field of Trend.
pub record Profile (F : Type 0) : Type 0 where
  pub base_rate_per_s : F
  pub diurnal : Diurnal F
  pub weekday_coefficients : List F
  pub noise_pct : F
  pub pct_per_day : F
  pub anomalies : List (Anomaly F)

-- A document: none if it does not decode. The decoded list of coefficients has any length.
abbrev pub Document : Type 0 → Type 0
Document F = Option (Profile F)

unfoldable pub known_anomaly : String → Bool
known_anomaly t = text_eq t "spike" || (text_eq t "outage" || text_eq t "degradation")

unfoldable pub all_known_anomalies : {F : Type 0} → List (Anomaly F) → Bool
unfolding known_anomaly
all_known_anomalies [] = true
all_known_anomalies (a ∷ anomalies) = known_anomaly a.anomaly_type && all_known_anomalies anomalies

-- `none` is an error.
unfoldable pub parse_profile : {F : Type 0} → Document F → Option (Profile F)
unfolding all_known_anomalies
parse_profile none = none
parse_profile (some p) =
    if nat_eq (length p.weekday_coefficients) 7 && all_known_anomalies p.anomalies
    then some p
    else none

-- Go's % on int64 has the sign of the dividend.
abbrev pub rem : ℤ → ℕ → ℤ
rem (pos n) k = pos (n % k)
rem (negsuc n) k = sub_ℕ 0 ((n + 1) % k)

abbrev pub plus : ℤ → ℕ → ℤ
plus (pos n) k = pos (n + k)
plus (negsuc n) k = sub_ℕ k (n + 1)

-- int(x), for an index.
abbrev pub index_of : ℤ → Option ℕ
index_of (pos n) = some n
index_of (negsuc n) = none

-- mondayIndex, from daysSinceEpoch on.
unfoldable pub monday_index : ℤ → ℤ
monday_index days = rem (plus (rem (plus (rem days 7) 3) 7) 7) 7

-- p[i], with `none` for the panic of an index out of range.
unfoldable pub coefficient_at : {F : Type 0} → List F → ℕ → Option F
coefficient_at [] i = none
coefficient_at (c ∷ cs) zero = some c
coefficient_at (c ∷ cs) (suc i) = coefficient_at cs i

unfoldable pub coefficient : {F : Type 0} → List F → Option ℕ → Option F
unfolding coefficient_at
coefficient cs none = none
coefficient cs (some i) = coefficient_at cs i

-- Bitwise exclusive or of the lowest bits.
unfoldable pub xor_bits : ℕ → ℕ → ℕ → ℕ
xor_bits zero a b = 0
xor_bits (suc k) a b = (a + b) % 2 + 2 * xor_bits k (a / 2) (b / 2)

abbrev pub xor64 : ℕ → ℕ → ℕ
xor64 a b = xor_bits 64 a b

-- splitmix64, on uint64 values: +, * and the shifts wrap.
unfoldable pub splitmix64 : ℕ → ℕ
unfolding xor_bits
splitmix64 seed =
    let z₀ = (seed + 11_400_714_819_323_198_485) % 2 ^ 64 in
    let z₁ = xor64 z₀ (z₀ / 2 ^ 30) * 13_787_848_793_156_543_929 % 2 ^ 64 in
    let z₂ = xor64 z₁ (z₁ / 2 ^ 27) * 10_723_151_780_598_845_931 % 2 ^ 64 in xor64 z₂ (z₂ / 2 ^ 31)

-- uint64(x) of an int64
abbrev pub to_uint64 : ℤ → ℕ
to_uint64 (pos n) = n % 2 ^ 64
to_uint64 (negsuc n) = 2 ^ 64 - 1 - n

module _ {F : Type 0} (fl : Floats F) where
  abbrev pub seconds_per_day : F
  seconds_per_day = fl.of_ℕ 86_400

  abbrev pub seconds_per_hour : F
  seconds_per_hour = fl.of_ℕ 3600

  unfoldable pub hour_of_day : F → F
  hour_of_day profile_time =
      let days = fl.floor (fl.div profile_time seconds_per_day) in
      fl.div (fl.sub profile_time (fl.mul days seconds_per_day)) seconds_per_hour

  unfoldable pub weekday_of : F → ℤ
  unfolding monday_index
  weekday_of profile_time =
      monday_index (fl.to_int64 (fl.floor (fl.div profile_time seconds_per_day)))

  unfoldable pub noise_sample : F → F
  unfolding splitmix64
  noise_sample profile_time =
      let h = splitmix64 (to_uint64 (fl.to_int64 (fl.floor (fl.div profile_time (fl.of_ℕ 60))))) in
      fl.sub (fl.div (fl.of_ℕ (h % 2_000_001)) (fl.of_ℕ 1_000_000)) (fl.of_ℕ 1)

  -- The factor of an active anomaly, from its window on.
  unfoldable pub active_factor : Anomaly F → F → F → F → F
  active_factor a profile_time start end =
      if text_eq a.anomaly_type "spike" || text_eq a.anomaly_type "outage"
      then a.multiplier
      else if text_eq a.anomaly_type "degradation"
      then (let duration = fl.sub end start in
          let frac =
            if fl.lt (fl.of_ℕ 0) duration
            then fl.div (fl.sub profile_time start) duration
            else fl.of_ℕ 1 in
          fl.add (fl.of_ℕ 1) (fl.mul frac (fl.sub a.multiplier (fl.of_ℕ 1))))
      else fl.of_ℕ 1

  unfoldable pub anomaly_factor : Anomaly F → F → F → F
  unfolding active_factor
  anomaly_factor a profile_time ref =
      let start = fl.add ref (fl.mul a.offset_days seconds_per_day) in
      let end = fl.add start (fl.mul a.duration_hours seconds_per_hour) in
      if fl.lt profile_time start || fl.lt end profile_time
      then fl.of_ℕ 1
      else active_factor a profile_time start end

  -- anomaly *= anomalyFactor(...), over the anomalies.
  unfoldable pub anomaly_product : F → List (Anomaly F) → F → F → F
  unfolding anomaly_factor
  anomaly_product product [] profile_time ref = product
  anomaly_product product (a ∷ anomalies) profile_time ref =
      anomaly_product (fl.mul product (anomaly_factor a profile_time ref)) anomalies profile_time
        ref

  -- Rate from the profile time and the weekday's coefficient on.
  unfoldable pub rate_at : Profile F → F → F → F → F
  unfolding hour_of_day noise_sample anomaly_product
  rate_at p ref profile_time weekday_factor =
      let one = fl.of_ℕ 1 in
      let angle =
        fl.div
          (fl.mul (fl.mul (fl.of_ℕ 2) fl.pi)
            (fl.sub (hour_of_day profile_time) p.diurnal.phase_hours))
          (fl.of_ℕ 24) in
      let diurnal_factor = fl.add one (fl.mul p.diurnal.amplitude (fl.cos angle)) in
      let days_since_ref = fl.div (fl.sub profile_time ref) seconds_per_day in
      let trend_factor = fl.add one (fl.mul p.pct_per_day days_since_ref) in
      let noise_factor = fl.add one (fl.mul p.noise_pct (noise_sample profile_time)) in
      let anomaly = anomaly_product one p.anomalies profile_time ref in
      let raw =
        fl.mul
          (fl.mul
            (fl.mul (fl.mul (fl.mul p.base_rate_per_s diurnal_factor) weekday_factor) trend_factor)
            noise_factor)
          anomaly in
      fl.max (fl.of_ℕ 0) raw

  unfoldable pub rate_with : Profile F → F → F → Option F → Option F
  unfolding rate_at
  rate_with p ref profile_time none = none
  rate_with p ref profile_time (some weekday_factor) =
      some (rate_at p ref profile_time weekday_factor)

  -- Rate. `none` is the panic of the lookup in weekday_coefficients.
  unfoldable pub rate : F → Profile F → F → F → Option F
  unfolding rate_with weekday_of coefficient
  rate unix_seconds p ref scale =
      let profile_time = fl.add ref (fl.mul (fl.sub unix_seconds ref) scale) in
      rate_with p ref profile_time
        (coefficient p.weekday_coefficients (index_of (weekday_of profile_time)))

  -- AnomalyRealWindow
  unfoldable pub anomaly_real_window : Anomaly F → F → F → F × F
  anomaly_real_window a ref scale =
      let profile_start = fl.add ref (fl.mul a.offset_days seconds_per_day) in
      let profile_end = fl.add profile_start (fl.mul a.duration_hours seconds_per_hour) in
      (
        fl.add ref (fl.div (fl.sub profile_start ref) scale),
        fl.add ref (fl.div (fl.sub profile_end ref) scale),
      )
