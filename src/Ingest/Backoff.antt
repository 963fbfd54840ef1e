-- ===== src/Ingest/Backoff.antt =====
-- backoffDuration of internal/ingest/client.go. A time.Duration is a signed 64-bit count of
-- nanoseconds; `int64n` is rand.Int64N, whose value is below its positive argument.
pub mod Bounds
use devops_demo.Base.{
  ℕ, ◌+◌, ◌-◌, ◌*◌, ◌/◌, ◌%◌, ◌^◌, Bool, ◌||◌, ℤ, pos, negsuc, leb_ℤ, ltb, leb, nat_eq,
  if◌then◌else◌,
}

-- if d <= 0 { d = def }
abbrev pub positive_or : ℤ → ℕ → ℕ
positive_or (pos d) def = if nat_eq d 0 then def else d
positive_or (negsuc d) def = def

abbrev pub default_base : ℕ
default_base = 1_000_000_000

abbrev pub default_max : ℕ
default_max = 30_000_000_000

-- min(attempt-1, 30), with attempt raised to 1 at least.
unfoldable pub shift_of : ℤ → ℕ
shift_of (pos n) = if ltb 30 (n - 1) then 30 else n - 1
shift_of (negsuc n) = 0

-- delay, where `product` is base * time.Duration(1<<shift) modulo 2^64: as a signed number it is
-- negative from 2^63 on.
unfoldable pub capped : ℕ → ℕ → ℕ
capped product max_delay =
    if nat_eq product 0 || (leb (2 ^ 63) product || ltb max_delay product)
    then max_delay
    else product

unfoldable pub delay : ℤ → ℤ → ℤ → ℕ
unfolding shift_of capped
delay attempt base max_delay =
    capped (positive_or base default_base * 2 ^ shift_of attempt % 2 ^ 64)
      (positive_or max_delay default_max)

unfoldable pub backoff_duration : (ℕ → ℕ) → ℤ → ℤ → ℤ → ℕ
backoff_duration int64n attempt base max_delay =
    let half = delay attempt base max_delay / 2 in half + int64n (half + 1)
