-- ===== src/Ingest/Backoff/Bounds.antt =====
-- Bounds and growth of the reconnect delay, and the base from which the product overflows.
use devops_demo.Base.{
  ℕ, ◌+◌, ◌-◌, ◌*◌, refl, ◌∙◌, ◌/◌, ◌%◌, ◌^◌, ◌≤◌, ◌<◌, ◌≡◌, ℤ, pos, negsuc, ltb, if◌then◌else◌,
  arith,
}
use native.Mathlib.Nat.{pow-le-pow_right, one-le-pow}
use devops_demo.Ingest.Backoff.{
  positive_or, default_base, default_max, shift_of, capped, delay, backoff_duration,
}

positive_or-pos : (d : ℤ) (def : ℕ) → 0 < def → 0 < positive_or d def
positive_or-pos (pos d) def h = ground arith
positive_or-pos (negsuc d) def h = h

shift_of-le : (attempt : ℤ) → shift_of attempt ≤ 30
unfolding shift_of
shift_of-le (pos n) = ground arith
shift_of-le (negsuc n) = omega arith

shift_of_mono : (m n : ℕ) → m ≤ n → shift_of (pos m) ≤ shift_of (pos n)
unfolding shift_of
shift_of_mono m n h = ground arith

capped_bounds :
    (product max_delay : ℕ)
    → 0 < max_delay
    → (0 < capped product max_delay) × (capped product max_delay ≤ max_delay)
unfolding capped
capped_bounds product max_delay h = ground arith

-- Whatever the attempt and the configured base and cap, negative ones included, and for any random
-- draw below its positive argument: the wait lies between half the delay and the delay, the delay
-- is positive, and it never exceeds the cap (30 s if that is not positive).
pub backoff_duration_bounds :
    (int64n : ℕ → ℕ) (attempt base max_delay : ℤ)
    → ((n : ℕ) → 0 < n → int64n n < n)
    → (delay attempt base max_delay / 2 ≤ backoff_duration int64n attempt base max_delay)
      × (backoff_duration int64n attempt base max_delay ≤ delay attempt base max_delay)
      × (0 < delay attempt base max_delay)
      × (delay attempt base max_delay ≤ positive_or max_delay default_max)
unfolding backoff_duration delay
backoff_duration_bounds int64n attempt base max_delay draw =
    let d = delay attempt base max_delay in
    let drawn = draw (d / 2 + 1) (omega arith) in
    let (positive, below) =
      capped_bounds (positive_or base default_base * 2 ^ shift_of attempt % 2 ^ 64)
        (positive_or max_delay default_max) (positive_or-pos max_delay default_max (omega arith)) in
    (omega arith, omega arith, positive, below)

pow_shift-le : (attempt : ℤ) → (1 ≤ 2 ^ shift_of attempt) × (2 ^ shift_of attempt ≤ 2 ^ 30)
pow_shift-le attempt = (
  one-le-pow (shift_of attempt) 2 (omega arith),
  pow-le-pow_right (omega arith) (shift_of-le attempt),
)

product_fits :
    (b p : ℕ) → 1 ≤ p → p ≤ 2 ^ 30 → 0 < b → b * 2 ^ 30 < 2 ^ 63 → (b * p < 2 ^ 63) × (0 < b * p)
product_fits b p h k q r = (grind arith, grind arith)

capped-small : (x m : ℕ) → 0 < x → x < 2 ^ 63 → capped (x % 2 ^ 64) m ≡ (if ltb m x then m else x)
unfolding capped
capped-small x m h k = ground arith

-- As long as 2^30 times the base fits into an int64, the delay is the base doubled once for each
-- attempt after the first (30 times at most), cut at the cap.
pub delay-exponential :
    (attempt base max_delay : ℤ)
    → positive_or base default_base * 2 ^ 30 < 2 ^ 63
    → delay attempt base max_delay ≡ (
        if ltb
          (positive_or max_delay default_max)
          (positive_or base default_base * 2 ^ shift_of attempt)
        then positive_or max_delay default_max
        else positive_or base default_base * 2 ^ shift_of attempt)
unfolding delay
delay-exponential attempt base max_delay fits =
    let b = positive_or base default_base in
    let (low, high) = pow_shift-le attempt in
    let (small, positive) =
      product_fits b (2 ^ shift_of attempt) low high
        (positive_or-pos base default_base (omega arith)) fits in
    capped-small _ (positive_or max_delay default_max) positive small

-- The base doubled for each attempt after the first, 30 times at most, and cut at the cap.
abbrev pub doubled : ℕ → ℕ → ℕ → ℕ
doubled base cap attempt =
    let grown = base * 2 ^ (if ltb 30 (attempt - 1) then 30 else attempt - 1) in
    if ltb cap grown then cap else grown

positive_or_pos : (n def : ℕ) → 0 < n → positive_or (pos n) def ≡ n
positive_or_pos n def h = ground arith

pub delay-doubled :
    (attempt base cap : ℕ)
    → 0 < base
    → 0 < cap
    → base * 2 ^ 30 < 2 ^ 63
    → delay (pos attempt) (pos base) (pos cap) ≡ doubled base cap attempt
unfolding shift_of
delay-doubled attempt base cap h k fits =
    let b = positive_or_pos base default_base h in
    let m = positive_or_pos cap default_max k in
    delay-exponential (pos attempt) (pos base) (pos cap) (rw b fits) ∙ rw (b, m) refl

last_shift : (n : ℕ) → 31 ≤ n → shift_of (pos n) ≡ 30
unfolding shift_of
last_shift n h = ground arith

positive_or_self : (n : ℕ) → 0 < n → positive_or (pos n) default_base ≡ n
positive_or_self n h = ground arith

wrapped : (d : ℕ) → d * 2 ^ 30 < 2 ^ 63 → (2 ^ 34 + d) * 2 ^ 30 % 2 ^ 64 ≡ d * 2 ^ 30
wrapped d h = omega arith

capped_self : (x m : ℕ) → 0 < x → x < 2 ^ 63 → x ≤ m → capped x m ≡ x
unfolding capped
capped_self x m h k q = ground arith

-- From attempt 31 on, a base of 2^34 + d nanoseconds (about 17.2 s and more, with d positive, and
-- d * 2^30 below 2^63 and not above the cap) gives a delay of d * 2^30 nanoseconds: the product
-- has wrapped.
pub delay_wraps :
    (n d : ℕ) (max_delay : ℤ)
    → 31 ≤ n
    → 0 < d
    → d * 2 ^ 30 < 2 ^ 63
    → d * 2 ^ 30 ≤ positive_or max_delay default_max
    → delay (pos n) (pos (2 ^ 34 + d)) max_delay ≡ d * 2 ^ 30
unfolding delay
delay_wraps n d max_delay late h k q =
    rw (last_shift n late, positive_or_self (2 ^ 34 + d) (omega arith), wrapped d k)
      (capped_self (d * 2 ^ 30) (positive_or max_delay default_max) (omega arith) k q)
