-- ===== src/Base/Decimal/Plain.antt =====
-- Which characters a decimal print has.
use Prim.Native.Nat.{ℕ, zero, suc, ◌+◌, ◌/◌, ◌%◌, ◌^◌, ◌<◌, ◌≤◌}
use Prim.Native.Char.{code}
use Prim.Native.String.{String, [], ◌∷◌}
use mathlib.Core.Path.{◌≡◌, refl, ap}
use mathlib.Core.Bool.{false}
use native.Mathlib.Omega.{arith}
use devops_demo.Base.Tests.{ltb, if_keeps}
use devops_demo.Base.Integers.{ℤ, pos, negsuc, pos_part}
use devops_demo.Base.Address.{has_char, is_empty}
use devops_demo.Base.Decimal.{digit_char, print_before, print_nat, print_int}
use devops_demo.Base.Decimal.Read.{StartsWithDigit, print_nat-StartsWithDigit}

low_digit_char : (d : ℕ) → 48 ≤ code (digit_char d)
unfolding digit_char
low_digit_char zero = omega arith
low_digit_char (suc zero) = omega arith
low_digit_char (suc (suc zero)) = omega arith
low_digit_char (suc (suc (suc zero))) = omega arith
low_digit_char (suc (suc (suc (suc zero)))) = omega arith
low_digit_char (suc (suc (suc (suc (suc zero))))) = omega arith
low_digit_char (suc (suc (suc (suc (suc (suc zero)))))) = omega arith
low_digit_char (suc (suc (suc (suc (suc (suc (suc zero))))))) = omega arith
low_digit_char (suc (suc (suc (suc (suc (suc (suc (suc zero)))))))) = omega arith
low_digit_char (suc (suc (suc (suc (suc (suc (suc (suc (suc d))))))))) = omega arith

module _ (c : ℕ) (h : c < 48) where
  has_char-digit_char :
      (d : ℕ) (out : String) → has_char c out ≡ false → has_char c (digit_char d ∷ out) ≡ false
  unfolding has_char
  has_char-digit_char d out free = ground (arith, low_digit_char d)

  has_char-print_before :
      (more n : ℕ) (out : String)
      → has_char c out ≡ false
      → has_char c (print_before more n out) ≡ false
  unfolding print_before
  has_char-print_before zero n out free = free
  has_char-print_before (suc more) n out free =
      if_keeps (λ s. has_char c s ≡ false) (λ s. s) (ltb n 10) (digit_char n ∷ out)
        (print_before more (n / 10) (digit_char (n % 10) ∷ out)) (has_char-digit_char n out free)
        (has_char-print_before more (n / 10) (digit_char (n % 10) ∷ out)
          (has_char-digit_char (n % 10) out free))

  has_char-print_nat : (n : ℕ) → has_char c (print_nat n) ≡ false
  unfolding print_nat has_char
  has_char-print_nat n = has_char-print_before 20 n [] refl

-- A decimal print has no slash and is not empty.
pub has_char-print_int : (n : ℤ) → has_char 47 (print_int n) ≡ false
unfolding print_int has_char
has_char-print_int (pos n) = has_char-print_nat 47 (omega arith) n
has_char-print_int (negsuc n) = has_char-print_nat 47 (omega arith) (n + 1)

pub is_empty-print_int : (n : ℤ) → pos_part n < 2 ^ 63 → is_empty (print_int n) ≡ false
unfolding print_int is_empty StartsWithDigit
is_empty-print_int (pos n) h =
    let (ch, rest, text, low, high) = print_nat-StartsWithDigit n (omega arith) in ap is_empty text
is_empty-print_int (negsuc n) h = refl
