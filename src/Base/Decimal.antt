-- ===== src/Base/Decimal.antt =====
-- The decimal print of an int64: %d of fmt.Sprintf.
pub mod Read
pub mod Plain
use Prim.Native.Nat.{ℕ, zero, suc, ◌+◌, ◌-◌, ◌*◌, ◌/◌, ◌%◌, ◌^◌, ◌<◌, ◌≤◌}
use Prim.Native.Char.{Char, code}
use Prim.Native.String.{String, [], ◌∷◌}
use mathlib.Core.Path.{◌≡◌, refl, ◌∙◌, ap, sym, subst}
use mathlib.Core.Logic.{◌⊎◌, inl, inr}
use mathlib.Core.Bool.{Bool, true, false, ◌&&◌, ◌||◌}
use mathlib.Core.Option.{Option, none, some}
use native.Mathlib.Omega.{arith}
use native.Mathlib.Numerals.{unary_clauses}
use devops_demo.Base.Tests.{ltb, leb, nat_eq, if_keeps, Bool-cases, if◌then◌else◌}
use devops_demo.Base.Integers.{ℤ, pos, negsuc, pos_part, neg_part}
use devops_demo.Base.Address.{has_char, is_empty}
use devops_demo.Base.Parse.{digits, unsigned, positive_int, negative_int, parse_int}

unfoldable pub digit_char : ℕ → Char
digit_char zero = "0"
digit_char (suc zero) = "1"
digit_char (suc (suc zero)) = "2"
digit_char (suc (suc (suc zero))) = "3"
digit_char (suc (suc (suc (suc zero)))) = "4"
digit_char (suc (suc (suc (suc (suc zero))))) = "5"
digit_char (suc (suc (suc (suc (suc (suc zero)))))) = "6"
digit_char (suc (suc (suc (suc (suc (suc (suc zero))))))) = "7"
digit_char (suc (suc (suc (suc (suc (suc (suc (suc zero)))))))) = "8"
digit_char (suc (suc (suc (suc (suc (suc (suc (suc (suc d))))))))) = "9"

-- The digits of a number before `out`; the first argument bounds how many there are.
unfoldable pub print_before : ℕ → ℕ → String → String
unfolding digit_char
print_before zero n out = out
print_before (suc more) n out =
    let rest = print_before more (n / 10) (digit_char (n % 10) ∷ out) in
    if ltb n 10 then digit_char n ∷ out else rest

-- An int64 has 20 digits at most (19 suffice).
unfoldable pub print_nat : ℕ → String
unfolding print_before
print_nat n = print_before 20 n []

unfoldable pub print_int : ℤ → String
print_int (pos n) = print_nat n
print_int (negsuc n) = "-" ∷ print_nat (n + 1)

-- The + of texts.
unfoldable pub append_text : String → String → String
append_text [] t = t
append_text (ch ∷ s) t = ch ∷ append_text s t
