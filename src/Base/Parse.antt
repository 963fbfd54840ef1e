-- ===== src/Base/Parse.antt =====
-- strconv.ParseInt(s, 10, 64), which is strconv.Atoi on a 64-bit platform: an optional sign and at
-- least one digit, in the range of an int64.
use Prim.Native.Nat.{ℕ, ◌+◌, ◌*◌, ◌-◌, ◌^◌, ◌<◌, ◌≤◌}
use Prim.Native.Char.{code}
use Prim.Native.String.{String, [], ◌∷◌}
use mathlib.Core.Path.{◌≡◌}
use mathlib.Core.Bool.{◌&&◌}
use mathlib.Core.Option.{Option, none, some}
use native.Mathlib.Omega.{arith}
use devops_demo.Base.Tests.{ltb, leb, nat_eq, if◌then◌else◌}
use devops_demo.Base.Integers.{ℤ, pos, negsuc, pos_part, neg_part}

unfoldable pub digits : ℕ → String → Option ℕ
digits n [] = some n
digits n (ch ∷ rest) =
    let c = code ch in
    let d = digits (n * 10 + (c - 48)) rest in if leb 48 c && leb c 57 then d else none

unfoldable pub unsigned : String → Option ℕ
unfolding digits
unsigned [] = none
unsigned (ch ∷ rest) = digits 0 (ch ∷ rest)

unfoldable pub positive_int : Option ℕ → Option ℤ
positive_int none = none
positive_int (some n) = if ltb n (2 ^ 63) then some (pos n) else none

unfoldable pub negative_int : Option ℕ → Option ℤ
negative_int none = none
negative_int (some n) =
    if nat_eq n 0 then some (pos 0) else if leb n (2 ^ 63) then some (negsuc (n - 1)) else none

unfoldable pub parse_int : String → Option ℤ
unfolding unsigned positive_int negative_int
parse_int [] = none
parse_int (ch ∷ rest) =
    let c = code ch in
    if nat_eq c 45
    then negative_int (unsigned rest)
    else if nat_eq c 43
    then positive_int (unsigned rest)
    else positive_int (unsigned (ch ∷ rest))

-- What is read fits into an int64.
pub parse_int_bounds :
    (text : String) (n : ℤ)
    → parse_int text ≡ some n
    → (pos_part n < 2 ^ 63) × (neg_part n ≤ 2 ^ 63)
unfolding parse_int positive_int negative_int
parse_int_bounds [] n h = absurd (ground arith)
parse_int_bounds (ch ∷ rest) n h = ground arith
