-- ===== src/Base/Decimal/Read.antt =====
-- strconv.ParseInt reads a decimal print back.
use Prim.Native.Nat.{ℕ, zero, suc, ◌+◌, ◌-◌, ◌*◌, ◌/◌, ◌%◌, ◌^◌, ◌<◌, ◌≤◌}
use Prim.Native.Char.{Char, code}
use Prim.Native.String.{String, [], ◌∷◌}
use mathlib.Core.Path.{◌≡◌, refl, ◌∙◌, ap, sym, subst}
use mathlib.Core.Logic.{inl, inr}
use mathlib.Core.Bool.{true, false, ◌&&◌}
use mathlib.Core.Option.{some}
use native.Mathlib.Omega.{arith}
use native.Mathlib.Numerals.{unary_clauses}
use devops_demo.Base.Tests.{ltb, leb, Bool-cases}
use devops_demo.Base.Integers.{ℤ, pos, negsuc, pos_part, neg_part}
use devops_demo.Base.Parse.{digits, unsigned, positive_int, negative_int, parse_int}
use devops_demo.Base.Decimal.{digit_char, print_before, print_nat, print_int}

code-digit_char : (d : ℕ) → d < 10 → code (digit_char d) ≡ 48 + d
unfolding digit_char
code-digit_char zero h = refl
code-digit_char (suc zero) h = refl
code-digit_char (suc (suc zero)) h = refl
code-digit_char (suc (suc (suc zero))) h = refl
code-digit_char (suc (suc (suc (suc zero)))) h = refl
code-digit_char (suc (suc (suc (suc (suc zero))))) h = refl
code-digit_char (suc (suc (suc (suc (suc (suc zero)))))) h = refl
code-digit_char (suc (suc (suc (suc (suc (suc (suc zero))))))) h = refl
code-digit_char (suc (suc (suc (suc (suc (suc (suc (suc zero)))))))) h = refl
code-digit_char (suc (suc (suc (suc (suc (suc (suc (suc (suc d))))))))) h = omega arith

tenth_fits : (n p : ℕ) → n < 10 * p → n / 10 < p
tenth_fits n p h = omega arith

is_digit : (d : ℕ) → d < 10 → (leb 48 (48 + d) && leb (48 + d) 57) ≡ true
is_digit d h = ground arith

digits-cons :
    (m d n : ℕ) (ch : Char) (out : String)
    → code ch ≡ 48 + d
    → d < 10
    → m * 10 + d ≡ n
    → digits m (ch ∷ out) ≡ digits n out
unfolding digits
digits-cons m d n ch out e h same =
    let value : m * 10 + (48 + d - 48) ≡ n = omega (arith, same) in rw (e, is_digit d h, value) refl

print_before-small :
    (more n : ℕ) (out : String)
    → ltb n 10 ≡ true
    → print_before (suc more) n out ≡ digit_char n ∷ out
unfolding print_before
print_before-small more n out small = rw small refl

print_before-big :
    (more n : ℕ) (out : String)
    → ltb n 10 ≡ false
    → print_before (suc more) n out ≡ print_before more (n / 10) (digit_char (n % 10) ∷ out)
unfolding print_before
print_before-big more n out big = rw big refl

pow_step : (k n : ℕ) → n < 10 ^ suc (suc k) → n / 10 < 10 ^ suc k
pow_step k n h = simp unary_clauses (let h' = simp unary_clauses at h in omega arith)

digits-print_before :
    (more n : ℕ) (out : String)
    → n < 10 ^ suc more
    → digits 0 (print_before (suc more) n out) ≡ digits n out
digits-print_before zero n out h =
    ap (digits 0) (print_before-small zero n out (ground arith))
    ∙ digits-cons 0 n n (digit_char n) out (code-digit_char n h) h (omega arith)
digits-print_before (suc more) n out h = elim (Bool-cases (ltb n 10)) [
  | inl small ↦
      let fits : n < 10 = ground arith in
      ap (digits 0) (print_before-small (suc more) n out small)
      ∙ digits-cons 0 n n (digit_char n) out (code-digit_char n fits) fits (omega arith)
  | inr big ↦
      ap (digits 0) (print_before-big (suc more) n out big)
      ∙ digits-print_before more (n / 10) (digit_char (n % 10) ∷ out) (pow_step more n h)
      ∙ digits-cons (n / 10) (n % 10) n (digit_char (n % 10)) out
          (code-digit_char (n % 10) (omega arith)) (omega arith) (omega arith)
]

-- A text whose first character is a digit.
unfoldable pub StartsWithDigit : String → Type 0
StartsWithDigit s =
    (ch : Char) × (rest : String) × (s ≡ ch ∷ rest) × (48 ≤ code ch) × (code ch ≤ 57)

digit_char-StartsWithDigit : (d : ℕ) (out : String) → d < 10 → StartsWithDigit (digit_char d ∷ out)
unfolding StartsWithDigit
digit_char-StartsWithDigit d out h =
    let c = code-digit_char d h in (digit_char d, out, refl, omega (arith, c), omega (arith, c))

print_before-StartsWithDigit :
    (more n : ℕ) (out : String)
    → n < 10 ^ suc more
    → StartsWithDigit (print_before (suc more) n out)
print_before-StartsWithDigit zero n out h =
    subst StartsWithDigit (sym (print_before-small zero n out (ground arith)))
      (digit_char-StartsWithDigit n out h)
print_before-StartsWithDigit (suc more) n out h = elim (Bool-cases (ltb n 10)) [
  | inl small ↦
      subst StartsWithDigit (sym (print_before-small (suc more) n out small))
        (digit_char-StartsWithDigit n out (ground arith))
  | inr big ↦
      subst StartsWithDigit (sym (print_before-big (suc more) n out big))
        (print_before-StartsWithDigit more (n / 10) (digit_char (n % 10) ∷ out) (pow_step more n h))
]

pub print_nat-StartsWithDigit : (n : ℕ) → n < 2 ^ 64 → StartsWithDigit (print_nat n)
unfolding print_nat
print_nat-StartsWithDigit n h = print_before-StartsWithDigit 19 n [] (omega arith)

digits-print_nat : (n : ℕ) → n < 2 ^ 64 → digits 0 (print_nat n) ≡ some n
unfolding print_nat digits
digits-print_nat n h = digits-print_before 19 n [] (omega arith)

unsigned-print_nat : (n : ℕ) → n < 2 ^ 64 → unsigned (print_nat n) ≡ some n
unfolding unsigned StartsWithDigit
unsigned-print_nat n h =
    let (ch, rest, text, low, high) = print_nat-StartsWithDigit n h in
    ap unsigned text ∙ ap (digits 0) (sym text) ∙ digits-print_nat n h

parse_digit_first :
    (ch : Char) (rest : String) (n : ℕ)
    → 48 ≤ code ch
    → unsigned (ch ∷ rest) ≡ some n
    → n < 2 ^ 63
    → parse_int (ch ∷ rest) ≡ some (pos n)
unfolding parse_int positive_int
parse_digit_first ch rest n low read h = ground arith

parse_positive :
    (s : String) (n : ℕ)
    → StartsWithDigit s
    → unsigned s ≡ some n
    → n < 2 ^ 63
    → parse_int s ≡ some (pos n)
unfolding StartsWithDigit
parse_positive s n (ch, rest, text, low, high) read h =
    ap parse_int text ∙ parse_digit_first ch rest n low (ap unsigned (sym text) ∙ read) h

parse_negative :
    (s : String) (n : ℕ)
    → unsigned s ≡ some (n + 1)
    → n + 1 ≤ 2 ^ 63
    → parse_int ("-" ∷ s) ≡ some (negsuc n)
unfolding parse_int negative_int
parse_negative s n read h = ground arith

-- ParseInt reads what %d prints of an int64.
pub parse_int-print_int :
    (n : ℤ) → pos_part n < 2 ^ 63 → neg_part n ≤ 2 ^ 63 → parse_int (print_int n) ≡ some n
unfolding print_int
parse_int-print_int (pos n) p q =
    parse_positive (print_nat n) n (print_nat-StartsWithDigit n (omega arith))
      (unsigned-print_nat n (omega arith)) p
parse_int-print_int (negsuc n) p q =
    parse_negative (print_nat (n + 1)) n (unsigned-print_nat (n + 1) (omega arith)) (omega arith)
