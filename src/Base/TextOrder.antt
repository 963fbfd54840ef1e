-- ===== src/Base/TextOrder.antt =====
-- The order of texts: turning a comparison round turns its answer round.
use Prim.Native.Nat.compare as compare_ℕ
use Prim.Native.Nat.{ℕ, zero, suc, Ordering, compare as compare_ℕ}
use Prim.Native.Char.{code}
use Prim.Native.String.compare
use Prim.Native.String.{String, [], ◌∷◌, compare, then}
use mathlib.Core.Path.{◌≡◌, refl, sym, ap, ◌∙◌}

abbrev pub turned : Ordering → Ordering
turned Ordering.lt = Ordering.gt
turned Ordering.eq = Ordering.eq
turned Ordering.gt = Ordering.lt

compare_ℕ-turned : (m n : ℕ) → compare_ℕ n m ≡ turned (compare_ℕ m n)
compare_ℕ-turned zero zero = compare_ℕ.zero-zero ∙ ap turned (sym compare_ℕ.zero-zero)
compare_ℕ-turned zero (suc n) = compare_ℕ.suc-zero n ∙ ap turned (sym (compare_ℕ.zero-suc n))
compare_ℕ-turned (suc m) zero = compare_ℕ.zero-suc m ∙ ap turned (sym (compare_ℕ.suc-zero m))
compare_ℕ-turned (suc m) (suc n) =
    compare_ℕ.suc-suc n m ∙ compare_ℕ-turned m n ∙ ap turned (sym (compare_ℕ.suc-suc m n))

then-turned : (o p : Ordering) → turned (then o p) ≡ then (turned o) (turned p)
then-turned Ordering.lt p = refl
then-turned Ordering.eq p = refl
then-turned Ordering.gt p = refl

pub compare-turned : (a b : String) → compare b a ≡ turned (compare a b)
compare-turned [] [] = compare.nil-nil ∙ ap turned (sym compare.nil-nil)
compare-turned [] (d ∷ t) = compare.cons-nil d t ∙ ap turned (sym (compare.nil-cons d t))
compare-turned (c ∷ s) [] = compare.nil-cons c s ∙ ap turned (sym (compare.cons-nil c s))
compare-turned (c ∷ s) (d ∷ t) =
    compare.cons-cons d c t s
    ∙ ap (λ o. then o (compare t s)) (compare_ℕ-turned (code c) (code d))
    ∙ ap (then (turned (compare_ℕ (code c) (code d)))) (compare-turned s t)
    ∙ sym (then-turned (compare_ℕ (code c) (code d)) (compare s t))
    ∙ ap turned (sym (compare.cons-cons c d s t))
