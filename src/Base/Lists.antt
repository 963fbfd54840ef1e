-- ===== src/Base/Lists.antt =====
-- Lists over native numbers, and Boolean membership.
use Prim.Native.Nat.{ℕ, suc, ◌+◌}
use mathlib.Core.Path.{◌≡◌}
use mathlib.Core.Bool.{Bool, true, false, ◌||◌}
use mathlib.Core.List.{List, [], ◌∷◌, ◌++◌}
use native.Mathlib.Omega.{arith}
use devops_demo.Base.Keys.{Key}

module _ {ℓ} {A : Type ℓ} where
  abbrev pub length : List A → ℕ
  length [] = 0
  length (x ∷ xs) = suc (length xs)

  pub length-append : (xs ys : List A) → length (xs ++ ys) ≡ length xs + length ys
  length-append [] ys = omega arith
  length-append (x ∷ xs) ys = omega (arith, length-append xs ys)

  abbrev pub All {κ} : (A → Type κ) → List A → Type κ
  All P [] = Unit
  All P (x ∷ xs) = P x × All P xs

module _ {ℓ} {A : Type ℓ} ⦃k : Key A⦄ where
  abbrev pub elem : A → List A → Bool
  elem a [] = false
  elem a (x ∷ xs) = k.same x a || elem a xs

  abbrev pub has_duplicates : List A → Bool
  has_duplicates [] = false
  has_duplicates (x ∷ xs) = elem x xs || has_duplicates xs

  pub elem-append_one : (a b : A) (xs : List A) → elem a (xs ++ b ∷ []) ≡ (elem a xs || k.same b a)
  elem-append_one a b [] = ground arith
  elem-append_one a b (x ∷ xs) = ground (arith, elem-append_one a b xs)

  -- A list without duplicates gets none by a new element at its end.
  pub has_duplicates-append_one :
      (b : A) (xs : List A)
      → elem b xs ≡ false
      → has_duplicates xs ≡ false
      → has_duplicates (xs ++ b ∷ []) ≡ false
  has_duplicates-append_one b [] h d = ground arith
  has_duplicates-append_one b (x ∷ xs) h d = ground (
    arith,
    elem-append_one x b xs,
    has_duplicates-append_one b xs,
    k.same_iff b x,
    k.same_iff x b,
  )

  pub All-elem {κ} : (P : A → Type κ) (xs : List A) → ((a : A) → elem a xs ≡ true → P a) → All P xs
  All-elem P [] h = tt
  All-elem P (x ∷ xs) h =
      (h x (ground (arith, k.same_iff x x)), All-elem P xs (λ a m. h a (ground arith)))
