-- ===== src/Base/Table.antt =====
-- A table with a primary key, as an association list: rows in the order of insertion.
use devops_demo.Base.Tests.{is_some, if◌then◌else◌}
use devops_demo.Base.Keys.{Key}
use devops_demo.Base.Lists.{elem, has_duplicates, has_duplicates-append_one}
use mathlib.Core.Path.{◌≡◌, refl}
use mathlib.Core.Bool.{false}
use mathlib.Core.Option
use mathlib.Core.Option.{Option, none, some}
use mathlib.Core.List.{List, [], ◌∷◌, ◌++◌, map}
use native.Mathlib.Omega.{arith}

abbrev pub Table {ℓ κ} : Type ℓ → Type κ → Type (ℓ ⊔ κ)
Table K V = List (K × V)

module _ {ℓ κ} {K : Type ℓ} {V : Type κ} where
  abbrev pub keys : Table K V → List K
  keys t = map (λ r. r.0) t

  -- UPDATE of every row by a function of its key and its columns.
  unfoldable pub update_all : (K → V → V) → Table K V → Table K V
  update_all f [] = []
  update_all f ((k, v) ∷ t) = (k, f k v) ∷ update_all f t

module _ {ℓ κ} {K : Type ℓ} {V : Type κ} ⦃e : Key K⦄ where
  -- SELECT by the primary key.
  unfoldable pub lookup : K → Table K V → Option V
  lookup k [] = none
  lookup k ((j, v) ∷ t) = if e.same j k then some v else lookup k t

  -- INSERT ... ON CONFLICT (key) DO UPDATE: `f` gets the row that is there, if any.
  unfoldable pub upsert : K → (Option V → V) → Table K V → Table K V
  upsert k f [] = (k, f none) ∷ []
  upsert k f ((j, v) ∷ t) = if e.same j k then (j, f (some v)) ∷ t else (j, v) ∷ upsert k f t

  -- INSERT ... SELECT FROM a table of new rows, one upsert for each.
  unfoldable pub upsert_all {μ} :
      {D : Type μ} → (D → Option V → V) → Table K D → Table K V → Table K V
  upsert_all f [] t = t
  upsert_all f ((k, d) ∷ new) t = upsert_all f new (upsert k (f d) t)

  pub lookup-upsert :
      (k j : K) (f : Option V → V) (t : Table K V)
      → lookup j (upsert k f t) ≡ (if e.same k j then some (f (lookup k t)) else lookup j t)
  unfolding lookup upsert
  lookup-upsert k j f [] = refl
  lookup-upsert k j f ((i, v) ∷ t) =
      ground (arith, e.same_iff i k, e.same_iff i j, e.same_iff k j, lookup-upsert k j f t)

  pub lookup-update_all :
      (k : K) (f : K → V → V) (t : Table K V)
      → lookup k (update_all f t) ≡ Option.map (f k) (lookup k t)
  unfolding lookup update_all
  lookup-update_all k f [] = refl
  lookup-update_all k f ((j, v) ∷ t) = ground (arith, e.same_iff j k, lookup-update_all k f t)

  -- To write what is there already changes nothing.
  pub upsert_same :
      (k : K) (f : Option V → V) (t : Table K V) (v : V)
      → lookup k t ≡ some v
      → f (some v) ≡ v
      → upsert k f t ≡ t
  unfolding lookup upsert
  upsert_same k f [] v h p = absurd (ground arith)
  upsert_same k f ((j, w) ∷ t) v h p = ground (arith, upsert_same k f t v)

  pub elem-keys : (k : K) (t : Table K V) → elem k (keys t) ≡ is_some (lookup k t)
  unfolding lookup
  elem-keys k [] = ground arith
  elem-keys k ((j, v) ∷ t) = ground (arith, elem-keys k t)

  keys-upsert :
      (k : K) (f : Option V → V) (t : Table K V)
      → keys (upsert k f t) ≡ (if elem k (keys t) then keys t else keys t ++ k ∷ [])
  unfolding upsert
  keys-upsert k f [] = refl
  keys-upsert k f ((j, v) ∷ t) = ground (arith, keys-upsert k f t)

  pub keys-upsert-has_duplicates :
      (k : K) (f : Option V → V) (t : Table K V)
      → has_duplicates (keys t) ≡ false
      → has_duplicates (keys (upsert k f t)) ≡ false
  keys-upsert-has_duplicates k f t h =
      rw (keys-upsert k f t) (ground (arith, has_duplicates-append_one k (keys t)))

-- What an upsert of a new row, if there is one, makes of a row.
abbrev pub with_new {ℓ κ} :
    {D : Type ℓ} {V : Type κ} → (D → Option V → V) → Option D → Option V → Option V
with_new f none o = o
with_new f (some d) o = some (f d o)

module _ {ℓ κ μ} {K : Type ℓ} {V : Type κ} {D : Type μ} ⦃e : Key K⦄ where
  pub lookup-upsert_all :
      (f : D → Option V → V) (k : K) (new : Table K D) (t : Table K V)
      → has_duplicates (keys new) ≡ false
      → lookup k (upsert_all f new t) ≡ with_new f (lookup k new) (lookup k t)
  unfolding upsert_all lookup
  lookup-upsert_all f k [] t h = refl
  lookup-upsert_all f k ((j, d) ∷ new) t h = ground (
    arith,
    lookup-upsert_all f k new (upsert j (f d) t),
    lookup-upsert j k (f d) t,
    elem-keys j new,
    e.same_iff j k,
  )
