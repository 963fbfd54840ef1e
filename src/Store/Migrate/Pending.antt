-- ===== src/Store/Migrate/Pending.antt =====
-- The migrations that a run of the runner still has to apply.
use devops_demo.Base.{
  String, ◌≡◌, inl, inr, refl, Bool, true, false, ◌&&◌, ◌||◌, Bool-cases, List, [], ◌∷◌, ◌++◌,
  text_key, text_eq_iff, elem, if◌then◌else◌, arith, elem-append_one, map,
}
use mathlib.Core.List.{append_assoc}
use devops_demo.Store.Migrate.{Migration}

-- The migrations that are not recorded in `vs`, each version once.
unfoldable pub pending : List Migration → List String → List Migration
pending [] vs = []
pending (m ∷ ms) vs =
    let skipped = pending ms vs in
    let run = pending ms (vs ++ m.version ∷ []) in if elem m.version vs then skipped else m ∷ run

abbrev pub versions_of : List Migration → List String
versions_of = map (λ m. m.version)

abbrev pub scripts_of : List Migration → List String
scripts_of = map (λ m. m.sql)

pub pending-known :
    (m : Migration) (ms : List Migration) (vs : List String)
    → elem m.version vs ≡ true
    → pending (m ∷ ms) vs ≡ pending ms vs
unfolding pending
pending-known m ms vs h = rw h refl

pub pending-missing :
    (m : Migration) (ms : List Migration) (vs : List String)
    → elem m.version vs ≡ false
    → pending (m ∷ ms) vs ≡ m ∷ pending ms (vs ++ m.version ∷ [])
unfolding pending
pending-missing m ms vs h = rw h refl

-- Every version is among `vs`.
unfoldable pub all_recorded : List Migration → List String → Bool
all_recorded [] vs = true
all_recorded (m ∷ ms) vs = elem m.version vs && all_recorded ms vs

elem-append : (v : String) (xs ys : List String) → elem v (xs ++ ys) ≡ (elem v xs || elem v ys)
elem-append v [] ys = refl
elem-append v (x ∷ xs) ys = ground (arith, elem-append v xs ys)

pub pending-recorded :
    (ms : List Migration) (vs : List String) → all_recorded ms vs ≡ true → pending ms vs ≡ []
unfolding pending all_recorded
pending-recorded [] vs h = refl
pending-recorded (m ∷ ms) vs h = ground (arith, pending-recorded ms vs)

pub all_recorded-pending :
    (ms : List Migration) (vs : List String)
    → all_recorded ms (vs ++ versions_of (pending ms vs)) ≡ true
unfolding pending all_recorded
all_recorded-pending [] vs = refl
all_recorded-pending (m ∷ ms) vs = elim (Bool-cases (elem m.version vs)) [
  | inl known ↦ rw known (
      ground
        (arith, all_recorded-pending ms vs, elem-append m.version vs (versions_of (pending ms vs))))
  | inr missing ↦
      let vs₁ = vs ++ m.version ∷ [] in
      rw missing (
        rw (← append_assoc vs (m.version ∷ []) (versions_of (pending ms vs₁))) (
          ground (
            arith,
            all_recorded-pending ms vs₁,
            elem-append m.version vs₁ (versions_of (pending ms vs₁)),
            elem-append_one m.version m.version vs,
            text_eq_iff m.version m.version,
          )))
]
