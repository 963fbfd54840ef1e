-- ===== src/Store/Migrate/Sorted.antt =====
-- The order in which the migrations are taken.
use Prim.Native.Nat.{Ordering}
use Prim.Native.String.{compare}
use mathlib.Core.List.{Perm}
use mathlib.Core.List.Perm
use devops_demo.Base.{
  String, ◌≡◌, ◌≢◌, sym, ◌∙◌, true, false, Bool-cases, inl, inr, List, [], ◌∷◌, arith,
}
use devops_demo.Base.Decimal.{append_text}
use devops_demo.Base.TextOrder.{turned, compare-turned}
use devops_demo.Store.Reads.{is_lt, text_lt}
use devops_demo.Store.Migrate.{Migration, file_name, insert_migration, sort_migrations}

-- The file names ascend: none comes after the next in the order of the texts.
abbrev pub Precedes : Migration → List Migration → Type 0
Precedes m [] = Unit
Precedes m (n ∷ ms) =
    compare (append_text m.version ".sql") (append_text n.version ".sql") ≢ Ordering.gt

abbrev pub IsAscending : List Migration → Type 0
IsAscending [] = Unit
IsAscending (m ∷ ms) = Precedes m ms × IsAscending ms

not_gt_of_lt : (o : Ordering) → is_lt o ≡ true → o ≢ Ordering.gt
not_gt_of_lt Ordering.lt h e = absurd (ground arith)
not_gt_of_lt Ordering.eq h e = absurd (ground arith)
not_gt_of_lt Ordering.gt h e = absurd (ground arith)

not_gt_turned : (o : Ordering) → is_lt o ≡ false → turned o ≢ Ordering.gt
not_gt_turned Ordering.lt h e = absurd (ground arith)
not_gt_turned Ordering.eq h e = absurd (ground arith)
not_gt_turned Ordering.gt h e = absurd (ground arith)

text_lt-before : (a b : String) → text_lt a b ≡ true → compare a b ≢ Ordering.gt
text_lt-before a b h = not_gt_of_lt (compare a b) h

text_lt-after : (a b : String) → text_lt a b ≡ false → compare b a ≢ Ordering.gt
text_lt-after a b h e = not_gt_turned (compare a b) h (sym (compare-turned a b) ∙ e)

insert_migration-Precedes :
    (f m : Migration) (ms : List Migration)
    → Precedes f (m ∷ [])
    → Precedes f ms
    → Precedes f (insert_migration m ms)
unfolding insert_migration
insert_migration-Precedes f m [] h k = h
insert_migration-Precedes f m (n ∷ ms) h k =
    elim (Bool-cases (text_lt (file_name n) (file_name m))) [
      | inl before ↦ rw before k
      | inr after ↦ rw after h
    ]

insert_migration-IsAscending :
    (m : Migration) (ms : List Migration) → IsAscending ms → IsAscending (insert_migration m ms)
unfolding insert_migration
insert_migration-IsAscending m [] h = (tt, tt)
insert_migration-IsAscending m (f ∷ ms) (first, rest) =
    elim (Bool-cases (text_lt (file_name f) (file_name m))) [
      | inl before ↦ rw before (
        insert_migration-Precedes f m ms (text_lt-before (file_name f) (file_name m) before) first,
        insert_migration-IsAscending m ms rest,
      )
      | inr after ↦ rw after (text_lt-after (file_name f) (file_name m) after, (first, rest))
    ]

pub sort_migrations-IsAscending : (ms : List Migration) → IsAscending (sort_migrations ms)
unfolding sort_migrations
sort_migrations-IsAscending [] = tt
sort_migrations-IsAscending (m ∷ ms) =
    insert_migration-IsAscending m (sort_migrations ms) (sort_migrations-IsAscending ms)

insert_migration-perm :
    (m : Migration) (ms : List Migration) → Perm (insert_migration m ms) (m ∷ ms)
unfolding insert_migration
insert_migration-perm m [] = Perm.rfl
insert_migration-perm m (f ∷ ms) = elim (Bool-cases (text_lt (file_name f) (file_name m))) [
  | inl before ↦
      rw before (Perm.trans (Perm.cons f (insert_migration-perm m ms)) (Perm.swap m f ms))
  | inr after ↦ rw after Perm.rfl
]

pub sort_migrations-perm : (ms : List Migration) → Perm (sort_migrations ms) ms
unfolding sort_migrations
sort_migrations-perm [] = Perm.rfl
sort_migrations-perm (m ∷ ms) =
    Perm.trans (insert_migration-perm m (sort_migrations ms))
      (Perm.cons m (sort_migrations-perm ms))
