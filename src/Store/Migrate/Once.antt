-- ===== src/Store/Migrate/Once.antt =====
-- Each migration takes effect once, whatever fails in between.
use devops_demo.Base.{
  ◌≡◌, ◌⊎◌, inl, inr, refl, sym, ◌∙◌, ap, true, false, Option, none, some, List, [], ◌∷◌, ◌++◌,
  text_key, text_eq_iff, elem, arith, elem-append_one,
}
use mathlib.Core.List.{append_assoc, append-nil, Perm}
use devops_demo.Store.Session.{Error, Reply, fine, refused, lost, reply}
use devops_demo.Store.Migrate.{
  Migration, Catalog, sort_migrations, attempt, commit_migration, apply_one, unless_error,
  migrate_one, migrate_all, migrate, next_reply,
}
use devops_demo.Store.Migrate.Sorted.{
  IsAscending, sort_migrations-perm, sort_migrations-IsAscending,
}
use devops_demo.Store.Migrate.Pending.{
  pending, versions_of, scripts_of, pending-known, pending-missing, pending-recorded,
  all_recorded-pending,
}

-- One step of the runner: nothing has changed, or the migration was missing and is now recorded.
abbrev Stepped : Migration → Catalog → Catalog → Type 0
Stepped m c c' =
    ((c'.versions ≡ c.versions) × (c'.executed ≡ c.executed))
    ⊎ ((elem m.version c.versions ≡ false)
        × (c'.versions ≡ c.versions ++ m.version ∷ [])
        × (c'.executed ≡ c.executed ++ m.sql ∷ []))

migrate_one-Stepped : (m : Migration) (c : Catalog) → Stepped m c (migrate_one m c).1
unfolding migrate_one apply_one attempt commit_migration
migrate_one-Stepped m c = ground arith

-- Without an error the migration is recorded.
migrate_one-none :
    (m : Migration) (c : Catalog)
    → (migrate_one m c).0 ≡ none
    → elem m.version (migrate_one m c).1.versions ≡ true
unfolding migrate_one apply_one attempt commit_migration
migrate_one-none m c h =
    ground (arith, elem-append_one m.version m.version c.versions, text_eq_iff m.version m.version)

-- The first of the pending migrations, `done`, have taken effect and are recorded; without an error
-- there are no others.
pub record HasRun (ms : List Migration) (c : Catalog) (r : Option Error × Catalog) : Type 0 where
  pub done : List Migration
  pub rest : List Migration
  pub split : done ++ rest ≡ pending ms c.versions
  pub versions : r.1.versions ≡ c.versions ++ versions_of done
  pub executed : r.1.executed ≡ c.executed ++ scripts_of done
  pub complete : r.0 ≡ none → rest ≡ []

-- The step made no change: the rest of the run decides.
HasRun-known :
    (m : Migration) (ms : List Migration) (c c₁ : Catalog) (r : Option Error × Catalog)
    → c₁.versions ≡ c.versions
    → c₁.executed ≡ c.executed
    → elem m.version c.versions ≡ true
    → HasRun ms c₁ r
    → HasRun (m ∷ ms) c r
HasRun-known m ms c c₁ r v e known h = record {
  done = h.done;
  rest = h.rest;
  split = h.split ∙ ap (pending ms) v ∙ sym (pending-known m ms c.versions known);
  versions = h.versions ∙ ap (◌++ versions_of h.done) v;
  executed = h.executed ∙ ap (◌++ scripts_of h.done) e;
  complete = h.complete;
}

HasRun-missing :
    (m : Migration) (ms : List Migration) (c c₁ : Catalog) (r : Option Error × Catalog)
    → c₁.versions ≡ c.versions ++ m.version ∷ []
    → c₁.executed ≡ c.executed ++ m.sql ∷ []
    → elem m.version c.versions ≡ false
    → HasRun ms c₁ r
    → HasRun (m ∷ ms) c r
HasRun-missing m ms c c₁ r v e missing h = record {
  done = m ∷ h.done;
  rest = h.rest;
  split = ap (m ∷◌) (h.split ∙ ap (pending ms) v) ∙ sym (pending-missing m ms c.versions missing);
  versions =
      h.versions
      ∙ ap (◌++ versions_of h.done) v
      ∙ append_assoc c.versions (m.version ∷ []) (versions_of h.done);
  executed =
      h.executed
      ∙ ap (◌++ scripts_of h.done) e
      ∙ append_assoc c.executed (m.sql ∷ []) (scripts_of h.done);
  complete = h.complete;
}

-- The step failed.
HasRun-failed :
    (m : Migration) (ms : List Migration) (c c₁ : Catalog) (e : Error)
    → Stepped m c c₁
    → HasRun (m ∷ ms) c (some e, c₁)
HasRun-failed m ms c c₁ e (inl (v, x)) = record {
  done = [];
  rest = pending (m ∷ ms) c.versions;
  split = refl;
  versions = v ∙ sym (append-nil _);
  executed = x ∙ sym (append-nil _);
  complete = λ h. absurd (ground arith);
}
HasRun-failed m ms c c₁ e (inr (missing, v, x)) = record {
  done = m ∷ [];
  rest = pending ms (c.versions ++ m.version ∷ []);
  split = sym (pending-missing m ms c.versions missing);
  versions = v;
  executed = x;
  complete = λ h. absurd (ground arith);
}

migrate_all-HasRun : (ms : List Migration) (c : Catalog) → HasRun ms c (migrate_all ms c)
unfolding migrate_all unless_error pending
migrate_all-HasRun [] c = record {
  done = [];
  rest = [];
  split = refl;
  versions = sym (append-nil _);
  executed = sym (append-nil _);
  complete = λ h. refl;
}
migrate_all-HasRun (m ∷ ms) c =
    go (migrate_one m c) (migrate_one-Stepped m c) (migrate_one-none m c) (migrate_all-HasRun ms)
  where
    go :
        (r : Option Error × Catalog)
        → Stepped m c r.1
        → (r.0 ≡ none → elem m.version r.1.versions ≡ true)
        → ((c₁ : Catalog) → HasRun ms c₁ (migrate_all ms c₁))
        → HasRun (m ∷ ms) c (unless_error (migrate_all ms) r)
    go (none, c₁) (inl (v, x)) found next =
        HasRun-known m ms c c₁ _ v x (rw (← v) (found refl)) (next c₁)
    go (none, c₁) (inr (missing, v, x)) found next =
        HasRun-missing m ms c c₁ _ v x missing (next c₁)
    go (some e, c₁) step found next = HasRun-failed m ms c c₁ e step

nothing_ran :
    (ms : List Migration) (c c₁ : Catalog) (e : Error)
    → c₁.versions ≡ c.versions
    → c₁.executed ≡ c.executed
    → HasRun ms c (some e, c₁)
nothing_ran ms c c₁ e v x = record {
  done = [];
  rest = pending ms c.versions;
  split = refl;
  versions = v ∙ sym (append-nil _);
  executed = x ∙ sym (append-nil _);
  complete = λ h. absurd (ground arith);
}

migrate_sorted-HasRun :
    (files : List Migration) (c : Catalog) → HasRun (sort_migrations files) c (migrate files c)
unfolding migrate attempt
migrate_sorted-HasRun files c = go (reply c.script)
  where
    go :
        (a : Reply)
        → HasRun
            (sort_migrations files)
            c
            (attempt a "create schema_migrations" (migrate_all (sort_migrations files)) c)
    go fine =
        let h = migrate_all-HasRun (sort_migrations files) (next_reply c) in
        record {
          done = h.done;
          rest = h.rest;
          split = h.split;
          versions = h.versions;
          executed = h.executed;
          complete = h.complete;
        }
    go (refused e) = nothing_ran (sort_migrations files) c (next_reply c) _ refl refl
    go (lost e) = nothing_ran (sort_migrations files) c (next_reply c) _ refl refl

-- Whatever the database answers: the embedded files, each of them once and in the ascending order
-- of their names, are a list of which Migrate adds to schema_migrations and executes, in this order
-- and each version once, the first of the migrations that were not recorded; when it returns no
-- error, these are all of them.
pub migrate-HasRun :
    (files : List Migration) (c : Catalog)
    → (ms : List Migration) × Perm ms files × IsAscending ms × HasRun ms c (migrate files c)
migrate-HasRun files c = (
  sort_migrations files,
  sort_migrations-perm files,
  sort_migrations-IsAscending files,
  migrate_sorted-HasRun files c,
)

first_empty : (xs ys : List Migration) → xs ++ ys ≡ [] → xs ≡ []
first_empty [] ys h = refl
first_empty (x ∷ xs) ys h = absurd (ground arith)

-- When Migrate has returned without an error, running it again on the catalog it left executes
-- nothing and records nothing, whatever the database answers then.
pub migrate_again :
    (files : List Migration) (c d : Catalog)
    → (migrate files c).0 ≡ none
    → d.versions ≡ (migrate files c).1.versions
    → ((migrate files d).1.versions ≡ d.versions) × ((migrate files d).1.executed ≡ d.executed)
migrate_again files c d ended same =
    let ms = sort_migrations files in
    let first = migrate_sorted-HasRun files c in
    let second = migrate_sorted-HasRun files d in
    let all : first.done ≡ pending ms c.versions =
      sym (append-nil _) ∙ ap (first.done ++◌) (sym (first.complete ended)) ∙ first.split in
    let left : d.versions ≡ c.versions ++ versions_of (pending ms c.versions) =
      same ∙ first.versions ∙ ap (λ x. c.versions ++ versions_of x) all in
    let none_pending : pending ms d.versions ≡ [] =
      pending-recorded ms d.versions (rw left (all_recorded-pending ms c.versions)) in
    let none_done : second.done ≡ [] =
      first_empty second.done second.rest (second.split ∙ none_pending) in
    (
      second.versions ∙ ap (λ x. d.versions ++ versions_of x) none_done ∙ append-nil _,
      second.executed ∙ ap (λ x. d.executed ++ scripts_of x) none_done ∙ append-nil _,
    )
