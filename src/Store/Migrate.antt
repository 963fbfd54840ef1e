-- ===== src/Store/Migrate.antt =====
-- internal/store/migrate.go: Migrate and applyOne. The catalog is what the runner reads and writes
-- of the database: the rows of schema_migrations, in the order of their insertion, and the scripts
-- that have taken effect.
pub mod Pending
pub mod Once
pub mod Sorted
use devops_demo.Base.{
  String, Bool, true, false, Option, none, some, List, [], ◌∷◌, ◌++◌, text_key, elem, if◌then◌else◌,
}
use devops_demo.Base.Decimal.{append_text}
use devops_demo.Store.Session.{
  Error, Reply, fine, refused, lost, raised, wrap, database, reply, advance,
}
use devops_demo.Store.Reads.{text_lt}

-- An embedded file NAME.sql, under its name without the suffix.
pub record Migration : Type 0 where
  pub version : String
  pub sql : String

pub record Catalog : Type 0 where
  pub versions : List String
  pub executed : List String
  pub script : List Reply

-- The name of the file.
abbrev pub file_name : Migration → String
file_name m = append_text m.version ".sql"

-- sort.Strings on the names.
unfoldable pub insert_migration : Migration → List Migration → List Migration
insert_migration m [] = m ∷ []
insert_migration m (first ∷ ms) =
    let rest = insert_migration m ms in
    if text_lt (file_name first) (file_name m) then first ∷ rest else m ∷ first ∷ ms

unfoldable pub sort_migrations : List Migration → List Migration
unfolding insert_migration
sort_migrations [] = []
sort_migrations (m ∷ ms) = insert_migration m (sort_migrations ms)

abbrev pub next_reply : Catalog → Catalog
next_reply c = record c { script = advance c.script }

-- The sql and the row of schema_migrations take effect.
abbrev pub recorded_in : Migration → Catalog → Catalog
recorded_in m c = record c {
  versions = c.versions ++ m.version ∷ [];
  executed = c.executed ++ m.sql ∷ [];
}

-- A statement whose effect, if any, is still undone by a rollback.
unfoldable pub attempt :
    Reply → String → (Catalog → Option Error × Catalog) → Catalog → Option Error × Catalog
attempt fine text next c = next (next_reply c)
attempt (refused e) text next c = (some (wrap text (raised (database e))), next_reply c)
attempt (lost e) text next c = (some (wrap text (raised (database e))), next_reply c)

-- tx.Commit
unfoldable pub commit_migration : Reply → Migration → Catalog → Option Error × Catalog
commit_migration fine m c = (none, recorded_in m (next_reply c))
commit_migration (refused e) m c =
    (some (wrap "commit migration" (raised (database e))), next_reply c)
commit_migration (lost e) m c =
    (some (wrap "commit migration" (raised (database e))), recorded_in m (next_reply c))

-- The sql of a migration is taken to run on any database that the earlier ones have run on; the
-- INSERT meets no row of its version, since Migrate has just looked.
unfoldable pub apply_one : Migration → Catalog → Option Error × Catalog
unfolding attempt commit_migration
apply_one m c =
    attempt (reply c.script) "begin migration"
      (λ c₁.
        attempt (reply c₁.script) "apply migration"
          (λ c₂.
            attempt (reply c₂.script) "record migration"
              (λ c₃. commit_migration (reply c₃.script) m c₃) c₂)
          c₁)
      c

-- A return from inside the loop.
unfoldable pub unless_error :
    (Catalog → Option Error × Catalog) → Option Error × Catalog → Option Error × Catalog
unless_error next (none, c) = next c
unless_error next (some e, c) = (some e, c)

-- SELECT EXISTS, and applyOne unless the version is there.
unfoldable pub migrate_one : Migration → Catalog → Option Error × Catalog
unfolding apply_one
migrate_one m c =
    attempt (reply c.script) "check migration"
      (λ c₁. if elem m.version c₁.versions then (none, c₁) else apply_one m c₁) c

unfoldable pub migrate_all : List Migration → Catalog → Option Error × Catalog
unfolding migrate_one unless_error
migrate_all [] c = (none, c)
migrate_all (m ∷ ms) c = unless_error (migrate_all ms) (migrate_one m c)

-- CREATE TABLE IF NOT EXISTS schema_migrations changes no row; the embedded directory can be read.
unfoldable pub migrate : List Migration → Catalog → Option Error × Catalog
unfolding attempt migrate_all sort_migrations
migrate files c =
    attempt (reply c.script) "create schema_migrations" (migrate_all (sort_migrations files)) c
