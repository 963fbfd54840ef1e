-- ===== src/Tests/Migrating.antt =====
-- Examples of the migration runner.
use devops_demo.Base.{◌≡◌, refl, none, List, [], ◌∷◌}
use devops_demo.Base.Decimal.{append_text}
use devops_demo.Store.Session.{fine, refused, unavailable}
use devops_demo.Store.Migrate.{
  Migration, Catalog, insert_migration, sort_migrations, attempt, commit_migration, apply_one,
  unless_error, migrate_one, migrate_all, migrate,
}
use devops_demo.Store.Migrate.Sorted.{IsAscending}
use mathlib.Core.List.{Perm}
use devops_demo.Store.Migrate.Once.{HasRun, migrate-HasRun}

abbrev migrations : List Migration
migrations =
    record { version = "0002_current_items"; sql = "CREATE TABLE current_items" }
    ∷ record { version = "0001_init"; sql = "CREATE TABLE item_events" }
    ∷ []

-- The commit of the second migration is refused.
abbrev catalog : Catalog
catalog = record {
  versions = [];
  executed = [];
  script =
      fine
      ∷ fine
      ∷ fine
      ∷ fine
      ∷ fine
      ∷ fine
      ∷ fine
      ∷ fine
      ∷ fine
      ∷ fine
      ∷ refused unavailable
      ∷ [];
}

abbrev half_migrated : Catalog
half_migrated = (migrate migrations catalog).1

first_is_executed : half_migrated.executed ≡ "CREATE TABLE item_events" ∷ []
unfolding migrate migrate_all migrate_one apply_one attempt commit_migration unless_error
    sort_migrations insert_migration append_text
first_is_executed = refl

migrate-HasRun_example :
    (ms : List Migration) × Perm ms migrations
    × IsAscending ms
    × HasRun ms catalog (migrate migrations catalog)
migrate-HasRun_example = migrate-HasRun migrations catalog

rerun_ends : (migrate migrations half_migrated).0 ≡ none
unfolding migrate migrate_all migrate_one apply_one attempt commit_migration unless_error
    sort_migrations insert_migration append_text
rerun_ends = refl
