-- ===== src/Store/Marker.antt =====
-- internal/store/seed.go: UpsertSeedMarker and GetSeedMarker, over the single-row table seed_marker.
use devops_demo.Base.{ℕ, ◌≡◌, Option, some, arith}
use devops_demo.Store.Schema.{SeedMarker, Tables}
use devops_demo.Store.Session.{Session, Result, ok, Tx, autocommit}

module _ {F : Type 0} where
  -- INSERT ... VALUES (1, ...) ON CONFLICT (id) DO UPDATE SET every column.
  unfoldable pub write_marker : SeedMarker F → Tables F → Result (Unit {0} × Tables F)
  write_marker m t = ok (tt, record t { seed_marker = some m })

  unfoldable pub upsert_seed_marker : (ℕ → ℕ) → SeedMarker F → Tx F (Unit {0})
  unfolding autocommit write_marker
  upsert_seed_marker stamp m =
      autocommit "upsert seed_marker" (write_marker (record m { seeded_at = stamp m.seeded_at }))

  -- SELECT ... WHERE id = 1: `none` is the found=false of pgx.ErrNoRows.
  unfoldable pub get_seed_marker : Tx F (Option (SeedMarker F))
  unfolding autocommit
  get_seed_marker = autocommit "get seed_marker" (λ t. ok (t.seed_marker, t))

  -- After an UpsertSeedMarker that returned no error, a GetSeedMarker that returns no error finds
  -- that marker, with its time as the driver encoded it, whatever marker was there before.
  pub get_seed_marker-upsert :
      (stamp : ℕ → ℕ) (m : SeedMarker F) (s s' q q' : Session F) (u : Unit {0})
      (o : Option (SeedMarker F))
      → upsert_seed_marker stamp m s ≡ (ok u, s')
      → q.tables ≡ s'.tables
      → get_seed_marker q ≡ (ok o, q')
      → (o ≡ some (record m { seeded_at = stamp m.seeded_at })) × (q'.tables ≡ s'.tables)
  unfolding upsert_seed_marker get_seed_marker
  get_seed_marker-upsert stamp m s s' q q' u o h k g = ground arith
