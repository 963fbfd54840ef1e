-- ===== src/Tests/Storing.antt =====
-- Examples of the store's calls but the batch.
use devops_demo.Base.{
  ℕ, ◌≡◌, refl, true, false, none, some, [], ◌∷◌, pos, arith, ℤ, length, int_key, nat_key, text_key,
  pair_key,
}
use devops_demo.Base.Table.{lookup, upsert}
use devops_demo.Store.Schema.{SeedMarker}
use devops_demo.Store.Session.{Session, ok, exec, transaction, autocommit}
use devops_demo.Store.Ingest.{
  known_type, same_event, has_event, trunc_hour, insert_event, upsert_bucket, upsert_current_item,
  count_inserted, ingest_row, stored, ingest_event, bucket_of, add_count, row_of, tombstone_of,
}
use devops_demo.Store.Ingest.Replay.{ingest_event-replay}
use devops_demo.Store.Reconcile.{
  reconcile_snapshot, reconcile_rows, upsert_items, upsert_item, tombstone_missing, count_stale,
}
use devops_demo.Store.Reconcile.Effect.{reconcile_snapshot-reconcile_row}
use devops_demo.Store.Reconcile.Rows.{reconcile_row, snapshot_name}
use devops_demo.Store.Retention.{delete_older, count_older, delete_events, delete_events_older_than}
use devops_demo.Store.Retention.Effect.{ingest_event-expired}
use devops_demo.Store.Marker.{upsert_seed_marker, write_marker, get_seed_marker}
use devops_demo.Store.Reads.{stats_last24h, order_stats, group_stats, in_window, insert_stat}
use devops_demo.Tests.{to_micros, seconds, lamp_created, empty_session, snapshot}

abbrev after_lamp : Session ℕ
after_lamp = (ingest_event to_micros lamp_created empty_session).1

lamp_is_new : ingest_event to_micros lamp_created empty_session ≡ (ok true, after_lamp)
unfolding ingest_event ingest_row insert_event upsert_bucket upsert_current_item count_inserted
    known_type has_event same_event stored trunc_hour exec transaction
lamp_is_new = refl

abbrev after_repeat : Session ℕ
after_repeat = (ingest_event to_micros lamp_created after_lamp).1

lamp_is_known : ingest_event to_micros lamp_created after_lamp ≡ (ok false, after_repeat)
unfolding ingest_event ingest_row insert_event upsert_bucket upsert_current_item count_inserted
    known_type has_event same_event stored trunc_hour exec transaction
lamp_is_known = refl

ingest_event-replay_example : (false ≡ false) × (after_repeat.tables ≡ after_lamp.tables)
ingest_event-replay_example =
    ingest_event-replay to_micros lamp_created empty_session after_lamp after_lamp after_repeat true
      false lamp_is_new refl lamp_is_known

-- The lamp is not in the snapshot, the chair is new in it.
abbrev after_snapshot : Session ℕ
after_snapshot = (reconcile_snapshot to_micros snapshot (seconds 20) after_lamp).1

snapshot_is_reconciled :
    reconcile_snapshot to_micros snapshot (seconds 20) after_lamp
    ≡ (ok (record { upserted = 2; tombstoned = 1 }), after_snapshot)
unfolding reconcile_snapshot reconcile_rows upsert_items upsert_item tombstone_missing count_stale
    lookup upsert row_of tombstone_of ingest_event ingest_row insert_event upsert_bucket
    upsert_current_item count_inserted known_type has_event same_event stored trunc_hour exec
    transaction
snapshot_is_reconciled = refl

reconcile_snapshot-reconcile_row_example :
    (◌≡◌ {A = ℕ} 2 (length snapshot))
    × ((id : ℤ)
        → lookup id after_snapshot.tables.current_items
          ≡ reconcile_row
              (to_micros (seconds 20))
              (snapshot_name id snapshot none)
              (lookup id after_lamp.tables.current_items))
reconcile_snapshot-reconcile_row_example =
    reconcile_snapshot-reconcile_row to_micros snapshot (seconds 20) after_lamp after_snapshot
      (record { upserted = 2; tombstoned = 1 }) snapshot_is_reconciled

abbrev expired : Session ℕ
expired = (delete_events_older_than to_micros (seconds 100) after_lamp).1

lamp_is_expired : delete_events_older_than to_micros (seconds 100) after_lamp ≡ (ok 1, expired)
unfolding delete_events_older_than delete_events delete_older count_older autocommit ingest_event
    ingest_row insert_event upsert_bucket upsert_current_item count_inserted known_type has_event
    same_event stored trunc_hour exec transaction
lamp_is_expired = refl

abbrev replayed : Session ℕ
replayed = (ingest_event to_micros lamp_created expired).1

lamp_is_new_again : ingest_event to_micros lamp_created expired ≡ (ok true, replayed)
unfolding delete_events_older_than delete_events delete_older count_older autocommit ingest_event
    ingest_row insert_event upsert_bucket upsert_current_item count_inserted known_type has_event
    same_event stored trunc_hour exec transaction
lamp_is_new_again = refl

ingest_event-expired_example :
    (true ≡ true)
    × (lookup (bucket_of (stored to_micros lamp_created)) replayed.tables.event_buckets
        ≡ some (
            add_count 1
              (lookup (bucket_of (stored to_micros lamp_created)) after_lamp.tables.event_buckets)))
ingest_event-expired_example =
    ingest_event-expired to_micros (seconds 100) lamp_created empty_session after_lamp after_lamp
      expired expired replayed true true 1 (omega arith) lamp_is_new refl lamp_is_expired refl
      lamp_is_new_again

abbrev marker : SeedMarker ℕ
marker = record {
  scale = 1;
  ref_unix = pos 3;
  seed = pos 42;
  days = pos 90;
  seeded_at = seconds 7;
  events_written = 3;
}

abbrev marked : Session ℕ
marked = (upsert_seed_marker to_micros marker empty_session).1

marker_is_written : upsert_seed_marker to_micros marker empty_session ≡ (ok tt, marked)
unfolding upsert_seed_marker write_marker autocommit
marker_is_written = refl

marker_is_read :
    get_seed_marker marked
    ≡ (ok (some (record marker { seeded_at = to_micros (seconds 7) })), marked)
unfolding upsert_seed_marker write_marker get_seed_marker autocommit
marker_is_read = refl

lamp_is_counted : stats_last24h 6_000_000 after_lamp ≡ (ok (("created", 1) ∷ []), after_lamp)
unfolding stats_last24h order_stats group_stats in_window insert_stat upsert autocommit ingest_event
    ingest_row insert_event upsert_bucket upsert_current_item count_inserted known_type has_event
    same_event stored trunc_hour exec transaction
lamp_is_counted = refl
