-- ===== src/Tests/Batching.antt =====
-- Examples of IngestEventsBatch, and of a history of calls.
use devops_demo.Base.{
  ℕ, ◌%◌, ◌≡◌, refl, [], ◌∷◌, pos, ltb, arith, int_key, nat_key, text_key, pair_key, text_eq_iff,
}
use devops_demo.Base.Table.{lookup, upsert}
use devops_demo.Store.Schema.{EventRecord}
use devops_demo.Store.Session.{Session, ok, exec, transaction}
use devops_demo.Store.Ingest.{
  known_type, same_event, has_event, trunc_hour, insert_event, upsert_bucket, upsert_current_item,
  count_inserted, ingest_row, stored, ingest_event,
}
use devops_demo.Store.Batch.{
  all_known, insert_one, insert_rows, count_rows, insert_batch, upsert_folded, send_folded,
  ingest_batch_rows, ingest_events_batch, ingest_each,
}
use devops_demo.Store.Batch.Fold.{
  fold_current_items, win, absorb, note_first, fold_step, fold_loop, folded_item, collect,
}
use devops_demo.Store.Batch.Serial.{SameTables}
use devops_demo.Store.Batch.Equivalence.{ingest_events_batch-ingest_each}
use devops_demo.Store.Batch.Precision.{ingest_events_batch-coarse_stamp}
use devops_demo.Store.History.{History, start, call, batch, reconcile, expire, empty_tables}
use devops_demo.Store.History.View.{Effect, view, replay}
use devops_demo.Store.History.Effects.{Effects, History-Effects}
use devops_demo.Store.Reconcile.{reconcile_snapshot}
use devops_demo.Store.Retention.{delete_events_older_than}
use devops_demo.Store.Session.{lost, canceled}
use devops_demo.Tests.{seconds, snapshot}
use devops_demo.Base.{List}
use devops_demo.Store.History.Sound.{IsSound}
use devops_demo.Store.History.Invariant.{History-IsSound, IsSound-empty_tables}
use devops_demo.Tests.{to_micros, sample_batch, empty_session}

abbrev after_batch : Session ℕ
after_batch = (ingest_events_batch to_micros sample_batch empty_session).1

abbrev after_each : Session ℕ
after_each = (ingest_each to_micros sample_batch empty_session).1

batch_inserts_three :
    ingest_events_batch to_micros sample_batch empty_session
    ≡ (ok (record { inserted = 3; buckets_touched = 3 }), after_batch)
unfolding ingest_events_batch ingest_batch_rows insert_batch send_folded upsert_folded count_rows
    insert_rows insert_one all_known known_type has_event same_event stored trunc_hour exec
    transaction fold_current_items win absorb note_first fold_step fold_loop folded_item collect
    lookup upsert
batch_inserts_three = refl

each_inserts_three : ingest_each to_micros sample_batch empty_session ≡ (ok 3, after_each)
unfolding ingest_each ingest_event ingest_row insert_event upsert_bucket upsert_current_item
    count_inserted known_type has_event same_event stored trunc_hour exec transaction
each_inserts_three = refl

to_micros-ltb : (i j : ℕ) → i % 1000 ≡ 0 → j % 1000 ≡ 0 → ltb (to_micros i) (to_micros j) ≡ ltb i j
to_micros-ltb i j p q = ground arith

ingest_events_batch-ingest_each_example :
    (◌≡◌ {A = ℕ} 3 3) × SameTables after_batch.tables after_each.tables
ingest_events_batch-ingest_each_example =
    ingest_events_batch-ingest_each to_micros sample_batch (λ t. t % 1000 ≡ 0) empty_session
      after_batch empty_session after_each (record { inserted = 3; buckets_touched = 3 }) 3
      to_micros-ltb (refl, (refl, (refl, (refl, tt)))) refl batch_inserts_three each_inserts_three

-- Two events of an item within one microsecond, the later one first.
abbrev late : EventRecord
late = record { item_id = pos 7; item_name = "new"; event_type = "updated"; event_time = 1500 }

abbrev early : EventRecord
early = record { item_id = pos 7; item_name = "old"; event_type = "updated"; event_time = 1200 }

abbrev coarse_batch : Session ℕ
coarse_batch = (ingest_events_batch to_micros (late ∷ early ∷ []) empty_session).1

abbrev coarse_each : Session ℕ
coarse_each = (ingest_each to_micros (late ∷ early ∷ []) empty_session).1

coarse_batch_inserts_one :
    ingest_events_batch to_micros (late ∷ early ∷ []) empty_session
    ≡ (ok (record { inserted = 1; buckets_touched = 1 }), coarse_batch)
unfolding ingest_events_batch ingest_batch_rows insert_batch send_folded upsert_folded count_rows
    insert_rows insert_one all_known known_type has_event same_event stored trunc_hour exec
    transaction fold_current_items win absorb note_first fold_step fold_loop folded_item collect
    lookup upsert
coarse_batch_inserts_one = refl

coarse_each_inserts_one :
    ingest_each to_micros (late ∷ early ∷ []) empty_session ≡ (ok 1, coarse_each)
unfolding ingest_each ingest_event ingest_row insert_event upsert_bucket upsert_current_item
    count_inserted known_type has_event same_event stored trunc_hour exec transaction
coarse_each_inserts_one = refl

ingest_events_batch-coarse_stamp_example : ¬ SameTables coarse_batch.tables coarse_each.tables
ingest_events_batch-coarse_stamp_example =
    ingest_events_batch-coarse_stamp to_micros late early refl empty_session coarse_batch
      empty_session coarse_each (record { inserted = 1; buckets_touched = 1 }) 1 refl (omega arith)
      (λ h. ground (arith, (text_eq_iff "new" "old").1 h)) refl refl coarse_batch_inserts_one
      coarse_each_inserts_one

History-IsSound_example : IsSound after_batch.tables
History-IsSound_example =
    History-IsSound to_micros IsSound-empty_tables (call start (batch sample_batch []))

-- A batch, a snapshot whose acknowledgement is lost, and a retention pass.
abbrev after_snapshot : Session ℕ
after_snapshot =
    (reconcile_snapshot to_micros snapshot (seconds 5000)
      (record { tables = after_batch.tables; script = lost canceled ∷ [] })).1

abbrev after_expiry : Session ℕ
after_expiry =
    (delete_events_older_than to_micros (seconds 8)
      (record { tables = after_snapshot.tables; script = [] })).1

abbrev three_calls : History to_micros empty_tables after_expiry.tables
three_calls =
    call
      (call (call start (batch sample_batch []))
        (reconcile snapshot (seconds 5000) (lost canceled ∷ [])))
      (expire (seconds 8) [])

History-Effects_example :
    (fs : List (Effect ℕ)) × Effects to_micros empty_tables after_expiry.tables three_calls fs
    × (view after_expiry.tables ≡ replay fs (view (empty_tables {F = ℕ})))
History-Effects_example =
    History-Effects to_micros (λ t. t % 1000 ≡ 0) three_calls to_micros-ltb
      (((tt, (refl, (refl, (refl, (refl, tt))))), tt), tt)
