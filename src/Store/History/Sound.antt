-- ===== src/Store/History/Sound.antt =====
-- The invariant of the raw events and their hourly buckets.
use devops_demo.Base.{
  ℕ, ◌+◌, ◌≤◌, ◌≡◌, refl, String, Bool, true, false, not, ◌&&◌, Option, none, some, List, [], ◌∷◌,
  ◌++◌, nat_key, text_key, pair_key, int_key, int_eq_iff, text_eq_iff, if◌then◌else◌, arith,
}
use devops_demo.Base.Table.{lookup, lookup-upsert}
use devops_demo.Store.Schema.{EventRecord, BucketKey, Tables}
use devops_demo.Store.Ingest.{known_type, has_event, same_event, bucket_of, add_count}
use devops_demo.Store.Ingest.Effect.{landed, counted}
use devops_demo.Store.Ingest.Replay.{has_event-append}
use devops_demo.Store.Batch.{all_known}
use devops_demo.Store.Batch.Serial.{land_all}

-- The raw events of an hour and a type.
unfoldable pub occurrences : BucketKey → List EventRecord → ℕ
occurrences k [] = 0
occurrences k (r ∷ rows) =
    let n = occurrences k rows in
    if (pair_key {A = ℕ} {B = String}).same (bucket_of r) k then n + 1 else n

-- No two rows agree in item_id, event_type and event_time.
unfoldable pub is_unique : List EventRecord → Bool
is_unique [] = true
is_unique (r ∷ rows) = not (has_event r rows) && is_unique rows

abbrev pub count_of : Option ℕ → ℕ
count_of none = 0
count_of (some c) = c

-- Raw events are unique and of a known type, and a bucket counts at least the raw events of its hour
-- and type that are still there.
pub record IsSound {F : Type 0} (t : Tables F) : Type 0 where
  pub unique : is_unique t.item_events ≡ true
  pub known : all_known t.item_events ≡ true
  pub covered : (k : BucketKey) → occurrences k t.item_events ≤ count_of (lookup k t.event_buckets)

pub occurrences-append :
    (k : BucketKey) (rows : List EventRecord) (r : EventRecord)
    → occurrences k (rows ++ r ∷ [])
      ≡ occurrences k rows + (if (pair_key {A = ℕ} {B = String}).same (bucket_of r) k then 1 else 0)
unfolding occurrences
occurrences-append k [] r = ground arith
occurrences-append k (x ∷ rows) r = ground (arith, occurrences-append k rows r)

same_event_symm : (a b : EventRecord) → same_event a b ≡ same_event b a
unfolding same_event
same_event_symm a b = ground (
  arith,
  int_eq_iff a.item_id b.item_id,
  int_eq_iff b.item_id a.item_id,
  text_eq_iff a.event_type b.event_type,
  text_eq_iff b.event_type a.event_type,
)

is_unique-append :
    (r : EventRecord) (rows : List EventRecord)
    → has_event r rows ≡ false
    → is_unique rows ≡ true
    → is_unique (rows ++ r ∷ []) ≡ true
unfolding is_unique has_event
is_unique-append r [] new u = refl
is_unique-append r (x ∷ rows) new u =
    ground (arith, is_unique-append r rows, has_event-append x r rows, same_event_symm r x)

all_known-append :
    (r : EventRecord) (rows : List EventRecord)
    → all_known (rows ++ r ∷ []) ≡ (all_known rows && known_type r.event_type)
unfolding all_known
all_known-append r [] = ground arith
all_known-append r (x ∷ rows) = ground (arith, all_known-append r rows)

module _ {F : Type 0} where
  pub landed-IsSound :
      (row : EventRecord) (t : Tables F)
      → known_type row.event_type ≡ true
      → IsSound t
      → IsSound (landed row t)
  unfolding landed counted
  landed-IsSound row t k s = record {
    unique = ground (arith, is_unique-append row t.item_events);
    known = ground (arith, all_known-append row t.item_events);
    covered = λ b. ground (
      arith,
      s.covered b,
      occurrences-append b t.item_events row,
      lookup-upsert (bucket_of row) b (add_count 1) t.event_buckets,
      (pair_key {A = ℕ} {B = String}).same_iff (bucket_of row) b,
    );
  }

  pub land_all-IsSound :
      (rows : List EventRecord) (t : Tables F)
      → all_known rows ≡ true
      → IsSound t
      → IsSound (land_all rows t)
  unfolding land_all all_known
  land_all-IsSound [] t k s = s
  land_all-IsSound (r ∷ rows) t k s =
      land_all-IsSound rows (landed r t) (ground arith) (landed-IsSound r t (ground arith) s)

  pub IsSound-transfer :
      (t u : Tables F)
      → t.item_events ≡ u.item_events
      → ((k : BucketKey) → lookup k t.event_buckets ≡ lookup k u.event_buckets)
      → IsSound u
      → IsSound t
  IsSound-transfer t u events buckets s = record {
    unique = rw events s.unique;
    known = rw events s.known;
    covered = λ k. rw (events, buckets k) (s.covered k);
  }
