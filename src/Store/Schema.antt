-- ===== src/Store/Schema.antt =====
-- The rows of internal/store/migrations/*.sql and the records of internal/store/*.go.
-- A Go time.Time is a count of nanoseconds since the zero time (year 1), a timestamptz a count of
-- microseconds since then. The columns that no statement of the service reads (item_events.id and
-- received_at, event_buckets.updated_at) are left out.
use devops_demo.Base.{ℕ, String, Option, List, ℤ}
use devops_demo.Base.Table.{Table}

pub record EventRecord : Type 0 where
  pub item_id : ℤ
  pub item_name : String
  pub event_type : String
  pub event_time : ℕ

pub record SnapshotItem : Type 0 where
  pub item_id : ℤ
  pub name : String

-- A row of current_items without its key.
pub record ItemRow : Type 0 where
  pub name : String
  pub first_seen : ℕ
  pub last_seen : ℕ
  pub tombstoned_at : Option ℕ

-- The primary key of event_buckets: (bucket_start, event_type).
abbrev pub BucketKey : Type 0
BucketKey = ℕ × String

pub record SeedMarker (F : Type 0) : Type 0 where
  pub scale : F
  pub ref_unix : ℤ
  pub seed : ℤ
  pub days : ℤ
  pub seeded_at : ℕ
  pub events_written : ℕ

-- A row of item_events is an `EventRecord` whose time is a timestamptz.
pub record Tables (F : Type 0) : Type 0 where
  pub item_events : List EventRecord
  pub event_buckets : Table BucketKey ℕ
  pub current_items : Table ℤ ItemRow
  pub seed_marker : Option (SeedMarker F)
