-- ===== src/Tests.antt =====
-- Concrete data for the examples below this module, and runs of the definitions on it.
pub mod Storing
pub mod Batching
pub mod Migrating
pub mod Streaming
pub mod Serving
pub mod Seeding
pub mod Annotating
pub mod Shaping
pub mod Running
pub mod Tracing
use devops_demo.Base.{ℕ, ◌/◌, ◌*◌, List, [], ◌∷◌, pos}
use devops_demo.Store.Schema.{EventRecord, SnapshotItem, Tables}
use devops_demo.Store.Session.{Session, fine, lost, canceled}
use devops_demo.Store.History.{empty_tables}

-- A driver that cuts nanoseconds to microseconds.
abbrev pub to_micros : ℕ → ℕ
to_micros t = t / 1000

abbrev pub seconds : ℕ → ℕ
seconds n = n * 1_000_000_000

abbrev pub lamp_created : EventRecord
lamp_created = record {
  item_id = pos 7;
  item_name = "lamp";
  event_type = "created";
  event_time = seconds 5;
}

abbrev pub lamp_updated : EventRecord
lamp_updated = record {
  item_id = pos 7;
  item_name = "desk lamp";
  event_type = "updated";
  event_time = seconds 9;
}

abbrev pub chair_deleted : EventRecord
chair_deleted = record {
  item_id = pos 8;
  item_name = "chair";
  event_type = "deleted";
  event_time = seconds 4000;
}

-- Out of order, with a repeated event.
abbrev pub sample_batch : List EventRecord
sample_batch = lamp_updated ∷ chair_deleted ∷ lamp_created ∷ lamp_updated ∷ []

abbrev pub empty_session : Session ℕ
empty_session = record { tables = empty_tables; script = [] }

abbrev pub snapshot : List SnapshotItem
snapshot =
    record { item_id = pos 8; name = "arm chair" } ∷ record { item_id = pos 9; name = "rug" } ∷ []

-- The commit's acknowledgement is lost after the third statement.
abbrev pub cut_off : Session ℕ
cut_off = record { tables = empty_tables; script = fine ∷ fine ∷ fine ∷ fine ∷ lost canceled ∷ [] }
