-- ===== src/Ingest/Event.antt =====
-- handleEvent of internal/ingest/client.go, over the messages of
-- proto/devopsdemo/items/v1/items.proto and the metrics of internal/ingest/metrics.go.
pub mod Handled
use devops_demo.Base.{
  ℕ, ◌+◌, ◌*◌, ◌/◌, String, Bool, true, false, Option, none, some, ℤ, pos, sub_ℕ, text_key, [],
}
use devops_demo.Base.Table.{Table, upsert}
use devops_demo.Store.Schema.{EventRecord, SnapshotItem}
use devops_demo.Store.Session.{Result, ok, err, Error, raised, wrap, malformed_event, Session}
use devops_demo.Store.Ingest.{ingest_event, add_count}
use devops_demo.Ingest.Watermark.{Watermark, advance_last_event_time}

-- EventType: the three named values of the contract, and any other number.
pub data EventType : Type 0 where
  created updated deleted : EventType
  other : ℕ → EventType

-- ItemEvent: a message field may be unset.
pub record ItemEvent : Type 0 where
  pub event_type : EventType
  pub item : Option SnapshotItem
  pub event_time : Option ℕ

-- eventTypeNames
unfoldable pub event_type_name : EventType → Option String
event_type_name created = some "created"
event_type_name updated = some "updated"
event_type_name deleted = some "deleted"
event_type_name (other n) = none

-- 1970-01-01 in nanoseconds since the zero time.
abbrev pub unix_epoch : ℕ
unix_epoch = 62_135_596_800 * 1_000_000_000

-- t.Unix()
abbrev pub unix_seconds : ℕ → ℤ
unix_seconds t = sub_ℕ (t / 1_000_000_000) 62_135_596_800

-- The getters of an unset message give the zero values, and AsTime of an unset one the epoch.
abbrev pub item_or_zero : Option SnapshotItem → SnapshotItem
item_or_zero none = record { item_id = pos 0; name = "" }
item_or_zero (some item) = item

abbrev pub time_or_epoch : Option ℕ → ℕ
time_or_epoch none = unix_epoch
time_or_epoch (some t) = t

-- The EventRecord that handleEvent builds, once the type has a name.
abbrev pub record_of : ItemEvent → String → EventRecord
record_of event name = record {
  item_id = (item_or_zero event.item).item_id;
  item_name = (item_or_zero event.item).name;
  event_type = name;
  event_time = time_or_epoch event.event_time;
}

pub record Metrics : Type 0 where
  pub stream_connected : ℕ
  pub watermark : Watermark
  pub events_ingested : Table String ℕ
  pub events_deduplicated : ℕ
  pub reconnects : ℕ
  pub snapshot_reconciles : ℕ
  pub snapshot_items : ℕ

-- What the client works on: the database and the metrics.
pub record World (F : Type 0) : Type 0 where
  pub session : Session F
  pub metrics : Metrics

-- The if inserted { ... } else { ... } of handleEvent.
unfoldable pub count_event : Bool → EventRecord → Metrics → Metrics
count_event true ev m = record m {
  events_ingested = upsert ev.event_type (add_count 1) m.events_ingested;
  watermark = advance_last_event_time (unix_seconds ev.event_time) m.watermark;
}
count_event false ev m = record m { events_deduplicated = m.events_deduplicated + 1 }

module _ {F : Type 0} where
  unfoldable pub recorded :
      EventRecord → Metrics → Result Bool × Session F → Result (Unit {0}) × World F
  recorded ev m (ok inserted, s) =
      (ok tt, record { session = s; metrics = count_event inserted ev m })
  recorded ev m (err e, s) = (err (wrap "ingest event" e), record { session = s; metrics = m })

  -- The value of the unknown type in the error's text is left out.
  unfoldable pub handle_named :
      (ℕ → ℕ) → ItemEvent → Option String → World F → Result (Unit {0}) × World F
  unfolding recorded
  handle_named stamp event none w = (err (wrap "unknown event type" (raised malformed_event)), w)
  handle_named stamp event (some name) w =
      recorded (record_of event name) w.metrics
        (ingest_event stamp (record_of event name) w.session)

  unfoldable pub handle_event : (ℕ → ℕ) → ItemEvent → World F → Result (Unit {0}) × World F
  unfolding handle_named
  handle_event stamp event = handle_named stamp event (event_type_name event.event_type)
