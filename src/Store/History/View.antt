-- ===== src/Store/History/View.antt =====
-- What the store promises, without rows and their order: which events are known, the count of every
-- bucket, the state of every item and the seed marker, as functions.
use devops_demo.Base.{
  ℕ, String, ◌≡◌, refl, Bool, true, not, ◌&&◌, ◌||◌, Option, none, some, List, [], ◌∷◌, ◌++◌, ℤ,
  ltb, int_eq, int_eq_iff, text_eq_iff, int_key, nat_key, text_key, pair_key, if◌then◌else◌, arith,
}
use devops_demo.Base.Table.{lookup, lookup-upsert}
use devops_demo.Store.Schema.{EventRecord, SnapshotItem, ItemRow, BucketKey, SeedMarker, Tables}
use devops_demo.Store.Ingest.{same_event, has_event, bucket_of, add_count, merge_row, row_of}
use devops_demo.Store.Ingest.Effect.{landed, counted}
use devops_demo.Store.Ingest.Replay.{has_event-append}
use devops_demo.Store.Reconcile.Rows.{snapshot_name, reconcile_row}

has_event-same :
    (row e : EventRecord) (rows : List EventRecord)
    → same_event row e ≡ true
    → has_event row rows ≡ has_event e rows
unfolding has_event same_event
has_event-same row e [] h = refl
has_event-same row e (r ∷ rows) h = ground (
  arith,
  has_event-same row e rows,
  int_eq_iff row.item_id e.item_id,
  text_eq_iff row.event_type e.event_type,
)

pub record View (F : Type 0) : Type 0 where
  pub seen : EventRecord → Bool
  pub count : BucketKey → Option ℕ
  pub item : ℤ → Option ItemRow
  pub marker : Option (SeedMarker F)

-- An event that arrives, a snapshot, the expiry of raw events, and a new marker.
pub data Effect (F : Type 0) : Type 0 where
  arrives : EventRecord → Effect F
  listed : List SnapshotItem → ℕ → Effect F
  expired : ℕ → Effect F
  marked : SeedMarker F → Effect F

module _ {F : Type 0} where
  unfoldable pub view : Tables F → View F
  view t = record {
    seen = λ e. has_event e t.item_events;
    count = λ k. lookup k t.event_buckets;
    item = λ id. lookup id t.current_items;
    marker = t.seed_marker;
  }

  -- The abstract store: an event counts once, and its item merges it by time; a snapshot decides
  -- which items are live; expired events are forgotten, and nothing else.
  unfoldable pub take_effect : Effect F → View F → View F
  take_effect (arrives row) v = record v {
    seen = λ e. v.seen e || same_event row e;
    count = λ k.
        if not (v.seen row) && (pair_key {A = ℕ} {B = String}).same (bucket_of row) k
        then some (add_count 1 (v.count (bucket_of row)))
        else v.count k;
    item = λ id.
        if int_eq row.item_id id
        then some (merge_row (row_of row) (v.item row.item_id))
        else v.item id;
  }
  take_effect (listed items now) v = record v {
    item = λ id. reconcile_row now (snapshot_name id items none) (v.item id);
  }
  take_effect (expired cutoff) v = record v {
    seen = λ e. not (ltb e.event_time cutoff) && v.seen e;
  }
  take_effect (marked m) v = record v { marker = some m }

  unfoldable pub replay : List (Effect F) → View F → View F
  replay [] v = v
  replay (f ∷ effects) v = replay effects (take_effect f v)

  pub replay-append :
      (fs gs : List (Effect F)) (v : View F) → replay (fs ++ gs) v ≡ replay gs (replay fs v)
  unfolding replay
  replay-append [] gs v = refl
  replay-append (f ∷ fs) gs v = replay-append fs gs (take_effect f v)

  -- Views are equal when their values are.
  pub View-ext :
      (v w : View F)
      → ((e : EventRecord) → v.seen e ≡ w.seen e)
      → ((k : BucketKey) → v.count k ≡ w.count k)
      → ((id : ℤ) → v.item id ≡ w.item id)
      → v.marker ≡ w.marker
      → v ≡ w
  View-ext v w s c n m =
      λ i. record { seen = λ e. s e i; count = λ k. c k i; item = λ id. n id i; marker = m i }

  pub view-landed :
      (row : EventRecord) (t : Tables F) → view (landed row t) ≡ take_effect (arrives row) (view t)
  unfolding view take_effect landed counted
  view-landed row t =
      View-ext _ _
        (λ e.
          ground (arith, has_event-append e row t.item_events, has_event-same row e t.item_events))
        (λ k. ground (arith, lookup-upsert (bucket_of row) k (add_count 1) t.event_buckets))
        (λ id.
          ground (arith, lookup-upsert row.item_id id (merge_row (row_of row)) t.current_items))
        (ground arith)
