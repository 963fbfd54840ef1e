-- ===== src/Store/Reads.antt =====
-- internal/store/current_items.go: GetCurrentItem, StatsLast24h and Ping. The times that come back
-- are timestamptz values.
pub mod Stats
pub mod Covered
use devops_demo.Base.{
  ℕ, ◌+◌, String, Bool, true, false, Option, none, some, List, [], ◌∷◌, ℤ, int_key, text_key, leb,
  is_some, if◌then◌else◌,
}
use Prim.Native.Nat.{Ordering}
use Prim.Native.String.{compare}
use devops_demo.Base.Table.{Table, lookup, upsert}
use devops_demo.Store.Schema.{BucketKey, ItemRow, Tables}
use devops_demo.Store.Session.{Result, ok, Tx, autocommit}
use devops_demo.Store.Ingest.{add_count}

pub record CurrentItem : Type 0 where
  pub item_id : ℤ
  pub name : String
  pub first_seen : ℕ
  pub last_seen : ℕ
  pub tombstoned : Bool

-- The Scan, and item.Tombstoned = tombstonedAt != nil.
abbrev pub scanned : ℤ → ItemRow → CurrentItem
scanned id r = record {
  item_id = id;
  name = r.name;
  first_seen = r.first_seen;
  last_seen = r.last_seen;
  tombstoned = is_some r.tombstoned_at;
}

abbrev pub scanned? : ℤ → Option ItemRow → Option CurrentItem
scanned? id none = none
scanned? id (some r) = some (scanned id r)

-- A row of the answer of StatsLast24h: an event type and its count.
abbrev pub BucketStats : Type 0
BucketStats = Table String ℕ

-- bucket_start >= now() - interval '24 hours', in microseconds.
unfoldable pub in_window : ℕ → BucketKey → Bool
in_window now k = leb now (k.0 + 86_400_000_000)

-- SELECT event_type, SUM(count) WHERE ... GROUP BY event_type.
unfoldable pub group_stats : ℕ → Table BucketKey ℕ → BucketStats → BucketStats
group_stats now [] stats = stats
group_stats now ((k, c) ∷ t) stats =
    group_stats now t (if in_window now k then upsert k.1 (add_count c) stats else stats)

abbrev pub is_lt : Ordering → Bool
is_lt Ordering.lt = true
is_lt Ordering.eq = false
is_lt Ordering.gt = false

abbrev pub text_lt : String → String → Bool
text_lt a b = is_lt (compare a b)

-- ORDER BY event_type.
unfoldable pub insert_stat : String → ℕ → BucketStats → BucketStats
insert_stat ty c [] = (ty, c) ∷ []
insert_stat ty c ((ty', c') ∷ stats) =
    if text_lt ty' ty then (ty', c') ∷ insert_stat ty c stats else (ty, c) ∷ (ty', c') ∷ stats

unfoldable pub order_stats : BucketStats → BucketStats
order_stats [] = []
order_stats ((ty, c) ∷ stats) = insert_stat ty c (order_stats stats)

module _ {F : Type 0} where
  -- `none` is the found=false of pgx.ErrNoRows.
  unfoldable pub get_current_item : ℤ → Tx F (Option CurrentItem)
  unfolding autocommit
  get_current_item id =
      autocommit "get current_item" (λ t. ok (scanned? id (lookup id t.current_items), t))

  -- `now` is the database's now(). The texts of the Scan and of rows.Err() are not told apart.
  unfoldable pub stats_last24h : ℕ → Tx F BucketStats
  unfolding autocommit
  stats_last24h now =
      autocommit "query stats" (λ t. ok (order_stats (group_stats now t.event_buckets []), t))

  -- A ping is an answer of the server and nothing else.
  unfoldable pub ping : Tx F (Unit {0})
  unfolding autocommit
  ping = autocommit "" (λ t. ok (tt, t))
