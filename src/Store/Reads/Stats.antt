-- ===== src/Store/Reads/Stats.antt =====
-- What StatsLast24h returns for each event type.
use text.Mathlib.TextPositions.{compare_refl}
use devops_demo.Base.{
  ℕ, ◌≡◌, refl, ap, String, false, ◌&&◌, Option, none, some, [], ◌∷◌, text_key, text_eq,
  text_eq_iff, if◌then◌else◌, arith,
}
use devops_demo.Base.Table.{Table, lookup, upsert, lookup-upsert, with_new}
use devops_demo.Store.Schema.{BucketKey}
use devops_demo.Store.Session.{Session, ok}
use devops_demo.Store.Ingest.{add_count}
use devops_demo.Store.Reads.{
  BucketStats, in_window, group_stats, is_lt, text_lt, insert_stat, order_stats, stats_last24h,
}

-- The sum of the counts of a type over the buckets in the window, if there is such a bucket.
unfoldable pub window_total : ℕ → String → Table BucketKey ℕ → Option ℕ
window_total now ty [] = none
window_total now ty ((k, c) ∷ t) =
    if in_window now k && text_eq k.1 ty
    then some (add_count c (window_total now ty t))
    else window_total now ty t

lookup-group_stats :
    (now : ℕ) (ty : String) (t : Table BucketKey ℕ) (stats : BucketStats)
    → lookup ty (group_stats now t stats)
      ≡ with_new add_count (window_total now ty t) (lookup ty stats)
unfolding group_stats window_total
lookup-group_stats now ty [] stats = refl
lookup-group_stats now ty ((k, c) ∷ t) stats = ground (
  arith,
  lookup-group_stats now ty t stats,
  lookup-group_stats now ty t (upsert k.1 (add_count c) stats),
  lookup-upsert k.1 ty (add_count c) stats,
  text_eq_iff k.1 ty,
)

text_lt_irrefl : (a : String) → text_lt a a ≡ false
text_lt_irrefl a = ap is_lt (compare_refl a)

lookup-insert_stat :
    (ty key : String) (c : ℕ) (stats : BucketStats)
    → lookup key (insert_stat ty c stats) ≡ (if text_eq ty key then some c else lookup key stats)
unfolding insert_stat lookup
lookup-insert_stat ty key c [] = refl
lookup-insert_stat ty key c ((ty', c') ∷ stats) = ground (
  arith,
  lookup-insert_stat ty key c stats,
  text_eq_iff ty key,
  text_eq_iff ty' key,
  text_lt_irrefl key,
)

lookup-order_stats :
    (key : String) (stats : BucketStats) → lookup key (order_stats stats) ≡ lookup key stats
unfolding order_stats lookup
lookup-order_stats key [] = refl
lookup-order_stats key ((ty, c) ∷ stats) =
    ground (arith, lookup-order_stats key stats, lookup-insert_stat ty key c (order_stats stats))

-- When StatsLast24h returns without an error, an event type is listed exactly if a bucket of that
-- type starts in the last 24 hours, with the sum of the counts of those buckets, and the tables
-- are as before.
pub stats_last24h-ok :
    {F : Type 0} (now : ℕ) (s s' : Session F) (stats : BucketStats)
    → stats_last24h now s ≡ (ok stats, s')
    → ((ty : String) → lookup ty stats ≡ window_total now ty s.tables.event_buckets)
      × (s'.tables ≡ s.tables)
unfolding stats_last24h lookup
stats_last24h-ok now s s' stats h = (
  λ ty. ground (
    arith,
    lookup-order_stats ty (group_stats now s.tables.event_buckets []),
    lookup-group_stats now ty s.tables.event_buckets [],
  ),
  ground arith,
)
