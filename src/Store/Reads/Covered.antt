-- ===== src/Store/Reads/Covered.antt =====
-- What StatsLast24h reports against the raw events.
use devops_demo.Base.{
  ℕ, ◌+◌, ◌-◌, ◌*◌, ◌/◌, ◌%◌, leb, ◌≤◌, ◌≡◌, ◌⊎◌, inl, inr, Bool-cases, refl, has_duplicates, elem,
  String, Bool, true, false, ◌&&◌, List, [], ◌∷◌, nat_key, text_key, pair_key, text_eq,
  if◌then◌else◌, arith,
}
use devops_demo.Base.Table.{Table, lookup, keys, elem-keys}
use devops_demo.Store.Schema.{EventRecord, BucketKey}
use devops_demo.Store.Session.{ok, Session}
use devops_demo.Store.Ingest.{bucket_of, trunc_hour}
use devops_demo.Store.Reads.{BucketStats, in_window, stats_last24h}
use devops_demo.Store.Reads.Stats.{window_total, stats_last24h-ok}
use devops_demo.Store.History.{empty_tables, History}
use devops_demo.Store.History.Sound.{occurrences, count_of}
use devops_demo.Store.History.Exact.{has_expired, History-IsExact, IsExact-empty_tables}
use devops_demo.Store.History.Invariant.{History-IsSound, IsSound-empty_tables}

abbrev same_key : BucketKey → BucketKey → Bool
same_key = (pair_key {A = ℕ} {B = String}).same

-- Whether the full hour in which a time lies begins no more than 24 hours before `now`; an hour has
-- 3,600,000,000 microseconds.
abbrev pub in_last_day : ℕ → ℕ → Bool
in_last_day now time = leb now (time / 3_600_000_000 * 3_600_000_000 + 24 * 3_600_000_000)

in_window-bucket_of :
    (now : ℕ) (r : EventRecord) → in_window now (bucket_of r) ≡ in_last_day now r.event_time
unfolding in_window trunc_hour
in_window-bucket_of now r =
    let hour : r.event_time - r.event_time % 3_600_000_000
        ≡ r.event_time / 3_600_000_000 * 3_600_000_000 =
      omega arith in
    rw hour refl

-- The raw events of a type in an hour that starts in the last 24 hours.
unfoldable pub recent : ℕ → String → List EventRecord → ℕ
recent now ty [] = 0
recent now ty (r ∷ rows) =
    let n = recent now ty rows in
    if in_last_day now r.event_time && text_eq r.event_type ty then n + 1 else n

-- The raw events of the other hours and types.
unfoldable others : BucketKey → List EventRecord → List EventRecord
others k [] = []
others k (r ∷ rows) =
    let rest = others k rows in if same_key (bucket_of r) k then rest else r ∷ rest

occurrences-others :
    (j k : BucketKey) (rows : List EventRecord)
    → occurrences j (others k rows) ≡ (if same_key k j then 0 else occurrences j rows)
unfolding occurrences others
occurrences-others j k [] = ground arith
occurrences-others j k (r ∷ rows) = ground (
  arith,
  occurrences-others j k rows,
  (pair_key {A = ℕ} {B = String}).same_iff (bucket_of r) k,
  (pair_key {A = ℕ} {B = String}).same_iff (bucket_of r) j,
  (pair_key {A = ℕ} {B = String}).same_iff k j,
)

recent-others :
    (now : ℕ) (ty : String) (k : BucketKey) (rows : List EventRecord)
    → recent now ty rows
      ≡ recent now ty (others k rows)
        + (if in_window now k && text_eq k.1 ty then occurrences k rows else 0)
unfolding recent others occurrences
recent-others now ty k [] = ground arith
recent-others now ty k (r ∷ rows) = ground (
  arith,
  recent-others now ty k rows,
  in_window-bucket_of now r,
  (pair_key {A = ℕ} {B = String}).same_iff (bucket_of r) k,
)

-- Without the events of the first bucket, the other buckets still cover.
others-covered :
    (k : BucketKey) (c : ℕ) (t : Table BucketKey ℕ) (rows : List EventRecord)
    → ((j : BucketKey) → occurrences j rows ≤ count_of (lookup j ((k, c) ∷ t)))
    → (j : BucketKey) → occurrences j (others k rows) ≤ count_of (lookup j t)
unfolding lookup
others-covered k c t rows h j =
    let covered = h j in ground (arith, covered, occurrences-others j k rows)

recent-window_total :
    (now : ℕ) (ty : String) (t : Table BucketKey ℕ) (rows : List EventRecord)
    → ((k : BucketKey) → occurrences k rows ≤ count_of (lookup k t))
    → recent now ty rows ≤ count_of (window_total now ty t)
unfolding window_total lookup recent occurrences
recent-window_total now ty [] [] h = omega arith
recent-window_total now ty [] (r ∷ rows) h =
    let none_left = h (bucket_of r) in
    absurd (
      ground
        (arith, none_left, (pair_key {A = ℕ} {B = String}).same_iff (bucket_of r) (bucket_of r)))
recent-window_total now ty ((k, c) ∷ t) rows h =
    let rest = recent-window_total now ty t (others k rows) (others-covered k c t rows h) in
    let own = h k in
    ground
      (arith, rest, own, recent-others now ty k rows, (pair_key {A = ℕ} {B = String}).same_iff k k)

others-exact :
    (k : BucketKey) (c : ℕ) (t : Table BucketKey ℕ) (rows : List EventRecord)
    → elem k (keys t) ≡ false
    → ((j : BucketKey) → occurrences j rows ≡ count_of (lookup j ((k, c) ∷ t)))
    → (j : BucketKey) → occurrences j (others k rows) ≡ count_of (lookup j t)
unfolding lookup
others-exact k c t rows first h j =
    let exact = h j in
    ground (
      arith,
      exact,
      occurrences-others j k rows,
      (pair_key {A = ℕ} {B = String}).same_iff k j,
      elem-keys k t,
    )

recent-window_total_exact :
    (now : ℕ) (ty : String) (t : Table BucketKey ℕ) (rows : List EventRecord)
    → has_duplicates (keys t) ≡ false
    → ((k : BucketKey) → occurrences k rows ≡ count_of (lookup k t))
    → recent now ty rows ≡ count_of (window_total now ty t)
unfolding window_total lookup recent occurrences
recent-window_total_exact now ty [] [] u h = refl
recent-window_total_exact now ty [] (r ∷ rows) u h =
    let none_left = h (bucket_of r) in
    absurd (
      ground
        (arith, none_left, (pair_key {A = ℕ} {B = String}).same_iff (bucket_of r) (bucket_of r)))
recent-window_total_exact now ty ((k, c) ∷ t) rows u h =
    let rest =
      recent-window_total_exact now ty t (others k rows) (ground arith)
        (others-exact k c t rows (ground arith) h) in
    let own = h k in
    ground
      (arith, rest, own, recent-others now ty k rows, (pair_key {A = ℕ} {B = String}).same_iff k k)

module _ {F : Type 0} (stamp : ℕ → ℕ) where
  -- For every history of store calls from empty tables, whatever the database answered: when
  -- StatsLast24h then returns without an error, the count that it reports for an event type (0 where
  -- the type is not listed) is the number of the raw events of that type whose hour starts in the
  -- last 24 hours, or, if DeleteEventsOlderThan was among the calls, at least that number.
  pub stats_last24h-recent :
      (now : ℕ) (s s' : Session F) (stats : BucketStats) (ty : String)
      (hist : History stamp empty_tables s.tables)
      → stats_last24h now s ≡ (ok stats, s')
      → let counted = recent now ty s.tables.item_events in
        let reported = count_of (lookup ty stats) in
        (counted ≡ reported) ⊎ ((has_expired stamp hist ≡ true) × (counted ≤ reported))
  stats_last24h-recent now s s' stats ty hist h =
      let (totals, kept) = stats_last24h-ok now s s' stats h in
      let t = s.tables in
      elim (Bool-cases (has_expired stamp hist)) [
        | inl expired ↦
            let sound = History-IsSound stamp IsSound-empty_tables hist in
            inr (
              expired,
              rw (totals ty)
                  (recent-window_total now ty t.event_buckets t.item_events sound.covered),
            )
        | inr kept ↦
            let exact = History-IsExact stamp hist kept IsExact-empty_tables in
            inl (
              rw (totals ty) (
                recent-window_total_exact now ty t.event_buckets t.item_events exact.keyed
                  exact.counts))
      ]
