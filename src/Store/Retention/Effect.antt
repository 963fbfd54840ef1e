-- ===== src/Store/Retention/Effect.antt =====
-- What DeleteEventsOlderThan does to the tables, and what it does to the dedup of replayed events.
use devops_demo.Base.{
  ℕ, ◌+◌, ◌<◌, ◌≡◌, refl, ◌∙◌, Bool, true, false, not, ◌&&◌, some, List, [], ◌∷◌, ltb, length,
  arith, int_key, nat_key, text_key, pair_key,
}
use devops_demo.Base.Table.{lookup}
use devops_demo.Store.Schema.{EventRecord}
use devops_demo.Store.Session.{Session, ok}
use devops_demo.Store.Ingest.{has_event, same_event, stored, ingest_event, bucket_of, add_count}
use devops_demo.Store.Ingest.Effect.{lookup-landed_new, ingest_event-ok}
use devops_demo.Store.Retention.{delete_older, count_older, delete_events_older_than}

length-delete_older :
    (cutoff : ℕ) (rows : List EventRecord)
    → count_older cutoff rows + length (delete_older cutoff rows) ≡ length rows
unfolding delete_older count_older
length-delete_older cutoff [] = refl
length-delete_older cutoff (r ∷ rows) = ground (arith, length-delete_older cutoff rows)

-- A row is found after the delete exactly if it was there before and is not older than the cutoff.
pub has_event-delete_older :
    (e : EventRecord) (cutoff : ℕ) (rows : List EventRecord)
    → has_event e (delete_older cutoff rows) ≡ (not (ltb e.event_time cutoff) && has_event e rows)
unfolding delete_older has_event same_event
has_event-delete_older e cutoff [] = ground arith
has_event-delete_older e cutoff (r ∷ rows) = ground (arith, has_event-delete_older e cutoff rows)

module _ {F : Type 0} (stamp : ℕ → ℕ) (cutoff : ℕ) where
  -- When DeleteEventsOlderThan returns a count without an error, the raw events that are found
  -- afterwards are exactly those found before whose time is not older than the cutoff, the count is
  -- the number of rows that are gone, and buckets, items and seed marker are as before.
  pub delete_events_older_than-ok :
      (s s' : Session F) (n : ℕ)
      → delete_events_older_than stamp cutoff s ≡ (ok n, s')
      → ((e : EventRecord)
          → has_event e s'.tables.item_events
            ≡ (not (ltb e.event_time (stamp cutoff)) && has_event e s.tables.item_events))
        × (n + length s'.tables.item_events ≡ length s.tables.item_events)
        × (s'.tables.event_buckets ≡ s.tables.event_buckets)
        × (s'.tables.current_items ≡ s.tables.current_items)
        × (s'.tables.seed_marker ≡ s.tables.seed_marker)
  unfolding delete_events_older_than
  delete_events_older_than-ok s s' n h = (
    λ e. ground (arith, has_event-delete_older e (stamp cutoff) s.tables.item_events),
    ground (arith, length-delete_older (stamp cutoff) s.tables.item_events),
    ground arith,
    ground arith,
    ground arith,
  )

  -- An event that is ingested, expired by retention, and then ingested again is not recognised: the
  -- second ingestion reports it as new, and its bucket has been counted twice.
  pub ingest_event-expired :
      (e : EventRecord) (s s₁ q q₁ r r₁ : Session F) (b c : Bool) (n : ℕ)
      → stamp e.event_time < stamp cutoff
      → ingest_event stamp e s ≡ (ok b, s₁)
      → q.tables ≡ s₁.tables
      → delete_events_older_than stamp cutoff q ≡ (ok n, q₁)
      → r.tables ≡ q₁.tables
      → ingest_event stamp e r ≡ (ok c, r₁)
      → (c ≡ true)
        × (lookup (bucket_of (stored stamp e)) r₁.tables.event_buckets
            ≡ some (add_count 1 (lookup (bucket_of (stored stamp e)) s₁.tables.event_buckets)))
  unfolding stored
  ingest_event-expired e s s₁ q q₁ r r₁ b c n old h k₁ d k₂ j =
      let (found, gone, buckets, items, marker) = delete_events_older_than-ok q q₁ n d in
      let row = stored stamp e in
      let (known, new, after) = ingest_event-ok stamp e r r₁ c j in
      let missing : has_event row r.tables.item_events ≡ false = rw k₂ (found row ∙ ground arith) in
      (ground arith, ground (arith, lookup-landed_new row r.tables missing))
