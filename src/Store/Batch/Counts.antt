-- ===== src/Store/Batch/Counts.antt =====
-- The raw rows and the buckets of a batch, against the same rows landed one after the other.
use devops_demo.Base.{
  ℕ, String, ◌≡◌, false, List, [], ◌∷◌, has_duplicates, nat_key, text_key, pair_key, arith,
}
use devops_demo.Base.Table.{
  Table, lookup, upsert_all, keys, with_new, lookup-upsert, lookup-upsert_all,
  keys-upsert-has_duplicates,
}
use devops_demo.Store.Schema.{EventRecord, BucketKey}
use devops_demo.Store.Ingest.{bucket_of, add_count}
use devops_demo.Store.Batch.{count_rows, bucket_deltas}

count_rows-has_duplicates :
    (rows : List EventRecord) (g : Table BucketKey ℕ)
    → has_duplicates (keys g) ≡ false
    → has_duplicates (keys (count_rows rows g)) ≡ false
unfolding count_rows
count_rows-has_duplicates [] g h = h
count_rows-has_duplicates (r ∷ rows) g h =
    count_rows-has_duplicates rows _ (keys-upsert-has_duplicates (bucket_of r) (add_count 1) g h)

-- Counting the rows in `g` and adding `g` up with a table is counting them in the table.
count_rows-with_new :
    (k : BucketKey) (rows : List EventRecord) (g b c : Table BucketKey ℕ)
    → lookup k c ≡ with_new add_count (lookup k g) (lookup k b)
    → lookup k (count_rows rows c) ≡ with_new add_count (lookup k (count_rows rows g)) (lookup k b)
unfolding count_rows
count_rows-with_new k [] g b c h = h
count_rows-with_new k (r ∷ rows) g b c h = count_rows-with_new k rows _ b _ (
    ground (
      arith,
      lookup-upsert (bucket_of r) k (add_count 1) g,
      lookup-upsert (bucket_of r) k (add_count 1) c,
      (pair_key {A = ℕ} {B = String}).same_iff (bucket_of r) k,
    ))

-- The bucket statement of a batch counts each new row once.
pub lookup-bucket_deltas :
    (k : BucketKey) (rows : List EventRecord) (b : Table BucketKey ℕ)
    → lookup k (upsert_all add_count (bucket_deltas rows) b) ≡ lookup k (count_rows rows b)
unfolding lookup
lookup-bucket_deltas k rows b = ground (
  arith,
  lookup-upsert_all add_count k (bucket_deltas rows) b,
  count_rows-has_duplicates rows [],
  count_rows-with_new k rows [] b b,
)
