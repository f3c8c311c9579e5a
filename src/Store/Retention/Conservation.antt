-- ===== src/Store/Retention/Conservation.antt =====
-- store.py: compaction loses no counter delta and no reset.
use aws_ops_monitor.Prelude.{
  ℕ, ◌+◌, ◌*◌, ◌≤◌, ◌≡◌, refl, true, List, [], ◌∷◌, map, arith, leb, filter,
}
use aws_ops_monitor.Prelude.Float.{micro}
use aws_ops_monitor.Store.{Tables, Rollup, CounterRow}
use aws_ops_monitor.Store.Retention.{
  same_bucket, merge_all, rollup_of, group_rows, Cutoffs, delete_before, is_compacted, retain,
}
use aws_ops_monitor.Store.Retention.Rollups.{
  same_bucket_iff, AddsUp, total, total-merge_all, total-group_rows, delta_value-AddsUp,
  reset_count-AddsUp,
}

-- the total of a bucket, in the rollups and in the raw rows
abbrev pub bucket_total : (Rollup → ℕ) → Rollup → Tables → ℕ
bucket_total f k db =
    total f k db.counter_hourly_rollups + total f k (map rollup_of db.counter_samples)

-- A row that falls in a bucket is not older than the hour of the bucket.
within_hour :
    (row : CounterRow) (k : Rollup)
    → same_bucket (rollup_of row) k ≡ true
    → k.bucket_start * micro ≤ row.observed_at
unfolding rollup_of
within_hour row k h = let e = ((same_bucket_iff (rollup_of row) k).0 h).bucket_start in omega arith

module _ (f : Rollup → ℕ) (adds : AddsUp f) (k : Rollup) (c : Cutoffs)
    (kept : c.rollup ≤ k.bucket_start * micro) where
  total-filter_bucket :
      (rs : List Rollup)
      → total f k (filter (λ r. leb (delete_before c) r.bucket_start) rs) ≡ total f k rs
  unfolding delete_before
  total-filter_bucket [] = refl
  total-filter_bucket (r ∷ rs) = ground (arith, total-filter_bucket rs, same_bucket_iff r k)

  split_row :
      (row : CounterRow)
      → same_bucket (rollup_of row) k ≡ true
      → leb c.rollup row.observed_at ≡ true
  split_row row h = let t = within_hour row k h in ground arith

  total_split :
      (rows : List CounterRow)
      → total f k (map rollup_of (filter (is_compacted c) rows))
          + total f k (map rollup_of (filter (λ r. leb c.raw r.observed_at) rows))
        ≡ total f k (map rollup_of rows)
  total_split [] = refl
  total_split (row ∷ rows) = ground (arith, total_split rows, split_row row)

  retain_conserves_column : (db : Tables) → bucket_total f k (retain c db).1 ≡ bucket_total f k db
  unfolding retain
  retain_conserves_column db =
      let old = filter (is_compacted c) db.counter_samples in
      omega (
        arith,
        total-filter_bucket (merge_all (group_rows old) db.counter_hourly_rollups),
        total-merge_all f adds k (group_rows old) db.counter_hourly_rollups,
        total-group_rows f adds k old,
        total_split db.counter_samples,
      )

-- For each hour that begins at or after the rollup cutoff, and each series, the deltas and the
-- resets of the hour add up to the same totals over rollups and raw rows before and after: what
-- compaction takes out of the raw rows, it adds to the rollups.
pub retain_conserves :
    (k : Rollup) (c : Cutoffs) (db : Tables)
    → c.rollup ≤ k.bucket_start * micro
    → (bucket_total (λ r. r.delta_value) k (retain c db).1 ≡ bucket_total (λ r. r.delta_value) k db)
      × (bucket_total (λ r. r.reset_count) k (retain c db).1
          ≡ bucket_total (λ r. r.reset_count) k db)
retain_conserves k c db kept = (
  retain_conserves_column (λ r. r.delta_value) delta_value-AddsUp k c kept db,
  retain_conserves_column (λ r. r.reset_count) reset_count-AddsUp k c kept db,
)
