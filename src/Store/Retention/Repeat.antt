-- ===== src/Store/Retention/Repeat.antt =====
-- store.py: what `apply_retention` leaves, and a second call.
use aws_ops_monitor.Prelude.{
  ℕ, ◌≡◌, refl, Bool, true, false, List, [], ◌∷◌, arith, leb, ltb, filter,
}
use aws_ops_monitor.Store.{Tables, GaugeRow, CounterRow, HealthRow, Rollup}
use aws_ops_monitor.Store.Retention.{
  merge_all, group_rows, Cutoffs, delete_before, is_compacted, retain, RetentionCounts,
}

filter_all {ℓ} :
    {A : Type ℓ} (p q : A → Bool) (xs : List A)
    → ((x : A) → q x ≡ true → p x ≡ true)
    → filter p (filter q xs) ≡ filter q xs
filter_all p q [] imp = refl
filter_all p q (x ∷ xs) imp = ground (arith, filter_all p q xs imp, imp x)

filter_none {ℓ} :
    {A : Type ℓ} (p q : A → Bool) (xs : List A)
    → ((x : A) → q x ≡ true → p x ≡ false)
    → filter p (filter q xs) ≡ []
filter_none p q [] imp = refl
filter_none p q (x ∷ xs) imp = ground (arith, filter_none p q xs imp, imp x)

abbrev pub no_counts : RetentionCounts
no_counts = record {
  counter_rows_compacted = 0;
  gauge_rows_pruned = 0;
  counter_rows_pruned = 0;
  health_rows_pruned = 0;
  rollup_rows_pruned = 0;
}

-- A row is kept or pruned, by its time.
module _ {ℓ} {A : Type ℓ} (time : A → ℕ) (cutoff : ℕ) (xs : List A) where
  keep_twice :
      filter (λ x. leb cutoff (time x)) (filter (λ x. leb cutoff (time x)) xs)
      ≡ filter (λ x. leb cutoff (time x)) xs
  keep_twice = filter_all _ _ xs (λ x h. h)

  prune_kept : filter (λ x. ltb (time x) cutoff) (filter (λ x. leb cutoff (time x)) xs) ≡ []
  prune_kept = filter_none _ _ xs (λ x h. ground arith)

compact_kept :
    (c : Cutoffs) (rows : List CounterRow)
    → filter (is_compacted c) (filter (λ r. leb c.raw r.observed_at) rows) ≡ []
compact_kept c rows = filter_none _ _ rows (λ r h. ground arith)

-- Retention at the same cutoffs a second time counts nothing and changes nothing.
pub retain_idempotent :
    (c : Cutoffs) (db : Tables) → retain c (retain c db).1 ≡ (no_counts, (retain c db).1)
unfolding retain group_rows merge_all
retain_idempotent c db =
    let rollups =
      merge_all (group_rows (filter (is_compacted c) db.counter_samples))
        db.counter_hourly_rollups in
    rw (
      compact_kept c db.counter_samples,
      prune_kept (λ (r : GaugeRow). r.observed_at) c.raw db.gauge_samples,
      prune_kept (λ (r : CounterRow). r.observed_at) c.raw db.counter_samples,
      prune_kept (λ (r : HealthRow). r.observed_at) c.raw db.health_samples,
      prune_kept (λ (r : Rollup). r.bucket_start) (delete_before c) rollups,
      keep_twice (λ (r : GaugeRow). r.observed_at) c.raw db.gauge_samples,
      keep_twice (λ (r : CounterRow). r.observed_at) c.raw db.counter_samples,
      keep_twice (λ (r : HealthRow). r.observed_at) c.raw db.health_samples,
      keep_twice (λ (r : Rollup). r.bucket_start) (delete_before c) rollups,
    )
