-- ===== src/Store/Retention/Rollups.antt =====
-- store.py: the rollup table under `INSERT ... ON CONFLICT`.
use aws_ops_monitor.Prelude.{
  ℕ, ◌+◌, ◌≡◌, refl, ◌↔◌, true, List, [], ◌∷◌, map, arith, eq_iff, if◌then◌else◌, sum_by,
}
use aws_ops_monitor.Store.{Rollup, CounterRow}
use aws_ops_monitor.Store.Retention.{
  same_bucket, add_rollup, merge_rollup, merge_all, rollup_of, group_rows,
}

-- equal in the four columns of the key
pub record SameBucket (a b : Rollup) : Type 0 where
  pub bucket_start : a.bucket_start ≡ b.bucket_start
  pub source : a.source ≡ b.source
  pub name : a.name ≡ b.name
  pub labels_json : a.labels_json ≡ b.labels_json

pub same_bucket_iff : (a b : Rollup) → (same_bucket a b ≡ true) ↔ SameBucket a b
unfolding same_bucket
same_bucket_iff a b =
    ground
      (arith, eq_iff a.source b.source, eq_iff a.name b.name, eq_iff a.labels_json b.labels_json)

-- a column that `add_rollup` adds up
abbrev pub AddsUp : (Rollup → ℕ) → Type 0
AddsUp f = (old new : Rollup) → f (add_rollup old new) ≡ f old + f new

pub delta_value-AddsUp : AddsUp (λ r. r.delta_value)
unfolding add_rollup
delta_value-AddsUp old new = refl

pub reset_count-AddsUp : AddsUp (λ r. r.reset_count)
unfolding add_rollup
reset_count-AddsUp old new = refl

-- what a row adds to the total of a bucket
abbrev pub share : (Rollup → ℕ) → Rollup → Rollup → ℕ
share f k r = if same_bucket r k then f r else 0

-- the total of a column over the rows of one bucket
abbrev pub total : (Rollup → ℕ) → Rollup → List Rollup → ℕ
total f k = sum_by (share f k)

module _ (f : Rollup → ℕ) (adds : AddsUp f) (k : Rollup) where
  same_bucket-add_rollup :
      (old new : Rollup) → same_bucket (add_rollup old new) k ≡ same_bucket old k
  unfolding same_bucket add_rollup
  same_bucket-add_rollup old new = refl

  total-merge_rollup :
      (new : Rollup) (rs : List Rollup)
      → total f k (merge_rollup new rs) ≡ share f k new + total f k rs
  unfolding merge_rollup
  total-merge_rollup new [] = refl
  total-merge_rollup new (r ∷ rs) = ground (
    arith,
    total-merge_rollup new rs,
    same_bucket-add_rollup r new,
    adds r new,
    same_bucket_iff r new,
    same_bucket_iff r k,
    same_bucket_iff new k,
  )

  pub total-merge_all :
      (new rs : List Rollup) → total f k (merge_all new rs) ≡ total f k new + total f k rs
  unfolding merge_all
  total-merge_all [] rs = omega arith
  total-merge_all (r ∷ new) rs =
      omega (arith, total-merge_all new (merge_rollup r rs), total-merge_rollup r rs)

  pub total-group_rows :
      (rows : List CounterRow) → total f k (group_rows rows) ≡ total f k (map rollup_of rows)
  unfolding group_rows
  total-group_rows rows = omega (arith, total-merge_all (map rollup_of rows) [])
