-- ===== src/Store/Retention.antt =====
-- store.py: `apply_retention`, which compacts old counter rows into hourly rollups and prunes.
-- Times are in millionths of a second and not negative, so a cutoff before the epoch, which selects
-- no row, is the cutoff 0 here.
pub mod Rollups
pub mod Conservation
pub mod Repeat
pub mod Requests
pub mod Effects
use aws_ops_monitor.Prelude.{
  ℕ, ◌+◌, ◌-◌, ◌*◌, ◌/◌, String, Bool, true, false, not, ◌&&◌, Option, none, some, List, [], ◌∷◌,
  ◌++◌, map, foldl, Result, ok, err, Error, value_error, other_error, all, ◌>>=◌, ◌>>◌, raise_if,
  ltb, leb, ◌==◌, str_eq, if◌then◌else◌, length, filter, bool_to_ℕ,
}
use aws_ops_monitor.Prelude.Int.{ℤ, pos, negsuc, pos_part}
use aws_ops_monitor.Prelude.Float.{Float, num, micro}
use aws_ops_monitor.Models.{Scalar, int, sqlite_integer_max}
use aws_ops_monitor.Store.{Tables, GaugeRow, CounterRow, HealthRow, Rollup, transaction}

-- the four columns of the primary key
unfoldable pub same_bucket : Rollup → Rollup → Bool
same_bucket a b =
    (a.bucket_start == b.bucket_start)
    && (str_eq a.source b.source && (str_eq a.name b.name && str_eq a.labels_json b.labels_json))

unfoldable pub add_rollup : Rollup → Rollup → Rollup
add_rollup old new = record old {
  delta_value = old.delta_value + new.delta_value;
  reset_count = old.reset_count + new.reset_count;
}

-- A row joins the row with its key, or is a new one: the `ON CONFLICT` clause, and also the
-- aggregation of a row into its group.
unfoldable pub merge_rollup : Rollup → List Rollup → List Rollup
merge_rollup new [] = new ∷ []
merge_rollup new (r ∷ rs) =
    if same_bucket r new then add_rollup r new ∷ rs else r ∷ merge_rollup new rs

abbrev hour : ℕ
hour = 3600 * micro

-- the columns that the `SELECT` computes of one row
unfoldable pub rollup_of : CounterRow → Rollup
rollup_of row = record {
  bucket_start = row.observed_at / hour * 3600;
  source = row.source;
  name = row.name;
  labels_json = row.labels_json;
  delta_value = row.delta_value;
  reset_count = bool_to_ℕ row.is_reset;
}

-- `INSERT` of each row, by its key
unfoldable pub merge_all : List Rollup → List Rollup → List Rollup
merge_all [] table = table
merge_all (r ∷ rs) table = merge_all rs (merge_rollup r table)

-- `GROUP BY`, with the sums
unfoldable pub group_rows : List CounterRow → List Rollup
group_rows rows = merge_all (map rollup_of rows) []

pub record RetentionCounts : Type 0 where
  pub counter_rows_compacted : ℕ
  pub gauge_rows_pruned : ℕ
  pub counter_rows_pruned : ℕ
  pub health_rows_pruned : ℕ
  pub rollup_rows_pruned : ℕ

abbrev day : ℕ
day = 86400 * micro

pub record Cutoffs : Type 0 where
  pub raw : ℕ
  pub rollup : ℕ

unfoldable pub cutoffs : ℕ → ℕ → ℕ → Cutoffs
cutoffs now raw_days rollup_days = record {
  raw = now - raw_days * day;
  rollup = now - rollup_days * day;
}

-- `int(rollup_cutoff // 3600) * 3600`, in seconds
unfoldable pub delete_before : Cutoffs → ℕ
delete_before c = c.rollup / hour * 3600

-- `observed_at < ? AND observed_at >= ?`
abbrev pub is_compacted : Cutoffs → CounterRow → Bool
is_compacted c row = ltb row.observed_at c.raw && leb c.rollup row.observed_at

-- Every `SUM(delta_value)` is an integer of 64 bits; `SUM` raises on a larger one.
unfoldable pub sums_fit : Cutoffs → Tables → Bool
sums_fit c db =
    all (λ r. leb r.delta_value sqlite_integer_max)
      (group_rows (filter (is_compacted c) db.counter_samples))

-- the statements of the transaction, in their order, where no sum raises
unfoldable pub retain : Cutoffs → Tables → RetentionCounts × Tables
retain c db =
    let old = filter (is_compacted c) db.counter_samples in
    let rollups = merge_all (group_rows old) db.counter_hourly_rollups in
    (
      record {
        counter_rows_compacted = length old;
        gauge_rows_pruned =
            length (filter (λ (r : GaugeRow). ltb r.observed_at c.raw) db.gauge_samples);
        counter_rows_pruned =
            length (filter (λ (r : CounterRow). ltb r.observed_at c.raw) db.counter_samples);
        health_rows_pruned =
            length (filter (λ (r : HealthRow). ltb r.observed_at c.raw) db.health_samples);
        rollup_rows_pruned =
            length (filter (λ (r : Rollup). ltb r.bucket_start (delete_before c)) rollups);
      },
      record db {
        gauge_samples = filter (λ r. leb c.raw r.observed_at) db.gauge_samples;
        counter_samples = filter (λ r. leb c.raw r.observed_at) db.counter_samples;
        health_samples = filter (λ r. leb c.raw r.observed_at) db.health_samples;
        counter_hourly_rollups = filter (λ r. leb (delete_before c) r.bucket_start) rollups;
      },
    )

-- the body of the transaction
abbrev pub compact : Cutoffs → Tables → Result (RetentionCounts × Tables)
compact c db = if sums_fit c db then ok (retain c db) else err other_error

-- `isinstance(value, bool) or not isinstance(value, int) or not minimum <= value <= maximum`
unfoldable pub days_between : String → ℕ → ℕ → Scalar → Result ℕ
days_between message minimum maximum (int (pos n)) =
    if leb minimum n && leb n maximum then ok n else err (value_error message)
days_between message minimum maximum _ = err (value_error message)

-- `not math.isfinite(now)`, and the time from the epoch
unfoldable pub finite_now : Float → Result ℕ
finite_now (num z) = ok (pos_part z)
finite_now _ = err (value_error "now must be a finite Unix timestamp")

unfoldable pub retention_cutoffs : Float → Scalar → Scalar → Result Cutoffs
retention_cutoffs now raw_retention_days rollup_retention_days = do
  t ← finite_now now
  raw ← days_between "raw_retention_days must be between 1 and 30" 1 30 raw_retention_days
  rollup ←
      days_between "rollup_retention_days must be between 30 and 800" 30 800 rollup_retention_days
  raise_if (leb rollup raw) (value_error "rollup retention must be longer than raw retention")
  ok (cutoffs t raw rollup)

unfoldable pub apply_retention : Float → Scalar → Scalar → Tables → Result RetentionCounts × Tables
apply_retention now raw_retention_days rollup_retention_days db =
    elim (retention_cutoffs now raw_retention_days rollup_retention_days) [
      | err e ↦ (err e, db)
      | ok c ↦ transaction (compact c) db
    ]
