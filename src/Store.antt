-- ===== src/Store.antt =====
-- store.py: the tables of the SQLite schema as lists of rows in the order of their ids, and the
-- counter cursors by their key. The parts are in the modules below.
pub mod Counters
pub mod Verdicts
pub mod History
pub mod Batch
pub mod Recorded
pub mod Growth
pub mod Retention
pub mod Invariant
pub mod Reachable
pub mod SeriesRows
pub mod Series
pub mod SeriesTotals
pub mod SeriesOrder
mod Tests
mod SeriesTests
pub mod Keys
use aws_ops_monitor.Prelude.{
  ℕ, String, Bool, Option, none, some, List, [], ◌∷◌, Result, ok, err, Error, if◌then◌else◌, str_eq,
}
use aws_ops_monitor.Prelude.Int.{ℤ}
use aws_ops_monitor.Models.{HealthState, Labels, Details}

pub record GaugeRow : Type 0 where
  pub observed_at : ℕ
  pub source : String
  pub name : String
  pub labels_json : String
  pub value : ℤ

pub record CounterRow : Type 0 where
  pub observed_at : ℕ
  pub counter_key : String
  pub source : String
  pub name : String
  pub labels_json : String
  pub reset_id : String
  pub raw_value : ℕ
  pub delta_value : ℕ
  pub is_baseline : Bool
  pub is_reset : Bool

-- `bucket_start` is in seconds.
pub record Rollup : Type 0 where
  pub bucket_start : ℕ
  pub source : String
  pub name : String
  pub labels_json : String
  pub delta_value : ℕ
  pub reset_count : ℕ

pub record Cursor : Type 0 where
  pub counter_key : String
  pub source : String
  pub name : String
  pub labels_json : String
  pub reset_id : String
  pub raw_value : ℕ
  pub observed_at : ℕ

pub record HealthRow : Type 0 where
  pub observed_at : ℕ
  pub component : String
  pub state : HealthState
  pub message : String
  pub details_json : String

-- the database
pub record Tables : Type 0 where
  pub gauge_samples : List GaugeRow
  pub counter_samples : List CounterRow
  pub counter_hourly_rollups : List Rollup
  pub counter_cursors : List Cursor
  pub health_samples : List HealthRow

-- The schema creates the tables empty.
abbrev pub empty_tables : Tables
empty_tables = record {
  gauge_samples = [];
  counter_samples = [];
  counter_hourly_rollups = [];
  counter_cursors = [];
  health_samples = [];
}

-- The libraries that the rows go through: `json.dumps` of labels and of details, and the hex digest
-- of SHA-256.
pub record Codec : Type 0 where
  pub dump_labels : Labels → String
  pub dump_details : Details → String
  pub sha256 : String → String

-- `BEGIN IMMEDIATE`, then `COMMIT`, or `ROLLBACK` if the body raises
abbrev pub transaction : {A : Type 0} → (Tables → Result (A × Tables)) → Tables → Result A × Tables
transaction body db = elim (body db) [ ok (a, db') ↦ (ok a, db') | err e ↦ (err e, db) ]
