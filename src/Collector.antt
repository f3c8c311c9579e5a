-- ===== src/Collector.antt =====
-- collector.py: one collection, and the daemon's loop. The collectors, the clocks and the store's
-- codec are what a round is given; the state is the database and the time of the last retention.
pub mod Observations
pub mod Conversion
pub mod HostConversion
pub mod Gather
pub mod Round
pub mod Failures
pub mod Daemon
mod Tests
use aws_ops_monitor.Prelude.{
  ℕ, String, Bool, Option, none, some, List, [], ◌∷◌, ◌++◌, if◌then◌else◌, str_eq,
}
use aws_ops_monitor.Prelude.Float.{Float}
use aws_ops_monitor.Models.{Scalar, text, HealthObservation, GaugeObservation, Details}
use aws_ops_monitor.Models.Snapshots.{HostSnapshot, XraySnapshot, NetworkSnapshot}

-- `details.get(key)`
unfoldable pub get_detail : String → Details → Option Scalar
get_detail key [] = none
get_detail key ((k, v) ∷ rest) = if str_eq k key then some v else get_detail key rest

-- the collector of aws_lightsail.py hands over gauges and a health observation
pub record LightsailSnapshot : Type 0 where
  pub observed_at : ℕ
  pub gauges : List GaugeObservation
  pub health : HealthObservation

-- What one call of a collector does: it is disabled, it raises, or it returns.
pub data Outcome (Snapshot : Type 0) : Type 0 where
  absent : Outcome Snapshot
  raised : Outcome Snapshot
  returned : Snapshot → Outcome Snapshot

-- The settings that a round reads. Intervals are in
-- millionths of a second.
pub record Settings : Type 0 where
  pub probe_minimum_interval_seconds : ℕ
  pub aws_minimum_interval_seconds : ℕ
  pub retention_prune_interval_seconds : ℕ
  pub raw_retention_days : ℕ
  pub rollup_retention_days : ℕ

-- The outcomes of the collectors in one round, and a field for each place where a clock is read.
pub record Inputs : Type 0 where
  pub host : Outcome HostSnapshot
  pub xray : Outcome XraySnapshot
  pub network : Outcome NetworkSnapshot
  pub path_probes : Outcome (List HealthObservation)
  pub aws : Outcome LightsailSnapshot
  pub host_clock : ℕ
  pub xray_clock : ℕ
  pub network_clock : ℕ
  pub path_clock : ℕ
  pub aws_clock : ℕ
  pub retention_monotonic : ℕ
  pub retention_clock : ℕ
  pub end_clock : Float
