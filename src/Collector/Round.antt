-- ===== src/Collector/Round.antt =====
-- collector.py: `collect_once` as a whole, and `run_forever`.
use aws_ops_monitor.Prelude.{
  ℕ, ◌+◌, ◌-◌, String, Bool, true, false, Option, none, some, List, [], ◌∷◌, ◌++◌, Result, ok, err,
  ◌>>=◌, leb, length,
}
use aws_ops_monitor.Prelude.Int.{pos}
use aws_ops_monitor.Prelude.Float.{num}
use aws_ops_monitor.Models.{
  Scalar, int, Details, healthy, unavailable, HealthObservation, health_observation,
}
use aws_ops_monitor.Models.Snapshots.{CollectionResult}
use aws_ops_monitor.Store.{Tables, Codec}
use aws_ops_monitor.Store.Batch.{record_batch}
use aws_ops_monitor.Store.Retention.{RetentionCounts, apply_retention}
use aws_ops_monitor.Collector.{Settings, Inputs}
use aws_ops_monitor.Collector.Gather.{Gathered, gather}

-- The database, and `_last_retention_attempt`. Spans of time are in millionths of a second.
pub record State : Type 0 where
  pub db : Tables
  pub last_retention_attempt : Option ℕ

unfoldable pub retention_due : Settings → Inputs → Option ℕ → Bool
retention_due settings i none = true
retention_due settings i (some last) =
    leb (last + settings.retention_prune_interval_seconds) i.retention_monotonic

abbrev pub retention_days : Settings → Details
retention_days settings =
    ("raw_retention_days", int (pos settings.raw_retention_days))
    ∷ ("rollup_retention_days", int (pos settings.rollup_retention_days))
    ∷ []

abbrev pub count_details : RetentionCounts → Details
count_details counts =
    ("counter_rows_compacted", int (pos counts.counter_rows_compacted))
    ∷ ("gauge_rows_pruned", int (pos counts.gauge_rows_pruned))
    ∷ ("counter_rows_pruned", int (pos counts.counter_rows_pruned))
    ∷ ("health_rows_pruned", int (pos counts.health_rows_pruned))
    ∷ ("rollup_rows_pruned", int (pos counts.rollup_rows_pruned))
    ∷ []

-- the health observation of the attempt
unfoldable pub retention_health :
    Settings → Inputs → Result RetentionCounts → Result HealthObservation
retention_health settings i (err e) =
    health_observation i.retention_clock "retention" unavailable "telemetry retention failed"
      (retention_days settings)
retention_health settings i (ok counts) =
    health_observation i.retention_clock "retention" healthy "telemetry retention applied"
      (retention_days settings ++ count_details counts)

abbrev pub attempt : Settings → Inputs → Tables → Result RetentionCounts × Tables
attempt settings i db =
    apply_retention (num (pos i.retention_clock)) (int (pos settings.raw_retention_days))
      (int (pos settings.rollup_retention_days)) db

-- `self.store.record_batch(...)`, and the result
unfoldable pub persist :
    Codec → Inputs → Gathered → List HealthObservation → State → Result CollectionResult × State
persist codec i g health s =
    let (recorded, db') = record_batch codec g.gauges g.counters health s.db in
    (
      (recorded >>= λ _. ok (record {
        observed_at = i.end_clock;
        host_state = g.host_state;
        xray_state = g.xray_state;
        gauge_count = length g.gauges;
        counter_count = length g.counters;
        network_state = g.network_state;
        aws_state = g.aws_state;
      })),
      record s { db = db' },
    )

-- after the attempt: its health joins the batch
unfoldable pub after_retention :
    Codec → Inputs → Gathered → Result HealthObservation → State → Result CollectionResult × State
after_retention codec i g (err e) s = (err e, s)
after_retention codec i g (ok h) s = persist codec i g (g.health ++ h ∷ []) s

-- `self._last_retention_attempt = retention_now`, and the tables that the attempt leaves
abbrev pub attempted : Settings → Inputs → State → State
attempted settings i s = record {
  db = (attempt settings i s.db).1;
  last_retention_attempt = some i.retention_monotonic;
}

-- the rest of the method after the collectors, with retention or without
unfoldable pub finish :
    Codec → Settings → Inputs → Gathered → Bool → State → Result CollectionResult × State
finish codec settings i g false s = persist codec i g g.health s
finish codec settings i g true s =
    after_retention codec i g (retention_health settings i (attempt settings i s.db).0)
      (attempted settings i s)

unfoldable pub after_gather :
    Codec → Settings → Inputs → Result Gathered → State → Result CollectionResult × State
after_gather codec settings i (err e) s = (err e, s)
after_gather codec settings i (ok g) s =
    finish codec settings i g (retention_due settings i s.last_retention_attempt) s

unfoldable pub collect_once :
    (Scalar → String) → Codec → Settings → Inputs → State → Result CollectionResult × State
collect_once show codec settings i s = after_gather codec settings i (gather show settings i) s

-- `run_forever` over the rounds until the stop event is set; an exception of a round is logged.
unfoldable pub run_rounds : (Scalar → String) → Codec → Settings → List Inputs → State → State
run_rounds show codec settings [] s = s
run_rounds show codec settings (i ∷ is) s =
    run_rounds show codec settings is (collect_once show codec settings i s).1

-- the wait after a round that began and ended at these times, `max` written by truncation
unfoldable pub wait_after : ℕ → ℕ → ℕ → ℕ
wait_after interval started ended = interval - (ended - started)
