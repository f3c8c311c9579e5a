-- ===== src/Collector/Daemon.antt =====
-- collector.py: what a round leaves in the database.
use aws_ops_monitor.Prelude.{
  ℕ, ◌+◌, ◌≤◌, ◌<◌, ◌≡◌, ◌⊎◌, String, Option, none, some, List, [], ◌∷◌, ◌++◌, Result, ok, err,
  ◌>>=◌, length,
}
use aws_ops_monitor.Models.{Scalar, HealthObservation}
use aws_ops_monitor.Models.Snapshots.{CollectionResult}
use aws_ops_monitor.Store.{Tables, Codec}
use aws_ops_monitor.Store.History.{AllFollow, memory}
use aws_ops_monitor.Store.Recorded.{after_batch}
use aws_ops_monitor.Collector.{Settings, Inputs}
use aws_ops_monitor.Collector.Gather.{Gathered}
use aws_ops_monitor.Collector.Round.{State, retention_health, attempt}

module _ (show : Scalar → String) (codec : Codec) (settings : Settings) where
  -- Retention is not due: it was attempted, less than the pruning interval ago.
  abbrev IsFresh : Option ℕ → ℕ → Type 0
  IsFresh none now = ⊥
  IsFresh (some last) now = now < last + settings.retention_prune_interval_seconds

  -- Retention is due: it was never attempted, or the pruning interval has passed.
  abbrev IsDue : Option ℕ → ℕ → Type 0
  IsDue none now = Unit
  IsDue (some last) now = last + settings.retention_prune_interval_seconds ≤ now

  -- The database that a batch is written to, the time of the last attempt afterwards, and the health
  -- of the batch, after that of the collectors. Where retention is due, it is attempted on the
  -- database, and its own health comes last.
  abbrev pub IsBase :
      Inputs
      → State
      → List HealthObservation
      → Tables
      → Option ℕ
      → Result (List HealthObservation)
      → Type 0
  IsBase i s collected base last health =
      (IsFresh s.last_retention_attempt i.retention_monotonic
        × (base ≡ s.db)
        × (last ≡ s.last_retention_attempt)
        × (health ≡ ok collected))
      ⊎ (IsDue s.last_retention_attempt i.retention_monotonic
          × (base ≡ (attempt settings i s.db).1)
          × (last ≡ some i.retention_monotonic)
          × (health ≡ (
              retention_health settings i (attempt settings i s.db).0 >>= λ h.
              ok (collected ++ h ∷ []))))

  -- The round's batch is in the database, whole, and the result tells of it.
  abbrev Persisted :
      Inputs
      → Gathered
      → Result (List HealthObservation)
      → Tables
      → CollectionResult
      → Tables
      → Type 0
  Persisted i g batch_health base r db =
      (health : List HealthObservation) × (batch_health ≡ ok health)
      × AllFollow codec (memory codec base) g.counters
      × (db ≡ after_batch codec g.gauges g.counters health base)
      × (r ≡ record {
        observed_at = i.end_clock;
        host_state = g.host_state;
        xray_state = g.xray_state;
        gauge_count = length g.gauges;
        counter_count = length g.counters;
        network_state = g.network_state;
        aws_state = g.aws_state;
      })

  -- how a round can end, from a base
  abbrev pub Ends :
      Inputs
      → Gathered
      → Result (List HealthObservation)
      → Tables
      → Result CollectionResult
      → Tables
      → Type 0
  Ends i g health base (ok r) db = Persisted i g health base r db
  Ends i g health base (err e) db =
      (db ≡ base) × ((health ≡ err e) ⊎ (¬ AllFollow codec (memory codec base) g.counters))
