-- ===== src/Collector/Tests.antt =====
-- collector.py: the theorems at a concrete round.
use aws_ops_monitor.Prelude.{
  ◌+◌, ◌*◌, ◌≤◌, ◌≡◌, refl, ap, ◌∙◌, String, some, List, [], ◌∷◌, ok, arith,
}
use aws_ops_monitor.Prelude.Float.{whole, micro, round_micro}
use aws_ops_monitor.Models.{Scalar, healthy, unavailable, disabled, HealthObservation}
use aws_ops_monitor.Models.Snapshots.{NetworkSnapshot}
use aws_ops_monitor.Store.{Codec, empty_tables}
use aws_ops_monitor.Collector.{Outcome, absent, raised, returned, Settings, Inputs}
use aws_ops_monitor.Collector.Gather.{Gathered, gather, fresh_for}
use aws_ops_monitor.Collector.Round.{State, wait_after}
use aws_ops_monitor.Collector.Failures.{Converts, fresh_for_bounds, gather-ok}

abbrev show : Scalar → String
show s = "other"

abbrev codec : Codec
codec = record { dump_labels = λ _. "{}"; dump_details = λ _. "{}"; sha256 = λ s. s }

abbrev settings : Settings
settings = record {
  probe_minimum_interval_seconds = 900 * micro;
  aws_minimum_interval_seconds = 300 * micro;
  retention_prune_interval_seconds = 3600 * micro;
  raw_retention_days = 7;
  rollup_retention_days = 400;
}

abbrev listener_health : HealthObservation
listener_health = record {
  observed_at = 5 * micro;
  component = "network_exposure";
  state = healthy;
  message = "listener exposure matches the configured public-port policy";
  details = [];
}

-- The host collector raises, Xray is disabled and the listeners are read.
abbrev inputs : Inputs
inputs = record {
  host = raised;
  xray = absent;
  network =
      returned (record { observed_at = 5 * micro; listeners = []; health = listener_health ∷ [] });
  path_probes = raised;
  aws = absent;
  host_clock = 5 * micro;
  xray_clock = 5 * micro;
  network_clock = 5 * micro;
  path_clock = 6 * micro;
  aws_clock = 6 * micro;
  retention_monotonic = 7200 * micro;
  retention_clock = 6 * micro;
  end_clock = whole 7;
}

abbrev start : State
start = record { db = empty_tables; last_retention_attempt = some (60 * micro) }

abbrev network_health : Outcome NetworkSnapshot → List HealthObservation
network_health (returned network) = network.health
network_health _ = []

converts : Converts show inputs
converts = record {
  host = λ h e. cc e;
  xray = λ x e. cc e;
  network = λ n e h. cc (ap network_health e ∙ h);
}

gather-ok_example :
    (g : Gathered) × (gather show settings inputs ≡ ok g)
    × (g.host_state ≡ unavailable)
    × (g.xray_state ≡ disabled)
    × (g.network_state ≡ healthy)
    × (g.aws_state ≡ disabled)
gather-ok_example = gather-ok show settings inputs converts

fresh_for_bounds_example :
    (600 ≤ fresh_for (900 * micro))
    × (fresh_for (900 * micro) ≤ 172800)
    × (900 * micro * 2 ≤ fresh_for (900 * micro) * micro + 500000)
fresh_for_bounds_example = fresh_for_bounds (900 * micro) (omega arith)

freshness : fresh_for (900 * micro) ≡ 1800
unfolding fresh_for round_micro
freshness = refl

waits : wait_after (60 * micro) (100 * micro) (112 * micro) ≡ 48 * micro
unfolding wait_after
waits = refl
