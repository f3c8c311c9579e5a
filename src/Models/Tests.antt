-- ===== src/Models/Tests.antt =====
-- models.py: the constructors at concrete values.
use aws_ops_monitor.Prelude.{true, ◌≡◌, refl, ◌↔◌, String, [], ◌∷◌, ok, err, value_error}
use aws_ops_monitor.Prelude.Int.{pos}
use aws_ops_monitor.Prelude.Float.{num, whole}
use aws_ops_monitor.Models.{
  int, bool, Labels, CounterObservation, validate_metric_part, validate_labels, validate_timestamp,
  validate_counter_value, counter_observation,
}
use aws_ops_monitor.Models.Checks.{IsCounterObservation, counter_observation-ok_iff}

abbrev labels : Labels
labels = ("host", "edge-1") ∷ []

abbrev sample : CounterObservation
sample = record {
  observed_at = 100000000;
  source = "host";
  name = "cpu_total_jiffies";
  value = 42;
  reset_id = "host-boot:1";
  labels = labels;
}

counter_observation-ok_iff_example :
    (counter_observation (whole 100) "host" "cpu_total_jiffies" (int (pos 42)) "host-boot:1" labels
      ≡ ok sample)
    ↔ ((whole 100 ≡ num (pos 100000000))
        × (◌≡◌ {A = String} "host" "host")
        × (◌≡◌ {A = String} "cpu_total_jiffies" "cpu_total_jiffies")
        × (int (pos 42) ≡ int (pos 42))
        × (◌≡◌ {A = String} "host-boot:1" "host-boot:1")
        × (labels ≡ labels)
        × IsCounterObservation sample)
counter_observation-ok_iff_example =
    counter_observation-ok_iff (whole 100) "host" "cpu_total_jiffies" (int (pos 42)) "host-boot:1"
      labels sample

runs : Unit {0}
unfolding counter_observation validate_metric_part validate_labels validate_timestamp
    validate_counter_value
runs = tt

accepts_sample :
    counter_observation (whole 100) "host" "cpu_total_jiffies" (int (pos 42)) "host-boot:1" labels
    ≡ ok sample
unfolding runs
accepts_sample = refl

refuses_bool :
    counter_observation (whole 100) "host" "cpu" (bool true) "host-boot:1" labels
    ≡ err (value_error "counter value must be an integer")
unfolding runs
refuses_bool = refl
