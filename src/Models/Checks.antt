-- ===== src/Models/Checks.antt =====
-- models.py: what the constructors of the observations accept.
use aws_ops_monitor.Prelude.{ℕ, ◌≤◌, ◌≡◌, ◌↔◌, String, true, false, [], ◌∷◌, ok, length, arith}
use aws_ops_monitor.Prelude.Int.{pos}
use aws_ops_monitor.Prelude.Float.{Float, num, infinity, neg_infinity, nan, is_finite}
use aws_ops_monitor.Prelude.Text.{count, is_blank, any_code}
use aws_ops_monitor.Models.{
  GaugeObservation, gauge_observation, validate_gauge_value, Scalar, int, Labels,
  CounterObservation, is_control, validate_metric_part, validate_label_items, validate_labels,
  validate_timestamp, validate_counter_value, counter_observation, sqlite_integer_max,
}

-- a nonempty text of at most 128 characters, none of them a control character
abbrev pub IsMetricPart : String → Type 0
IsMetricPart s = (is_blank s ≡ false) × (count s ≤ 128) × (any_code is_control s ≡ false)

abbrev pub IsLabel : String × String → Type 0
IsLabel (key, value) =
    IsMetricPart key × ((count value ≤ 256) × (any_code is_control value ≡ false))

abbrev pub AreLabels : Labels → Type 0
AreLabels [] = Unit
AreLabels (l ∷ ls) = IsLabel l × AreLabels ls

pub record IsCounterObservation (o : CounterObservation) : Type 0 where
  pub source_part : IsMetricPart o.source
  pub name_part : IsMetricPart o.name
  pub reset_part : IsMetricPart o.reset_id
  pub few_labels : length o.labels ≤ 16
  pub label_parts : AreLabels o.labels
  pub in_range : o.value ≤ sqlite_integer_max

validate_metric_part_iff :
    (kind value : String) → (validate_metric_part kind value ≡ ok tt) ↔ IsMetricPart value
unfolding validate_metric_part
validate_metric_part_iff kind value = ground arith

validate_label_items_iff : (ls : Labels) → (validate_label_items ls ≡ ok tt) ↔ AreLabels ls
unfolding validate_label_items
validate_label_items_iff [] = ground arith
validate_label_items_iff ((key, value) ∷ rest) = ground (arith, validate_label_items_iff rest)

validate_labels_iff :
    (ls : Labels) → (validate_labels ls ≡ ok tt) ↔ ((length ls ≤ 16) × AreLabels ls)
unfolding validate_labels
validate_labels_iff ls = ground (arith, validate_label_items_iff ls)

validate_timestamp_iff : (x : Float) (t : ℕ) → (validate_timestamp x ≡ ok t) ↔ (x ≡ num (pos t))
unfolding validate_timestamp
validate_timestamp_iff x t = ground arith

validate_counter_value_iff :
    (x : Scalar) (n : ℕ)
    → (validate_counter_value x ≡ ok n) ↔ ((x ≡ int (pos n)) × (n ≤ sqlite_integer_max))
unfolding validate_counter_value
validate_counter_value_iff x n = ground arith

-- The constructor returns an observation exactly when it was given the fields of that observation,
-- with a finite timestamp that is not negative and an integer value, and the texts are bounded and
-- without control characters, the labels are at most 16 and the value fits SQLite's integers.
pub counter_observation-ok_iff :
    (observed_at : Float) (source name : String) (value : Scalar) (reset_id : String)
    (labels : Labels) (o : CounterObservation)
    → (counter_observation observed_at source name value reset_id labels ≡ ok o) ↔ (
        (observed_at ≡ num (pos o.observed_at))
        × (source ≡ o.source)
        × (name ≡ o.name)
        × (value ≡ int (pos o.value))
        × (reset_id ≡ o.reset_id)
        × (labels ≡ o.labels)
        × IsCounterObservation o)
unfolding counter_observation
counter_observation-ok_iff observed_at source name value reset_id labels o = ground (
  arith,
  validate_metric_part_iff "source" source,
  validate_metric_part_iff "metric name" name,
  validate_metric_part_iff "reset identity" reset_id,
  validate_labels_iff labels,
  validate_timestamp_iff observed_at o.observed_at,
  validate_counter_value_iff value o.value,
)

-- A gauge with texts that are accepted and a finite value is one.
pub gauge_observation-ok :
    (at : ℕ) (source name : String) (value : Float) (labels : Labels)
    → IsMetricPart source
    → IsMetricPart name
    → (length labels ≤ 16) × AreLabels labels
    → is_finite value ≡ true
    → (o : GaugeObservation) × (gauge_observation (num (pos at)) source name value labels ≡ ok o)
unfolding gauge_observation is_finite validate_timestamp validate_gauge_value
gauge_observation-ok at source name (num v) labels source_ok name_ok labels_ok finite = (
  record { observed_at = at; source = source; name = name; value = v; labels = labels },
  ground (
    arith,
    (validate_metric_part_iff "source" source).1 source_ok,
    (validate_metric_part_iff "metric name" name).1 name_ok,
    (validate_labels_iff labels).1 labels_ok,
  ),
)
gauge_observation-ok at source name infinity labels source_ok name_ok labels_ok finite = cc finite
gauge_observation-ok at source name neg_infinity labels source_ok name_ok labels_ok finite =
    cc finite
gauge_observation-ok at source name nan labels source_ok name_ok labels_ok finite = cc finite
