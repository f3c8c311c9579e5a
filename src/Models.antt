-- ===== src/Models.antt =====
-- models.py: the telemetry values and the checks that their constructors make. A constructor with a
-- `__post_init__` is a function that returns the value or raises. Timestamps that passed the check
-- are kept as naturals, in millionths of a second.
pub mod Checks
pub mod Snapshots
mod Tests
use Prim.Native.String
use aws_ops_monitor.Prelude.{
  ℕ, zero, suc, ◌-◌, ◌*◌, ◌^◌, ◌≡◌, String, Bool, true, false, not, ◌&&◌, ◌||◌, Option, none, some,
  List, [], ◌∷◌, Result, ok, err, Error, value_error, ◌>>=◌, ◌>>◌, raise_if, ltb, leb, length, any,
  if◌then◌else◌, str_eq,
}
use aws_ops_monitor.Prelude.Int.{ℤ, pos, negsuc}
use aws_ops_monitor.Prelude.Float.{Float, num, infinity, neg_infinity, nan, is_finite}
use aws_ops_monitor.Prelude.Text.{count, is_blank, any_code}

-- `Scalar`
pub data Scalar : Type 0 where
  text : String → Scalar
  int : ℤ → Scalar
  float : Float → Scalar
  bool : Bool → Scalar
  null : Scalar

pub data HealthState : Type 0 where
  healthy degraded unavailable disabled : HealthState

-- a Python dict of strings, in insertion order
abbrev pub Labels : Type 0
Labels = List (String × String)

abbrev pub Details : Type 0
Details = List (String × Scalar)

abbrev pub is_control : ℕ → Bool
is_control c = ltb c 32

unfoldable pub validate_metric_part : String → String → Result (Unit {0})
unfolding count any_code
validate_metric_part kind value =
    raise_if (is_blank value || ltb 128 (count value) || any_code is_control value)
      (value_error (String.◌++◌ "invalid " kind))

-- the loop over `labels.items()`
unfoldable pub validate_label_items : Labels → Result (Unit {0})
unfolding validate_metric_part
validate_label_items [] = ok tt
validate_label_items ((key, value) ∷ rest) =
    let later = validate_label_items rest in
    do
      validate_metric_part "label key" key
      raise_if (ltb 256 (count value) || any_code is_control value)
          (value_error "invalid label value")
      later

unfoldable pub validate_labels : Labels → Result (Unit {0})
unfolding validate_label_items
validate_labels labels = do
  raise_if (ltb 16 (length labels)) (value_error "too many metric labels")
  validate_label_items labels

-- `if not math.isfinite(t) or t < 0: raise ValueError(...)`, and the timestamp that passes
unfoldable pub validate_timestamp : Float → Result ℕ
validate_timestamp (num (pos t)) = ok t
validate_timestamp _ = err (value_error "observed_at must be a finite Unix timestamp")

unfoldable pub validate_gauge_value : Float → Result ℤ
validate_gauge_value (num v) = ok v
validate_gauge_value _ = err (value_error "gauge value must be finite")

pub record GaugeObservation : Type 0 where
  pub observed_at : ℕ
  pub source : String
  pub name : String
  pub value : ℤ
  pub labels : Labels

unfoldable pub gauge_observation :
    Float → String → String → Float → Labels → Result GaugeObservation
gauge_observation observed_at source name value labels = do
  validate_metric_part "source" source
  validate_metric_part "metric name" name
  validate_labels labels
  t ← validate_timestamp observed_at
  v ← validate_gauge_value value
  ok (record { observed_at = t; source = source; name = name; value = v; labels = labels })

abbrev pub sqlite_integer_max : ℕ
sqlite_integer_max = 2 ^ 63 - 1

-- `isinstance(value, bool) or not isinstance(value, int)`, then the range
unfoldable pub validate_counter_value : Scalar → Result ℕ
validate_counter_value (int (pos n)) =
    if leb n sqlite_integer_max
    then ok n
    else err (value_error "counter value is outside SQLite integer range")
validate_counter_value (int (negsuc n)) =
    err (value_error "counter value is outside SQLite integer range")
validate_counter_value _ = err (value_error "counter value must be an integer")

pub record CounterObservation : Type 0 where
  pub observed_at : ℕ
  pub source : String
  pub name : String
  pub value : ℕ
  pub reset_id : String
  pub labels : Labels

unfoldable pub counter_observation :
    Float → String → String → Scalar → String → Labels → Result CounterObservation
counter_observation observed_at source name value reset_id labels = do
  validate_metric_part "source" source
  validate_metric_part "metric name" name
  validate_metric_part "reset identity" reset_id
  validate_labels labels
  t ← validate_timestamp observed_at
  v ← validate_counter_value value
  ok (record {
    observed_at = t;
    source = source;
    name = name;
    value = v;
    reset_id = reset_id;
    labels = labels;
  })

pub record CounterResult : Type 0 where
  pub source : String
  pub name : String
  pub value : ℕ
  pub delta : ℕ
  pub reset_id : String
  pub is_baseline : Bool
  pub is_reset : Bool
  pub labels : Labels

-- A detail is a `Scalar` by its type, so the test that it is one always passes.
unfoldable pub validate_detail_value : Scalar → Result (Unit {0})
validate_detail_value (float x) =
    raise_if (not (is_finite x)) (value_error "health detail numbers must be finite")
validate_detail_value (text s) =
    raise_if (ltb 512 (count s)) (value_error "health detail string is too long")
validate_detail_value _ = ok tt

unfoldable pub validate_detail_items : Details → Result (Unit {0})
unfolding validate_metric_part validate_detail_value
validate_detail_items [] = ok tt
validate_detail_items ((key, value) ∷ rest) =
    let later = validate_detail_items rest in
    do validate_metric_part "health detail key" key; validate_detail_value value; later

pub record HealthObservation : Type 0 where
  pub observed_at : ℕ
  pub component : String
  pub state : HealthState
  pub message : String
  pub details : Details

-- The constructor does not look at the timestamp. Each of its callers gives it a reading of the clock,
-- which is a number and not before the epoch.
unfoldable pub health_observation :
    ℕ → String → HealthState → String → Details → Result HealthObservation
health_observation observed_at component state message details = do
  validate_metric_part "component" component
  raise_if (ltb 512 (count message) || any_code is_control message)
      (value_error "invalid health message")
  raise_if (ltb 32 (length details)) (value_error "too many health details")
  validate_detail_items details
  ok (record {
    observed_at = observed_at;
    component = component;
    state = state;
    message = message;
    details = details;
  })

pub record InterfaceCounters : Type 0 where
  pub name : String
  pub receive_bytes : ℕ
  pub receive_packets : ℕ
  pub receive_errors : ℕ
  pub receive_drops : ℕ
  pub transmit_bytes : ℕ
  pub transmit_packets : ℕ
  pub transmit_errors : ℕ
  pub transmit_drops : ℕ
