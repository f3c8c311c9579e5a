-- ===== src/Collector/Conversion.antt =====
-- collector.py: when `_host_observations` and `_xray_observations` go through.
use mathlib.Core.Path.{subst}
use aws_ops_monitor.Prelude.{
  ◌<◌, lt→ltb, ◌>>=◌, ℕ, suc, ◌≤◌, ◌≡◌, refl, sym, ap, String, Bool, true, false, List, [], ◌∷◌,
  All, All-map, length, Result, ok, arith, if◌then◌else◌, any, str_eq,
}
use aws_ops_monitor.Prelude.Int.{pos}
use aws_ops_monitor.Prelude.Float.{Float, num, whole, is_finite}
use aws_ops_monitor.Prelude.Text.{count, any_code}
use aws_ops_monitor.Models.{
  is_control, int, Labels, GaugeObservation, CounterObservation, gauge_observation,
  counter_observation, sqlite_integer_max, InterfaceCounters,
}
use aws_ops_monitor.Models.Checks.{
  IsMetricPart, AreLabels, counter_observation-ok_iff, gauge_observation-ok,
}
use aws_ops_monitor.Models.Snapshots.{HostSnapshot}
use aws_ops_monitor.Collector.Observations.{
  traverse, gauge_group, counter_group, interface_values, float_limit, float_of,
}

-- A walk over values each of which goes through returns as many values.
pub traverse-ok :
    {A B : Type 0} (f : A → Result B) (xs : List A)
    → All (λ x. (y : B) × (f x ≡ ok y)) xs
    → (ys : List B) × (traverse f xs ≡ ok ys) × (length ys ≡ length xs)
unfolding traverse
traverse-ok f [] hs = ([], refl, refl)
traverse-ok f (x ∷ xs) ((y, here), rest) =
    let (ys, later, same) = traverse-ok f xs rest in (y ∷ ys, rw (here, later) refl, ap suc same)

-- A group that failed is left out; the others are walked.
pub unless-ok :
    {B : Type 0} (b : Bool) (r : Result (List B))
    → (ys : List B) × (r ≡ ok ys)
    → (ys : List B) × ((if b then ok [] else r) ≡ ok ys)
unless-ok true r walked = ([], refl)
unless-ok false r walked = walked

-- a label value that is accepted
abbrev pub IsLabelValue : String → Type 0
IsLabelValue s = (count s ≤ 256) × (any_code is_control s ≡ false)

-- an interface whose name is accepted as a label and whose counters fit SQLite's integers
abbrev pub IsInterface : InterfaceCounters → Type 0
IsInterface i = IsLabelValue i.name × All (λ (name, n). n ≤ sqlite_integer_max) (interface_values i)

-- What is asked of a snapshot of the host for it to have observations.
pub record IsHostSnapshot (s : HostSnapshot) (at : ℕ) : Type 0 where
  pub timely : s.observed_at ≡ num (pos at)
  pub host_value : IsLabelValue s.hostname
  pub reset_part : IsMetricPart s.reset_id
  pub uptime_finite : is_finite s.uptime_seconds ≡ true
  pub load_1m_finite : is_finite s.load_1m ≡ true
  pub load_5m_finite : is_finite s.load_5m ≡ true
  pub load_15m_finite : is_finite s.load_15m ≡ true
  pub cpu_count_small : s.cpu_count < float_limit
  pub memory_total_small : s.memory_total_bytes < float_limit
  pub memory_available_small : s.memory_available_bytes < float_limit
  pub disk_total_small : s.disk_total_bytes < float_limit
  pub disk_available_small : s.disk_available_bytes < float_limit
  pub cpu_total_in_range : s.cpu_total_jiffies ≤ sqlite_integer_max
  pub cpu_idle_in_range : s.cpu_idle_jiffies ≤ sqlite_integer_max
  pub interfaces_in_range : All IsInterface s.interfaces

-- a gauge with a name that is accepted, and a finite value
abbrev IsGauge : String × Result Float → Type 0
IsGauge (name, value) = IsMetricPart name × ((x : Float) × (value ≡ ok x) × (is_finite x ≡ true))

-- an integer that is a finite float
pub float_of-IsFinite :
    (n : ℕ) → n < float_limit → (x : Float) × (float_of n ≡ ok x) × (is_finite x ≡ true)
unfolding float_of is_finite
float_of-IsFinite n h = (whole n, rw (lt→ltb n float_limit h) refl, refl)

-- a counter with a name that is accepted, and a value in range
abbrev IsCounter : String × ℕ → Type 0
IsCounter (name, value) = IsMetricPart name × (value ≤ sqlite_integer_max)

pub literal_parts : All IsMetricPart (
    "host" ∷ "uptime_seconds" ∷ "load_1m" ∷ "load_5m" ∷ "load_15m" ∷ "cpu_count"
    ∷ "memory_total_bytes" ∷ "memory_available_bytes" ∷ "disk_total_bytes" ∷ "disk_available_bytes"
    ∷ "cpu_total_jiffies" ∷ "cpu_idle_jiffies" ∷ "interface" ∷ [])
unfolding count any_code
literal_parts = ground arith

pub interface_parts : (i : InterfaceCounters) → All (λ v. IsMetricPart v.0) (interface_values i)
unfolding count any_code
interface_parts i = ground arith

module _ (s : HostSnapshot) (at : ℕ) (valid : IsHostSnapshot s at) where
  pub host_labels : AreLabels (("host", s.hostname) ∷ [])
  host_labels = ((literal_parts.0, valid.host_value), tt)

  pub gauge_group-ok :
      (failed : List String) (group : String) (values : List (String × Result Float))
      → All IsGauge values
      → (gs : List GaugeObservation) × (gauge_group failed s group values ≡ ok gs)
  unfolding gauge_group
  gauge_group-ok failed group values hs =
      let (gs, walked, _) =
        traverse-ok make values
          (All-map IsGauge (λ v. (o : GaugeObservation) × (make v ≡ ok o)) values made hs) in
      unless-ok (any (str_eq group) failed) (traverse make values) (gs, walked)
    where
      make : String × Result Float → Result GaugeObservation
      make (name, value) =
          value >>= λ v. gauge_observation s.observed_at "host" name v (("host", s.hostname) ∷ [])

      made : (v : String × Result Float) → IsGauge v → (o : GaugeObservation) × (make v ≡ ok o)
      made (name, r) (part, (value, e, finite)) = rw e (
          subst
            (λ t.
              (o : GaugeObservation) × (gauge_observation t "host" name value
                  (("host", s.hostname) ∷ [])
                ≡ ok o))
            (sym valid.timely)
            (gauge_observation-ok at "host" name value (("host", s.hostname) ∷ []) literal_parts.0
              part (ground arith, host_labels) finite))

  pub counter_group-ok :
      (labels : Labels) (values : List (String × ℕ))
      → (length labels ≤ 16) × AreLabels labels
      → All IsCounter values
      → (cs : List CounterObservation) × (counter_group s labels values ≡ ok cs)
  unfolding counter_group
  counter_group-ok labels values (few, are) hs =
      let (cs, walked, _) =
        traverse-ok make values
          (All-map IsCounter (λ v. (o : CounterObservation) × (make v ≡ ok o)) values made hs) in
      (cs, walked)
    where
      make : String × ℕ → Result CounterObservation
      make (name, value) =
          counter_observation s.observed_at "host" name (int (pos value)) s.reset_id labels

      made : (v : String × ℕ) → IsCounter v → (o : CounterObservation) × (make v ≡ ok o)
      made (name, value) (part, small) =
          let o : CounterObservation = record {
            observed_at = at;
            source = "host";
            name = name;
            value = value;
            reset_id = s.reset_id;
            labels = labels;
          } in
          (
            o,
            (counter_observation-ok_iff s.observed_at "host" name (int (pos value)) s.reset_id
                  labels o).1
                (
                  valid.timely,
                  refl,
                  refl,
                  refl,
                  refl,
                  refl,
                  record {
                    source_part = literal_parts.0;
                    name_part = part;
                    reset_part = valid.reset_part;
                    few_labels = few;
                    label_parts = are;
                    in_range = small;
                  },
                ),
          )
