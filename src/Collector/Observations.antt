-- ===== src/Collector/Observations.antt =====
-- collector.py: `_host_observations` and `_xray_observations`.
use aws_ops_monitor.Prelude.{
  ℕ, String, Bool, none, some, List, [], ◌∷◌, ◌++◌, Result, ok, err, other_error, ltb, ◌^◌, ◌*◌,
  ◌-◌, ◌>>=◌, any, if◌then◌else◌, str_eq,
}
use aws_ops_monitor.Prelude.Int.{pos}
use aws_ops_monitor.Prelude.Float.{Float, whole}
use aws_ops_monitor.Prelude.Text.{split_on}
use aws_ops_monitor.Models.{
  Scalar, text, int, Labels, GaugeObservation, CounterObservation, InterfaceCounters,
  gauge_observation, counter_observation,
}
use aws_ops_monitor.Models.Snapshots.{HostSnapshot, XrayTrafficCounter, XraySnapshot}
use aws_ops_monitor.Collector.{get_detail}

-- the constructor applied along a list; the first exception ends it
unfoldable pub traverse : {A B : Type 0} → (A → Result B) → List A → Result (List B)
traverse f [] = ok []
traverse f (x ∷ xs) = do y ← f x; ys ← traverse f xs; ok (y ∷ ys)

abbrev pub contains : String → List String → Bool
contains s = any (str_eq s)

-- `show` is Python's `str` on a value that is no text.
unfoldable pub failed_groups : (Scalar → String) → HostSnapshot → List String
failed_groups show snapshot =
    split_on b',' (elim (get_detail "failed_groups" snapshot.health.details) [
      | none ↦ ""
      | some (text s) ↦ s
      | some other ↦ show other
    ])

-- The bound on the integers that `math.isfinite` takes: from halfway between the largest float and
-- 2^1024 on, it raises an `OverflowError`.
unfoldable pub float_limit : ℕ
float_limit = 2 ^ 970 * (2 ^ 54 - 1)

-- an integer as the value of a gauge
unfoldable pub float_of : ℕ → Result Float
float_of n = if ltb n float_limit then ok (whole n) else err other_error

-- the gauges of a group, unless it failed
unfoldable pub gauge_group :
    List String
    → HostSnapshot
    → String
    → List (String × Result Float)
    → Result (List GaugeObservation)
unfolding traverse
gauge_group failed snapshot group values =
    if contains group failed
    then ok []
    else traverse
        (λ (name, value). value >>= λ v.
          gauge_observation snapshot.observed_at "host" name v (("host", snapshot.hostname) ∷ []))
        values

unfoldable pub counter_group :
    HostSnapshot → Labels → List (String × ℕ) → Result (List CounterObservation)
unfolding traverse
counter_group snapshot labels values =
    traverse
      (λ (name, value).
        counter_observation snapshot.observed_at "host" name (int (pos value)) snapshot.reset_id
          labels)
      values

abbrev pub interface_values : InterfaceCounters → List (String × ℕ)
interface_values interface =
    ("network_receive_bytes_total", interface.receive_bytes)
    ∷ ("network_receive_packets_total", interface.receive_packets)
    ∷ ("network_receive_errors_total", interface.receive_errors)
    ∷ ("network_receive_drops_total", interface.receive_drops)
    ∷ ("network_transmit_bytes_total", interface.transmit_bytes)
    ∷ ("network_transmit_packets_total", interface.transmit_packets)
    ∷ ("network_transmit_errors_total", interface.transmit_errors)
    ∷ ("network_transmit_drops_total", interface.transmit_drops)
    ∷ []

unfoldable pub interface_counters :
    HostSnapshot → List InterfaceCounters → Result (List CounterObservation)
interface_counters snapshot [] = ok []
interface_counters snapshot (interface ∷ rest) = do
  counters ←
      counter_group snapshot (("host", snapshot.hostname) ∷ ("interface", interface.name) ∷ [])
        (interface_values interface)
  later ← interface_counters snapshot rest
  ok (counters ++ later)

unfoldable pub host_gauges : List String → HostSnapshot → Result (List GaugeObservation)
unfolding gauge_group float_of
host_gauges failed s = do
  uptime ← gauge_group failed s "uptime" (("uptime_seconds", ok s.uptime_seconds) ∷ [])
  load ←
      gauge_group failed s "loadavg"
        (("load_1m", ok s.load_1m) ∷ ("load_5m", ok s.load_5m) ∷ ("load_15m", ok s.load_15m) ∷ [])
  cpu_count ← gauge_group failed s "cpu_count" (("cpu_count", float_of s.cpu_count) ∷ [])
  memory ← gauge_group failed s "memory" (
      ("memory_total_bytes", float_of s.memory_total_bytes)
      ∷ ("memory_available_bytes", float_of s.memory_available_bytes)
      ∷ [])
  disk ← gauge_group failed s "disk" (
      ("disk_total_bytes", float_of s.disk_total_bytes)
      ∷ ("disk_available_bytes", float_of s.disk_available_bytes)
      ∷ [])
  ok (uptime ++ (load ++ (cpu_count ++ (memory ++ disk))))

unfoldable pub host_counters : List String → HostSnapshot → Result (List CounterObservation)
host_counters failed s = do
  cpu ←
      if contains "cpu" failed
      then ok []
      else counter_group s (("host", s.hostname) ∷ []) (
          ("cpu_total_jiffies", s.cpu_total_jiffies)
          ∷ ("cpu_idle_jiffies", s.cpu_idle_jiffies)
          ∷ [])
  network ← if contains "network" failed then ok [] else interface_counters s s.interfaces
  ok (cpu ++ network)

unfoldable pub host_observations :
    (Scalar → String) → HostSnapshot → Result (List GaugeObservation × List CounterObservation)
host_observations show snapshot = do
  let failed = failed_groups show snapshot
  gauges ← host_gauges failed snapshot
  counters ← host_counters failed snapshot
  ok (gauges, counters)

-- `labels[key] = value` in a dictionary that is being built
unfoldable pub set_label : String → String → Labels → Labels
set_label key value [] = (key, value) ∷ []
set_label key value ((k, v) ∷ labels) =
    if str_eq key k then (k, value) ∷ labels else (k, v) ∷ set_label key value labels

unfoldable pub xray_observation : XraySnapshot → XrayTrafficCounter → Result CounterObservation
unfolding set_label
xray_observation snapshot counter =
    counter_observation snapshot.observed_at "xray" "traffic_bytes_total" (int (pos counter.value))
      snapshot.reset_id
      (set_label counter.identity_label counter.identity_value
        (("scope", counter.scope) ∷ ("direction", counter.direction) ∷ []))

unfoldable pub xray_observations : XraySnapshot → Result (List CounterObservation)
unfolding traverse
xray_observations snapshot = traverse (xray_observation snapshot) snapshot.counters
