-- ===== src/Host/Tests.antt =====
-- collectors/host.py: the theorems at the files of a small host.
use aws_ops_monitor.Prelude.{◌≤◌, ◌≡◌, ◌↔◌, refl, String, any, str_eq, List, ok}
use aws_ops_monitor.Prelude.Int.{pos}
use aws_ops_monitor.Prelude.Float.{num}
use aws_ops_monitor.Models.{Scalar, GaugeObservation, CounterObservation, healthy}
use aws_ops_monitor.Models.Snapshots.{HostSnapshot}
use aws_ops_monitor.Collector.Observations.{failed_groups, host_observations}
use aws_ops_monitor.Host.Collect.{groups_of, failures_of, collect}
use aws_ops_monitor.Host.Health.{AllRead, collect-AllRead, collect-failed_groups}
use aws_ops_monitor.Host.Bounds.{collect-bounds}
use aws_ops_monitor.Host.Convert.{collect-host_observations}
use aws_ops_monitor.Host.Sample.{
  world, readings, host, collected, values_in_range, name_plain, hex_plain,
}

collect-AllRead_example :
    (s : HostSnapshot) × (collect world readings ≡ ok s)
    × (s.observed_at ≡ num (pos 9))
    × ((s.health.state ≡ healthy) ↔ AllRead (groups_of world readings))
collect-AllRead_example = collect-AllRead world readings

-- a `str` that is never asked for
abbrev show : Scalar → String
show s = ""

collect-failed_groups_example :
    any (str_eq "disk") (failed_groups show host)
    ≡ any (str_eq "disk") (failures_of (groups_of world readings))
collect-failed_groups_example = collect-failed_groups show world readings host "disk" collected refl

collect-bounds_example : (13312 ≤ 102400) × (0 ≤ 0)
collect-bounds_example = collect-bounds world readings host collected

collect-host_observations_example :
    (o : List GaugeObservation × List CounterObservation) × (host_observations show host ≡ ok o)
collect-host_observations_example =
    collect-host_observations world (λ s. hex_plain) show readings host name_plain values_in_range
      collected
