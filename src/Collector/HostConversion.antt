-- ===== src/Collector/HostConversion.antt =====
-- collector.py: `_host_observations` goes through on a snapshot whose values the store can keep.
use aws_ops_monitor.Prelude.{ℕ, ◌≡◌, refl, String, List, [], ◌∷◌, ◌++◌, All, ok, arith}
use aws_ops_monitor.Models.{Scalar, GaugeObservation, CounterObservation, InterfaceCounters}
use aws_ops_monitor.Models.Checks.{IsMetricPart}
use aws_ops_monitor.Models.Snapshots.{HostSnapshot}
use aws_ops_monitor.Collector.Observations.{
  float_of, failed_groups, contains, interface_values, interface_counters, host_gauges,
  host_counters, host_observations,
}
use aws_ops_monitor.Collector.Conversion.{
  float_of-IsFinite, unless-ok, IsHostSnapshot, IsInterface, gauge_group-ok, counter_group-ok,
  host_labels, literal_parts, interface_parts,
}

module _ (s : HostSnapshot) (at : ℕ) (valid : IsHostSnapshot s at) where
  interface_part : IsMetricPart "interface"
  interface_part =
      let (_, (_, (_, (_, (_, (_, (_, (_, (_, (_, (_, (_, (p, _))))))))))))) = literal_parts in p

  interface_counters-ok :
      (interfaces : List InterfaceCounters)
      → All IsInterface interfaces
      → (cs : List CounterObservation) × (interface_counters s interfaces ≡ ok cs)
  unfolding interface_counters
  interface_counters-ok [] hs = ([], refl)
  interface_counters-ok (i ∷ is) ((named, (a, (b, (c, (d, (e, (f, (g, (h, _))))))))), rest) =
      let (p, (q, (r, (t, (u, (v, (w, (x, _)))))))) = interface_parts i in
      let (cs, here) =
        counter_group-ok s at valid (("host", s.hostname) ∷ ("interface", i.name) ∷ [])
          (interface_values i)
          (ground arith, ((literal_parts.0, valid.host_value), ((interface_part, named), tt)))
          ((p, a), ((q, b), ((r, c), ((t, d), ((u, e), ((v, f), ((w, g), ((x, h), tt)))))))) in
      let (later, walked) = interface_counters-ok is rest in (cs ++ later, rw (here, walked) refl)

  host_gauges-ok :
      (failed : List String) → (gs : List GaugeObservation) × (host_gauges failed s ≡ ok gs)
  unfolding host_gauges
  host_gauges-ok failed =
      let (_, (p1, (p2, (p3, (p4, (p5, (p6, (p7, (p8, (p9, _)))))))))) = literal_parts in
      let (a, a_ok) =
        gauge_group-ok s at valid failed "uptime" (("uptime_seconds", ok s.uptime_seconds) ∷ [])
          ((p1, (s.uptime_seconds, refl, valid.uptime_finite)), tt) in
      let (b, b_ok) =
        gauge_group-ok s at valid failed "loadavg"
          (("load_1m", ok s.load_1m) ∷ ("load_5m", ok s.load_5m) ∷ ("load_15m", ok s.load_15m) ∷ [])
          (
            (p2, (s.load_1m, refl, valid.load_1m_finite)),
            (
              (p3, (s.load_5m, refl, valid.load_5m_finite)),
              ((p4, (s.load_15m, refl, valid.load_15m_finite)), tt),
            ),
          ) in
      let (c, c_ok) =
        gauge_group-ok s at valid failed "cpu_count" (("cpu_count", float_of s.cpu_count) ∷ [])
          ((p5, float_of-IsFinite s.cpu_count valid.cpu_count_small), tt) in
      let (d, d_ok) =
        gauge_group-ok s at valid failed "memory"
          (("memory_total_bytes", float_of s.memory_total_bytes)
            ∷ ("memory_available_bytes", float_of s.memory_available_bytes)
            ∷ [])
          (
            (p6, float_of-IsFinite s.memory_total_bytes valid.memory_total_small),
            ((p7, float_of-IsFinite s.memory_available_bytes valid.memory_available_small), tt),
          ) in
      let (e, e_ok) =
        gauge_group-ok s at valid failed "disk"
          (("disk_total_bytes", float_of s.disk_total_bytes)
            ∷ ("disk_available_bytes", float_of s.disk_available_bytes)
            ∷ [])
          (
            (p8, float_of-IsFinite s.disk_total_bytes valid.disk_total_small),
            ((p9, float_of-IsFinite s.disk_available_bytes valid.disk_available_small), tt),
          ) in
      (a ++ (b ++ (c ++ (d ++ e))), rw (a_ok, b_ok, c_ok, d_ok, e_ok) refl)

  host_counters-ok :
      (failed : List String) → (cs : List CounterObservation) × (host_counters failed s ≡ ok cs)
  unfolding host_counters
  host_counters-ok failed =
      let (_, (_, (_, (_, (_, (_, (_, (_, (_, (_, (p, (q, _)))))))))))) = literal_parts in
      let counters =
        counter_group-ok s at valid (("host", s.hostname) ∷ [])
          (("cpu_total_jiffies", s.cpu_total_jiffies)
            ∷ ("cpu_idle_jiffies", s.cpu_idle_jiffies)
            ∷ [])
          (ground arith, host_labels s at valid)
          ((p, valid.cpu_total_in_range), ((q, valid.cpu_idle_in_range), tt)) in
      let (cpu, cpu_ok) = unless-ok (contains "cpu" failed) _ counters in
      let (network, network_ok) =
        unless-ok (contains "network" failed) _
          (interface_counters-ok s.interfaces valid.interfaces_in_range) in
      (cpu ++ network, rw (cpu_ok, network_ok) refl)

  -- Where the times, the texts and the counters of the snapshot are ones that the store can keep,
  -- `_host_observations` returns.
  pub host_observations-ok :
      (show : Scalar → String)
      → (r : List GaugeObservation × List CounterObservation) × (host_observations show s ≡ ok r)
  unfolding host_observations
  host_observations-ok show =
      let (gs, gauges) = host_gauges-ok (failed_groups show s) in
      let (cs, counters) = host_counters-ok (failed_groups show s) in
      ((gs, cs), rw (gauges, counters) refl)
