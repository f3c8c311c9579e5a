-- ===== src/Host/Convert.antt =====
-- collectors/host.py: what `collect` returns has observations, those that the collector makes of it.
use Prim.Native.String.append
use mathlib.Core.Path.{subst}
use aws_ops_monitor.Prelude.{
  ◌≤◌, ◌<◌, ◌≡◌, refl, ap, String, true, false, Option, none, some, List, [], ◌∷◌, All, ok, arith,
  if-both,
}
use aws_ops_monitor.Prelude.Float.{whole, is_finite}
use aws_ops_monitor.Prelude.Text.{count, is_blank, any_code, is_space, strip, take_text, join_nul}
use aws_ops_monitor.Prelude.Bounds.{
  count-append, any_code-append, count-take_text, any_code-take_text,
}
use aws_ops_monitor.Models.{
  is_control, Scalar, GaugeObservation, CounterObservation, InterfaceCounters, sqlite_integer_max,
}
use aws_ops_monitor.Models.Checks.{IsMetricPart}
use aws_ops_monitor.Models.Snapshots.{HostSnapshot}
use aws_ops_monitor.Collector.Observations.{interface_values, host_observations, float_limit}
use aws_ops_monitor.Collector.Conversion.{IsLabelValue, IsInterface, IsHostSnapshot}
use aws_ops_monitor.Collector.HostConversion.{host_observations-ok}
use aws_ops_monitor.Host.{World, Readings}
use aws_ops_monitor.Host.Proc.{parse_proc_net_dev}
use aws_ops_monitor.Host.Collect.{
  Groups, or_else, disk_values, parsed, zero_loads, groups_of, hostname_of, opaque_reset_id,
  collect,
}
use aws_ops_monitor.Host.Interfaces.{
  IsNamed, is_interface_name-IsLabelValue, parse_proc_net_dev-IsNamed,
}
use aws_ops_monitor.Host.Snapshot.{snapshot, state_of, collect-snapshot}

-- The values that the system reports are ones that the store can keep: finite floats, integers that a
-- float can hold, and counters of at most 63 bits.
pub record InRange (g : Groups) : Type 0 where
  pub uptime : is_finite (or_else g.uptime (whole 0)) ≡ true
  pub load_1m : is_finite (or_else g.loads zero_loads).0 ≡ true
  pub load_5m : is_finite (or_else g.loads zero_loads).1 ≡ true
  pub load_15m : is_finite (or_else g.loads zero_loads).2 ≡ true
  pub cpu_count : g.processors < float_limit
  pub memory_total : (or_else g.memory (0, 0)).0 < float_limit
  pub memory_available : (or_else g.memory (0, 0)).1 < float_limit
  pub disk_total : (disk_values g.disk).0 < float_limit
  pub disk_available : (disk_values g.disk).1 < float_limit
  pub cpu_total : (or_else g.cpu (0, 0)).0 ≤ sqlite_integer_max
  pub cpu_idle : (or_else g.cpu (0, 0)).1 ≤ sqlite_integer_max
  pub interfaces :
      All
        (λ i. All (λ (name, n). n ≤ sqlite_integer_max) (interface_values i))
        (or_else g.interfaces [])

hostname_of-IsLabelValue :
    (raw : String)
    → any_code is_control (strip is_space raw) ≡ false
    → IsLabelValue (hostname_of raw)
unfolding hostname_of count any_code
hostname_of-IsLabelValue raw h =
    let name = take_text 255 (strip is_space raw) in
    if-both IsLabelValue (is_blank name) "unknown-host" name (ground arith) (
      omega (arith, count-take_text 255 (strip is_space raw)),
      any_code-take_text is_control 255 (strip is_space raw) h,
    )

interfaces-IsInterface :
    (is : List InterfaceCounters)
    → All IsNamed is
    → All (λ i. All (λ (name, n). n ≤ sqlite_integer_max) (interface_values i)) is
    → All IsInterface is
interfaces-IsInterface [] hs ks = tt
interfaces-IsInterface (i ∷ is) (here, rest) (small, later) =
    ((is_interface_name-IsLabelValue i.name here, small), interfaces-IsInterface is rest later)

collected-IsNamed :
    (net_dev : Option String) → All IsNamed (or_else (parsed parse_proc_net_dev net_dev) [])
collected-IsNamed none = tt
collected-IsNamed (some contents) =
    go (parse_proc_net_dev contents) (parse_proc_net_dev-IsNamed contents)
  where
    go :
        (o : Option (List InterfaceCounters))
        → ((is : List InterfaceCounters) → o ≡ some is → All IsNamed is)
        → All IsNamed (or_else o [])
    go none f = tt
    go (some is) f = f is refl

module _ (world : World)
    (plain : (s : String) → any_code is_control (world.sha256_hex s) ≡ false) where
  reset_id-IsMetricPart : (value : String) → IsMetricPart (opaque_reset_id world "host-boot" value)
  unfolding opaque_reset_id count any_code
  reset_id-IsMetricPart value =
      let digest = take_text 24 (world.sha256_hex (join_nul "host-boot" value)) in
      (
        ap is_blank (append.cons "h" "ost-boot" (String.◌∷◌ ":" digest)),
        omega (
          arith,
          count-append "host-boot" (String.◌∷◌ ":" digest),
          count-take_text 24 (world.sha256_hex (join_nul "host-boot" value)),
        ),
        any_code-append is_control "host-boot" (String.◌∷◌ ":" digest) refl (
            any_code-take_text is_control 24 (world.sha256_hex (join_nul "host-boot" value))
              (plain _)),
      )

  snapshot-IsHostSnapshot :
      (r : Readings)
      → any_code is_control (strip is_space r.hostname) ≡ false
      → InRange (groups_of world r)
      → IsHostSnapshot
          (snapshot world r.clock
            (hostname_of r.hostname)
            (groups_of world r)
            (state_of (groups_of world r)))
          r.clock
  unfolding snapshot groups_of
  snapshot-IsHostSnapshot r named h = record {
    timely = refl;
    host_value = hostname_of-IsLabelValue r.hostname named;
    reset_part = reset_id-IsMetricPart _;
    uptime_finite = h.uptime;
    load_1m_finite = h.load_1m;
    load_5m_finite = h.load_5m;
    load_15m_finite = h.load_15m;
    cpu_count_small = h.cpu_count;
    memory_total_small = h.memory_total;
    memory_available_small = h.memory_available;
    disk_total_small = h.disk_total;
    disk_available_small = h.disk_available;
    cpu_total_in_range = h.cpu_total;
    cpu_idle_in_range = h.cpu_idle;
    interfaces_in_range = interfaces-IsInterface _ (collected-IsNamed r.net_dev) h.interfaces;
  }

  -- For a digest without control characters, a host name that has none between its ends of white
  -- space, and a system whose floats are finite, whose numbers of processors and bytes a float can hold
  -- and whose counters have at most 63 bits: the snapshot
  -- that `collect` returns has observations, and making them does not raise.
  pub collect-host_observations :
      (show : Scalar → String) (r : Readings) (s : HostSnapshot)
      → any_code is_control (strip is_space r.hostname) ≡ false
      → InRange (groups_of world r)
      → collect world r ≡ ok s
      → (o : List GaugeObservation × List CounterObservation) × (host_observations show s ≡ ok o)
  collect-host_observations show r s named h e =
      let g = groups_of world r in
      let x = snapshot world r.clock (hostname_of r.hostname) g (state_of g) in
      let same : x ≡ s = cc (collect-snapshot world r, e) in
      subst
        (λ y.
          (o : List GaugeObservation × List CounterObservation) × (host_observations show y ≡ ok o))
        same (host_observations-ok x r.clock (snapshot-IsHostSnapshot r named h) show)
