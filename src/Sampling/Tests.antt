-- ===== src/Sampling/Tests.antt =====
-- The round at snapshots of a small host.
use aws_ops_monitor.Prelude.{ℕ, ◌*◌, ◌≤◌, ◌≡◌, ap, ◌∙◌, none, ok, arith}
use aws_ops_monitor.Prelude.Float.{whole, micro}
use aws_ops_monitor.Prelude.Text.{count}
use aws_ops_monitor.Models.{degraded, healthy, unavailable, disabled}
use aws_ops_monitor.Models.Snapshots.{HostSnapshot, XraySnapshot}
use aws_ops_monitor.Collector.{Outcome, absent, raised, returned, Settings, Inputs}
use aws_ops_monitor.Collector.Gather.{Gathered, gather}
use aws_ops_monitor.Host.Sample as HostSample
use aws_ops_monitor.Xray.Sample as XraySample
use aws_ops_monitor.Sampling.{World, Sampled, gather-Sampled}

count_run : (n : ℕ) → n ≤ 65535 → count "1" ≤ 5
unfolding count
count_run n h = omega arith

-- an `ipaddress` that knows no address, and a `str` that is short
abbrev world : World
world = record {
  host = HostSample.world;
  xray = XraySample.world;
  ip_address = λ a. none;
  digits = λ n. "1";
  show = λ s. "";
  sha256_plain = λ s. HostSample.hex_plain;
  xray_printable = XraySample.printable;
  ports_short = count_run;
}

abbrev settings : Settings
settings = record {
  probe_minimum_interval_seconds = 900 * micro;
  aws_minimum_interval_seconds = 300 * micro;
  retention_prune_interval_seconds = 3600 * micro;
  raw_retention_days = 7;
  rollup_retention_days = 400;
}

-- The host and Xray are read, and the network collector raises.
abbrev inputs : Inputs
inputs = record {
  host = returned HostSample.host;
  xray = returned XraySample.snapshot;
  network = raised;
  path_probes = raised;
  aws = absent;
  host_clock = 9;
  xray_clock = 9;
  network_clock = 9;
  path_clock = 9;
  aws_clock = 9;
  retention_monotonic = 7200 * micro;
  retention_clock = 9;
  end_clock = whole 7;
}

abbrev host_of : Outcome HostSnapshot → HostSnapshot
host_of (returned s) = s
host_of _ = HostSample.host

abbrev xray_of : Outcome XraySnapshot → XraySnapshot
xray_of (returned s) = s
xray_of _ = XraySample.snapshot

sampled : Sampled world inputs
sampled = record {
  host = λ s e. (
    HostSample.readings,
    HostSample.collected ∙ ap (λ x. ok (host_of x)) e,
    HostSample.name_plain,
    HostSample.values_in_range,
  );
  xray = λ s e. (
    XraySample.key,
    9,
    ok XraySample.inspect,
    ok XraySample.stats,
    XraySample.collected ∙ ap (λ x. ok (xray_of x)) e,
  );
  network = λ s e. cc e;
}

gather-Sampled_example :
    (g : Gathered) × (gather world.show settings inputs ≡ ok g)
    × (g.host_state ≡ degraded)
    × (g.xray_state ≡ healthy)
    × (g.network_state ≡ unavailable)
    × (g.aws_state ≡ disabled)
gather-Sampled_example = gather-Sampled world settings inputs sampled
