-- ===== src/Host/Sample.antt =====
-- collectors/host.py: a small host, and what is collected there.
use aws_ops_monitor.Prelude.{
  ℕ, ◌<◌, ◌≤◌, ◌≡◌, refl, String, false, if◌then◌else◌, str_eq, none, some, [], ◌∷◌, ok, arith,
}
use aws_ops_monitor.Prelude.Int.{pos}
use aws_ops_monitor.Prelude.Float.{num, is_finite}
use aws_ops_monitor.Prelude.Numerals.{parse_int, signed, numeral, numeral_digits}
use aws_ops_monitor.Prelude.Text.{
  split_colon, is_space, strip, count, any_code, all_codes, take_text, lstrip, rstrip, digits_value,
  split_on, split_where, words, splitlines, lower_is, join_nul, join_with,
}
use aws_ops_monitor.Models
use aws_ops_monitor.Models.{
  Scalar, int, degraded, GaugeObservation, CounterObservation, healthy, health_observation,
  validate_metric_part, validate_detail_items, validate_detail_value, InterfaceCounters,
}
use aws_ops_monitor.Models.Snapshots.{HostSnapshot}
use aws_ops_monitor.Host.{World, Readings}
use aws_ops_monitor.Host.Proc.{
  parse_uptime, parse_loadavg, naturals, cpu_of, words_of, parse_cpu_stat, is_interface_name,
  interface_of, line_interfaces, interfaces_of, insert_interface, sort_interfaces, some_interfaces,
  parse_proc_net_dev,
}
use aws_ops_monitor.Host.Memory.{
  get_value, put_fields, put_line, read_lines, available_memory, parse_meminfo,
}
use aws_ops_monitor.Host.Collect.{
  opaque_reset_id, hostname_of, boot_identity, groups_of, failed_names, failures_of, insert_name,
  sort_names, host_health, failed_text, snapshot_of, collect,
}
use aws_ops_monitor.Collector.Observations.{failed_groups, float_limit}
use aws_ops_monitor.Host.Convert.{InRange}

abbrev hex : String
hex = "0123456789abcdef0123456789abcdef0123456789abcdef0123456789abcdef"

-- a `float` that knows two numbers, and a digest that is always the same
abbrev pub world : World
world = record {
  float = λ s.
      if str_eq s "12.50"
      then some (num (pos 12500000))
      else if str_eq s "0.10"
      then some (num (pos 100000))
      else none;
  sha256_hex = λ s. hex;
}

-- a host whose /proc/stat and file system cannot be read
abbrev pub readings : Readings
readings = record {
  clock = 9;
  hostname = "edge\n";
  uptime = some "12.50 40.00\n";
  loadavg = some "0.10 0.10 0.10 1/100 5\n";
  stat = none;
  meminfo = some "MemTotal: 100 kB\nMemFree: 10 kB\nBuffers: 1 kB\nCached: 2 kB\n";
  net_dev = some "Inter-| Receive\n eth0: 1 2 3 4 0 0 0 0 5 6 7 8 0 0 0 0\n";
  boot_id = some "aa-bb\n";
  statvfs = none;
  cpu_count = some 2;
}

abbrev eth0 : InterfaceCounters
eth0 = record {
  name = "eth0";
  receive_bytes = 1;
  receive_packets = 2;
  receive_errors = 3;
  receive_drops = 4;
  transmit_bytes = 5;
  transmit_packets = 6;
  transmit_errors = 7;
  transmit_drops = 8;
}

abbrev pub host : HostSnapshot
host = record {
  observed_at = num (pos 9);
  hostname = "edge";
  reset_id = "host-boot:0123456789abcdef01234567";
  uptime_seconds = num (pos 12500000);
  load_1m = num (pos 100000);
  load_5m = num (pos 100000);
  load_15m = num (pos 100000);
  cpu_count = 2;
  cpu_total_jiffies = 0;
  cpu_idle_jiffies = 0;
  memory_total_bytes = 102400;
  memory_available_bytes = 13312;
  disk_total_bytes = 0;
  disk_available_bytes = 0;
  interfaces = eth0 ∷ [];
  health = record {
    observed_at = 9;
    component = "host";
    state = degraded;
    message = "partial host metrics collected";
    details =
        ("failure_count", int (pos 2))
        ∷ ("failed_groups", Models.text "cpu,disk")
        ∷ ("interface_count", int (pos 1))
        ∷ [];
  };
}

code_runs : Unit {0}
unfolding count any_code all_codes take_text lstrip rstrip digits_value split_on split_where words
    splitlines lower_is join_nul join_with parse_int signed numeral numeral_digits is_finite
    health_observation validate_metric_part validate_detail_items validate_detail_value
    failed_groups parse_uptime parse_loadavg naturals cpu_of words_of parse_cpu_stat split_colon
    is_interface_name interface_of line_interfaces interfaces_of insert_interface sort_interfaces
    some_interfaces parse_proc_net_dev get_value put_fields put_line read_lines available_memory
    parse_meminfo opaque_reset_id hostname_of boot_identity groups_of failed_names failures_of
    insert_name sort_names host_health failed_text snapshot_of collect
code_runs = tt

pub collected : collect world readings ≡ ok host
unfolding code_runs
collected = refl

pub values_in_range : InRange (groups_of world readings)
unfolding code_runs
values_in_range = record {
  uptime = refl;
  load_1m = refl;
  load_5m = refl;
  load_15m = refl;
  cpu_count = small 2 (omega arith);
  memory_total = small 102400 (omega arith);
  memory_available = small 13312 (omega arith);
  disk_total = small 0 (omega arith);
  disk_available = small 0 (omega arith);
  cpu_total = omega arith;
  cpu_idle = omega arith;
  interfaces = ground arith;
}
  where
    limit_large : 1000000 < float_limit
    limit_large = unfold float_limit in omega arith

    small : (n : ℕ) → n ≤ 1000000 → n < float_limit
    small n h = omega (arith, limit_large)

pub name_plain : any_code Models.is_control (strip is_space readings.hostname) ≡ false
unfolding code_runs
name_plain = refl

pub hex_plain : any_code Models.is_control hex ≡ false
unfolding code_runs
hex_plain = refl
