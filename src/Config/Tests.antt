-- ===== src/Config/Tests.antt =====
-- config.py: the theorems at the environment with no variable set.
use aws_ops_monitor.Prelude.{
  if◌then◌else◌, true, false, ◌≡◌, refl, none, some, [], ◌∷◌, ok, str_eq, if◌then◌else◌,
}
use aws_ops_monitor.Prelude.Int.{pos}
use aws_ops_monitor.Prelude.Float.{whole, le_float}
use aws_ops_monitor.Prelude.Text.{
  strip_prefix, count, all_codes, any_code, is_decimal, digits_value, lstrip, rstrip, split_on,
  lower_is, lower, char_at,
}
use aws_ops_monitor.Config.{Config, World, unreadable}
use aws_ops_monitor.Config.Names.{
  matches, ends_alnum, safe_executable, safe_container, safe_aws_name, safe_aws_region,
  safe_provenance, safe_host_label, safe_http_path, loopback_port, has_double_slash,
  validate_executable, validate_server, validate_public_hostname, validate_http_path,
}
use aws_ops_monitor.Config.Values.{
  parse_bool, parse_float, parse_int, parse_database_mode, insert_port, sorted_set,
  parse_port_items, parse_ports, parse_optional_bytes, read_hash_key, range_error,
}
use aws_ops_monitor.Config.Checks.{
  check_retention, check_intervals, check_names, check_key, same_ports, check_port_list,
  check_ports, check_allowance, check_aws, post_init,
}
use aws_ops_monitor.Config.Environment.{get, get_or, database_path, parse_settings, build, from_env}
use aws_ops_monitor.Config.Ports.{parse_ports-check_port_list}
use aws_ops_monitor.Config.Valid.{IsConfig, from_env-IsConfig}

-- whole numbers as floats, one octal text, and no file
abbrev world : World
world = record {
  parse_float = λ s. some (whole (digits_value 0 s));
  parse_octal = λ s. if str_eq s "0600" then some (pos 384) else none;
  digits = λ n. "n";
  ip_address = λ s. none;
  encode = λ s. [];
  expanduser = λ p. p;
  database_below = λ _. "metrics.sqlite3";
  key_file = λ _. unreadable;
}

code_runs : Unit {0}
unfolding count all_codes any_code is_decimal digits_value lstrip rstrip split_on lower_is lower
    char_at le_float matches ends_alnum safe_executable safe_container safe_aws_name safe_aws_region
    safe_provenance safe_host_label safe_http_path strip_prefix loopback_port has_double_slash
    validate_executable validate_server validate_public_hostname validate_http_path parse_bool
    parse_float parse_int parse_database_mode insert_port sorted_set parse_port_items parse_ports
    parse_optional_bytes read_hash_key check_retention check_intervals check_names check_key
    same_ports check_port_list check_ports check_allowance check_aws post_init get get_or
    database_path parse_settings build from_env range_error
code_runs = tt

abbrev default_config : Config
default_config = record {
  database_path = "metrics.sqlite3";
  database_file_mode = pos 384;
  interval_seconds = whole 30;
  raw_retention_days = 7;
  rollup_retention_days = 400;
  retention_prune_interval_seconds = whole 3600;
  host_enabled = true;
  xray_enabled = false;
  docker_binary = "docker";
  xray_container = "xray";
  xray_binary = "xray";
  xray_api_server = "127.0.0.1:10084";
  xray_command_timeout_seconds = whole 10;
  xray_user_hash_key = none;
  network_enabled = true;
  ss_binary = "ss";
  network_command_timeout_seconds = whole 5;
  expected_public_ports = 22 ∷ 80 ∷ [];
  expected_loopback_ports = 8787 ∷ 10084 ∷ [];
  expected_public_udp_ports = [];
  expected_loopback_udp_ports = [];
  path_probes_enabled = true;
  probe_public_hostname = "v2.hermes-node.com";
  probe_public_path = "/302";
  warp_probe_enabled = true;
  warp_proxy_server = "127.0.0.1:1087";
  probe_timeout_seconds = whole 8;
  probe_minimum_interval_seconds = whole 300;
  getent_binary = "getent";
  aws_enabled = false;
  aws_region = "ap-southeast-1";
  lightsail_instance_name = "";
  aws_request_timeout_seconds = whole 10;
  aws_minimum_interval_seconds = whole 300;
  transfer_allowance_bytes = none;
  transfer_allowance_provenance = none;
}

defaults : from_env world [] ≡ ok default_config
unfolding code_runs
defaults = refl

from_env-IsConfig_example : IsConfig default_config
from_env-IsConfig_example = from_env-IsConfig world [] default_config defaults

two_ports : parse_ports "AWS_OPS_EXPECTED_PUBLIC_PORTS" "80, 22,80" ≡ ok (22 ∷ 80 ∷ [])
unfolding code_runs
two_ports = refl

parse_ports-check_port_list_example : check_port_list "expected_public_ports" (22 ∷ 80 ∷ []) ≡ ok tt
parse_ports-check_port_list_example =
    parse_ports-check_port_list "AWS_OPS_EXPECTED_PUBLIC_PORTS" "expected_public_ports" "80, 22,80"
      (22 ∷ 80 ∷ []) two_ports
