-- ===== src/Config/Environment.antt =====
-- config.py: `Config.from_env`.
use aws_ops_monitor.Prelude.{
  ℕ, String, Bool, Option, none, some, List, [], ◌∷◌, Result, ok, ◌>>=◌, ◌>>◌, if◌then◌else◌,
  str_eq,
}
use aws_ops_monitor.Prelude.Float.{Float}
use aws_ops_monitor.Config.{Config, World}
use aws_ops_monitor.Config.Names.{
  validate_executable, validate_server, validate_public_hostname, validate_http_path,
}
use aws_ops_monitor.Config.Values.{
  nonempty, parse_bool, parse_float, parse_int, parse_database_mode, parse_ports,
  parse_optional_bytes, read_hash_key,
}
use aws_ops_monitor.Config.Checks.{post_init}

-- the variables and their values
abbrev pub Environment : Type 0
Environment = List (String × String)

-- `env.get(name)`
unfoldable pub get : String → Environment → Option String
get name [] = none
get name ((n, value) ∷ env) = if str_eq n name then some value else get name env

-- `env.get(name, default)`
unfoldable pub get_or : String → String → Environment → String
unfolding get
get_or name default env = elim (get name env) [ none ↦ default | some value ↦ value ]

unfoldable pub database_path : World → Environment → String
unfolding get
database_path world env = world.expanduser (elim (get "AWS_OPS_DB_PATH" env) [
  | none ↦ world.database_below (nonempty (get "XDG_STATE_HOME" env))
  | some path ↦ path
])

-- the settings that are parsed before the constructor is called
pub record Parsed : Type 0 where
  pub interval_seconds : Float
  pub raw_retention_days : ℕ
  pub rollup_retention_days : ℕ
  pub retention_interval : Float
  pub host_enabled : Bool
  pub xray_enabled : Bool
  pub timeout : Float
  pub network_timeout : Float
  pub probe_timeout : Float
  pub probe_interval : Float
  pub aws_timeout : Float
  pub aws_interval : Float
  pub allowance : Option ℕ

unfoldable pub parse_settings : World → Environment → Result Parsed
unfolding get_or get
parse_settings world env = do
  interval_seconds ←
      parse_float world "AWS_OPS_INTERVAL_SECONDS" (get_or "AWS_OPS_INTERVAL_SECONDS" "30" env) 5
        3600
  raw_retention_days ←
      parse_int world.digits "AWS_OPS_RAW_RETENTION_DAYS"
        (get_or "AWS_OPS_RAW_RETENTION_DAYS" "7" env) 1 30
  rollup_retention_days ←
      parse_int world.digits "AWS_OPS_ROLLUP_RETENTION_DAYS"
        (get_or "AWS_OPS_ROLLUP_RETENTION_DAYS" "400" env) 30 800
  retention_interval ←
      parse_float world "AWS_OPS_RETENTION_INTERVAL_SECONDS"
        (get_or "AWS_OPS_RETENTION_INTERVAL_SECONDS" "3600" env) 300 86400
  host_enabled ← parse_bool "AWS_OPS_HOST_ENABLED" (get_or "AWS_OPS_HOST_ENABLED" "true" env)
  xray_enabled ← parse_bool "AWS_OPS_XRAY_ENABLED" (get_or "AWS_OPS_XRAY_ENABLED" "false" env)
  timeout ←
      parse_float world "AWS_OPS_XRAY_TIMEOUT_SECONDS"
        (get_or "AWS_OPS_XRAY_TIMEOUT_SECONDS" "10" env) 1 60
  network_timeout ←
      parse_float world "AWS_OPS_NETWORK_TIMEOUT_SECONDS"
        (get_or "AWS_OPS_NETWORK_TIMEOUT_SECONDS" "5" env) 1 60
  probe_timeout ←
      parse_float world "AWS_OPS_PROBE_TIMEOUT_SECONDS"
        (get_or "AWS_OPS_PROBE_TIMEOUT_SECONDS" "8" env) 1 30
  probe_interval ←
      parse_float world "AWS_OPS_PROBE_INTERVAL_SECONDS"
        (get_or "AWS_OPS_PROBE_INTERVAL_SECONDS" "300" env) 300 86400
  aws_timeout ←
      parse_float world "AWS_OPS_AWS_TIMEOUT_SECONDS"
        (get_or "AWS_OPS_AWS_TIMEOUT_SECONDS" "10" env) 1 60
  aws_interval ←
      parse_float world "AWS_OPS_AWS_INTERVAL_SECONDS"
        (get_or "AWS_OPS_AWS_INTERVAL_SECONDS" "300" env) 300 86400
  allowance ←
      parse_optional_bytes "AWS_OPS_TRANSFER_ALLOWANCE_BYTES"
        (get "AWS_OPS_TRANSFER_ALLOWANCE_BYTES" env)
  ok (record {
    interval_seconds = interval_seconds;
    raw_retention_days = raw_retention_days;
    rollup_retention_days = rollup_retention_days;
    retention_interval = retention_interval;
    host_enabled = host_enabled;
    xray_enabled = xray_enabled;
    timeout = timeout;
    network_timeout = network_timeout;
    probe_timeout = probe_timeout;
    probe_interval = probe_interval;
    aws_timeout = aws_timeout;
    aws_interval = aws_interval;
    allowance = allowance;
  })

-- the arguments of the constructor
unfoldable pub build : World → Environment → Parsed → Result Config
unfolding get_or get database_path
build world env p = do
  file_mode ← parse_database_mode world (get_or "AWS_OPS_DB_FILE_MODE" "0600" env)
  docker_binary ←
      validate_executable "AWS_OPS_DOCKER_BINARY" (get_or "AWS_OPS_DOCKER_BINARY" "docker" env)
  xray_binary ← validate_executable "AWS_OPS_XRAY_BINARY" (get_or "AWS_OPS_XRAY_BINARY" "xray" env)
  xray_api_server ← validate_server (get_or "AWS_OPS_XRAY_API_SERVER" "127.0.0.1:10084" env)
  hash_key ←
      read_hash_key world (get "AWS_OPS_XRAY_USER_HASH_KEY" env)
        (get "AWS_OPS_XRAY_USER_HASH_KEY_FILE" env)
  network_enabled ←
      parse_bool "AWS_OPS_NETWORK_ENABLED" (get_or "AWS_OPS_NETWORK_ENABLED" "true" env)
  ss_binary ← validate_executable "AWS_OPS_SS_BINARY" (get_or "AWS_OPS_SS_BINARY" "ss" env)
  public_ports ←
      parse_ports "AWS_OPS_EXPECTED_PUBLIC_PORTS"
        (get_or "AWS_OPS_EXPECTED_PUBLIC_PORTS" "22,80" env)
  loopback_ports ←
      parse_ports "AWS_OPS_EXPECTED_LOOPBACK_PORTS"
        (get_or "AWS_OPS_EXPECTED_LOOPBACK_PORTS" "8787,10084" env)
  public_udp_ports ←
      parse_ports "AWS_OPS_EXPECTED_PUBLIC_UDP_PORTS"
        (get_or "AWS_OPS_EXPECTED_PUBLIC_UDP_PORTS" "" env)
  loopback_udp_ports ←
      parse_ports "AWS_OPS_EXPECTED_LOOPBACK_UDP_PORTS"
        (get_or "AWS_OPS_EXPECTED_LOOPBACK_UDP_PORTS" "" env)
  path_probes_enabled ←
      parse_bool "AWS_OPS_PATH_PROBES_ENABLED" (get_or "AWS_OPS_PATH_PROBES_ENABLED" "true" env)
  public_hostname ←
      validate_public_hostname world.ip_address
        (get_or "AWS_OPS_PROBE_PUBLIC_HOST" "v2.hermes-node.com" env)
  public_path ← validate_http_path (get_or "AWS_OPS_PROBE_PUBLIC_PATH" "/302" env)
  warp_enabled ←
      parse_bool "AWS_OPS_WARP_PROBE_ENABLED" (get_or "AWS_OPS_WARP_PROBE_ENABLED" "true" env)
  warp_server ← validate_server (get_or "AWS_OPS_WARP_PROXY_SERVER" "127.0.0.1:1087" env)
  getent_binary ←
      validate_executable "AWS_OPS_GETENT_BINARY" (get_or "AWS_OPS_GETENT_BINARY" "getent" env)
  aws_enabled ← parse_bool "AWS_OPS_AWS_ENABLED" (get_or "AWS_OPS_AWS_ENABLED" "false" env)
  ok (record {
    database_path = database_path world env;
    database_file_mode = file_mode;
    interval_seconds = p.interval_seconds;
    raw_retention_days = p.raw_retention_days;
    rollup_retention_days = p.rollup_retention_days;
    retention_prune_interval_seconds = p.retention_interval;
    host_enabled = p.host_enabled;
    xray_enabled = p.xray_enabled;
    docker_binary = docker_binary;
    xray_container = get_or "AWS_OPS_XRAY_CONTAINER" "xray" env;
    xray_binary = xray_binary;
    xray_api_server = xray_api_server;
    xray_command_timeout_seconds = p.timeout;
    xray_user_hash_key = hash_key;
    network_enabled = network_enabled;
    ss_binary = ss_binary;
    network_command_timeout_seconds = p.network_timeout;
    expected_public_ports = public_ports;
    expected_loopback_ports = loopback_ports;
    expected_public_udp_ports = public_udp_ports;
    expected_loopback_udp_ports = loopback_udp_ports;
    path_probes_enabled = path_probes_enabled;
    probe_public_hostname = public_hostname;
    probe_public_path = public_path;
    warp_probe_enabled = warp_enabled;
    warp_proxy_server = warp_server;
    probe_timeout_seconds = p.probe_timeout;
    probe_minimum_interval_seconds = p.probe_interval;
    getent_binary = getent_binary;
    aws_enabled = aws_enabled;
    aws_region = get_or "AWS_OPS_AWS_REGION" "ap-southeast-1" env;
    lightsail_instance_name = get_or "AWS_OPS_LIGHTSAIL_INSTANCE" "" env;
    aws_request_timeout_seconds = p.aws_timeout;
    aws_minimum_interval_seconds = p.aws_interval;
    transfer_allowance_bytes = p.allowance;
    transfer_allowance_provenance = nonempty (get "AWS_OPS_TRANSFER_ALLOWANCE_SOURCE" env);
  })

unfoldable pub from_env : World → Environment → Result Config
from_env world env = do
  parsed ← parse_settings world env
  config ← build world env parsed
  post_init world.ip_address config
  ok config
