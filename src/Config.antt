-- ===== src/Config.antt =====
-- config.py: the settings of the collector, and what the parsers ask of the world.
pub mod Names
pub mod Values
pub mod Checks
pub mod Environment
pub mod Ports
pub mod Valid
mod Tests
use aws_ops_monitor.Prelude.{ℕ, String, Bool, Option, List}
use aws_ops_monitor.Prelude.Int.{ℤ}
use aws_ops_monitor.Prelude.Float.{Float}
use aws_ops_monitor.Network.{IpParser}

pub record Config : Type 0 where
  pub database_path : String
  pub database_file_mode : ℤ
  pub interval_seconds : Float
  pub raw_retention_days : ℕ
  pub rollup_retention_days : ℕ
  pub retention_prune_interval_seconds : Float
  pub host_enabled : Bool
  pub xray_enabled : Bool
  pub docker_binary : String
  pub xray_container : String
  pub xray_binary : String
  pub xray_api_server : String
  pub xray_command_timeout_seconds : Float
  pub xray_user_hash_key : Option (List ℕ)
  pub network_enabled : Bool
  pub ss_binary : String
  pub network_command_timeout_seconds : Float
  pub expected_public_ports : List ℕ
  pub expected_loopback_ports : List ℕ
  pub expected_public_udp_ports : List ℕ
  pub expected_loopback_udp_ports : List ℕ
  pub path_probes_enabled : Bool
  pub probe_public_hostname : String
  pub probe_public_path : String
  pub warp_probe_enabled : Bool
  pub warp_proxy_server : String
  pub probe_timeout_seconds : Float
  pub probe_minimum_interval_seconds : Float
  pub getent_binary : String
  pub aws_enabled : Bool
  pub aws_region : String
  pub lightsail_instance_name : String
  pub aws_request_timeout_seconds : Float
  pub aws_minimum_interval_seconds : Float
  pub transfer_allowance_bytes : Option ℕ
  pub transfer_allowance_provenance : Option String

-- What the file of the hashing key is: it cannot be read, it is no regular file, or it has a mode,
-- a size and its bytes.
pub data KeyFile : Type 0 where
  unreadable : KeyFile
  no_regular_file : KeyFile
  regular : (st_mode st_size : ℕ) → List ℕ → KeyFile

-- What the parsers call: `float(text)` and `int(text, 8)`, `none` for a `ValueError`;
-- `str` of a number; `ipaddress.ip_address`; the encoding of a text; a path with the user's directory for `~`; the path
-- of the database below a state directory, or below the home directory; the file at a path.
pub record World : Type 0 where
  pub parse_float : String → Option Float
  pub parse_octal : String → Option ℤ
  pub digits : ℕ → String
  pub ip_address : IpParser
  pub encode : String → List ℕ
  pub expanduser : String → String
  pub database_below : Option String → String
  pub key_file : String → KeyFile
