-- ===== src/Config/Checks.antt =====
-- config.py: `Config.__post_init__`, in the order of its checks.
use Prim.Native.String.{◌++◌ as append}
use aws_ops_monitor.Prelude.{
  ℕ, ◌^◌, ◌-◌, String, Bool, true, false, not, ◌&&◌, ◌||◌, Option, none, some, List, [], ◌∷◌,
  length, all, Result, ok, err, config_error, ◌>>=◌, ◌>>◌, raise_if, ltb, leb, ◌==◌,
}
use aws_ops_monitor.Prelude.Float.{le_float}
use aws_ops_monitor.Prelude.Text.{is_blank}
use aws_ops_monitor.Network.{IpParser}
use aws_ops_monitor.Config.{Config}
use aws_ops_monitor.Config.Names.{
  safe_container, safe_aws_region, safe_aws_name, safe_provenance, validate_executable,
  validate_server, validate_public_hostname, validate_http_path,
}
use aws_ops_monitor.Config.Values.{within, allowed_mode, sorted_set}

-- The days are naturals, so the tests on their Python type always pass.
unfoldable pub check_retention : Config → Result (Unit {0})
check_retention c = do
  raise_if (not (leb 1 c.raw_retention_days && leb c.raw_retention_days 30))
      (config_error "raw_retention_days must be between 1 and 30")
  raise_if (not (leb 30 c.rollup_retention_days && leb c.rollup_retention_days 800))
      (config_error "rollup_retention_days must be between 30 and 800")
  raise_if (leb c.rollup_retention_days c.raw_retention_days)
      (config_error "rollup retention must be longer than raw retention")

unfoldable pub check_intervals : Config → Result (Unit {0})
unfolding le_float
check_intervals c = do
  raise_if (not (within 300 86400 c.retention_prune_interval_seconds))
      (config_error "retention_prune_interval_seconds must be between 300 and 86400")
  raise_if (not (within 1 60 c.xray_command_timeout_seconds))
      (config_error "xray_command_timeout_seconds must be between 1 and 60")
  raise_if (not (within 1 60 c.network_command_timeout_seconds))
      (config_error "network_command_timeout_seconds must be between 1 and 60")
  raise_if (not (within 1 30 c.probe_timeout_seconds))
      (config_error "probe_timeout_seconds must be between 1 and 30")
  raise_if (not (within 300 86400 c.probe_minimum_interval_seconds))
      (config_error "probe_minimum_interval_seconds must be between 300 and 86400")
  raise_if (not (within 1 60 c.aws_request_timeout_seconds))
      (config_error "aws_request_timeout_seconds must be between 1 and 60")
  raise_if (not (within 300 86400 c.aws_minimum_interval_seconds))
      (config_error "aws_minimum_interval_seconds must be between 300 and 86400")

unfoldable pub check_names : IpParser → Config → Result (Unit {0})
unfolding validate_executable validate_server validate_public_hostname validate_http_path
    safe_container
check_names ip_address c = do
  _ ← validate_executable "docker_binary" c.docker_binary
  _ ← validate_executable "xray_binary" c.xray_binary
  _ ← validate_executable "ss_binary" c.ss_binary
  _ ← validate_executable "getent_binary" c.getent_binary
  raise_if (not (safe_container c.xray_container))
      (config_error "xray_container contains unsafe characters")
  _ ← validate_server c.xray_api_server
  _ ← validate_public_hostname ip_address c.probe_public_hostname
  _ ← validate_http_path c.probe_public_path
  _ ← validate_server c.warp_proxy_server
  ok tt

-- `not key`, and `key is not None and len(key) < 16`
abbrev pub no_key : Option (List ℕ) → Bool
no_key none = true
no_key (some key) = ltb (length key) 1

abbrev pub short_key : Option (List ℕ) → Bool
short_key none = false
short_key (some key) = ltb (length key) 16

unfoldable pub check_key : Config → Result (Unit {0})
check_key c = do
  raise_if (c.xray_enabled && no_key c.xray_user_hash_key)
      (config_error "Xray collection requires a private user hashing key")
  raise_if (short_key c.xray_user_hash_key)
      (config_error "the Xray user hashing key must contain at least 16 bytes")

-- `ports == other`
unfoldable pub same_ports : List ℕ → List ℕ → Bool
same_ports [] [] = true
same_ports [] (q ∷ qs) = false
same_ports (p ∷ ps) [] = false
same_ports (p ∷ ps) (q ∷ qs) = (p == q) && same_ports ps qs

unfoldable pub check_port_list : String → List ℕ → Result (Unit {0})
unfolding same_ports sorted_set
check_port_list name ports =
    raise_if
      (not (same_ports (sorted_set ports) ports) || not (all (λ p. leb 1 p && leb p 65535) ports))
      (config_error (append name " must contain unique sorted ports"))

unfoldable pub check_ports : Config → Result (Unit {0})
unfolding check_port_list
check_ports c = do
  check_port_list "expected_public_ports" c.expected_public_ports
  check_port_list "expected_loopback_ports" c.expected_loopback_ports
  check_port_list "expected_public_udp_ports" c.expected_public_udp_ports
  check_port_list "expected_loopback_udp_ports" c.expected_loopback_udp_ports

-- the allowance and where it comes from
unfoldable pub check_allowance : Option ℕ → Option String → Result (Unit {0})
unfolding safe_provenance
check_allowance none none = ok tt
check_allowance none (some provenance) =
    err (config_error "transfer allowance provenance requires an allowance")
check_allowance (some bytes) provenance = do
  raise_if (not (leb 1 bytes && leb bytes (2 ^ 63 - 1)))
      (config_error "transfer_allowance_bytes is outside the supported range")
  raise_if (not (elim provenance [ none ↦ false | some s ↦ safe_provenance s ]))
      (config_error "a safe transfer allowance provenance is required with an allowance")

unfoldable pub check_aws : Config → Result (Unit {0})
unfolding safe_aws_region safe_aws_name check_allowance
check_aws c = do
  raise_if (not (safe_aws_region c.aws_region)) (config_error "aws_region is invalid")
  raise_if
      (not (is_blank c.lightsail_instance_name) && not (safe_aws_name c.lightsail_instance_name))
      (config_error "lightsail_instance_name is invalid")
  raise_if (c.aws_enabled && is_blank c.lightsail_instance_name)
      (config_error "AWS collection requires an explicit Lightsail instance name")
  check_allowance c.transfer_allowance_bytes c.transfer_allowance_provenance

unfoldable pub post_init : IpParser → Config → Result (Unit {0})
unfolding le_float
post_init ip_address c = do
  raise_if (not (allowed_mode c.database_file_mode))
      (config_error "database_file_mode must be 0600 or 0640")
  raise_if (not (within 5 3600 c.interval_seconds))
      (config_error "interval_seconds must be between 5 and 3600")
  check_retention c
  check_intervals c
  check_names ip_address c
  check_key c
  check_ports c
  check_aws c
