-- ===== src/Config/Valid.antt =====
-- config.py: what holds of every configuration that is built, and what the other parts rely on.
use mathlib.Core.Path.{subst}
use aws_ops_monitor.Prelude.{
  ℕ, ◌*◌, ◌≤◌, ◌<◌, ◌≡◌, refl, Bool, true, false, not, Option, none, some, List, All, length,
  Result, ok, err, arith, bind-ok, ◌>>◌, ◌&&◌, raise_if, Error,
}
use aws_ops_monitor.Prelude.Int.{pos, negsuc}
use aws_ops_monitor.Prelude.Float.{Float, num, infinity, neg_infinity, nan, micro, le_float}
use aws_ops_monitor.Prelude.Text.{is_blank}
use aws_ops_monitor.Network.{IpParser}
use aws_ops_monitor.Network.Expected.{IsPort}
use aws_ops_monitor.Network.Policy.{Policy}
use aws_ops_monitor.Config.{Config, World}
use aws_ops_monitor.Config.Values.{within}
use aws_ops_monitor.Config.Checks.{
  no_key, short_key, check_retention, check_intervals, check_key, check_ports, check_aws, post_init,
}
use aws_ops_monitor.Config.Environment.{Environment, parse_settings, build, from_env}
use aws_ops_monitor.Config.Ports.{IsSorted, check_port_list-ok_iff}

-- a finite number of seconds in a range
abbrev pub IsWithin : ℕ → ℕ → Float → Type 0
IsWithin minimum maximum x =
    (t : ℕ) × (x ≡ num (pos t)) × (minimum * micro ≤ t) × (t ≤ maximum * micro)

within-IsWithin :
    (minimum maximum : ℕ) (x : Float) → within minimum maximum x ≡ true → IsWithin minimum maximum x
unfolding le_float
within-IsWithin minimum maximum (num (pos t)) h = (t, refl, ground arith, ground arith)
within-IsWithin minimum maximum (num (negsuc t)) h = ground arith
within-IsWithin minimum maximum infinity h = ground arith
within-IsWithin minimum maximum neg_infinity h = ground arith
within-IsWithin minimum maximum nan h = ground arith

-- sorted, and ports
abbrev pub ArePorts : List ℕ → Type 0
ArePorts ps = IsSorted ps × All IsPort ps

pub record IsConfig (c : Config) : Type 0 where
  pub raw_days : (1 ≤ c.raw_retention_days) × (c.raw_retention_days ≤ 30)
  pub rollup_days : (30 ≤ c.rollup_retention_days) × (c.rollup_retention_days ≤ 800)
  pub longer : c.raw_retention_days < c.rollup_retention_days
  pub interval : IsWithin 5 3600 c.interval_seconds
  pub prune_interval : IsWithin 300 86400 c.retention_prune_interval_seconds
  pub probe_interval : IsWithin 300 86400 c.probe_minimum_interval_seconds
  pub aws_interval : IsWithin 300 86400 c.aws_minimum_interval_seconds
  pub public_ports : ArePorts c.expected_public_ports
  pub loopback_ports : ArePorts c.expected_loopback_ports
  pub public_udp_ports : ArePorts c.expected_public_udp_ports
  pub loopback_udp_ports : ArePorts c.expected_loopback_udp_ports
  pub key :
      c.xray_enabled ≡ true → (key : List ℕ) × (c.xray_user_hash_key ≡ some key) × (16 ≤ length key)
  pub aws_name : c.aws_enabled ≡ true → is_blank c.lightsail_instance_name ≡ false

-- a check that passed
passed : (b : Bool) (e : Error) → raise_if b e ≡ ok tt → b ≡ false
passed true e h = cc h
passed false e h = refl

both_ok : (step next : Result (Unit {0})) → (step >> next) ≡ ok tt → (step ≡ ok tt) × (next ≡ ok tt)
both_ok (ok tt) next h = (refl, h)
both_ok (err e) next h = cc h

retention-ok :
    (c : Config)
    → check_retention c ≡ ok tt
    → (1 ≤ c.raw_retention_days)
      × (c.raw_retention_days ≤ 30)
      × (30 ≤ c.rollup_retention_days)
      × (c.rollup_retention_days ≤ 800)
      × (c.raw_retention_days < c.rollup_retention_days)
unfolding check_retention
retention-ok c h = ground arith

intervals-ok :
    (c : Config)
    → check_intervals c ≡ ok tt
    → (within 300 86400 c.retention_prune_interval_seconds ≡ true)
      × (within 300 86400 c.probe_minimum_interval_seconds ≡ true)
      × (within 300 86400 c.aws_minimum_interval_seconds ≡ true)
unfolding check_intervals
intervals-ok c h = ground arith

key_of :
    (key : Option (List ℕ))
    → no_key key ≡ false
    → short_key key ≡ false
    → (k : List ℕ) × (key ≡ some k) × (16 ≤ length k)
key_of none h long = cc h
key_of (some k) h long = (k, refl, ground arith)

unnegated : (b : Bool) → not b ≡ false → b ≡ true
unnegated true h = refl
unnegated false h = cc h

enabled_and : (a b : Bool) → a ≡ true → (a && b) ≡ false → b ≡ false
enabled_and true b on h = h
enabled_and false b on h = cc on

key-ok :
    (c : Config)
    → check_key c ≡ ok tt
    → c.xray_enabled ≡ true
    → (key : List ℕ) × (c.xray_user_hash_key ≡ some key) × (16 ≤ length key)
unfolding check_key
key-ok c h on =
    let (present, long) = both_ok _ _ h in
    key_of c.xray_user_hash_key
      (enabled_and c.xray_enabled (no_key c.xray_user_hash_key) on
        (passed (c.xray_enabled && no_key c.xray_user_hash_key) _ present))
      (passed (short_key c.xray_user_hash_key) _ long)

ports-ok :
    (c : Config)
    → check_ports c ≡ ok tt
    → ArePorts c.expected_public_ports
      × ArePorts c.expected_loopback_ports
      × ArePorts c.expected_public_udp_ports
      × ArePorts c.expected_loopback_udp_ports
unfolding check_ports
ports-ok c h =
    let (public, h1) = both_ok _ _ h in
    let (loopback, h2) = both_ok _ _ h1 in
    let (public_udp, loopback_udp) = both_ok _ _ h2 in
    (
      (check_port_list-ok_iff "expected_public_ports" c.expected_public_ports).0 public,
      (check_port_list-ok_iff "expected_loopback_ports" c.expected_loopback_ports).0 loopback,
      (check_port_list-ok_iff "expected_public_udp_ports" c.expected_public_udp_ports).0 public_udp,
      (check_port_list-ok_iff "expected_loopback_udp_ports" c.expected_loopback_udp_ports).0
          loopback_udp,
    )

aws-ok :
    (c : Config)
    → check_aws c ≡ ok tt
    → c.aws_enabled ≡ true
    → is_blank c.lightsail_instance_name ≡ false
unfolding check_aws
aws-ok c h on = ground arith

post_init-IsConfig :
    (ip_address : IpParser) (c : Config) → post_init ip_address c ≡ ok tt → IsConfig c
unfolding post_init
post_init-IsConfig ip_address c h =
    let (mode, h1) = both_ok _ _ h in
    let (interval, h2) = both_ok _ _ h1 in
    let (retention, h3) = both_ok _ _ h2 in
    let (intervals, h4) = both_ok _ _ h3 in
    let (names, h5) = both_ok _ _ h4 in
    let (key, h6) = both_ok _ _ h5 in
    let (ports, aws) = both_ok _ _ h6 in
    let (raw_min, raw_max, rollup_min, rollup_max, longer) = retention-ok c retention in
    let (prune, probe, aws_interval) = intervals-ok c intervals in
    let (public, loopback, public_udp, loopback_udp) = ports-ok c ports in
    record {
      raw_days = (raw_min, raw_max);
      rollup_days = (rollup_min, rollup_max);
      longer = longer;
      interval = within-IsWithin 5 3600 c.interval_seconds (
          unnegated (within 5 3600 c.interval_seconds)
            (passed (not (within 5 3600 c.interval_seconds)) _ interval));
      prune_interval = within-IsWithin 300 86400 c.retention_prune_interval_seconds prune;
      probe_interval = within-IsWithin 300 86400 c.probe_minimum_interval_seconds probe;
      aws_interval = within-IsWithin 300 86400 c.aws_minimum_interval_seconds aws_interval;
      public_ports = public;
      loopback_ports = loopback;
      public_udp_ports = public_udp;
      loopback_udp_ports = loopback_udp;
      key = key-ok c key;
      aws_name = aws-ok c aws;
    }

checked_ok :
    (step : Result (Unit {0})) (built c : Config)
    → (step >> ok built) ≡ ok c
    → (step ≡ ok tt) × (built ≡ c)
checked_ok (ok tt) built c h = (refl, cc h)
checked_ok (err e) built c h = cc h

-- Every configuration that the environment gives is in range: the intervals are finite and within
-- their bounds, the rollups are kept longer than the raw rows, each list of ports is sorted without
-- a duplicate and in range, Xray is enabled only with a key of 16 bytes, and Lightsail only with the
-- name of an instance.
pub from_env-IsConfig :
    (world : World) (env : Environment) (c : Config) → from_env world env ≡ ok c → IsConfig c
unfolding from_env
from_env-IsConfig world env c h =
    let (parsed, _, h1) = bind-ok (parse_settings world env) _ h in
    let (built, _, h2) = bind-ok (build world env parsed) _ h1 in
    let (checked, same) = checked_ok (post_init world.ip_address built) built c h2 in
    subst IsConfig same (post_init-IsConfig world.ip_address built checked)

-- the ports that the network collector is built with
abbrev pub policy_of : Config → Policy
policy_of c = record {
  expected_public_ports = c.expected_public_ports;
  expected_loopback_ports = c.expected_loopback_ports;
  expected_public_udp_ports = c.expected_public_udp_ports;
  expected_loopback_udp_ports = c.expected_loopback_udp_ports;
}
