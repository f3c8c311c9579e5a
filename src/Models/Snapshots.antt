-- ===== src/Models/Snapshots.antt =====
-- models.py: the snapshots that the collectors hand over.
use aws_ops_monitor.Prelude.{
  ℕ, String, not, ◌&&◌, List, str_eq, ◌||◌, leb, Result, ok, value_error, ◌>>◌, raise_if,
}
use aws_ops_monitor.Prelude.Float.{Float}
use aws_ops_monitor.Models.{HealthState, HealthObservation, InterfaceCounters}

pub record HostSnapshot : Type 0 where
  pub observed_at : Float
  pub hostname : String
  pub reset_id : String
  pub uptime_seconds : Float
  pub load_1m : Float
  pub load_5m : Float
  pub load_15m : Float
  pub cpu_count : ℕ
  pub cpu_total_jiffies : ℕ
  pub cpu_idle_jiffies : ℕ
  pub memory_total_bytes : ℕ
  pub memory_available_bytes : ℕ
  pub disk_total_bytes : ℕ
  pub disk_available_bytes : ℕ
  pub interfaces : List InterfaceCounters
  pub health : HealthObservation

pub record XrayTrafficCounter : Type 0 where
  pub scope : String
  pub direction : String
  pub identity_label : String
  pub identity_value : String
  pub value : ℕ

pub record XraySnapshot : Type 0 where
  pub observed_at : Float
  pub reset_id : String
  pub counters : List XrayTrafficCounter
  pub health : HealthObservation

pub record ListenerObservation : Type 0 where
  pub transport : String
  pub port : ℕ
  pub exposure : String

-- A port is a natural, so the tests on its Python type always pass.
unfoldable pub listener_observation : String → ℕ → String → Result ListenerObservation
listener_observation transport port exposure = do
  raise_if (not (str_eq transport "tcp" || str_eq transport "udp"))
      (value_error "listener transport must be tcp or udp")
  raise_if (not (leb 1 port && leb port 65535)) (value_error "listener port is out of range")
  raise_if
      (not (str_eq exposure "loopback" || str_eq exposure "link_local" || str_eq exposure "public"))
      (value_error "listener exposure must be loopback, link_local, or public")
  ok (record { transport = transport; port = port; exposure = exposure })

pub record NetworkSnapshot : Type 0 where
  pub observed_at : ℕ
  pub listeners : List ListenerObservation
  pub health : List HealthObservation

pub record CollectionResult : Type 0 where
  pub observed_at : Float
  pub host_state : HealthState
  pub xray_state : HealthState
  pub gauge_count : ℕ
  pub counter_count : ℕ
  pub network_state : HealthState
  pub aws_state : HealthState
