-- ===== src/Network/Collect.antt =====
-- collectors/network.py: `collect` and `_path_health`, for a result of the command. An exception that
-- the run of the command raises passes through `collect` before any of this.
use aws_ops_monitor.Prelude.{
  ℕ, String, true, ◌&&◌, List, [], ◌∷◌, any, Result, ok, ◌>>=◌, if◌then◌else◌, str_eq, ◌==◌,
}
use aws_ops_monitor.Prelude.Int.{ℤ, is_zero}
use aws_ops_monitor.Models.{
  text, int, bool, HealthState, healthy, degraded, unavailable, HealthObservation,
  health_observation,
}
use aws_ops_monitor.Models.Snapshots.{ListenerObservation, NetworkSnapshot}
use aws_ops_monitor.Network.{IpParser, CommandResult}
use aws_ops_monitor.Network.Parse.{parse_ss_listeners}
use aws_ops_monitor.Network.Policy.{Policy, is_observed, exposure_health}

-- `present` and `wrong_exposure` of a path
pub data PathStatus : Type 0 where
  observed : PathStatus
  wrong_exposure : PathStatus
  not_observed : PathStatus

unfoldable pub path_status : List ListenerObservation → ListenerObservation → PathStatus
path_status listeners key =
    if is_observed listeners key
    then observed
    else if any (λ l. str_eq l.transport key.transport && (l.port == key.port)) listeners
    then wrong_exposure
    else not_observed

abbrev pub status_state : PathStatus → HealthState
status_state observed = healthy
status_state wrong_exposure = degraded
status_state not_observed = unavailable

abbrev pub status_message : PathStatus → String
status_message observed = "required listener observed"
status_message wrong_exposure = "required listener has an unsafe or unexpected exposure"
status_message not_observed = "required listener not observed"

abbrev pub status_text : PathStatus → String
status_text observed = "observed"
status_text wrong_exposure = "wrong_exposure"
status_text not_observed = "missing"

unfoldable pub listener_path :
    ℕ
    → List ListenerObservation
    → String
    → String
    → String
    → String
    → ListenerObservation
    → Result HealthObservation
unfolding path_status
listener_path observed_at listeners component name direction route key =
    let status = path_status listeners key in
    health_observation observed_at component (status_state status) (status_message status) (
      ("name", text name)
      ∷ ("direction", text direction)
      ∷ ("route", text route)
      ∷ ("status", text (status_text status))
      ∷ ("evidence", text "local_listener")
      ∷ ("required", bool true)
      ∷ [])

abbrev pub tcp_key : ℕ → String → ListenerObservation
tcp_key port exposure = record { transport = "tcp"; port = port; exposure = exposure }

unfoldable pub path_health : ℕ → List ListenerObservation → Result (List HealthObservation)
unfolding listener_path
path_health observed_at listeners = do
  xray ←
      listener_path observed_at listeners "path_xray_listener" "Xray public listener"
        "inbound local evidence" "Network namespace>Xray listener" (tcp_key 80 "public")
  warp ←
      listener_path observed_at listeners "path_warp_proxy_listener" "Local WARP proxy"
        "internal local evidence" "Xray>loopback WARP HTTP proxy" (tcp_key 1087 "loopback")
  ssh ←
      listener_path observed_at listeners "path_ssh" "Administrative SSH" "inbound"
        "Operator>Lightsail firewall>SSH" (tcp_key 22 "public")
  stats ←
      listener_path observed_at listeners "path_stats_service" "Xray StatsService" "internal"
        "Collector>loopback StatsService" (tcp_key 10084 "loopback")
  dashboard ←
      listener_path observed_at listeners "path_private_dashboard" "Private monitoring dashboard"
        "inbound through SSH tunnel" "Operator>SSH tunnel>loopback dashboard"
        (tcp_key 8787 "loopback")
  ok (xray ∷ warp ∷ ssh ∷ stats ∷ dashboard ∷ [])

-- the snapshot where the command failed
unfoldable pub collect_failed : ℕ → ℤ → Result NetworkSnapshot
collect_failed observed_at returncode = do
  exposure ←
      health_observation observed_at "network_exposure" unavailable "listener inventory unavailable"
        (("command_exit", int returncode) ∷ [])
  paths ← path_health observed_at []
  ok (record { observed_at = observed_at; listeners = []; health = exposure ∷ paths })

-- the snapshot of an output
unfoldable pub collect_listed :
    IpParser → (ℕ → String) → Policy → ℕ → String → Result NetworkSnapshot
collect_listed ip_address digits policy observed_at stdout = do
  listeners ← parse_ss_listeners ip_address stdout
  exposure ← exposure_health digits policy observed_at listeners
  paths ← path_health observed_at listeners
  ok (record { observed_at = observed_at; listeners = listeners; health = exposure ∷ paths })

-- What `collect` returns when the command ends with this result.
unfoldable pub collect :
    IpParser → (ℕ → String) → Policy → ℕ → CommandResult → Result NetworkSnapshot
collect ip_address digits policy observed_at result =
    if is_zero result.returncode
    then collect_listed ip_address digits policy observed_at result.stdout
    else collect_failed observed_at result.returncode
