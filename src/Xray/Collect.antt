-- ===== src/Xray/Collect.antt =====
-- collectors/xray.py: `collect` and `_failure_snapshot`.
use aws_ops_monitor.Prelude.{
  ℕ, String, Bool, false, not, Option, none, some, List, [], ◌∷◌, ◌++◌, length, Result, ok, err,
  xray_stats_parse_error, ◌>>=◌, ◌==◌, str_eq, if◌then◌else◌,
}
use aws_ops_monitor.Prelude.Int.{ℤ, pos, is_zero}
use aws_ops_monitor.Prelude.Float.{num}
use aws_ops_monitor.Models.{
  text, int, bool, null, Scalar, HealthState, healthy, degraded, unavailable, Details,
  health_observation,
}
use aws_ops_monitor.Models.Snapshots.{XrayTrafficCounter, XraySnapshot}
use aws_ops_monitor.Xray.{World, CommandResult}
use aws_ops_monitor.Xray.Stats.{parse_xray_stats}
use aws_ops_monitor.Xray.Container.{
  ContainerState, no_evidence, parse_container_state, reset_identity,
}

-- What running a command gives: its result, `ok none` where it raised an `OSError` or ran out of time,
-- which `collect` catches, and `err` where it raised another exception, as the `UnicodeDecodeError` of an
-- output that is not UTF-8.
abbrev pub Ran : Type 0
Ran = Result (Option CommandResult)

abbrev pub container_of : Option CommandResult → ContainerState
container_of none = no_evidence
container_of (some result) = parse_container_state result

abbrev optional_int : Option ℕ → Scalar
optional_int none = null
optional_int (some n) = int (pos n)

abbrev optional_bool : Option Bool → Scalar
optional_bool none = null
optional_bool (some b) = bool b

abbrev pub container_details : ℕ → ContainerState → Details
container_details counter_count state =
    ("counter_count", int (pos counter_count))
    ∷ ("inspect_ok", bool state.inspect_ok)
    ∷ ("container_status", text state.status)
    ∷ ("restart_count", optional_int state.restart_count)
    ∷ ("oom_killed", optional_bool state.oom_killed)
    ∷ []

abbrev pub exit_details : Option ℤ → Details
exit_details none = []
exit_details (some code) = ("command_exit", int code) ∷ []

unfoldable pub snapshot_of :
    ℕ → String → List XrayTrafficCounter → HealthState → String → Details → Result XraySnapshot
snapshot_of observed_at reset_id counters state message details = do
  health ← health_observation observed_at "xray" state message details
  ok (record {
    observed_at = num (pos observed_at);
    reset_id = reset_id;
    counters = counters;
    health = health;
  })

unfoldable pub failure_snapshot :
    ℕ → String → String → ContainerState → Option ℤ → Result XraySnapshot
unfolding snapshot_of
failure_snapshot observed_at reset_id message state command_exit =
    snapshot_of observed_at reset_id [] unavailable message
      (container_details 0 state ++ exit_details command_exit)

-- `container_state.oom_killed`, and `container_state.restart_count`, as tests
abbrev pub is_killed : Option Bool → Bool
is_killed none = false
is_killed (some b) = b

abbrev pub is_restarted : Option ℕ → Bool
is_restarted none = false
is_restarted (some n) = not (n == 0)

unfoldable pub container_health : ContainerState → HealthState × String
container_health state =
    if not state.inspect_ok
    then (degraded, "Xray counters collected without container health evidence")
    else if not (str_eq state.status "running")
    then (unavailable, "Xray container is not running")
    else if is_killed state.oom_killed
    then (degraded, "Xray container reports an out-of-memory termination")
    else if is_restarted state.restart_count
    then (degraded, "Xray container has restarted since it was created")
    else (healthy, "Xray counters and container health collected")

-- after `parse_xray_stats`, whose own exception is caught
unfoldable pub after_parse :
    ℕ → String → ContainerState → Result (List XrayTrafficCounter) → Result XraySnapshot
unfolding failure_snapshot snapshot_of container_health
after_parse observed_at reset_id state (ok counters) =
    snapshot_of observed_at reset_id counters (container_health state).0 (container_health state).1
      (container_details (length counters) state)
after_parse observed_at reset_id state (err (xray_stats_parse_error message)) =
    failure_snapshot observed_at reset_id "Xray stats response was invalid" state none
after_parse observed_at reset_id state (err other) = err other

unfoldable pub after_stats :
    World → List ℕ → ℕ → String → ContainerState → Option CommandResult → Result XraySnapshot
unfolding failure_snapshot after_parse
after_stats world hash_key observed_at reset_id state none =
    failure_snapshot observed_at reset_id "Xray stats command unavailable" state none
after_stats world hash_key observed_at reset_id state (some result) =
    if is_zero result.returncode
    then after_parse observed_at reset_id state (parse_xray_stats world hash_key result.stdout)
    else failure_snapshot observed_at reset_id "Xray stats command failed" state
        (some result.returncode)

-- the method, where no exception of a command passes through it
unfoldable pub after_commands :
    World → List ℕ → ℕ → (inspect stats : Option CommandResult) → Result XraySnapshot
unfolding after_stats
after_commands world hash_key observed_at inspect stats =
    let state = container_of inspect in
    after_stats world hash_key observed_at (reset_identity world state.reset_material) state stats

unfoldable pub collect : World → List ℕ → ℕ → (inspect stats : Ran) → Result XraySnapshot
unfolding after_commands
collect world hash_key observed_at inspect stats = do
  inspected ← inspect
  answered ← stats
  after_commands world hash_key observed_at inspected answered
