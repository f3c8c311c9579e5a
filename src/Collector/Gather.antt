-- ===== src/Collector/Gather.antt =====
-- collector.py: the part of `collect_once` that asks the collectors, one section for each.
use aws_ops_monitor.Prelude.{
  ℕ, ◌*◌, String, true, false, List, [], ◌∷◌, ◌++◌, Result, ok, err, ◌>>=◌, other_error,
  if◌then◌else◌, ltb,
}
use aws_ops_monitor.Prelude.Int.{pos}
use aws_ops_monitor.Prelude.Float.{round_micro}
use aws_ops_monitor.Models.{
  Scalar, text, int, bool, HealthState, unavailable, disabled, Details, GaugeObservation,
  CounterObservation, HealthObservation, health_observation,
}
use aws_ops_monitor.Models.Snapshots.{HostSnapshot, XraySnapshot, NetworkSnapshot}
use aws_ops_monitor.Collector.{
  Outcome, absent, raised, returned, LightsailSnapshot, Settings, Inputs,
}
use aws_ops_monitor.Collector.Observations.{host_observations, xray_observations}

-- what a section adds to the batch, and the state that it reports
pub record Section : Type 0 where
  pub gauges : List GaugeObservation
  pub counters : List CounterObservation
  pub health : List HealthObservation
  pub state : HealthState

-- a section that has one health observation and no metric
unfoldable pub only_health : ℕ → String → HealthState → String → Details → Result Section
only_health observed_at component state message details = do
  h ← health_observation observed_at component state message details
  ok (record { gauges = []; counters = []; health = h ∷ []; state = h.state })

-- A disabled host collection is an absent collector.
unfoldable pub host_section : (Scalar → String) → Outcome HostSnapshot → ℕ → Result Section
unfolding only_health
host_section show absent clock = only_health clock "host" disabled "host collection disabled" []
host_section show raised clock = only_health clock "host" unavailable "host collector failed" []
host_section show (returned host) clock = do
  (gauges, counters) ← host_observations show host
  ok (record {
    gauges = gauges;
    counters = counters;
    health = host.health ∷ [];
    state = host.health.state;
  })

unfoldable pub xray_section : Outcome XraySnapshot → ℕ → Result Section
unfolding only_health
xray_section absent clock = only_health clock "xray" disabled "Xray collection disabled" []
xray_section raised clock = only_health clock "xray" unavailable "Xray collector failed" []
xray_section (returned xray) clock = do
  counters ← xray_observations xray
  ok (record {
    gauges = [];
    counters = counters;
    health = xray.health ∷ [];
    state = xray.health.state;
  })

-- `network.health[0].state`
unfoldable pub network_returned : List HealthObservation → Result Section
network_returned [] = err other_error
network_returned (h ∷ hs) =
    ok (record { gauges = []; counters = []; health = h ∷ hs; state = h.state })

unfoldable pub network_section : Outcome NetworkSnapshot → ℕ → Result Section
unfolding only_health network_returned
network_section absent clock =
    only_health clock "network_exposure" disabled "listener inventory disabled" []
network_section raised clock =
    only_health clock "network_exposure" unavailable "listener inventory failed" []
network_section (returned network) clock = network_returned network.health

-- `min(172800, max(600, round(interval * 2)))`
unfoldable pub fresh_for : ℕ → ℕ
unfolding round_micro
fresh_for interval =
    let seconds = round_micro (interval * 2) in
    if ltb 172800 seconds then 172800 else if ltb seconds 600 then 600 else seconds

unfoldable pub path_failed :
    Settings → ℕ → String → String → String → String → Result HealthObservation
path_failed settings at component name direction route =
    health_observation at component unavailable "synthetic path collector failed" (
      ("name", text name)
      ∷ ("direction", text direction)
      ∷ ("route", text route)
      ∷ ("status", text "failed")
      ∷ ("evidence", text "synthetic_probe")
      ∷ ("required", bool true)
      ∷ ("fresh_for_seconds", int (pos (fresh_for settings.probe_minimum_interval_seconds)))
      ∷ ("reason", text "collector_failed")
      ∷ [])

unfoldable pub path_disabled : Settings → ℕ → String → String → Result HealthObservation
path_disabled settings at component name =
    health_observation at component disabled "synthetic path probes disabled" (
      ("name", text name)
      ∷ ("direction", text "synthetic")
      ∷ ("route", text "Synthetic path verification")
      ∷ ("status", text "disabled")
      ∷ ("evidence", text "synthetic_probe")
      ∷ ("required", bool false)
      ∷ ("fresh_for_seconds", int (pos (fresh_for settings.probe_minimum_interval_seconds)))
      ∷ [])

unfoldable pub path_section :
    Settings → Outcome (List HealthObservation) → ℕ → Result (List HealthObservation)
unfolding path_failed path_disabled
path_section settings (returned health) clock = ok health
path_section settings raised clock = do
  dns ←
      path_failed settings clock "path_public_dns" "Public DNS" "outbound check"
        "Lightsail>DNS resolver>global address"
  websocket ←
      path_failed settings clock "path_cloudflare_xray" "Public Xray WebSocket"
        "inbound synthetic loop" "Lightsail>Cloudflare HTTPS>Xray WebSocket"
  egress ←
      path_failed settings clock "path_xray_egress" "VPN application egress" "outbound synthetic"
        "Xray local proxy>WARP>Cloudflare trace"
  ok (dns ∷ websocket ∷ egress ∷ [])
path_section settings absent clock = do
  dns ← path_disabled settings clock "path_public_dns" "Public DNS"
  websocket ← path_disabled settings clock "path_cloudflare_xray" "Public Xray WebSocket"
  egress ← path_disabled settings clock "path_xray_egress" "VPN application egress"
  ok (dns ∷ websocket ∷ egress ∷ [])

unfoldable pub aws_section : Settings → Outcome LightsailSnapshot → ℕ → Result Section
unfolding only_health
aws_section settings absent clock =
    only_health clock "aws" disabled "Lightsail read-only telemetry disabled" []
aws_section settings raised clock =
    only_health clock "aws" unavailable "Lightsail read-only telemetry failed" (
      ("fresh_for_seconds", int (pos (fresh_for settings.aws_minimum_interval_seconds)))
      ∷ ("reason", text "collector_failed")
      ∷ [])
aws_section settings (returned aws) clock = ok (record {
  gauges = aws.gauges;
  counters = [];
  health = aws.health ∷ [];
  state = aws.health.state;
})

-- the batch so far, and the states for the result
pub record Gathered : Type 0 where
  pub gauges : List GaugeObservation
  pub counters : List CounterObservation
  pub health : List HealthObservation
  pub host_state : HealthState
  pub xray_state : HealthState
  pub network_state : HealthState
  pub aws_state : HealthState

-- the batch in the order in which the sections extend it
unfoldable pub assemble : Section → Section → Section → List HealthObservation → Section → Gathered
assemble host xray network paths aws = record {
  gauges = host.gauges ++ aws.gauges;
  counters = host.counters ++ xray.counters;
  health = host.health ++ (xray.health ++ (network.health ++ (paths ++ aws.health)));
  host_state = host.state;
  xray_state = xray.state;
  network_state = network.state;
  aws_state = aws.state;
}

unfoldable pub gather : (Scalar → String) → Settings → Inputs → Result Gathered
unfolding assemble
gather show settings i = do
  host ← host_section show i.host i.host_clock
  xray ← xray_section i.xray i.xray_clock
  network ← network_section i.network i.network_clock
  paths ← path_section settings i.path_probes i.path_clock
  aws ← aws_section settings i.aws i.aws_clock
  ok (assemble host xray network paths aws)
