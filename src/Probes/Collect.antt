-- ===== src/Probes/Collect.antt =====
-- collectors/probes.py: `PathProbeCollector.collect`.
use aws_ops_monitor.Prelude.{
  ℕ, ◌+◌, ◌*◌, String, Bool, true, false, ◌&&◌, Option, none, some, List, [], ◌∷◌, ◌++◌, take,
  Result, ok, ◌>>=◌, ltb, if◌then◌else◌,
}
use aws_ops_monitor.Prelude.Int.{ℤ, pos}
use aws_ops_monitor.Prelude.Float.{micro, round_micro}
use aws_ops_monitor.Models.{
  text, int, bool, HealthState, healthy, unavailable, disabled, Details, HealthObservation,
  health_observation,
}
use aws_ops_monitor.Probes.{World, Address, DnsResult, ProbeResult}
use aws_ops_monitor.Probes.Handshake.{safe_reason, safe_latency, safe_status}

-- `PathProbeCollector.__init__`; the interval in millionths of a second
pub record Settings : Type 0 where
  pub warp_enabled : Bool
  pub minimum_interval_seconds : ℕ

-- `max(300.0, minimum_interval_seconds)`
abbrev pub interval_of : Settings → ℕ
interval_of settings =
    if ltb settings.minimum_interval_seconds (300 * micro)
    then 300 * micro
    else settings.minimum_interval_seconds

-- `min(172800, max(600, round(interval * 2)))`
unfoldable pub fresh_for_seconds : Settings → ℕ
unfolding round_micro
fresh_for_seconds settings =
    let seconds = round_micro (interval_of settings * 2) in
    if ltb seconds 600 then 600 else if ltb 172800 seconds then 172800 else seconds

-- What one run is given: the readings of the clocks, and what the probes return; that of the WebSocket
-- is asked for with the addresses.
pub record Probes : Type 0 where
  pub now : ℕ
  pub clock : ℕ
  pub dns : Result DnsResult
  pub websocket : List String → Result ProbeResult
  pub warp : Result ProbeResult

abbrev pub global_text : Option Address → List String
global_text none = []
global_text (some address) = if address.is_global then address.text ∷ [] else []

-- `global_addresses`
unfoldable pub global_addresses : World → List String → List String
global_addresses world [] = []
global_addresses world (raw ∷ rest) =
    global_text (world.ip_address raw) ++ global_addresses world rest

abbrev pub is_nonempty : List String → Bool
is_nonempty [] = false
is_nonempty (a ∷ rest) = true

abbrev pub state_if : Bool → HealthState
state_if b = if b then healthy else unavailable

-- the details that the three observations share
abbrev pub path_details : String → String → String → String → Bool → ℕ → Details
path_details name direction route status required fresh_for =
    ("name", text name)
    ∷ ("direction", text direction)
    ∷ ("route", text route)
    ∷ ("status", text status)
    ∷ ("evidence", text "synthetic_probe")
    ∷ ("required", bool required)
    ∷ ("fresh_for_seconds", int (pos fresh_for))
    ∷ []

abbrev pub verified : Bool → String
verified b = if b then "verified" else "failed"

abbrev pub evidence : String → ℤ → Details
evidence reason latency =
    ("reason", text (safe_reason reason)) ∷ ("latency_ms", int (pos (safe_latency latency))) ∷ []

abbrev pub status_details : Option ℕ → Details
status_details none = []
status_details (some status) = ("http_status", int (pos status)) ∷ []

unfoldable pub dns_health : Settings → ℕ → Bool → DnsResult → Result HealthObservation
unfolding fresh_for_seconds safe_reason safe_latency
dns_health settings at dns_ok dns =
    health_observation at "path_public_dns" (state_if dns_ok)
      (if dns_ok
        then "public hostname resolved to a global address"
        else "public hostname resolution failed")
      (path_details "Public DNS" "outbound check" "Lightsail>DNS resolver>global address"
          (verified dns_ok) true (fresh_for_seconds settings)
        ++ evidence dns.reason dns.latency_ms)

unfoldable pub websocket_health : Settings → ℕ → ProbeResult → Result HealthObservation
unfolding fresh_for_seconds safe_reason safe_latency safe_status
websocket_health settings at websocket =
    health_observation at "path_cloudflare_xray" (state_if websocket.succeeded)
      (if websocket.succeeded
        then "public WebSocket upgrade returned HTTP 101"
        else "public WebSocket upgrade check failed")
      (path_details "Public Xray WebSocket" "inbound synthetic loop"
          "Lightsail>Cloudflare HTTPS>Xray WebSocket" (verified websocket.succeeded) true
          (fresh_for_seconds settings)
        ++ (evidence websocket.reason websocket.latency_ms
            ++ status_details (safe_status websocket.status_code)))

abbrev pub marker_of : Option Bool → Bool
marker_of none = false
marker_of (some b) = b

unfoldable pub warp_health : Settings → ℕ → ProbeResult → Result HealthObservation
unfolding fresh_for_seconds safe_reason safe_latency safe_status
warp_health settings at warp =
    health_observation at "path_xray_egress" (state_if warp.succeeded)
      (if warp.succeeded then "WARP trace marker observed" else "WARP trace marker check failed")
      (path_details "VPN application egress" "outbound synthetic"
          "Xray local proxy>WARP>Cloudflare trace" (verified warp.succeeded) true
          (fresh_for_seconds settings)
        ++ (evidence warp.reason warp.latency_ms
            ++ (("trace_marker", bool (marker_of warp.marker_observed))
                ∷ status_details (safe_status warp.status_code))))

unfoldable pub warp_disabled : Settings → ℕ → Result HealthObservation
unfolding fresh_for_seconds
warp_disabled settings at =
    health_observation at "path_xray_egress" disabled "WARP synthetic probe disabled" (
      path_details "VPN application egress" "outbound synthetic"
        "Xray local proxy>WARP>Cloudflare trace" "disabled" false (fresh_for_seconds settings))

-- `ProbeResult(False, "dns_unavailable", dns.latency_ms)`
abbrev pub unprobed : DnsResult → ProbeResult
unprobed dns = record {
  succeeded = false;
  reason = "dns_unavailable";
  latency_ms = dns.latency_ms;
  status_code = none;
  marker_observed = none;
}

abbrev pub websocket_of : Probes → DnsResult → Bool → List String → Result ProbeResult
websocket_of p dns dns_ok addresses = if dns_ok then p.websocket addresses else ok (unprobed dns)

unfoldable pub warp_of : Settings → Probes → Result HealthObservation
unfolding warp_health warp_disabled
warp_of settings p =
    if settings.warp_enabled
    then (p.warp >>= λ warp. warp_health settings p.clock warp)
    else warp_disabled settings p.clock

unfoldable pub run_probes : World → Settings → Probes → Result (List HealthObservation)
unfolding global_addresses dns_health websocket_health warp_health warp_disabled warp_of
run_probes world settings p = do
  dns ← p.dns
  let addresses = global_addresses world (take 4 dns.addresses)
  let dns_ok = dns.succeeded && is_nonempty addresses
  dns_observation ← dns_health settings p.clock dns_ok dns
  websocket ← websocket_of p dns dns_ok addresses
  websocket_observation ← websocket_health settings p.clock websocket
  warp_observation ← warp_of settings p
  ok (dns_observation ∷ websocket_observation ∷ warp_observation ∷ [])

-- whether the last attempt is less than the interval ago
abbrev pub is_early : Settings → Option ℕ → ℕ → Bool
is_early settings none now = false
is_early settings (some last) now = ltb now (last + interval_of settings)

-- The state is the time of the last attempt, which is set before the probes run.
unfoldable pub collect :
    World → Settings → Option ℕ → Probes → Option ℕ × Result (List HealthObservation)
unfolding run_probes
collect world settings last p =
    if is_early settings last p.now
    then (last, ok [])
    else (some p.now, run_probes world settings p)
