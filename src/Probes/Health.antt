-- ===== src/Probes/Health.antt =====
-- collectors/probes.py: the three observations of `collect`.
use aws_ops_monitor.Prelude.{
  ℕ, ◌≡◌, refl, String, Bool, true, false, [], ◌++◌, Result, ok, arith, if-both,
}
use aws_ops_monitor.Models.{HealthState, disabled, HealthObservation, validate_detail_items}
use aws_ops_monitor.Probes.{DnsResult, ProbeResult}
use aws_ops_monitor.Probes.Handshake.{safe_status}
use aws_ops_monitor.Probes.Collect.{
  Settings, fresh_for_seconds, state_if, verified, evidence, status_details, marker_of, dns_health,
  websocket_health, warp_health, warp_disabled,
}
use aws_ops_monitor.Probes.Texts.{
  IsPublic, AreFine, IsMessage, messages-IsMessage, fixed_texts-IsReason, path-ok, evidence-AreFine,
  websocket_evidence-AreFine, warp_evidence-AreFine, verified-IsReason, components,
}

-- An observation that is made, of this component, with this state, and public.
abbrev pub Made : Result HealthObservation → String → HealthState → Type 0
Made result component state =
    (o : HealthObservation) × (result ≡ ok o)
    × (o.component ≡ component)
    × (o.state ≡ state)
    × IsPublic o

pub dns_health-Made :
    (settings : Settings) (at : ℕ) (dns_ok : Bool) (dns : DnsResult)
    → Made (dns_health settings at dns_ok dns) "path_public_dns" (state_if dns_ok)
unfolding dns_health
dns_health-Made settings at dns_ok dns =
    let (m0, (m1, _)) = messages-IsMessage in
    path-ok at "path_public_dns" (state_if dns_ok) _ "Public DNS" "outbound check"
      "Lightsail>DNS resolver>global address" (verified dns_ok) true (fresh_for_seconds settings)
      (evidence dns.reason dns.latency_ms) components.0
      (if-both IsMessage dns_ok "public hostname resolved to a global address"
        "public hostname resolution failed" m0 m1)
      (
        fixed_texts-IsReason.4,
        fixed_texts-IsReason.5,
        fixed_texts-IsReason.6,
        verified-IsReason dns_ok,
      )
      (evidence-AreFine dns.reason dns.latency_ms)

pub websocket_health-Made :
    (settings : Settings) (at : ℕ) (r : ProbeResult)
    → Made (websocket_health settings at r) "path_cloudflare_xray" (state_if r.succeeded)
unfolding websocket_health
websocket_health-Made settings at r =
    let (_, (_, (m0, (m1, _)))) = messages-IsMessage in
    path-ok at "path_cloudflare_xray" (state_if r.succeeded) _ "Public Xray WebSocket"
      "inbound synthetic loop" "Lightsail>Cloudflare HTTPS>Xray WebSocket" (verified r.succeeded)
      true (fresh_for_seconds settings)
      (evidence r.reason r.latency_ms ++ status_details (safe_status r.status_code)) components.1
      (if-both IsMessage r.succeeded "public WebSocket upgrade returned HTTP 101"
        "public WebSocket upgrade check failed" m0 m1)
      (
        fixed_texts-IsReason.7,
        fixed_texts-IsReason.8,
        fixed_texts-IsReason.9,
        verified-IsReason r.succeeded,
      )
      (websocket_evidence-AreFine r.reason r.latency_ms (safe_status r.status_code))

pub warp_health-Made :
    (settings : Settings) (at : ℕ) (r : ProbeResult)
    → Made (warp_health settings at r) "path_xray_egress" (state_if r.succeeded)
unfolding warp_health
warp_health-Made settings at r =
    let (_, (_, (_, (_, (m0, (m1, _)))))) = messages-IsMessage in
    path-ok at "path_xray_egress" (state_if r.succeeded) _ "VPN application egress"
      "outbound synthetic" "Xray local proxy>WARP>Cloudflare trace" (verified r.succeeded) true
      (fresh_for_seconds settings) _ components.2
      (if-both IsMessage r.succeeded "WARP trace marker observed" "WARP trace marker check failed"
        m0 m1)
      (
        fixed_texts-IsReason.10,
        fixed_texts-IsReason.11,
        fixed_texts-IsReason.12,
        verified-IsReason r.succeeded,
      )
      (warp_evidence-AreFine r.reason r.latency_ms (marker_of r.marker_observed)
        (safe_status r.status_code))

nothing-AreFine : AreFine []
unfolding validate_detail_items
nothing-AreFine = (refl, omega arith, tt)

pub warp_disabled-Made :
    (settings : Settings) (at : ℕ) → Made (warp_disabled settings at) "path_xray_egress" disabled
unfolding warp_disabled
warp_disabled-Made settings at =
    let (_, (_, (_, (_, (_, (_, (m0, _))))))) = messages-IsMessage in
    path-ok at "path_xray_egress" disabled "WARP synthetic probe disabled" "VPN application egress"
      "outbound synthetic" "Xray local proxy>WARP>Cloudflare trace" "disabled" false
      (fresh_for_seconds settings) [] components.2 m0
      (
        fixed_texts-IsReason.10, fixed_texts-IsReason.11, fixed_texts-IsReason.12,
        fixed_texts-IsReason.3,
      )
      nothing-AreFine
