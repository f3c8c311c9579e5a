-- ===== src/Probes/Trace.antt =====
-- collectors/probes.py: `probe_warp_trace`.
use Prim.Native.Char.{code}
use aws_ops_monitor.Prelude.{
  ℕ, String, Bool, true, false, not, ◌&&◌, ◌||◌, Option, none, some, Result, ok, err, value_error,
  ltb, ◌==◌, if◌then◌else◌,
}
use aws_ops_monitor.Prelude.Int.{ℤ, pos}
use aws_ops_monitor.Prelude.Numerals.{parse_int}
use aws_ops_monitor.Prelude.Text.{count, is_blank, starts_lf, strip_prefix, rpartition}
use aws_ops_monitor.Probes.{ProbeResult, timed_out, tls_error, other_failure, Step, done, failed}
use aws_ops_monitor.Probes.Handshake.{bounded_ms}
use aws_ops_monitor.Probes.WebSocket.{max_http_output_bytes}

-- the status of the response and what `read` gave of it
pub record Response : Type 0 where
  pub status : ℕ
  pub payload : String

abbrev pub starts_crlf : String → Bool
starts_crlf String.[] = false
starts_crlf (String.◌∷◌ c s) = (code c == 13) && starts_lf s

-- `(?:\r?\n|$)` behind the marker
abbrev pub line_ends : Option String → Bool
line_ends none = false
line_ends (some rest) = is_blank rest || starts_lf rest || starts_crlf rest

-- `warp=(?:on|plus)(?:\r?\n|$)` at this place
unfoldable pub marker_here : String → Bool
unfolding strip_prefix
marker_here s = line_ends (strip_prefix "warp=on" s) || line_ends (strip_prefix "warp=plus" s)

-- `\n` and the marker, anywhere
unfoldable pub marker_after_line : String → Bool
unfolding marker_here
marker_after_line String.[] = false
marker_after_line (String.◌∷◌ c s) = ((code c == 10) && marker_here s) || marker_after_line s

-- `_WARP_MARKER.search(payload)`
unfoldable pub has_marker : String → Bool
unfolding marker_after_line
has_marker payload = marker_here payload || marker_after_line payload

abbrev pub trace_result : Bool → String → ℕ → Option ℕ → Option Bool → ProbeResult
trace_result succeeded reason latency status marker = record {
  succeeded = succeeded;
  reason = reason;
  latency_ms = pos latency;
  status_code = elim status as (λ _. Option ℤ) [ none ↦ none | some n ↦ some (pos n) ];
  marker_observed = marker;
}

unfoldable pub judge_response : ℕ → Response → ProbeResult
unfolding has_marker count
judge_response latency r =
    let observed = has_marker r.payload in
    if ltb max_http_output_bytes (count r.payload)
    then trace_result false "response_too_large" latency (some r.status) (some false)
    else if not (r.status == 200)
    then trace_result false "unexpected_status" latency (some r.status) (some observed)
    else if observed
    then trace_result true "trace_marker_observed" latency (some r.status) (some true)
    else trace_result false "trace_marker_missing" latency (some r.status) (some false)

abbrev pub traced : ℕ → Step Response → ProbeResult
traced latency (done r) = judge_response latency r
traced latency (failed timed_out) = trace_result false "timeout" latency none none
traced latency (failed tls_error) = trace_result false "tls_failed" latency none none
traced latency (failed other_failure) = trace_result false "proxy_unavailable" latency none none

abbrev pub on_port : Option ℤ → Step Response → Step Response
on_port none exchange = failed other_failure
on_port (some port) exchange = exchange

-- The exchange with the proxy is done with the host and the port of its address; an address without a
-- colon is a `ValueError` of the unpacking, outside the `try`.
unfoldable pub probe_warp_trace : ℕ → ℕ → String → Step Response → Result ProbeResult
unfolding bounded_ms parse_int rpartition judge_response
probe_warp_trace started ended proxy_server exchange = elim (rpartition b':' proxy_server) [
  | none ↦ err (value_error "not enough values to unpack (expected 2, got 1)")
  | some (raw_host, raw_port) ↦
      ok (traced (bounded_ms started ended) (on_port (parse_int raw_port) exchange))
]
