-- ===== src/Probes/WebSocket.antt =====
-- collectors/probes.py: `probe_websocket_upgrade`.
use Prim.Native.String
use aws_ops_monitor.Prelude.{
  ℕ, zero, suc, ◌+◌, ◌-◌, ◌*◌, String, Bool, true, false, not, ◌&&◌, Option, none, some, List, [],
  ◌∷◌, take, ltb, leb, ◌==◌, is_some, if◌then◌else◌,
}
use aws_ops_monitor.Prelude.Int.{ℤ, pos}
use aws_ops_monitor.Prelude.Text.{count, is_blank, is_decimal, digits_value, int_refuses, split_on}
use aws_ops_monitor.Probes.{
  World, ProbeResult, timed_out, tls_error, other_failure, Step, done, failed,
}
use aws_ops_monitor.Probes.Handshake.{bounded_ms, header_block, split_crlf, valid_websocket_upgrade}
use aws_ops_monitor.Probes.Resolve.{first_or_empty}

-- A TLS connection after the request was sent: the key of the request, and what the n-th call of
-- `recv` with a limit returns or raises.
pub record Connection : Type 0 where
  pub key : String
  pub recv : ℕ → ℕ → Step String

-- One round of the loop: the monotonic clock at its start, and the connection to the address, or the
-- exception on the way to it.
pub record Attempt : Type 0 where
  pub now : ℕ
  pub connection : Step Connection

abbrev pub max_http_output_bytes : ℕ
max_http_output_bytes = 16 * 1024

abbrev pub smaller : ℕ → ℕ → ℕ
smaller a b = if ltb b a then b else a

-- `b"\r\n\r\n" not in response and len(response) <= MAX_HTTP_OUTPUT_BYTES`
unfoldable pub wants_more : String → Bool
unfolding count header_block
wants_more response =
    not (is_some (header_block response)) && leb (count response) max_http_output_bytes

-- after a call of `recv`
abbrev pub extended : (String → Step String) → String → Step String → Step String
extended again response (failed f) = failed f
extended again response (done chunk) =
    if is_blank chunk then done response else again (String.◌++◌ response chunk)

-- the loop over `recv`, on fuel
unfoldable pub receive : (ℕ → ℕ → Step String) → ℕ → ℕ → String → Step String
unfolding wants_more
receive recv zero n response = done response
receive recv (suc fuel) n response = elim (wants_more response) [
  | true ↦
      extended (receive recv fuel (suc n)) response
        (recv n (smaller 4096 (max_http_output_bytes + 1 - count response)))
  | false ↦ done response
]

-- `int(parts[1])`, `none` where there is no number; more than 4300 digits are a `ValueError`
abbrev pub status_of : List String → Step (Option ℕ)
status_of (version ∷ status ∷ rest) =
    if is_decimal status
    then (if int_refuses status then failed other_failure else done (some (digits_value 0 status)))
    else done none
status_of _ = done none

abbrev pub optional : Option ℕ → Option ℤ
optional none = none
optional (some n) = some (pos n)

abbrev pub probe_result : Bool → String → ℕ → Option ℕ → ProbeResult
probe_result ok reason latency status = record {
  succeeded = ok;
  reason = reason;
  latency_ms = pos latency;
  status_code = optional status;
  marker_observed = none;
}

-- the result by the status code
abbrev pub judged : ℕ → Bool → Option ℕ → ProbeResult
judged latency valid none = probe_result false "unexpected_status" latency none
judged latency valid (some status) =
    if not (status == 101)
    then probe_result false "unexpected_status" latency (some status)
    else if valid
    then probe_result true "upgrade_accepted" latency (some 101)
    else probe_result false "invalid_upgrade" latency (some 101)

abbrev pub with_status : ℕ → Bool → Step (Option ℕ) → Step ProbeResult
with_status latency valid (failed f) = failed f
with_status latency valid (done status) = done (judged latency valid status)

-- the result of a response
unfoldable pub read_response : World → ℕ → String → String → Step ProbeResult
unfolding split_on split_crlf valid_websocket_upgrade is_decimal digits_value count
read_response world latency key response =
    if ltb max_http_output_bytes (count response)
    then done (probe_result false "response_too_large" latency none)
    else with_status latency (valid_websocket_upgrade world response key)
        (status_of (split_on b' ' (first_or_empty (split_crlf response))))

abbrev pub receive_fuel : ℕ
receive_fuel = 16 * 1024 + 2

abbrev pub received : World → ℕ → String → Step String → Step ProbeResult
received world latency key (failed f) = failed f
received world latency key (done response) = read_response world latency key response

unfoldable pub on_connection : World → ℕ → Step Connection → Step ProbeResult
unfolding receive read_response
on_connection world latency (failed f) = failed f
on_connection world latency (done c) =
    received world latency c.key (receive c.recv receive_fuel 0 String.[])

-- the end of the loop
abbrev pub given_up : ℕ → Bool → ProbeResult
given_up latency saw_timeout =
    probe_result false (if saw_timeout then "timeout" else "connection_failed") latency none

-- what an exception makes of a round: the loop goes on, unless TLS failed
abbrev pub after_attempt : ℕ → (Bool → ProbeResult) → Bool → Step ProbeResult → ProbeResult
after_attempt latency next saw_timeout (done result) = result
after_attempt latency next saw_timeout (failed timed_out) = next true
after_attempt latency next saw_timeout (failed tls_error) =
    probe_result false "tls_failed" latency none
after_attempt latency next saw_timeout (failed other_failure) = next saw_timeout

unfoldable pub try_addresses : World → ℕ → ℕ → List Attempt → Bool → ProbeResult
unfolding on_connection
try_addresses world deadline latency [] saw_timeout = given_up latency saw_timeout
try_addresses world deadline latency (attempt ∷ attempts) saw_timeout =
    if leb deadline attempt.now
    then given_up latency true
    else after_attempt latency (try_addresses world deadline latency attempts) saw_timeout
        (on_connection world latency attempt.connection)

-- one attempt for each address, the readings of the monotonic clock at the start and at the end, and
-- the time-out
unfoldable pub probe_websocket_upgrade : World → ℕ → ℕ → ℕ → List Attempt → ProbeResult
unfolding try_addresses bounded_ms
probe_websocket_upgrade world started ended timeout attempts =
    try_addresses world (started + timeout) (bounded_ms started ended) (take 4 attempts) false
