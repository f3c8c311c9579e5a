-- ===== src/Probes/Accepted.antt =====
-- collectors/probes.py: what a WebSocket probe that succeeded has seen.
use aws_ops_monitor.Prelude.{
  ℕ, ◌+◌, ◌≤◌, ◌≡◌, refl, ap, ◌∙◌, inl, inr, String, Bool, true, false, not, Option, some, none,
  List, [], ◌∷◌, Any, take, arith, ltb, leb, ◌==◌, Bool-cases, if◌then◌else◌,
}
use aws_ops_monitor.Prelude.Text.{count, split_on}
use aws_ops_monitor.Probes.{
  World, ProbeResult, timed_out, tls_error, other_failure, Step, done, failed,
}
use aws_ops_monitor.Probes.Handshake.{bounded_ms, split_crlf, valid_websocket_upgrade}
use aws_ops_monitor.Probes.Resolve.{first_or_empty}
use aws_ops_monitor.Probes.WebSocket.{
  Connection, Attempt, max_http_output_bytes, receive, receive_fuel, probe_result, judged,
  with_status, status_of, read_response, received, on_connection, given_up, after_attempt,
  try_addresses, probe_websocket_upgrade,
}

-- The attempt was answered with a handshake that is valid for its key, within the bound.
abbrev pub IsAccepted : World → Attempt → Type 0
IsAccepted world attempt =
    (c : Connection) × (response : String) × (attempt.connection ≡ done c)
    × (receive c.recv receive_fuel 0 String.[] ≡ done response)
    × (count response ≤ max_http_output_bytes)
    × (valid_websocket_upgrade world response c.key ≡ true)

judged-valid :
    (latency : ℕ) (valid : Bool) (status : Option ℕ)
    → (judged latency valid status).succeeded ≡ true
    → valid ≡ true
judged-valid latency valid none h = cc h
judged-valid latency true (some status) h = refl
judged-valid latency false (some status) h = elim (Bool-cases (not (status == 101))) [
  | inl e ↦ ground (arith, h, e)
  | inr e ↦ ground (arith, h, e)
]

with_status-valid :
    (latency : ℕ) (valid : Bool) (step : Step (Option ℕ)) (r : ProbeResult)
    → with_status latency valid step ≡ done r
    → r.succeeded ≡ true
    → valid ≡ true
with_status-valid latency valid (failed f) r e h = cc e
with_status-valid latency valid (done status) r e h =
    let same : judged latency valid status ≡ r = cc e in
    judged-valid latency valid status (ap (λ x. x.succeeded) same ∙ h)

read_response-valid :
    (world : World) (latency : ℕ) (key response : String) (r : ProbeResult)
    → read_response world latency key response ≡ done r
    → r.succeeded ≡ true
    → (count response ≤ max_http_output_bytes) × (valid_websocket_upgrade world response key ≡ true)
unfolding read_response
read_response-valid world latency key response r e h =
    go (ltb max_http_output_bytes (count response)) refl e
  where
    go :
        (large : Bool)
        → ltb max_http_output_bytes (count response) ≡ large
        → (if large
            then done (probe_result false "response_too_large" latency none)
            else with_status latency
                (valid_websocket_upgrade world response key)
                (status_of (split_on b' ' (first_or_empty (split_crlf response)))))
          ≡ done r
        → (count response ≤ max_http_output_bytes)
          × (valid_websocket_upgrade world response key ≡ true)
    go true l x = cc (x, h)
    go false l x = (
      ground (arith, l),
      with_status-valid latency (valid_websocket_upgrade world response key)
          (status_of (split_on b' ' (first_or_empty (split_crlf response)))) r x h,
    )

on_connection-IsAccepted :
    (world : World) (latency : ℕ) (attempt : Attempt) (r : ProbeResult)
    → on_connection world latency attempt.connection ≡ done r
    → r.succeeded ≡ true
    → IsAccepted world attempt
unfolding on_connection
on_connection-IsAccepted world latency attempt r e h = go attempt.connection refl e
  where
    read :
        (c : Connection)
        → attempt.connection ≡ done c
        → (s : Step String) → receive c.recv receive_fuel 0 String.[] ≡ s
        → received world latency c.key s ≡ done r
        → IsAccepted world attempt
    read c given (failed f) got x = cc x
    read c given (done response) got x =
        let (small, valid) = read_response-valid world latency c.key response r x h in
        (c, response, given, got, small, valid)

    go :
        (connection : Step Connection)
        → attempt.connection ≡ connection
        → on_connection world latency connection ≡ done r
        → IsAccepted world attempt
    go (failed f) given x = cc x
    go (done c) given x = read c given (receive c.recv receive_fuel 0 String.[]) refl x

given_up-failed :
    (latency : ℕ) (saw_timeout : Bool) → (given_up latency saw_timeout).succeeded ≡ false
given_up-failed latency true = refl
given_up-failed latency false = refl

try_addresses-IsAccepted :
    (world : World) (deadline latency : ℕ) (attempts : List Attempt) (saw_timeout : Bool)
    → (try_addresses world deadline latency attempts saw_timeout).succeeded ≡ true
    → Any (IsAccepted world) attempts
unfolding try_addresses
try_addresses-IsAccepted world deadline latency [] saw_timeout h =
    cc (h, given_up-failed latency saw_timeout)
try_addresses-IsAccepted world deadline latency (attempt ∷ attempts) saw_timeout h =
    go (leb deadline attempt.now) (on_connection world latency attempt.connection) refl
      (try_addresses-IsAccepted world deadline latency attempts) h
  where
    go :
        (late : Bool) (step : Step ProbeResult)
        → on_connection world latency attempt.connection ≡ step
        → ((saw : Bool)
            → (try_addresses world deadline latency attempts saw).succeeded ≡ true
            → Any (IsAccepted world) attempts)
        → (if late
            then given_up latency true
            else after_attempt latency
                (try_addresses world deadline latency attempts)
                saw_timeout
                step).succeeded
          ≡ true
        → Any (IsAccepted world) (attempt ∷ attempts)
    go true step e later x = cc (x, given_up-failed latency true)
    go false (done r) e later x = inl (on_connection-IsAccepted world latency attempt r e x)
    go false (failed timed_out) e later x = inr (later true x)
    go false (failed tls_error) e later x = cc x
    go false (failed other_failure) e later x = inr (later saw_timeout x)

-- A probe of the WebSocket succeeds only if one of the first four addresses answered, within the bound
-- on the response, with a handshake that is valid for the key that was sent to it.
pub probe_websocket_upgrade-IsAccepted :
    (world : World) (started ended timeout : ℕ) (attempts : List Attempt)
    → (probe_websocket_upgrade world started ended timeout attempts).succeeded ≡ true
    → Any (IsAccepted world) (take 4 attempts)
unfolding probe_websocket_upgrade
probe_websocket_upgrade-IsAccepted world started ended timeout attempts h =
    try_addresses-IsAccepted world (started + timeout) (bounded_ms started ended) (take 4 attempts)
      false h
