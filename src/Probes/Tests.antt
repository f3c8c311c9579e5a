-- ===== src/Probes/Tests.antt =====
-- collectors/probes.py: the theorems at a handshake, an answer of `getent` and a run.
use mathlib.Core.Path.{subst}
use aws_ops_monitor.Prelude.{
  ℕ, suc, ◌*◌, ◌≤◌, ◌≡◌, refl, ◌⊎◌, String, true, false, some, none, [], ◌∷◌, Any, length, ok, take,
  List, arith, leb, ◌==◌, str_eq, if◌then◌else◌,
}
use aws_ops_monitor.Prelude.Int.{pos}
use aws_ops_monitor.Prelude.Float.{micro}
use aws_ops_monitor.Prelude.Text.{
  count, any_code, all_codes, is_decimal, digits_value, lower, char_at, lstrip, rstrip,
  strip_prefix, split_on, split_colon, split_where, take_text,
}
use aws_ops_monitor.Prelude.Bounds.{count-take_text}
use aws_ops_monitor.Models.{HealthObservation}
use aws_ops_monitor.Probes.{World, DnsResult, ProbeResult, Step, done}
use aws_ops_monitor.Probes.Handshake.{
  bounded_ms, header_block, split_crlf, headers_of, has_token, valid_websocket_upgrade,
}
use aws_ops_monitor.Probes.Resolve.{
  Command, finished, byte_lines, first_word, address_of, resolve_lines, resolve_public_addresses,
}
use aws_ops_monitor.Probes.WebSocket.{
  Attempt, max_http_output_bytes, wants_more, receive, receive_fuel, read_response, on_connection,
  try_addresses, probe_websocket_upgrade,
}
use aws_ops_monitor.Probes.Collect.{Settings, Probes, run_probes, collect}
use aws_ops_monitor.Probes.Receive.{IsBounded, receive-ends}
use aws_ops_monitor.Probes.Accepted.{IsAccepted, probe_websocket_upgrade-IsAccepted}
use aws_ops_monitor.Probes.Addresses.{ArePublic, resolve_public_addresses-ArePublic}
use aws_ops_monitor.Probes.Texts.{IsPublic}
use aws_ops_monitor.Probes.Rounds.{
  IsDue, IsEarly, AreGlobals, HealthyIf, IsResolved, IsEgress, collect-IsDue, run_probes-IsPublic,
}

-- an `ipaddress` that knows one global address, and a digest that is always the same
abbrev world : World
world = record {
  ip_address = λ s.
      if str_eq s "1.1.1.1" then some (record { is_global = true; text = "1.1.1.1" }) else none;
  accept_of = λ s. "ACCEPT";
}

abbrev response : String
response =
    "HTTP/1.1 101 Switching Protocols\r\nUpgrade: websocket\r\nConnection: keep-alive, Upgrade\r\nSec-WebSocket-Accept: ACCEPT\r\n\r\n"

-- a peer that answers once
abbrev recv : ℕ → ℕ → Step String
recv n limit = done (take_text limit (if n == 0 then response else ""))

recv-IsBounded : IsBounded recv
recv-IsBounded n limit chunk e =
    subst (λ s. count s ≤ limit) (cc e) (count-take_text limit (if n == 0 then response else ""))

abbrev attempt : Attempt
attempt = record { now = 10; connection = done (record { key = "KEY"; recv = recv }) }

abbrev settings : Settings
settings = record { warp_enabled = false; minimum_interval_seconds = 900 * micro }

abbrev accepted : ProbeResult
accepted = record {
  succeeded = true;
  reason = "upgrade_accepted";
  latency_ms = pos 20;
  status_code = some (pos 101);
  marker_observed = none;
}

abbrev dns : DnsResult
dns = record {
  succeeded = true;
  addresses = "1.1.1.1" ∷ [];
  reason = "resolved";
  latency_ms = pos 5;
}

abbrev probes : Probes
probes = record {
  now = 1000 * micro;
  clock = 9;
  dns = ok dns;
  websocket = λ addresses. ok accepted;
  warp = ok accepted;
}

code_runs : Unit {0}
unfolding count any_code all_codes is_decimal digits_value lower char_at lstrip rstrip strip_prefix
    split_on split_colon split_where take_text bounded_ms header_block split_crlf headers_of
    has_token valid_websocket_upgrade byte_lines first_word address_of resolve_lines
    resolve_public_addresses wants_more receive read_response on_connection try_addresses
    probe_websocket_upgrade
code_runs = tt

receive-ends_example :
    (receive recv 20000 0 String.[] ≡ receive recv receive_fuel 0 String.[])
    × ((s : String)
        → receive recv receive_fuel 0 String.[] ≡ done s
        → count s ≤ suc max_http_output_bytes)
receive-ends_example = receive-ends recv 20000 (omega arith) recv-IsBounded

probed : (probe_websocket_upgrade world 0 20000 8000000 (attempt ∷ [])).succeeded ≡ true
unfolding code_runs
probed = refl

probe_websocket_upgrade-IsAccepted_example : Any (IsAccepted world) (attempt ∷ [])
probe_websocket_upgrade-IsAccepted_example =
    probe_websocket_upgrade-IsAccepted world 0 20000 8000000 (attempt ∷ []) probed

abbrev getent : Command
getent = finished (pos 0) "10.0.0.1 STREAM host\n1.1.1.1 STREAM\n1.1.1.1 DGRAM\n"

resolved_once : (resolve_public_addresses world 0 5000 getent).addresses ≡ "1.1.1.1" ∷ []
unfolding code_runs
resolved_once = refl

resolve_public_addresses-ArePublic_example :
    ArePublic world (resolve_public_addresses world 0 5000 getent).addresses
    × ((resolve_public_addresses world 0 5000 getent).succeeded
        ≡ leb 1 (length (resolve_public_addresses world 0 5000 getent).addresses))
resolve_public_addresses-ArePublic_example = resolve_public_addresses-ArePublic world 0 5000 getent

collect-IsDue_example :
    (IsEarly settings (some 5) (1000 * micro)
      × (collect world settings (some 5) probes ≡ (some 5, ok [])))
    ⊎ (IsDue settings (some 5) (1000 * micro)
        × (collect world settings (some 5) probes
            ≡ (some (1000 * micro), run_probes world settings probes)))
collect-IsDue_example = collect-IsDue world settings (some 5) probes

run_probes-IsPublic_example :
    (a b c : HealthObservation) × (addresses : List String) × (run_probes world settings probes
      ≡ ok (a ∷ b ∷ c ∷ []))
    × AreGlobals world (take 4 dns.addresses) addresses
    × HealthyIf (IsResolved world dns) a.state
    × HealthyIf (IsResolved world dns × (accepted.succeeded ≡ true)) b.state
    × IsEgress settings accepted c.state
    × ((a.component ≡ "path_public_dns") × IsPublic a)
    × ((b.component ≡ "path_cloudflare_xray") × IsPublic b)
    × ((c.component ≡ "path_xray_egress") × IsPublic c)
run_probes-IsPublic_example =
    run_probes-IsPublic world settings probes dns (λ _. accepted) accepted refl (λ _. refl) refl
