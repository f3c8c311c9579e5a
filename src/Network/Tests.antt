-- ===== src/Network/Tests.antt =====
-- collectors/network.py: the theorems and the parser at concrete outputs of `ss`.
use aws_ops_monitor.Prelude.{
  any, if◌then◌else◌, str_eq, ℕ, ◌≤◌, ◌≡◌, refl, ◌⊎◌, ◌↔◌, String, true, false, some, List, [], ◌∷◌,
  All, Any, map, take, ok, arith,
}
use aws_ops_monitor.Prelude.Int.{pos, is_zero}
use aws_ops_monitor.Prelude.Text.{
  count, splitlines, words, split_where, rpartition, is_decimal, all_codes, digits_value, lower_is,
  upper_is, lstrip, rstrip, before,
}
use aws_ops_monitor.Models.{healthy, degraded, unavailable, HealthObservation}
use aws_ops_monitor.Models.Snapshots.{ListenerObservation, listener_observation, NetworkSnapshot}
use aws_ops_monitor.Network.{IpParser, CommandResult}
use aws_ops_monitor.Network.Parse.{
  line_raises, Listener, address_exposure, bare_address, classify_endpoint, line_endpoint,
  line_listener, add_listener, compare_listeners, listener_set, observe_all, parse_ss_listeners,
}
use aws_ops_monitor.Network.Policy.{Policy, unexpected, missing_expected, exposure_state}
use aws_ops_monitor.Network.Collect.{collect}
use aws_ops_monitor.Network.Listeners.{IsListener, observe, parse_ss_listeners-lines}
use aws_ops_monitor.Network.Exposure.{IsPermitted, exposure_state-healthy_iff}
use aws_ops_monitor.Network.Paths.{path_keys, ArePaths}
use aws_ops_monitor.Network.Details.{IsPolicy, exposure_of}
use aws_ops_monitor.Network.Total.{collect-cases}

-- an `ipaddress` that knows one loopback address
abbrev ip_address : IpParser
ip_address a =
    if str_eq a "127.0.0.1"
    then some (record { is_loopback = true; is_link_local = false })
    else some (record { is_loopback = false; is_link_local = false })

-- a `str` that is short
abbrev digits : ℕ → String
digits n = "1"

abbrev output : String
output = "tcp LISTEN 0 128 0.0.0.0:22 0.0.0.0:*\ntcp LISTEN 0 128 127.0.0.1:8787 0.0.0.0:*\n"

abbrev ssh : ListenerObservation
ssh = record { transport = "tcp"; port = 22; exposure = "public" }

abbrev dashboard : ListenerObservation
dashboard = record { transport = "tcp"; port = 8787; exposure = "loopback" }

abbrev policy : Policy
policy = record {
  expected_public_ports = 22 ∷ [];
  expected_loopback_ports = 8787 ∷ [];
  expected_public_udp_ports = [];
  expected_loopback_udp_ports = [];
}

code_runs : Unit {0}
unfolding line_raises count splitlines words split_where rpartition is_decimal all_codes
    digits_value lower_is upper_is lstrip rstrip before listener_observation address_exposure
    bare_address classify_endpoint line_endpoint line_listener add_listener compare_listeners
    listener_set observe_all parse_ss_listeners
code_runs = tt

no_long_port : any line_raises (take 4096 (splitlines output)) ≡ false
unfolding code_runs
no_long_port = refl

parses : parse_ss_listeners ip_address output ≡ ok (dashboard ∷ ssh ∷ [])
unfolding code_runs
parses = refl

parse_ss_listeners-lines_example :
    (ls : List Listener) × (parse_ss_listeners ip_address output ≡ ok (map observe ls))
    × All IsListener ls
    × ((k : Listener)
        → Any (λ l. k ≡ l) ls
          ↔ Any (λ line. line_listener ip_address line ≡ some k) (take 4096 (splitlines output)))
parse_ss_listeners-lines_example = parse_ss_listeners-lines ip_address output no_long_port

exposure_state-healthy_iff_example :
    let state =
      exposure_state
        (unexpected policy (dashboard ∷ ssh ∷ []))
        (missing_expected (ssh ∷ dashboard ∷ []) (dashboard ∷ ssh ∷ [])) in
    ((state ≡ healthy) ↔ (
      All (λ l. l.exposure ≡ "public" → IsPermitted policy l) (dashboard ∷ ssh ∷ [])
      × All (λ e. Any (λ o. e ≡ o) (dashboard ∷ ssh ∷ [])) (ssh ∷ dashboard ∷ [])))
    × ((state ≡ healthy) ⊎ (state ≡ degraded))
exposure_state-healthy_iff_example =
    exposure_state-healthy_iff policy (ssh ∷ dashboard ∷ []) (dashboard ∷ ssh ∷ [])

short_digits : (n : ℕ) → n ≤ 65535 → count (digits n) ≤ 5
unfolding count
short_digits n h = omega arith

policy_valid : IsPolicy policy
policy_valid = record {
  public = ((omega arith, omega arith), tt);
  loopback = ((omega arith, omega arith), tt);
  public_udp = tt;
  loopback_udp = tt;
}

abbrev listed : CommandResult
listed = record { returncode = pos 0; stdout = output }

collect-cases_example :
    (snapshot : NetworkSnapshot) × (exposure : HealthObservation) × (paths : List HealthObservation)
    × (collect ip_address digits policy 5 listed ≡ ok snapshot)
    × (snapshot.observed_at ≡ 5)
    × (snapshot.health ≡ exposure ∷ paths)
    × ArePaths snapshot.listeners path_keys paths
    × (((is_zero listed.returncode ≡ false)
          × (snapshot.listeners ≡ [])
          × (exposure.state ≡ unavailable))
        ⊎ ((is_zero listed.returncode ≡ true)
            × (parse_ss_listeners ip_address output ≡ ok snapshot.listeners)
            × (exposure ≡ exposure_of digits policy 5 snapshot.listeners)))
collect-cases_example =
    collect-cases digits short_digits ip_address policy 5 listed policy_valid no_long_port
