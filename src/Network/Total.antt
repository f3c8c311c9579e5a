-- ===== src/Network/Total.antt =====
-- collectors/network.py: `collect` returns a snapshot of any result of the command.
use aws_ops_monitor.Prelude.{
  any, take, ℕ, ◌≤◌, ◌≡◌, refl, ◌⊎◌, inl, inr, String, List, [], ◌∷◌, map, ok, true, false,
  Bool-cases,
}
use aws_ops_monitor.Prelude.Int.{ℤ, is_zero}
use aws_ops_monitor.Prelude.Text.{splitlines, count, any_code}
use aws_ops_monitor.Models.{
  int, unavailable, HealthObservation, health_observation, validate_metric_part,
  validate_detail_items, validate_detail_value,
}
use aws_ops_monitor.Models.Snapshots.{NetworkSnapshot}
use aws_ops_monitor.Network.{IpParser, CommandResult}
use aws_ops_monitor.Network.Parse.{line_raises, parse_ss_listeners}
use aws_ops_monitor.Network.Policy.{Policy}
use aws_ops_monitor.Network.Collect.{collect, collect_failed, collect_listed}
use aws_ops_monitor.Network.Listeners.{observe, parse_ss_listeners-lines}
use aws_ops_monitor.Network.Paths.{path_keys, ArePaths, path_health-ok}
use aws_ops_monitor.Network.Details.{
  IsPolicy, exposure_of, observed-HasShortText, exposure_health-ok,
}

abbrev unavailable_exposure : ℕ → ℤ → HealthObservation
unavailable_exposure at returncode = record {
  observed_at = at;
  component = "network_exposure";
  state = unavailable;
  message = "listener inventory unavailable";
  details = ("command_exit", int returncode) ∷ [];
}

failed_exposure :
    (at : ℕ) (returncode : ℤ)
    → health_observation at "network_exposure" unavailable "listener inventory unavailable"
        (("command_exit", int returncode) ∷ [])
      ≡ ok (unavailable_exposure at returncode)
unfolding health_observation validate_detail_value count any_code validate_metric_part
    validate_detail_items
failed_exposure at returncode = refl

module _ (digits : ℕ → String) (short : (n : ℕ) → n ≤ 65535 → count (digits n) ≤ 5) where
  -- For every policy whose ports are in range, a `str` that writes a port with at most five
  -- characters, and an output with no port of more than 4300 digits in its first 4096 lines, `collect`
  -- returns a snapshot. Where the command failed, it has no listener, an unavailable exposure and
  -- unavailable paths. Otherwise it has the listeners of the output, the exposure by the policy, and
  -- the five paths, each with the state of its listener: healthy exactly where it is observed, degraded
  -- where only its transport and port are, else unavailable.
  pub collect-cases :
      (ip_address : IpParser) (policy : Policy) (at : ℕ) (result : CommandResult)
      → IsPolicy policy
      → any line_raises (take 4096 (splitlines result.stdout)) ≡ false
      → (snapshot : NetworkSnapshot) × (exposure : HealthObservation) × (paths : List
          HealthObservation)
        × (collect ip_address digits policy at result ≡ ok snapshot)
        × (snapshot.observed_at ≡ at)
        × (snapshot.health ≡ exposure ∷ paths)
        × ArePaths snapshot.listeners path_keys paths
        × (((is_zero result.returncode ≡ false)
              × (snapshot.listeners ≡ [])
              × (exposure.state ≡ unavailable))
            ⊎ ((is_zero result.returncode ≡ true)
                × (parse_ss_listeners ip_address result.stdout ≡ ok snapshot.listeners)
                × (exposure ≡ exposure_of digits policy at snapshot.listeners)))
  unfolding collect collect_failed collect_listed
  collect-cases ip_address policy at result valid digits_fit =
      let (ls, parsed, are, _) = parse_ss_listeners-lines ip_address result.stdout digits_fit in
      let exposed =
        exposure_health-ok digits short policy at (map observe ls) valid
          (observed-HasShortText digits short ls are) in
      let (paths, walked, states) = path_health-ok at (map observe ls) in
      let (down_paths, down_walked, down_states) = path_health-ok at [] in
      elim (Bool-cases (is_zero result.returncode)) [
        | inl up ↦ (
          record {
            observed_at = at;
            listeners = map observe ls;
            health = exposure_of digits policy at (map observe ls) ∷ paths;
          },
          exposure_of digits policy at (map observe ls),
          paths,
          rw (up, parsed, exposed, walked) refl,
          refl,
          refl,
          states,
          inr (up, parsed, refl),
        )
        | inr down ↦ (
          record {
            observed_at = at;
            listeners = [];
            health = unavailable_exposure at result.returncode ∷ down_paths;
          },
          unavailable_exposure at result.returncode,
          down_paths,
          rw (down, failed_exposure at result.returncode, down_walked) refl,
          refl,
          refl,
          down_states,
          inl (down, refl, refl),
        )
      ]
