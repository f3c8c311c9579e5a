-- ===== src/Xray/Outcomes.antt =====
-- collectors/xray.py: `collect` on what the two commands gave.
use aws_ops_monitor.Prelude.{
  ℕ, ◌≡◌, refl, ◌⊎◌, inl, inr, String, true, false, Option, none, some, List, [], ◌++◌, length,
  Result, ok, err, Error, value_error, config_error, other_error, ◌≢◌, xray_stats_parse_error,
  Bool-cases,
}
use aws_ops_monitor.Prelude.Int.{ℤ, pos, is_zero}
use aws_ops_monitor.Prelude.Float.{num}
use aws_ops_monitor.Models.{unavailable}
use aws_ops_monitor.Models.Snapshots.{XrayTrafficCounter, XraySnapshot}
use aws_ops_monitor.Xray.{World, CommandResult}
use aws_ops_monitor.Xray.Stats.{parse_xray_stats}
use aws_ops_monitor.Xray.Container.{ContainerState, reset_identity}
use aws_ops_monitor.Xray.Collect.{
  container_of, container_details, exit_details, failure_snapshot, container_health, after_parse,
  after_stats, after_commands,
}
use aws_ops_monitor.Xray.Evidence.{
  IsEvidence, container_of-IsEvidence, IsMessage, details-ok, snapshot_with, snapshot_of-ok,
  container_health-IsMessage, failure_messages,
}

module _ (world : World) (hash_key : List ℕ) where
  -- The command for the counters gave none: it could not be run, it failed, or what it wrote was no
  -- response of Xray.
  abbrev pub NoCounters : Option CommandResult → Type 0
  NoCounters stats =
      (stats ≡ none)
      ⊎ ((r : CommandResult) × (stats ≡ some r)
          × ((is_zero r.returncode ≡ false)
              ⊎ ((is_zero r.returncode ≡ true)
                  × ((m : String) × (parse_xray_stats world hash_key r.stdout
                        ≡ err (xray_stats_parse_error m))))))

  -- The command for the counters gave these.
  abbrev pub Counted : Option CommandResult → List XrayTrafficCounter → Type 0
  Counted stats cs =
      (r : CommandResult) × (stats ≡ some r)
      × (is_zero r.returncode ≡ true)
      × (parse_xray_stats world hash_key r.stdout ≡ ok cs)

  -- The parser raised an exception that is not its own.
  abbrev Breaks : Option CommandResult → Error → Type 0
  Breaks stats e =
      (r : CommandResult) × (stats ≡ some r)
      × (is_zero r.returncode ≡ true)
      × (parse_xray_stats world hash_key r.stdout ≡ err e)
      × ((m : String) → e ≢ xray_stats_parse_error m)

  abbrev pub Outcome :
      ContainerState → Option CommandResult → String → ℕ → Result XraySnapshot → Type 0
  Outcome state stats reset at result =
      ((s : XraySnapshot) × (result ≡ ok s)
        × (s.observed_at ≡ num (pos at))
        × (s.reset_id ≡ reset)
        × ((Counted stats s.counters × (s.health.state ≡ (container_health state).0))
            ⊎ (NoCounters stats × (s.counters ≡ []) × (s.health.state ≡ unavailable))))
      ⊎ ((e : Error) × (result ≡ err e) × Breaks stats e)

  failure_snapshot-Outcome :
      (at : ℕ) (reset message : String) (state : ContainerState) (code : Option ℤ)
      (stats : Option CommandResult)
      → IsEvidence state
      → IsMessage message
      → NoCounters stats
      → Outcome state stats reset at (failure_snapshot at reset message state code)
  unfolding failure_snapshot
  failure_snapshot-Outcome at reset message state code stats evidence plain none_found = inl (
    snapshot_with at reset [] unavailable message (container_details 0 state ++ exit_details code),
    snapshot_of-ok at reset [] unavailable message (container_details 0 state ++ exit_details code)
        plain (details-ok 0 state code evidence.0),
    refl,
    refl,
    inr (none_found, refl, refl),
  )

  after_parse-Outcome :
      (at : ℕ) (reset : String) (state : ContainerState) (r : CommandResult)
      (parsed : Result (List XrayTrafficCounter))
      → IsEvidence state
      → is_zero r.returncode ≡ true
      → parse_xray_stats world hash_key r.stdout ≡ parsed
      → Outcome state (some r) reset at (after_parse at reset state parsed)
  unfolding after_parse
  after_parse-Outcome at reset state r (ok cs) evidence zero e = inl (
    snapshot_with at reset cs (container_health state).0 (container_health state).1
        (container_details (length cs) state),
    snapshot_of-ok at reset cs (container_health state).0 (container_health state).1
        (container_details (length cs) state) (container_health-IsMessage state)
        (details-ok (length cs) state none evidence.0),
    refl,
    refl,
    inl ((r, refl, zero, e), refl),
  )
  after_parse-Outcome at reset state r (err (xray_stats_parse_error m)) evidence zero e =
      failure_snapshot-Outcome at reset "Xray stats response was invalid" state none (some r)
        evidence failure_messages.2 (inr (r, refl, inr (zero, (m, e))))
  after_parse-Outcome at reset state r (err (value_error m)) evidence zero e =
      inr (value_error m, refl, (r, refl, zero, e, λ m' clash. cc clash))
  after_parse-Outcome at reset state r (err (config_error m)) evidence zero e =
      inr (config_error m, refl, (r, refl, zero, e, λ m' clash. cc clash))
  after_parse-Outcome at reset state r (err other_error) evidence zero e =
      inr (other_error, refl, (r, refl, zero, e, λ m' clash. cc clash))

  after_stats-Outcome :
      (at : ℕ) (reset : String) (state : ContainerState) (stats : Option CommandResult)
      → IsEvidence state
      → Outcome state stats reset at (after_stats world hash_key at reset state stats)
  unfolding after_stats
  after_stats-Outcome at reset state none evidence =
      failure_snapshot-Outcome at reset "Xray stats command unavailable" state none none evidence
        failure_messages.0 (inl refl)
  after_stats-Outcome at reset state (some r) evidence = elim (Bool-cases (is_zero r.returncode)) [
    | inl zero ↦ rw zero (
        after_parse-Outcome at reset state r (parse_xray_stats world hash_key r.stdout) evidence
          zero refl)
    | inr failed ↦ rw failed (
        failure_snapshot-Outcome at reset "Xray stats command failed" state (some r.returncode)
          (some r) evidence failure_messages.1 (inr (r, refl, inl failed)))
  ]

  pub after_commands-Outcome :
      (at : ℕ) (inspect stats : Option CommandResult)
      → Outcome
          (container_of inspect)
          stats
          (reset_identity world (container_of inspect).reset_material)
          at
          (after_commands world hash_key at inspect stats)
  unfolding after_commands
  after_commands-Outcome at inspect stats =
      after_stats-Outcome at (reset_identity world (container_of inspect).reset_material)
        (container_of inspect) stats (container_of-IsEvidence inspect)
