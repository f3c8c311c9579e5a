-- ===== src/Xray/Evidence.antt =====
-- collectors/xray.py: what is known of the state of the container, and of the snapshot made of it.
use Prim.Native.String
use aws_ops_monitor.Prelude.{
  ℕ, ◌^◌, ◌-◌, ltb, leb, All, ◌≤◌, ◌≡◌, refl, ◌⊎◌, inl, inr, String, Bool, false, not, ◌||◌, Option,
  none, some, List, [], ◌∷◌, ◌++◌, length, ok, arith, str_eq, Bool-cases, if-both,
}
use aws_ops_monitor.Prelude.Int.{ℤ, pos, is_zero}
use aws_ops_monitor.Prelude.Float.{num}
use aws_ops_monitor.Prelude.Numerals.{parse_int}
use aws_ops_monitor.Prelude.Text.{count, any_code, split_on, strip, is_space}
use aws_ops_monitor.Prelude.Bounds.{any_str_eq-All}
use aws_ops_monitor.Models.{
  is_control, HealthState, Details, health_observation, validate_metric_part, validate_detail_items,
  validate_detail_value,
}
use aws_ops_monitor.Models.Snapshots.{XrayTrafficCounter, XraySnapshot}
use aws_ops_monitor.Xray.{CommandResult}
use aws_ops_monitor.Xray.Container.{
  ContainerState, container_states, read_bool, unbounded, no_evidence, is_container_state,
  inspected, parse_fields, parse_container_state,
}
use aws_ops_monitor.Xray.Collect.{
  container_of, is_killed, is_restarted, container_details, exit_details, snapshot_of,
  container_health,
}

-- what the constructor of a health observation asks of a state, and the numbers of one that was read
abbrev pub IsEvidence : ContainerState → Type 0
IsEvidence s =
    (count s.status ≤ 512)
    × ((s.inspect_ok ≡ false)
        ⊎ ((n : ℕ) × (b : Bool) × (s.restart_count ≡ some n) × (s.oom_killed ≡ some b)))

container_states-bound : All (λ s. count s ≤ 512) container_states
unfolding count
container_states-bound = ground arith

no_evidence-IsEvidence : IsEvidence no_evidence
unfolding count
no_evidence-IsEvidence = (omega arith, inl refl)

inspected-IsEvidence :
    (container_id started_at status : String) (restarts : Option ℤ) (oom : Option Bool)
    → count status ≤ 512
    → IsEvidence (inspected container_id started_at status restarts oom)
unfolding inspected
inspected-IsEvidence i t s (some (pos n)) (some b) h = elim (Bool-cases (leb n (2 ^ 31 - 1))) [
  | inl small ↦ rw small (h, inr (n, b, refl, refl))
  | inr large ↦ rw large no_evidence-IsEvidence
]
inspected-IsEvidence i t s _ _ h = no_evidence-IsEvidence

parse_fields-IsEvidence : (fields : List String) → IsEvidence (parse_fields fields)
unfolding parse_fields
parse_fields-IsEvidence (i ∷ t ∷ s ∷ r ∷ o ∷ []) =
    elim (Bool-cases (unbounded i || unbounded t || not (is_container_state s))) [
      | inl refused ↦ rw refused no_evidence-IsEvidence
      | inr taken ↦ rw taken (
          inspected-IsEvidence i t s (parse_int r) (read_bool o) (
            any_str_eq-All (λ x. count x ≤ 512) s container_states (ground (arith, taken))
              container_states-bound))
    ]
parse_fields-IsEvidence _ = no_evidence-IsEvidence

pub container_of-IsEvidence : (inspect : Option CommandResult) → IsEvidence (container_of inspect)
unfolding parse_container_state
container_of-IsEvidence none = no_evidence-IsEvidence
container_of-IsEvidence (some result) =
    elim (Bool-cases (not (is_zero result.returncode) || ltb 4096 (String.len result.stdout))) [
      | inl refused ↦ rw refused no_evidence-IsEvidence
      | inr taken ↦
          rw taken (parse_fields-IsEvidence (split_on b'|' (strip is_space result.stdout)))
    ]

-- a message that the constructor accepts
abbrev pub IsMessage : String → Type 0
IsMessage s = (count s ≤ 512) × (any_code is_control s ≡ false)

pub details-ok :
    (n : ℕ) (state : ContainerState) (code : Option ℤ)
    → count state.status ≤ 512
    → (validate_detail_items (container_details n state ++ exit_details code) ≡ ok tt)
      × (length (container_details n state ++ exit_details code) ≤ 32)
unfolding validate_detail_items validate_detail_value validate_metric_part count any_code
details-ok n state none h = ground arith
details-ok n state (some z) h = ground arith

-- the snapshot that a message and details that the constructor accepts give
abbrev pub snapshot_with :
    ℕ → String → List XrayTrafficCounter → HealthState → String → Details → XraySnapshot
snapshot_with at reset cs state message details = record {
  observed_at = num (pos at);
  reset_id = reset;
  counters = cs;
  health = record {
    observed_at = at;
    component = "xray";
    state = state;
    message = message;
    details = details;
  };
}

pub snapshot_of-ok :
    (at : ℕ) (reset : String) (cs : List XrayTrafficCounter) (state : HealthState)
    (message : String) (details : Details)
    → IsMessage message
    → (validate_detail_items details ≡ ok tt) × (length details ≤ 32)
    → snapshot_of at reset cs state message details
      ≡ ok (snapshot_with at reset cs state message details)
unfolding snapshot_of health_observation validate_metric_part count any_code
snapshot_of-ok at reset cs state message details plain (valid, few) = ground (arith, plain, valid)

pub container_health-IsMessage : (state : ContainerState) → IsMessage (container_health state).1
unfolding container_health count any_code
container_health-IsMessage state =
    let P : HealthState × String → Type 0 = λ p. IsMessage p.1 in
    if-both P (not state.inspect_ok) _ _ (ground arith) (
      if-both P (not (str_eq state.status "running")) _ _ (ground arith) (
        if-both P (is_killed state.oom_killed) _ _ (ground arith)
          (if-both P (is_restarted state.restart_count) _ _ (ground arith) (ground arith))))

pub failure_messages :
    IsMessage "Xray stats command unavailable"
    × IsMessage "Xray stats command failed"
    × IsMessage "Xray stats response was invalid"
unfolding count any_code
failure_messages = ground arith
