-- ===== src/Collector/Failures.antt =====
-- collector.py: a collector that raises costs the round nothing but its own data.
use aws_ops_monitor.Prelude.{ℕ, ◌+◌, ◌*◌, ◌≤◌, ◌≡◌, ◌≢◌, refl, String, List, [], ◌∷◌, ok, arith}
use aws_ops_monitor.Prelude.Float.{micro}
use aws_ops_monitor.Prelude.Text.{count, any_code}
use aws_ops_monitor.Models.{
  Scalar, HealthState, unavailable, disabled, HealthObservation, GaugeObservation,
  CounterObservation, health_observation, validate_metric_part, validate_detail_items,
  validate_detail_value,
}
use aws_ops_monitor.Models.Snapshots.{HostSnapshot, XraySnapshot, NetworkSnapshot}
use aws_ops_monitor.Collector.{
  Outcome, absent, raised, returned, LightsailSnapshot, Settings, Inputs,
}
use aws_ops_monitor.Collector.Observations.{host_observations, xray_observations}
use aws_ops_monitor.Collector.Gather.{
  Section, host_section, xray_section, network_returned, network_section, fresh_for, path_section,
  aws_section, Gathered, assemble, gather,
}

-- The span of freshness is one that readers accept, and two polling intervals fit in it, up to the
-- rounding to a second, for every interval of at most a day.
pub fresh_for_bounds :
    (interval : ℕ)
    → interval ≤ 86400 * micro
    → (600 ≤ fresh_for interval)
      × (fresh_for interval ≤ 172800)
      × (interval * 2 ≤ fresh_for interval * micro + 500000)
unfolding fresh_for
fresh_for_bounds interval h = ground arith

checks_run : Unit {0}
unfolding count any_code health_observation validate_metric_part validate_detail_items
    validate_detail_value
checks_run = tt

-- What a section makes of an outcome: one that raises reports `unavailable`, one that is not
-- configured `disabled`, and one that returns what its health says.
abbrev pub reported : {A : Type 0} → (A → HealthState) → Outcome A → HealthState
reported state absent = disabled
reported state raised = unavailable
reported state (returned a) = state a

host_section-ok :
    (show : Scalar → String) (outcome : Outcome HostSnapshot) (clock : ℕ)
    → ((h : HostSnapshot)
        → outcome ≡ returned h
        → (r : List GaugeObservation × List CounterObservation) × (host_observations show h ≡ ok r))
    → (s : Section) × (host_section show outcome clock ≡ ok s)
      × (s.state ≡ reported (λ h. h.health.state) outcome)
unfolding host_section checks_run
host_section-ok show absent clock h = (_, refl, refl)
host_section-ok show raised clock h = (_, refl, refl)
host_section-ok show (returned host) clock h =
    let (r, e) = h host refl in
    (
      record { gauges = r.0; counters = r.1; health = host.health ∷ []; state = host.health.state },
      rw e,
      refl,
    )

xray_section-ok :
    (outcome : Outcome XraySnapshot) (clock : ℕ)
    → ((x : XraySnapshot)
        → outcome ≡ returned x
        → (r : List CounterObservation) × (xray_observations x ≡ ok r))
    → (s : Section) × (xray_section outcome clock ≡ ok s)
      × (s.state ≡ reported (λ x. x.health.state) outcome)
unfolding xray_section checks_run
xray_section-ok absent clock h = (_, refl, refl)
xray_section-ok raised clock h = (_, refl, refl)
xray_section-ok (returned xray) clock h =
    let (r, e) = h xray refl in
    (
      record { gauges = []; counters = r; health = xray.health ∷ []; state = xray.health.state },
      rw e,
      refl,
    )

abbrev pub first_state : List HealthObservation → HealthState
first_state [] = disabled
first_state (h ∷ hs) = h.state

network_section-ok :
    (outcome : Outcome NetworkSnapshot) (clock : ℕ)
    → ((n : NetworkSnapshot) → outcome ≡ returned n → n.health ≢ [])
    → (s : Section) × (network_section outcome clock ≡ ok s)
      × (s.state ≡ reported (λ n. first_state n.health) outcome)
unfolding network_section checks_run
network_section-ok absent clock h = (_, refl, refl)
network_section-ok raised clock h = (_, refl, refl)
network_section-ok (returned network) clock h = go network.health (h network refl)
  where
    go :
        (l : List HealthObservation)
        → l ≢ []
        → (s : Section) × (network_returned l ≡ ok s) × (s.state ≡ first_state l)
    go [] ne = absurd (ne refl)
    go (x ∷ xs) ne = (_, refl, refl)

path_section-ok :
    (settings : Settings) (outcome : Outcome (List HealthObservation)) (clock : ℕ)
    → (l : List HealthObservation) × (path_section settings outcome clock ≡ ok l)
unfolding path_section checks_run
path_section-ok settings absent clock = (_, refl)
path_section-ok settings raised clock = (_, refl)
path_section-ok settings (returned l) clock = (l, refl)

aws_section-ok :
    (settings : Settings) (outcome : Outcome LightsailSnapshot) (clock : ℕ)
    → (s : Section) × (aws_section settings outcome clock ≡ ok s)
      × (s.state ≡ reported (λ a. a.health.state) outcome)
unfolding aws_section checks_run
aws_section-ok settings absent clock = (_, refl, refl)
aws_section-ok settings raised clock = (_, refl, refl)
aws_section-ok settings (returned aws) clock = (_, refl, refl)

-- What a collector returned can be turned into observations.
pub record Converts (show : Scalar → String) (i : Inputs) : Type 0 where
  pub host :
      (h : HostSnapshot)
      → i.host ≡ returned h
      → (r : List GaugeObservation × List CounterObservation) × (host_observations show h ≡ ok r)
  pub xray :
      (x : XraySnapshot)
      → i.xray ≡ returned x
      → (r : List CounterObservation) × (xray_observations x ≡ ok r)
  pub network : (n : NetworkSnapshot) → i.network ≡ returned n → n.health ≢ []

-- Whichever collectors raise or are disabled, the round goes on to its batch, as long as what the
-- others returned can be turned into observations; each state of the result is that of its own
-- collector: `unavailable` where it raised, `disabled` where it is absent.
pub gather-ok :
    (show : Scalar → String) (settings : Settings) (i : Inputs)
    → Converts show i
    → (g : Gathered) × (gather show settings i ≡ ok g)
      × (g.host_state ≡ reported (λ h. h.health.state) i.host)
      × (g.xray_state ≡ reported (λ x. x.health.state) i.xray)
      × (g.network_state ≡ reported (λ n. first_state n.health) i.network)
      × (g.aws_state ≡ reported (λ a. a.health.state) i.aws)
unfolding gather
gather-ok show settings i c =
    let (host, host_ok, host_state) = host_section-ok show i.host i.host_clock c.host in
    let (xray, xray_ok, xray_state) = xray_section-ok i.xray i.xray_clock c.xray in
    let (network, network_ok, network_state) =
      network_section-ok i.network i.network_clock c.network in
    let (paths, paths_ok) = path_section-ok settings i.path_probes i.path_clock in
    let (aws, aws_ok, aws_state) = aws_section-ok settings i.aws i.aws_clock in
    (
      assemble host xray network paths aws,
      rw (host_ok, xray_ok, network_ok, paths_ok, aws_ok),
      host_state,
      xray_state,
      network_state,
      aws_state,
    )
