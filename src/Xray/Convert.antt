-- ===== src/Xray/Convert.antt =====
-- collectors/xray.py: what `collect` returns has observations, those that the collector makes of it.
use Prim.Native.String.append
use mathlib.Core.Path.{subst}
use aws_ops_monitor.Prelude.{
  ℕ, length, ◌≤◌, ◌≡◌, refl, sym, ◌⊎◌, inl, inr, ap, String, true, false, Option, List, [], ◌∷◌,
  All, All-map, ok, arith, eq_iff,
}
use aws_ops_monitor.Prelude.Int.{pos}
use aws_ops_monitor.Prelude.Float.{num}
use aws_ops_monitor.Prelude.Text.{count, is_blank, any_code, take_text, is_space, strip, join_nul}
use aws_ops_monitor.Prelude.Bounds.{
  count-append, any_code-append, count-take_text, any_code-take_text,
}
use aws_ops_monitor.Models.{Labels, int, unavailable, is_control, CounterObservation}
use aws_ops_monitor.Models.Checks.{IsMetricPart, counter_observation-ok_iff}
use aws_ops_monitor.Models.Snapshots.{XrayTrafficCounter, XraySnapshot}
use aws_ops_monitor.Collector.Observations.{
  traverse, set_label, xray_observation, xray_observations,
}
use aws_ops_monitor.Collector.Conversion.{traverse-ok}
use aws_ops_monitor.Xray.{World, CommandResult}
use aws_ops_monitor.Xray.Stats.{is_scope, is_direction, pseudonym}
use aws_ops_monitor.Xray.Counters.{IsPseudonym, IsTraffic, parse_xray_stats-IsTraffic}
use aws_ops_monitor.Xray.Container.{reset_identity}
use aws_ops_monitor.Xray.Collect.{container_of, container_health, after_commands, collect, Ran}
use aws_ops_monitor.Xray.Outcomes.{Outcome, Counted, NoCounters, after_commands-Outcome}
use aws_ops_monitor.Xray.States.{collect-answered}

-- The digests are texts without control characters, as hexadecimal digits are.
pub record Printable (world : World) : Type 0 where
  pub hmac : (key : List ℕ) (raw : String) → any_code is_control (world.hmac_hex key raw) ≡ false
  pub sha256 : (s : String) → any_code is_control (world.sha256_hex s) ≡ false

-- a label value that the store accepts
abbrev IsValue : String → Type 0
IsValue s = (count s ≤ 256) × (any_code is_control s ≡ false)

scope_cases : (s : String) → is_scope s ≡ true → (s ≡ "user") ⊎ (s ≡ "inbound") ⊎ (s ≡ "outbound")
scope_cases s h = ground (arith, eq_iff s "user", eq_iff s "inbound", eq_iff s "outbound")

direction_cases : (s : String) → is_direction s ≡ true → (s ≡ "uplink") ⊎ (s ≡ "downlink")
direction_cases s h = ground (arith, eq_iff s "uplink", eq_iff s "downlink")

literals-IsValue :
    IsValue "user" × IsValue "inbound" × IsValue "outbound" × IsValue "uplink" × IsValue "downlink"
unfolding count any_code
literals-IsValue = ground arith

scope-IsValue : (s : String) → is_scope s ≡ true → IsValue s
scope-IsValue s h = go (scope_cases s h)
  where
    go : (s ≡ "user") ⊎ (s ≡ "inbound") ⊎ (s ≡ "outbound") → IsValue s
    go (inl e) = subst IsValue (sym e) literals-IsValue.0
    go (inr (inl e)) = subst IsValue (sym e) literals-IsValue.1
    go (inr (inr e)) = subst IsValue (sym e) literals-IsValue.2

direction-IsValue : (s : String) → is_direction s ≡ true → IsValue s
direction-IsValue s h = go (direction_cases s h)
  where
    go : (s ≡ "uplink") ⊎ (s ≡ "downlink") → IsValue s
    go (inl e) = subst IsValue (sym e) literals-IsValue.3
    go (inr e) = subst IsValue (sym e) literals-IsValue.4

module _ (world : World) (printable : Printable world) where
  pseudonym-IsValue :
      (prefix : String) (key : List ℕ) (raw : String)
      → count prefix ≤ 8
      → any_code is_control prefix ≡ false
      → IsValue (pseudonym world prefix key raw)
  unfolding pseudonym count any_code
  pseudonym-IsValue prefix key raw short plain =
      let digest = world.hmac_hex key raw in
      (
        omega (
          arith,
          short,
          count-append prefix (String.◌∷◌ "_" (take_text 24 digest)),
          count-take_text 24 digest,
        ),
        any_code-append is_control prefix (String.◌∷◌ "_" (take_text 24 digest)) plain
            (any_code-take_text is_control 24 digest (printable.hmac key raw)),
      )

  -- the label of an identity, and its value
  abbrev IsIdentity : String × String → Type 0
  IsIdentity (label, value) = ((label ≡ "user_hash") ⊎ (label ≡ "tag")) × IsValue value

  prefixes_plain :
      (count "usr" ≤ 8)
      × (any_code is_control "usr" ≡ false)
      × (count "tag" ≤ 8)
      × (any_code is_control "tag" ≡ false)
  unfolding count any_code
  prefixes_plain = (omega arith, refl, omega arith, refl)

  IsPseudonym-IsIdentity :
      (key : List ℕ) (c : XrayTrafficCounter)
      → IsPseudonym world key c
      → IsIdentity (c.identity_label, c.identity_value)
  IsPseudonym-IsIdentity key c (raw, inl (_, label, value)) = (
    inl label,
    subst IsValue (sym value) (pseudonym-IsValue "usr" key raw prefixes_plain.0 prefixes_plain.1),
  )
  IsPseudonym-IsIdentity key c (raw, inr (_, label, value)) = (
    inr label,
    subst IsValue (sym value) (pseudonym-IsValue "tag" key raw prefixes_plain.2 prefixes_plain.3),
  )

  abbrev labels_of : XrayTrafficCounter → Labels
  labels_of c =
      ("scope", c.scope) ∷ ("direction", c.direction) ∷ (c.identity_label, c.identity_value) ∷ []

  label_names :
      IsMetricPart "scope"
      × IsMetricPart "direction"
      × IsMetricPart "user_hash"
      × IsMetricPart "tag"
      × IsMetricPart "xray"
      × IsMetricPart "traffic_bytes_total"
  unfolding count any_code
  label_names = ground arith

  set_label-labels :
      (label value scope direction : String)
      → (label ≡ "user_hash") ⊎ (label ≡ "tag")
      → IsMetricPart label
        × (set_label label value (("scope", scope) ∷ ("direction", direction) ∷ [])
            ≡ ("scope", scope) ∷ ("direction", direction) ∷ (label, value) ∷ [])
  unfolding set_label
  set_label-labels label value scope direction (inl e) = rw e (label_names.2, refl)
  set_label-labels label value scope direction (inr e) = rw e (label_names.3, refl)

  xray_observation-ok :
      (key : List ℕ) (at : ℕ) (snapshot : XraySnapshot) (c : XrayTrafficCounter)
      → snapshot.observed_at ≡ num (pos at)
      → IsMetricPart snapshot.reset_id
      → IsTraffic world key c
      → (o : CounterObservation) × (xray_observation snapshot c ≡ ok o)
  unfolding xray_observation
  xray_observation-ok key at snapshot c timely reset (scope_ok, direction_ok, small, hidden) =
      let (named, plain) = IsPseudonym-IsIdentity key c hidden in
      let (label_ok, set) =
        set_label-labels c.identity_label c.identity_value c.scope c.direction named in
      let o : CounterObservation = record {
        observed_at = at;
        source = "xray";
        name = "traffic_bytes_total";
        value = c.value;
        reset_id = snapshot.reset_id;
        labels = labels_of c;
      } in
      (
        o,
        (counter_observation-ok_iff snapshot.observed_at "xray" "traffic_bytes_total"
              (int (pos c.value)) snapshot.reset_id _ o).1
            (
              timely,
              refl,
              refl,
              refl,
              refl,
              set,
              record {
                source_part = label_names.4;
                name_part = label_names.5;
                reset_part = reset;
                few_labels = ground arith;
                label_parts = (
                  (label_names.0, scope-IsValue c.scope scope_ok),
                  (
                    (label_names.1, direction-IsValue c.direction direction_ok),
                    ((label_ok, plain), tt),
                  ),
                );
                in_range = small;
              },
            ),
      )

  reset_identity-IsMetricPart : (material : String) → IsMetricPart (reset_identity world material)
  unfolding reset_identity count any_code
  reset_identity-IsMetricPart material =
      let digest = world.sha256_hex (join_nul "xray-container" (strip is_space material)) in
      (
        ap is_blank (append.cons "x" "ray-container:" (take_text 24 digest)),
        omega (
          arith,
          count-append "xray-container:" (take_text 24 digest),
          count-take_text 24 digest,
        ),
        any_code-append is_control "xray-container:" (take_text 24 digest) refl
            (any_code-take_text is_control 24 digest (printable.sha256 _)),
      )

  after_commands-xray_observations :
      (hash_key : List ℕ) (at : ℕ) (inspect stats : Option CommandResult) (s : XraySnapshot)
      → after_commands world hash_key at inspect stats ≡ ok s
      → (os : List CounterObservation) × (xray_observations s ≡ ok os)
        × (length os ≡ length s.counters)
  unfolding xray_observations
  after_commands-xray_observations hash_key at inspect stats s h =
      go (after_commands-Outcome world hash_key at inspect stats)
    where
      go :
          Outcome world hash_key
            (container_of inspect)
            stats
            (reset_identity world (container_of inspect).reset_material)
            at
            (after_commands world hash_key at inspect stats)
          → (os : List CounterObservation) × (traverse (xray_observation s) s.counters ≡ ok os)
            × (length os ≡ length s.counters)
      go (inl (s', e, timely, reset, counted)) =
          let same : s' ≡ s = cc e in
          subst
            (λ x.
              (os : List CounterObservation) × (traverse (xray_observation x) x.counters ≡ ok os)
              × (length os ≡ length x.counters))
            same
            (traverse-ok (xray_observation s') s'.counters (
              All-map (IsTraffic world hash_key)
                (λ c. (o : CounterObservation) × (xray_observation s' c ≡ ok o)) s'.counters
                (λ c. xray_observation-ok hash_key at s' c timely (
                  subst IsMetricPart (sym reset)
                    (reset_identity-IsMetricPart (container_of inspect).reset_material)))
                (traffic s' counted)))
        where
          traffic :
              (x : XraySnapshot)
              → (Counted world hash_key stats x.counters
                  × (x.health.state ≡ (container_health (container_of inspect)).0))
                ⊎ (NoCounters world hash_key stats
                    × (x.counters ≡ [])
                    × (x.health.state ≡ unavailable))
              → All (IsTraffic world hash_key) x.counters
          traffic x (inl ((r, _, _, parsed), _)) =
              (parse_xray_stats-IsTraffic world hash_key r.stdout x.counters parsed).0
          traffic x (inr (_, none_found, _)) =
              subst (All (IsTraffic world hash_key)) (sym none_found) tt
      go (inr (e', e, _)) = cc

  -- For digests without control characters: each counter of the snapshot that `collect` returns
  -- becomes an observation, and none of them raises.
  pub collect-xray_observations :
      (hash_key : List ℕ) (at : ℕ) (inspect stats : Ran) (s : XraySnapshot)
      → collect world hash_key at inspect stats ≡ ok s
      → (os : List CounterObservation) × (xray_observations s ≡ ok os)
        × (length os ≡ length s.counters)
  collect-xray_observations hash_key at inspect stats s h =
      let (i, c, _, _, made) = collect-answered world hash_key at inspect stats s h in
      after_commands-xray_observations hash_key at i c s made
