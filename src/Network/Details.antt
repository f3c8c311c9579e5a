-- ===== src/Network/Details.antt =====
-- collectors/network.py: the health observation `network_exposure` is always built.
use aws_ops_monitor.Prelude.{
  ℕ, ◌≤◌, ◌≡◌, refl, inl, inr, String, List, [], ◌∷◌, ◌++◌, not, All, All-append, All-filter,
  filter, map, length, ok, arith,
}
use aws_ops_monitor.Prelude.Sorting.{sort_by}
use aws_ops_monitor.Prelude.Text.{count, any_code}
use aws_ops_monitor.Models.{
  text, Details, HealthObservation, health_observation, validate_metric_part, validate_detail_items,
  validate_detail_value,
}
use aws_ops_monitor.Models.Snapshots.{ListenerObservation}
use aws_ops_monitor.Network.Parse.{Listener}
use aws_ops_monitor.Network.Policy.{
  Policy, has_exposure, listener_text, unexpected, missing_expected, exposure_state,
  exposure_message, exposure_details, exposure_health, is_unexpected, is_observed,
}
use aws_ops_monitor.Network.Listeners.{IsTransport, IsListener, observe}
use aws_ops_monitor.Network.Expected.{
  IsPort, expected_at, expected_for, expect_both-ok, sort_by-IsPort,
}
use aws_ops_monitor.Network.Texts.{HasShortText, listener_text-bound}

text-ok : (s : String) → count s ≤ 512 → validate_detail_value (text s) ≡ ok tt
unfolding validate_detail_value
text-ok s h = ground arith

details_run : Unit {0}
unfolding count any_code validate_metric_part validate_detail_items
details_run = tt

-- every expected port is one
pub record IsPolicy (policy : Policy) : Type 0 where
  pub public : All IsPort policy.expected_public_ports
  pub loopback : All IsPort policy.expected_loopback_ports
  pub public_udp : All IsPort policy.expected_public_udp_ports
  pub loopback_udp : All IsPort policy.expected_loopback_udp_ports

-- the listeners that the policy expects
abbrev pub expected_of : Policy → List ListenerObservation
expected_of policy =
    expected_for "public" policy.expected_public_ports policy.expected_public_udp_ports
    ++ expected_for "loopback" policy.expected_loopback_ports policy.expected_loopback_udp_ports

-- the observation that the policy makes of the listeners
abbrev pub exposure_of : (ℕ → String) → Policy → ℕ → List ListenerObservation → HealthObservation
exposure_of digits policy at ls =
    let extra = unexpected policy ls in
    let absent = missing_expected (expected_of policy) ls in
    record {
      observed_at = at;
      component = "network_exposure";
      state = exposure_state extra absent;
      message = exposure_message extra absent;
      details =
          exposure_details digits policy ls
            (expected_for "public" policy.expected_public_ports policy.expected_public_udp_ports)
            (expected_for "loopback" policy.expected_loopback_ports
              policy.expected_loopback_udp_ports)
            extra absent;
    }

exposure_observed :
    (at : ℕ) (extra absent : List ListenerObservation) (details : Details)
    → length details ≤ 32
    → validate_detail_items details ≡ ok tt
    → health_observation at "network_exposure"
        (exposure_state extra absent)
        (exposure_message extra absent)
        details
      ≡ ok (record {
        observed_at = at;
        component = "network_exposure";
        state = exposure_state extra absent;
        message = exposure_message extra absent;
        details = details;
      })
unfolding exposure_message health_observation count any_code validate_metric_part
exposure_observed at [] [] details few h = rw h (ground arith)
exposure_observed at [] (a ∷ later) details few h = rw h (ground arith)
exposure_observed at (e ∷ es) absent details few h = rw h (ground arith)

module _ (digits : ℕ → String) (short : (n : ℕ) → n ≤ 65535 → count (digits n) ≤ 5) where
  -- every list of listeners with valid fields
  abbrev pub AreShort : List ListenerObservation → Type 0
  AreShort = All (HasShortText digits)

  exposure_details-ok :
      (policy : Policy)
      (listeners expected_public expected_loopback extra absent : List ListenerObservation)
      → AreShort listeners
      → AreShort expected_public
      → AreShort expected_loopback
      → AreShort extra
      → AreShort absent
      → validate_detail_items
          (exposure_details digits policy listeners expected_public expected_loopback extra absent)
        ≡ ok tt
  unfolding exposure_details details_run
  exposure_details-ok policy listeners expected_public expected_loopback extra absent l p o e a =
      let fits = λ (ls : List ListenerObservation) (h : AreShort ls).
        text-ok (listener_text digits ls) (listener_text-bound digits ls h) in
      let kind = λ (exposure : String).
        All-filter (HasShortText digits) (has_exposure exposure) listeners l in
      rw
        (
          fits (filter (has_exposure "public") listeners) (kind "public"),
          fits (filter (has_exposure "loopback") listeners) (kind "loopback"),
          fits expected_public p,
          fits expected_loopback o,
          fits extra e,
          fits absent a,
        )
        refl

  expected-HasShortText :
      (exposure transport : String) (ps : List ℕ)
      → IsTransport transport
      → All IsPort ps
      → AreShort (map (expected_at transport exposure) ps)
  expected-HasShortText exposure transport [] t h = tt
  expected-HasShortText exposure transport (p ∷ ps) t (here, rest) =
      ((short p here.1, t), expected-HasShortText exposure transport ps t rest)

  expected_for-HasShortText :
      (exposure : String) (tcp udp : List ℕ)
      → All IsPort tcp
      → All IsPort udp
      → AreShort (expected_for exposure tcp udp)
  expected_for-HasShortText exposure tcp udp ht hu =
      All-append (HasShortText digits) (map (expected_at "tcp" exposure) (sort_by (λ p. p) tcp))
        (map (expected_at "udp" exposure) (sort_by (λ p. p) udp))
        (expected-HasShortText exposure "tcp" (sort_by (λ p. p) tcp) (inl refl)
          (sort_by-IsPort tcp ht))
        (expected-HasShortText exposure "udp" (sort_by (λ p. p) udp) (inr refl)
          (sort_by-IsPort udp hu))

  pub observed-HasShortText : (ls : List Listener) → All IsListener ls → AreShort (map observe ls)
  observed-HasShortText [] h = tt
  observed-HasShortText (l ∷ ls) (here, rest) =
      ((short l.port here.2, here.0), observed-HasShortText ls rest)

  unexpected-HasShortText :
      (policy : Policy) (ls : List ListenerObservation)
      → AreShort ls
      → AreShort (unexpected policy ls)
  unfolding unexpected
  unexpected-HasShortText policy ls h =
      All-filter (HasShortText digits) (is_unexpected policy) (filter (has_exposure "public") ls)
        (All-filter (HasShortText digits) (has_exposure "public") ls h)

  missing_expected-HasShortText :
      (expected ls : List ListenerObservation)
      → AreShort expected
      → AreShort (missing_expected expected ls)
  unfolding missing_expected
  missing_expected-HasShortText expected ls h =
      All-filter (HasShortText digits) (λ l. not (is_observed ls l)) expected h

  few_details :
      (policy : Policy)
      (listeners expected_public expected_loopback extra absent : List ListenerObservation)
      → length
          (exposure_details digits policy listeners expected_public expected_loopback extra absent)
        ≤ 32
  unfolding exposure_details
  few_details policy listeners expected_public expected_loopback extra absent = omega arith

  pub exposure_health-ok :
      (policy : Policy) (at : ℕ) (ls : List ListenerObservation)
      → IsPolicy policy
      → AreShort ls
      → exposure_health digits policy at ls ≡ ok (exposure_of digits policy at ls)
  unfolding exposure_health
  exposure_health-ok policy at ls valid h =
      let public =
        expected_for-HasShortText "public" policy.expected_public_ports
          policy.expected_public_udp_ports valid.public valid.public_udp in
      let loopback =
        expected_for-HasShortText "loopback" policy.expected_loopback_ports
          policy.expected_loopback_udp_ports valid.loopback valid.loopback_udp in
      let extra = unexpected policy ls in
      let absent = missing_expected (expected_of policy) ls in
      let expected =
        All-append (HasShortText digits)
          (expected_for "public" policy.expected_public_ports policy.expected_public_udp_ports)
          (expected_for "loopback" policy.expected_loopback_ports
            policy.expected_loopback_udp_ports)
          public loopback in
      rw
        (
          expect_both-ok "public" policy.expected_public_ports policy.expected_public_udp_ports
              (inr (inr refl)) valid.public valid.public_udp,
          expect_both-ok "loopback" policy.expected_loopback_ports
              policy.expected_loopback_udp_ports (inl refl) valid.loopback valid.loopback_udp,
        )
        (exposure_observed at extra absent (exposure_of digits policy at ls).details
          (few_details policy ls
            (expected_for "public" policy.expected_public_ports policy.expected_public_udp_ports)
            (expected_for "loopback" policy.expected_loopback_ports
              policy.expected_loopback_udp_ports)
            extra absent)
          (exposure_details-ok policy ls
            (expected_for "public" policy.expected_public_ports policy.expected_public_udp_ports)
            (expected_for "loopback" policy.expected_loopback_ports
              policy.expected_loopback_udp_ports)
            extra absent h public loopback (unexpected-HasShortText policy ls h)
            (missing_expected-HasShortText (expected_of policy) ls expected)))
