-- ===== src/Network/Exposure.antt =====
-- collectors/network.py: what a healthy `network_exposure` observation means.
use aws_ops_monitor.Prelude.{
  ℕ, ◌≡◌, refl, ◌⊎◌, ◌↔◌, inl, inr, Bool, true, false, List, [], ◌∷◌, All, Any, filter, arith,
  eq_iff,
}
use aws_ops_monitor.Models.{healthy, degraded}
use aws_ops_monitor.Models.Snapshots.{ListenerObservation}
use aws_ops_monitor.Network.Policy.{
  Policy, mem_port, same_listener, is_observed, is_unexpected, unexpected, missing_expected,
  exposure_state,
}

mem_port_iff :
    (port : ℕ) (ports : List ℕ) → (mem_port port ports ≡ true) ↔ Any (λ p. p ≡ port) ports
mem_port_iff port [] = (λ h. ground (arith, h), λ h. absurd h)
mem_port_iff port (p ∷ ps) = ground (arith, mem_port_iff port ps)

-- The policy admits the listener: its port is expected for its transport, or UDP's 68 or 546.
abbrev pub IsPermitted : Policy → ListenerObservation → Type 0
IsPermitted policy l =
    (l.transport ≡ "tcp" → Any (λ p. p ≡ l.port) policy.expected_public_ports)
    × (l.transport ≡ "udp"
        → Any (λ p. p ≡ l.port) policy.expected_public_udp_ports ⊎ (l.port ≡ 68) ⊎ (l.port ≡ 546))

is_unexpected_iff :
    (policy : Policy) (l : ListenerObservation)
    → (is_unexpected policy l ≡ false) ↔ IsPermitted policy l
unfolding is_unexpected
is_unexpected_iff policy l =
    let tcp = mem_port_iff l.port policy.expected_public_ports in
    let udp = mem_port_iff l.port policy.expected_public_udp_ports in
    ground (arith, tcp, udp, eq_iff l.transport "tcp", eq_iff l.transport "udp")

same_listener_iff : (a b : ListenerObservation) → (same_listener a b ≡ true) ↔ (a ≡ b)
same_listener_iff a b = ground (arith, eq_iff a.transport b.transport, eq_iff a.exposure b.exposure)

pub is_observed_iff :
    (listeners : List ListenerObservation) (l : ListenerObservation)
    → (is_observed listeners l ≡ true) ↔ Any (λ o. l ≡ o) listeners
is_observed_iff [] l = (λ h. ground (arith, h), λ h. absurd h)
is_observed_iff (o ∷ os) l = ground (arith, is_observed_iff os l, same_listener_iff l o)

filter-empty_iff :
    {A : Type 0} (p : A → Bool) (xs : List A) → (filter p xs ≡ []) ↔ All (λ x. p x ≡ false) xs
filter-empty_iff p [] = (λ h. tt, λ h. refl)
filter-empty_iff p (x ∷ xs) = ground (arith, filter-empty_iff p xs)

exposure_state_iff :
    (extra absent : List ListenerObservation)
    → (exposure_state extra absent ≡ healthy) ↔ ((extra ≡ []) × (absent ≡ []))
unfolding exposure_state
exposure_state_iff [] [] = (λ h. (refl, refl), λ h. refl)
exposure_state_iff [] (x ∷ xs) = ground arith
exposure_state_iff (x ∷ xs) absent = ground arith

exposure_state-cases :
    (extra absent : List ListenerObservation)
    → (exposure_state extra absent ≡ healthy) ⊎ (exposure_state extra absent ≡ degraded)
unfolding exposure_state
exposure_state-cases [] [] = inl refl
exposure_state-cases [] (x ∷ xs) = inr refl
exposure_state-cases (x ∷ xs) absent = inr refl

unexpected-empty_iff :
    (policy : Policy) (listeners : List ListenerObservation)
    → (unexpected policy listeners ≡ [])
      ↔ All (λ l. l.exposure ≡ "public" → IsPermitted policy l) listeners
unfolding unexpected
unexpected-empty_iff policy [] = (λ h. tt, λ h. refl)
unexpected-empty_iff policy (l ∷ ls) =
    ground (
      arith,
      unexpected-empty_iff policy ls,
      is_unexpected_iff policy l,
      eq_iff l.exposure "public",
    )

missing_expected-empty_iff :
    (expected listeners : List ListenerObservation)
    → (missing_expected expected listeners ≡ []) ↔ All (λ e. Any (λ o. e ≡ o) listeners) expected
unfolding missing_expected
missing_expected-empty_iff [] listeners = (λ h. tt, λ h. refl)
missing_expected-empty_iff (e ∷ es) listeners =
    ground (arith, missing_expected-empty_iff es listeners, is_observed_iff listeners e)

-- The exposure is healthy exactly if the policy admits every public listener, its port being
-- expected for its transport or, of UDP, 68 or 546, and each expected listener is observed with its
-- exposure; otherwise it is degraded.
pub exposure_state-healthy_iff :
    (policy : Policy) (expected listeners : List ListenerObservation)
    → let state =
        exposure_state (unexpected policy listeners) (missing_expected expected listeners) in
      ((state ≡ healthy) ↔ (
        All (λ l. l.exposure ≡ "public" → IsPermitted policy l) listeners
        × All (λ e. Any (λ o. e ≡ o) listeners) expected))
      × ((state ≡ healthy) ⊎ (state ≡ degraded))
exposure_state-healthy_iff policy expected listeners =
    let state =
      exposure_state_iff (unexpected policy listeners) (missing_expected expected listeners) in
    let extra = unexpected-empty_iff policy listeners in
    let absent = missing_expected-empty_iff expected listeners in
    (
      (
        λ h. (extra.0 (state.0 h).0, absent.0 (state.0 h).1),
        λ (a, b). state.1 (extra.1 a, absent.1 b),
      ),
      exposure_state-cases (unexpected policy listeners) (missing_expected expected listeners),
    )
