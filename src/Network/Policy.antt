-- ===== src/Network/Policy.antt =====
-- collectors/network.py: the policy of `collect`, from the listeners to the health observation.
use aws_ops_monitor.Prelude.{
  ℕ, String, Bool, not, ◌&&◌, ◌||◌, List, [], ◌∷◌, ◌++◌, map, any, filter, length, take, Result, ok,
  ◌>>=◌, ltb, if◌then◌else◌, str_eq, ◌==◌,
}
use aws_ops_monitor.Prelude.Int.{pos}
use aws_ops_monitor.Prelude.Sorting.{sort_by}
use Prim.Native.String.{◌++◌ as append}
use aws_ops_monitor.Prelude.Text.{join_with}
use aws_ops_monitor.Models.{
  text, int, HealthState, healthy, degraded, Details, HealthObservation, health_observation,
}
use aws_ops_monitor.Models.Snapshots.{ListenerObservation, listener_observation}

-- The frozen sets of expected ports, as lists without order.
pub record Policy : Type 0 where
  pub expected_public_ports : List ℕ
  pub expected_loopback_ports : List ℕ
  pub expected_public_udp_ports : List ℕ
  pub expected_loopback_udp_ports : List ℕ

-- `port in ports`
abbrev pub mem_port : ℕ → List ℕ → Bool
mem_port port = any (λ p. p == port)

abbrev pub has_exposure : String → ListenerObservation → Bool
has_exposure exposure l = str_eq l.exposure exposure

abbrev pub same_listener : ListenerObservation → ListenerObservation → Bool
same_listener a b =
    str_eq a.transport b.transport && (a.port == b.port) && str_eq a.exposure b.exposure

-- `(item.transport, item.port, item.exposure) in observed_keys`
abbrev pub is_observed : List ListenerObservation → ListenerObservation → Bool
is_observed listeners l = any (same_listener l) listeners

-- the condition of `unexpected` on a public listener
unfoldable pub is_unexpected : Policy → ListenerObservation → Bool
is_unexpected policy l =
    (str_eq l.transport "tcp" && not (mem_port l.port policy.expected_public_ports))
    || (str_eq l.transport "udp"
        && not (mem_port l.port policy.expected_public_udp_ports)
        && not (mem_port l.port (68 ∷ 546 ∷ [])))

unfoldable pub unexpected : Policy → List ListenerObservation → List ListenerObservation
unfolding is_unexpected
unexpected policy listeners =
    filter (is_unexpected policy) (filter (has_exposure "public") listeners)

-- the listeners that a set of ports asks for, in the order of the ports
unfoldable pub expect_ports : String → String → List ℕ → Result (List ListenerObservation)
expect_ports transport exposure [] = ok []
expect_ports transport exposure (p ∷ ps) = do
  l ← listener_observation transport p exposure
  ls ← expect_ports transport exposure ps
  ok (l ∷ ls)

-- `expected_public` and `expected_loopback`
unfoldable pub expect_both : String → List ℕ → List ℕ → Result (List ListenerObservation)
unfolding expect_ports sort_by
expect_both exposure tcp udp = do
  front ← expect_ports "tcp" exposure (sort_by (λ p. p) tcp)
  back ← expect_ports "udp" exposure (sort_by (λ p. p) udp)
  ok (front ++ back)

unfoldable pub missing_expected :
    List ListenerObservation → List ListenerObservation → List ListenerObservation
missing_expected expected listeners = filter (λ l. not (is_observed listeners l)) expected

unfoldable pub exposure_state : List ListenerObservation → List ListenerObservation → HealthState
exposure_state [] [] = healthy
exposure_state _ _ = degraded

unfoldable pub exposure_message : List ListenerObservation → List ListenerObservation → String
exposure_message (l ∷ ls) _ = "unexpected public listener detected"
exposure_message [] (l ∷ ls) = "required listener is missing or has the wrong exposure"
exposure_message [] [] = "listener exposure matches the configured public-port policy"

-- `f"{item.port}/{item.transport}"`, where `digits` is Python's `str` on a number
abbrev pub port_text : (ℕ → String) → ListenerObservation → String
port_text digits l = append (digits l.port) (append "/" l.transport)

unfoldable pub listener_text : (ℕ → String) → List ListenerObservation → String
unfolding join_with
listener_text digits listeners =
    let values = map (port_text digits) listeners in
    join_with "," (if ltb 32 (length values) then take 32 values ++ "more" ∷ [] else values)

-- the details of the observation
unfoldable pub exposure_details :
    (ℕ → String)
    → Policy
    → List ListenerObservation
    → List ListenerObservation
    → List ListenerObservation
    → List ListenerObservation
    → List ListenerObservation
    → Details
exposure_details digits policy listeners expected_public expected_loopback extra absent =
    let public = filter (has_exposure "public") listeners in
    let loopback = filter (has_exposure "loopback") listeners in
    let link_local = filter (has_exposure "link_local") listeners in
    ("public_listener_count", int (pos (length public)))
    ∷ ("loopback_listener_count", int (pos (length loopback)))
    ∷ ("link_local_listener_count", int (pos (length link_local)))
    ∷ ("public_ports", text (listener_text digits public))
    ∷ ("loopback_ports", text (listener_text digits loopback))
    ∷ ("expected_public_ports", text (listener_text digits expected_public))
    ∷ ("expected_loopback_ports", text (listener_text digits expected_loopback))
    ∷ ("unexpected_public_ports", text (listener_text digits extra))
    ∷ ("missing_expected_ports", text (listener_text digits absent))
    ∷ ("expected_loopback_port_count", int (pos (length policy.expected_loopback_ports)))
    ∷ ("expected_loopback_udp_port_count", int (pos (length policy.expected_loopback_udp_ports)))
    ∷ ("udp_exemptions", text "68/udp,546/udp,link-local")
    ∷ []

-- the policy applied: the health observation `network_exposure`
unfoldable pub exposure_health :
    (ℕ → String) → Policy → ℕ → List ListenerObservation → Result HealthObservation
unfolding unexpected missing_expected
exposure_health digits policy observed_at listeners = do
  expected_public ←
      expect_both "public" policy.expected_public_ports policy.expected_public_udp_ports
  expected_loopback ←
      expect_both "loopback" policy.expected_loopback_ports policy.expected_loopback_udp_ports
  let extra = unexpected policy listeners
  let absent = missing_expected (expected_public ++ expected_loopback) listeners
  health_observation observed_at "network_exposure" (exposure_state extra absent)
      (exposure_message extra absent)
      (exposure_details digits policy listeners expected_public expected_loopback extra absent)
