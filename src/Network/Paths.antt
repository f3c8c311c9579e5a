-- ===== src/Network/Paths.antt =====
-- collectors/network.py: `_path_health`, the health of the five access paths.
use aws_ops_monitor.Prelude.{
  ℕ, ◌≡◌, ◌⊎◌, ◌↔◌, inl, inr, refl, ap, sym, String, Bool, List, [], ◌∷◌, Any, any, ok, true, ◌&&◌,
  ◌==◌, str_eq, eq_iff, arith, Bool-cases,
}
use aws_ops_monitor.Prelude.Text.{count, any_code}
use aws_ops_monitor.Models.{
  text, bool, HealthState, healthy, degraded, unavailable, HealthObservation, health_observation,
  validate_metric_part, validate_detail_items, validate_detail_value,
}
use aws_ops_monitor.Models.Snapshots.{ListenerObservation}
use aws_ops_monitor.Network.Policy.{is_observed}
use aws_ops_monitor.Network.Exposure.{is_observed_iff}
use aws_ops_monitor.Network.Collect.{
  PathStatus, path_status, observed, wrong_exposure, not_observed, status_state, status_message,
  status_text, listener_path, tcp_key, path_health,
}

abbrev path_with : ℕ → String → String → String → String → PathStatus → HealthObservation
path_with at component name direction route status = record {
  observed_at = at;
  component = component;
  state = status_state status;
  message = status_message status;
  details =
      ("name", text name)
      ∷ ("direction", text direction)
      ∷ ("route", text route)
      ∷ ("status", text (status_text status))
      ∷ ("evidence", text "local_listener")
      ∷ ("required", bool true)
      ∷ [];
}

-- the paths, by the listener that each needs
abbrev pub path_keys : List (String × ListenerObservation)
path_keys =
    ("path_xray_listener", tcp_key 80 "public")
    ∷ ("path_warp_proxy_listener", tcp_key 1087 "loopback")
    ∷ ("path_ssh", tcp_key 22 "public")
    ∷ ("path_stats_service", tcp_key 10084 "loopback")
    ∷ ("path_private_dashboard", tcp_key 8787 "loopback")
    ∷ []

-- the constructor accepts what the path reports
abbrev IsBuilt : ℕ → String → String → String → String → PathStatus → Type 0
IsBuilt at component name direction route status =
    health_observation at component (status_state status) (status_message status)
      (path_with at component name direction route status).details
    ≡ ok (path_with at component name direction route status)

listener_path-ok :
    (at : ℕ) (ls : List ListenerObservation) (component name direction route : String)
    (key : ListenerObservation)
    → IsBuilt at component name direction route observed
      × IsBuilt at component name direction route wrong_exposure
      × IsBuilt at component name direction route not_observed
    → listener_path at ls component name direction route key
      ≡ ok (path_with at component name direction route (path_status ls key))
unfolding listener_path
listener_path-ok at ls component name direction route key h = go (path_status ls key)
  where
    go : (status : PathStatus) → IsBuilt at component name direction route status
    go observed = h.0
    go wrong_exposure = h.1
    go not_observed = h.2

-- what a path that needs a listener is reported as: healthy exactly where the listener is observed,
-- degraded where it is not but one with its transport and port is, and otherwise unavailable
abbrev IsPathState : List ListenerObservation → ListenerObservation → HealthState → Type 0
IsPathState ls key state =
    (Any (λ l. key ≡ l) ls × (state ≡ healthy))
    ⊎ ((¬ Any (λ l. key ≡ l) ls)
        × Any (λ l. (l.transport ≡ key.transport) × (l.port ≡ key.port)) ls
        × (state ≡ degraded))
    ⊎ ((¬ Any (λ l. (l.transport ≡ key.transport) × (l.port ≡ key.port)) ls)
        × (state ≡ unavailable))

-- The observations are those of the paths, in their order, each with the state of its listener.
abbrev pub ArePaths :
    List ListenerObservation → List (String × ListenerObservation) → List HealthObservation → Type 0
ArePaths ls [] [] = Unit
ArePaths ls ((component, key) ∷ keys) (p ∷ ps) =
    ((p.component ≡ component) × IsPathState ls key p.state) × ArePaths ls keys ps
ArePaths ls _ _ = ⊥

on_port : ListenerObservation → ListenerObservation → Bool
on_port key l = str_eq l.transport key.transport && (l.port == key.port)

on_port_iff :
    (ls : List ListenerObservation) (key : ListenerObservation)
    → (any (on_port key) ls ≡ true)
      ↔ Any (λ l. (l.transport ≡ key.transport) × (l.port ≡ key.port)) ls
unfolding on_port
on_port_iff [] key = (λ h. ground (arith, h), λ h. absurd h)
on_port_iff (l ∷ ls) key = ground (arith, on_port_iff ls key, eq_iff l.transport key.transport)

same-on_port :
    (ls : List ListenerObservation) (key : ListenerObservation)
    → Any (λ l. key ≡ l) ls
    → Any (λ l. (l.transport ≡ key.transport) × (l.port ≡ key.port)) ls
same-on_port [] key h = h
same-on_port (l ∷ ls) key (inl e) = inl (ap (λ k. k.transport) (sym e), ap (λ k. k.port) (sym e))
same-on_port (l ∷ ls) key (inr h) = inr (same-on_port ls key h)

path_state :
    (ls : List ListenerObservation) (key : ListenerObservation)
    → IsPathState ls key (status_state (path_status ls key))
unfolding path_status on_port
path_state ls key = elim (Bool-cases (is_observed ls key)) [
  | inl seen ↦ rw seen (inl ((is_observed_iff ls key).0 seen, refl))
  | inr unseen ↦ rw unseen (elim (Bool-cases (any (on_port key) ls)) [
    | inl port ↦ rw port (
        inr
          (inl (λ h. cc (unseen, (is_observed_iff ls key).1 h), (on_port_iff ls key).0 port, refl)))
    | inr free ↦ rw free (inr (inr (λ h. cc (free, (on_port_iff ls key).1 h), refl)))
  ])
]

-- the five observations
abbrev path_observations : ℕ → List ListenerObservation → List HealthObservation
path_observations at ls =
    path_with at "path_xray_listener" "Xray public listener" "inbound local evidence"
      "Network namespace>Xray listener" (path_status ls (tcp_key 80 "public"))
    ∷ path_with at "path_warp_proxy_listener" "Local WARP proxy" "internal local evidence"
        "Xray>loopback WARP HTTP proxy" (path_status ls (tcp_key 1087 "loopback"))
    ∷ path_with at "path_ssh" "Administrative SSH" "inbound" "Operator>Lightsail firewall>SSH"
        (path_status ls (tcp_key 22 "public"))
    ∷ path_with at "path_stats_service" "Xray StatsService" "internal"
        "Collector>loopback StatsService" (path_status ls (tcp_key 10084 "loopback"))
    ∷ path_with at "path_private_dashboard" "Private monitoring dashboard"
        "inbound through SSH tunnel" "Operator>SSH tunnel>loopback dashboard"
        (path_status ls (tcp_key 8787 "loopback"))
    ∷ []

paths_run : Unit {0}
unfolding count any_code validate_metric_part validate_detail_items validate_detail_value
    health_observation
paths_run = tt

pub path_health-ok :
    (at : ℕ) (ls : List ListenerObservation)
    → (paths : List HealthObservation) × (path_health at ls ≡ ok paths)
      × ArePaths ls path_keys paths
unfolding path_health paths_run
path_health-ok at ls = (
  path_observations at ls,
  rw
      (
        listener_path-ok at ls "path_xray_listener" "Xray public listener" "inbound local evidence"
            "Network namespace>Xray listener" (tcp_key 80 "public") (refl, refl, refl),
        listener_path-ok at ls "path_warp_proxy_listener" "Local WARP proxy"
            "internal local evidence" "Xray>loopback WARP HTTP proxy" (tcp_key 1087 "loopback")
            (refl, refl, refl),
        listener_path-ok at ls "path_ssh" "Administrative SSH" "inbound"
            "Operator>Lightsail firewall>SSH" (tcp_key 22 "public") (refl, refl, refl),
        listener_path-ok at ls "path_stats_service" "Xray StatsService" "internal"
            "Collector>loopback StatsService" (tcp_key 10084 "loopback") (refl, refl, refl),
        listener_path-ok at ls "path_private_dashboard" "Private monitoring dashboard"
            "inbound through SSH tunnel" "Operator>SSH tunnel>loopback dashboard"
            (tcp_key 8787 "loopback") (refl, refl, refl),
      )
      refl,
  (
    (refl, path_state ls (tcp_key 80 "public")),
    (
      (refl, path_state ls (tcp_key 1087 "loopback")),
      (
        (refl, path_state ls (tcp_key 22 "public")),
        (
          (refl, path_state ls (tcp_key 10084 "loopback")),
          ((refl, path_state ls (tcp_key 8787 "loopback")), tt),
        ),
      ),
    ),
  ),
)
