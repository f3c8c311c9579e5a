-- ===== src/Sampling.antt =====
-- collector.py with the collectors of host.py, xray.py and network.py: what they return goes through
-- a round.
mod Tests
use aws_ops_monitor.Prelude.{
  any, take, ℕ, ◌≤◌, ◌≡◌, ◌≢◌, refl, ap, ◌∙◌, sym, String, Bool, true, false, Option, List, [], ◌∷◌,
  ok, Result,
}
use aws_ops_monitor.Prelude.Text.{count, any_code, is_space, strip, splitlines}
use aws_ops_monitor.Models.{
  is_control, Scalar, HealthObservation, CounterObservation, GaugeObservation,
}
use aws_ops_monitor.Models.Snapshots.{HostSnapshot, XraySnapshot, NetworkSnapshot}
use aws_ops_monitor.Collector.{returned, Settings, Inputs}
use aws_ops_monitor.Collector.Gather.{Gathered, gather}
use aws_ops_monitor.Collector.Failures.{Converts, reported, first_state, gather-ok}
use aws_ops_monitor.Collector.Observations.{host_observations, xray_observations}
use aws_ops_monitor.Host.{World as HostWorld, Readings}
use aws_ops_monitor.Host.Collect.{groups_of, collect as collect_host}
use aws_ops_monitor.Host.Convert.{InRange, collect-host_observations as host-converts}
use aws_ops_monitor.Xray.{World as XrayWorld}
use aws_ops_monitor.Xray.Collect.{Ran, collect as collect_xray}
use aws_ops_monitor.Xray.Convert.{Printable, collect-xray_observations as xray-converts}
use aws_ops_monitor.Network.{IpParser, CommandResult as SsResult}
use aws_ops_monitor.Network.Collect.{collect as collect_network}
use aws_ops_monitor.Network.Total.{collect-cases}
use aws_ops_monitor.Network.Parse.{line_raises}
use aws_ops_monitor.Network.Policy.{Policy}
use aws_ops_monitor.Network.Details.{IsPolicy}

-- What the three collectors are run on, and what is assumed of it.
pub record World : Type 0 where
  pub host : HostWorld
  pub xray : XrayWorld
  pub ip_address : IpParser
  pub digits : ℕ → String
  pub show : Scalar → String
  pub sha256_plain : (s : String) → any_code is_control (host.sha256_hex s) ≡ false
  pub xray_printable : Printable xray
  pub ports_short : (n : ℕ) → n ≤ 65535 → count (digits n) ≤ 5

-- The snapshots that a round is given are those of the collectors, run on a system whose host name
-- has no control character, whose floats are finite, whose numbers of processors and bytes a float can
-- hold and whose counters have at most 63 bits, and on an
-- output of `ss` with no port of more than 4300 digits in its first 4096 lines.
pub record Sampled (world : World) (i : Inputs) : Type 0 where
  pub host :
      (s : HostSnapshot)
      → i.host ≡ returned s
      → (r : Readings) × (collect_host world.host r ≡ ok s)
        × (any_code is_control (strip is_space r.hostname) ≡ false)
        × InRange (groups_of world.host r)
  pub xray :
      (s : XraySnapshot)
      → i.xray ≡ returned s
      → (key : List ℕ) × (at : ℕ) × (inspect : Ran) × (stats : Ran) × (collect_xray world.xray key
            at inspect stats
          ≡ ok s)
  pub network :
      (s : NetworkSnapshot)
      → i.network ≡ returned s
      → (policy : Policy) × (at : ℕ) × (result : SsResult) × IsPolicy policy
        × (any line_raises (take 4096 (splitlines result.stdout)) ≡ false)
        × (collect_network world.ip_address world.digits policy at result ≡ ok s)

network_collect-nonempty :
    (world : World) (policy : Policy) (at : ℕ) (result : SsResult) (s : NetworkSnapshot)
    → IsPolicy policy
    → any line_raises (take 4096 (splitlines result.stdout)) ≡ false
    → collect_network world.ip_address world.digits policy at result ≡ ok s
    → s.health ≢ []
network_collect-nonempty world policy at result s valid digits_fit e empty =
    let (x, exposure, paths, made, _, listed, _, _) =
      collect-cases world.digits world.ports_short world.ip_address policy at result valid
        digits_fit in
    let same : x ≡ s = cc (made, e) in cc (sym listed ∙ ap (λ y. y.health) same ∙ empty)

Sampled-Converts : (world : World) (i : Inputs) → Sampled world i → Converts world.show i
Sampled-Converts world i sampled = record {
  host = λ s given.
      let (r, made, named, in_range) = sampled.host s given in
      host-converts world.host world.sha256_plain world.show r s named in_range made;
  xray = λ s given.
      let (key, at, inspect, stats, made) = sampled.xray s given in
      let (os, through, _) =
        xray-converts world.xray world.xray_printable key at inspect stats s made in
      (os, through);
  network = λ s given.
      let (policy, at, result, valid, digits_fit, made) = sampled.network s given in
      network_collect-nonempty world policy at result s valid digits_fit made;
}

-- A round on what the collectors return goes on to its batch, whichever of them raise or are disabled,
-- if the digests have no control character, a port is written with at most five characters, each
-- policy has only ports, and each snapshot is one of its collector: that of the host on a system whose
-- host name has no control character, whose floats are finite, whose numbers of processors
-- and bytes a float can hold and whose counters have at most 63 bits,
-- and that of the network on an output with no port of more than 4300 digits in its first 4096 lines.
-- Each state of the result is that of its own collector.
pub gather-Sampled :
    (world : World) (settings : Settings) (i : Inputs)
    → Sampled world i
    → (g : Gathered) × (gather world.show settings i ≡ ok g)
      × (g.host_state ≡ reported (λ h. h.health.state) i.host)
      × (g.xray_state ≡ reported (λ x. x.health.state) i.xray)
      × (g.network_state ≡ reported (λ n. first_state n.health) i.network)
      × (g.aws_state ≡ reported (λ a. a.health.state) i.aws)
gather-Sampled world settings i sampled =
    gather-ok world.show settings i (Sampled-Converts world i sampled)
