-- ===== src/Xray/Tests.antt =====
-- collectors/xray.py: the theorems at concrete outputs of `docker`.
use aws_ops_monitor.Prelude.{
  Option, Error, ◌⊎◌, err, other_error, ok, ◌≡◌, refl, ◌↔◌, some, List, [], ◌∷◌, All, length, ok,
  err, other_error,
}
use aws_ops_monitor.Prelude.Float.{infinity}
use aws_ops_monitor.Prelude.Json.{float}
use aws_ops_monitor.Models.{CounterObservation, healthy}
use aws_ops_monitor.Collector.Observations.{xray_observations}
use aws_ops_monitor.Xray.{CommandResult}
use aws_ops_monitor.Xray.Stats.{int_of}
use aws_ops_monitor.Xray.Container.{reset_identity}
use aws_ops_monitor.Xray.Collect.{container_of, collect}
use aws_ops_monitor.Xray.Keys.{UniqueKeys}
use aws_ops_monitor.Xray.Counters.{IsTraffic, parse_xray_stats-IsTraffic}
use aws_ops_monitor.Xray.Outcomes.{Outcome, Counted}
use aws_ops_monitor.Xray.States.{Stops, IsUp, collect-outcome, collect-healthy_iff}
use aws_ops_monitor.Xray.Convert.{collect-xray_observations}
use aws_ops_monitor.Xray.Sample.{
  world, key, output, stats, inspect, alice, parsed, printable, snapshot, collected,
}

parse_xray_stats-IsTraffic_example :
    All (IsTraffic world key) (alice ∷ []) × UniqueKeys (alice ∷ [])
parse_xray_stats-IsTraffic_example = parse_xray_stats-IsTraffic world key output (alice ∷ []) parsed

collect-outcome_example :
    ((i c : Option CommandResult) × (ok inspect ≡ ok i)
      × (ok stats ≡ ok c)
      × Outcome world key
          (container_of i)
          c
          (reset_identity world (container_of i).reset_material)
          9
          (collect world key 9 (ok inspect) (ok stats)))
    ⊎ ((e : Error) × Stops (ok inspect) (ok stats) e
        × (collect world key 9 (ok inspect) (ok stats) ≡ err e))
collect-outcome_example = collect-outcome world key 9 (ok inspect) (ok stats)

-- an output that is not UTF-8 ends the collection
undecoded : collect world key 9 (ok inspect) (err other_error) ≡ err other_error
unfolding collect
undecoded = refl

collect-healthy_iff_example :
    (i c : Option CommandResult) × (ok inspect ≡ ok i)
    × (ok stats ≡ ok c)
    × ((snapshot.health.state ≡ healthy)
        ↔ (Counted world key c snapshot.counters × IsUp (container_of i)))
collect-healthy_iff_example =
    collect-healthy_iff world key 9 (ok inspect) (ok stats) snapshot collected

collect-xray_observations_example :
    (os : List CounterObservation) × (xray_observations snapshot ≡ ok os)
    × (length os ≡ length snapshot.counters)
collect-xray_observations_example =
    collect-xray_observations world printable key 9 (ok inspect) (ok stats) snapshot collected

-- The conversion of an infinite number raises `OverflowError`, which ends the parsing.
infinite_value : int_of (some (float infinity)) ≡ err other_error
unfolding int_of
infinite_value = refl
