-- ===== src/Xray/States.antt =====
-- collectors/xray.py: what `collect` returns, by the outcomes of its two commands.
use mathlib.Core.Path.{subst}
use aws_ops_monitor.Prelude.{
  ℕ, ◌≡◌, refl, sym, ◌∙◌, ◌⊎◌, ◌↔◌, inl, inr, String, Bool, true, false, not, Option, none, some,
  List, ok, err, Error, xray_stats_parse_error, arith, eq_iff, str_eq, Bool-cases, if◌then◌else◌,
}
use aws_ops_monitor.Prelude.Int.{is_zero}
use aws_ops_monitor.Models.{HealthState, healthy, degraded, unavailable}
use aws_ops_monitor.Models.Snapshots.{XrayTrafficCounter, XraySnapshot}
use aws_ops_monitor.Xray.{World, CommandResult}
use aws_ops_monitor.Xray.Stats.{parse_xray_stats}
use aws_ops_monitor.Xray.Container.{ContainerState, reset_identity}
use aws_ops_monitor.Xray.Collect.{
  container_of, is_killed, is_restarted, container_health, after_commands, collect, Ran,
}
use aws_ops_monitor.Xray.Evidence.{IsEvidence, container_of-IsEvidence}
use aws_ops_monitor.Xray.Outcomes.{NoCounters, Counted, Outcome, after_commands-Outcome}

-- An exception that is not caught ended the first command, or the second after the first.
abbrev pub Stops : Ran → Ran → Error → Type 0
Stops inspect stats e =
    (inspect ≡ err e) ⊎ ((i : Option CommandResult) × (inspect ≡ ok i) × (stats ≡ err e))

-- Where the two commands raise nothing but an `OSError` or a timeout, `collect` returns a snapshot, or
-- raises what the parser of the counters raised and is not an `XrayStatsParseError`. The snapshot has
-- the time of the collection and the reset identity of the state that `docker inspect` gave. Where the
-- command for the counters succeeded and its output was parsed, it has those counters and the health
-- that the state of the container gives; else it has no counters and is unavailable. Any other
-- exception of a command passes through `collect`.
pub collect-outcome :
    (world : World) (hash_key : List ℕ) (at : ℕ) (inspect stats : Ran)
    → ((i c : Option CommandResult) × (inspect ≡ ok i)
        × (stats ≡ ok c)
        × Outcome world hash_key
            (container_of i)
            c
            (reset_identity world (container_of i).reset_material)
            at
            (collect world hash_key at inspect stats))
      ⊎ ((e : Error) × Stops inspect stats e × (collect world hash_key at inspect stats ≡ err e))
unfolding collect
collect-outcome world hash_key at (err e) stats = inr (e, inl refl, refl)
collect-outcome world hash_key at (ok i) (err e) = inr (e, inr (i, refl, refl), refl)
collect-outcome world hash_key at (ok i) (ok c) =
    inl (i, c, refl, refl, after_commands-Outcome world hash_key at i c)

-- A snapshot comes of two commands whose exceptions were caught, if any.
pub collect-answered :
    (world : World) (hash_key : List ℕ) (at : ℕ) (inspect stats : Ran) (s : XraySnapshot)
    → collect world hash_key at inspect stats ≡ ok s
    → (i c : Option CommandResult) × (inspect ≡ ok i)
      × (stats ≡ ok c)
      × (after_commands world hash_key at i c ≡ ok s)
unfolding collect
collect-answered world hash_key at (err e) stats s h = cc h
collect-answered world hash_key at (ok i) (err e) s h = cc h
collect-answered world hash_key at (ok i) (ok c) s h = (i, c, refl, refl, h)

-- Nothing is wrong with the container.
abbrev pub IsUp : ContainerState → Type 0
IsUp state =
    (state.inspect_ok ≡ true)
    × (state.status ≡ "running")
    × (state.restart_count ≡ some 0)
    × (state.oom_killed ≡ some false)

-- `container_health` of the four things that it looks at
abbrev health_by : Bool → Bool → Option ℕ → Option Bool → HealthState × String
health_by seen running restarts oom =
    if not seen
    then (degraded, "Xray counters collected without container health evidence")
    else if not running
    then (unavailable, "Xray container is not running")
    else if is_killed oom
    then (degraded, "Xray container reports an out-of-memory termination")
    else if is_restarted restarts
    then (degraded, "Xray container has restarted since it was created")
    else (healthy, "Xray counters and container health collected")

container_health-healthy_iff :
    (state : ContainerState)
    → IsEvidence state
    → ((container_health state).0 ≡ healthy) ↔ IsUp state
unfolding container_health
container_health-healthy_iff state evidence =
    go state.inspect_ok (Bool-cases (str_eq state.status "running")) state.restart_count
      state.oom_killed evidence.1
  where
    go :
        (seen : Bool)
        → (str_eq state.status "running" ≡ true) ⊎ (str_eq state.status "running" ≡ false)
        → (restarts : Option ℕ) (oom : Option Bool)
        → (seen ≡ false) ⊎ ((n : ℕ) × (b : Bool) × (restarts ≡ some n) × (oom ≡ some b))
        → ((health_by seen (str_eq state.status "running") restarts oom).0 ≡ healthy)
          ↔ ((seen ≡ true) × (state.status ≡ "running") × (restarts ≡ some 0) × (oom ≡ some false))
    go false running restarts oom h = ((λ e. cc e), (λ u. cc (u.0)))
    go true (inr e) restarts oom h =
        rw e ((λ x. cc x), (λ u. ground (arith, e, u.1, eq_iff state.status "running")))
    go true (inl e) restarts oom (inl h) = cc h
    go true (inl e) none oom (inr (n, b, r, o)) = cc r
    go true (inl e) (some k) none (inr (n, b, r, o)) = cc o
    go true (inl e) (some k) (some true) (inr (n, b, r, o)) = rw e ((λ x. cc x), (λ u. cc (u.3)))
    go true (inl e) (some k) (some false) (inr (n, b, r, o)) =
        rw e (ground (arith, eq_iff state.status "running"))

Counted-NoCounters :
    (world : World) (hash_key : List ℕ) (stats : Option CommandResult)
    (cs : List XrayTrafficCounter)
    → Counted world hash_key stats cs
    → NoCounters world hash_key stats
    → ⊥
Counted-NoCounters world hash_key stats cs (r, given, zero, parsed) (inl e) = cc e
Counted-NoCounters world hash_key stats cs (r, given, zero, parsed) (inr (r', e, h)) =
    let same : r ≡ r' = cc e in go same h
  where
    go :
        r ≡ r'
        → (is_zero r'.returncode ≡ false)
          ⊎ ((is_zero r'.returncode ≡ true)
              × ((m : String) × (parse_xray_stats world hash_key r'.stdout
                    ≡ err (xray_stats_parse_error m))))
        → ⊥
    go same (inl failed) = cc
    go same (inr (_, (m, bad))) = cc

after_commands-healthy_iff :
    (world : World) (hash_key : List ℕ) (at : ℕ) (inspect stats : Option CommandResult)
    (s : XraySnapshot)
    → after_commands world hash_key at inspect stats ≡ ok s
    → (s.health.state ≡ healthy)
      ↔ (Counted world hash_key stats s.counters × IsUp (container_of inspect))
after_commands-healthy_iff world hash_key at inspect stats s h =
    go (after_commands-Outcome world hash_key at inspect stats)
  where
    go :
        Outcome world hash_key
          (container_of inspect)
          stats
          (reset_identity world (container_of inspect).reset_material)
          at
          (after_commands world hash_key at inspect stats)
        → (s.health.state ≡ healthy)
          ↔ (Counted world hash_key stats s.counters × IsUp (container_of inspect))
    go (inl (s', e, _, _, inl (counted, state))) =
        let same : s' ≡ s = cc e in
        let up =
          container_health-healthy_iff (container_of inspect) (container_of-IsEvidence inspect) in
        subst
          (λ x.
            (x.health.state ≡ healthy)
            ↔ (Counted world hash_key stats x.counters × IsUp (container_of inspect)))
          same
          (
            (λ healthy_now. (counted, up.0 (sym state ∙ healthy_now))),
            (λ both. state ∙ up.1 both.1),
          )
    go (inl (s', e, _, _, inr (none_found, _, state))) =
        let same : s' ≡ s = cc e in
        subst
          (λ x.
            (x.health.state ≡ healthy)
            ↔ (Counted world hash_key stats x.counters × IsUp (container_of inspect)))
          same
          (
            (λ healthy_now. cc),
            (λ both.
                absurd (Counted-NoCounters world hash_key stats s'.counters both.0 none_found)),
          )
    go (inr (e', e, _)) = cc

-- The snapshot that `collect` returns is healthy exactly where the command for the counters succeeded
-- with an output that was parsed, and `docker inspect` reported a container that is running, has not
-- restarted and was not killed for want of memory.
pub collect-healthy_iff :
    (world : World) (hash_key : List ℕ) (at : ℕ) (inspect stats : Ran) (s : XraySnapshot)
    → collect world hash_key at inspect stats ≡ ok s
    → (i c : Option CommandResult) × (inspect ≡ ok i)
      × (stats ≡ ok c)
      × ((s.health.state ≡ healthy) ↔ (Counted world hash_key c s.counters × IsUp (container_of i)))
collect-healthy_iff world hash_key at inspect stats s h =
    let (i, c, inspected, answered, made) = collect-answered world hash_key at inspect stats s h in
    (i, c, inspected, answered, after_commands-healthy_iff world hash_key at i c s made)
