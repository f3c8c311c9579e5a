-- ===== src/Host/Health.antt =====
-- collectors/host.py: what the snapshot of `collect` says, group by group.
use mathlib.Core.Path.{subst}
use aws_ops_monitor.Prelude.{
  ℕ, ◌≤◌, ◌≡◌, ◌↔◌, refl, String, Bool, true, false, not, ◌||◌, List, [], ◌∷◌, any, All, ok, arith,
  ltb, leb→le, str_eq, is_some, Bool-cases, inl, inr,
}
use aws_ops_monitor.Prelude.Int.{pos}
use aws_ops_monitor.Prelude.Float.{Float, num, whole}
use aws_ops_monitor.Prelude.Text.{is_blank}
use aws_ops_monitor.Models.{Scalar, healthy, InterfaceCounters}
use aws_ops_monitor.Models.Snapshots.{HostSnapshot}
use aws_ops_monitor.Collector.{get_detail}
use aws_ops_monitor.Collector.Observations.{failed_groups}
use aws_ops_monitor.Host.{World, Readings}
use aws_ops_monitor.Host.Collect.{
  Groups, is_empty, is_positive, checks_of, failed_names, or_else, groups_of, failures_of,
  hostname_of, failed_text, host_health, collect,
}
use aws_ops_monitor.Host.Groups.{failed_text-names}
use aws_ops_monitor.Host.Snapshot.{failures_of-IsGroup, snapshot, state_of, collect-snapshot}

-- Every group was read.
abbrev pub AllRead : Groups → Type 0
AllRead g =
    (is_some g.uptime ≡ true)
    × (is_some g.loads ≡ true)
    × (is_some g.cpu ≡ true)
    × (is_some g.memory ≡ true)
    × (is_some g.interfaces ≡ true)
    × (is_some g.disk ≡ true)
    × (is_some g.boot ≡ true)
    × (1 ≤ g.processors)

failed_names-empty :
    (cs : List (Bool × String)) → (is_empty (failed_names cs) ≡ true) ↔ All (λ c. c.0 ≡ true) cs
unfolding failed_names
failed_names-empty [] = ((λ _. tt), (λ _. refl))
failed_names-empty ((true, name) ∷ cs) = ground (arith, failed_names-empty cs)
failed_names-empty ((false, name) ∷ cs) = ((λ h. cc h), (λ h. cc (h.0)))

host_health-healthy_iff :
    (failures : List String) (uptime : Float) (memory : ℕ) (interfaces : List InterfaceCounters)
    → ((host_health failures uptime memory interfaces).0 ≡ healthy) ↔ (is_empty failures ≡ true)
unfolding host_health
host_health-healthy_iff [] uptime memory interfaces = ((λ _. refl), (λ _. refl))
host_health-healthy_iff (x ∷ xs) uptime memory interfaces =
    elim (Bool-cases (is_positive uptime || ltb 0 memory || not (is_empty interfaces))) [
      | inl e ↦ rw e ((λ h. cc h), (λ h. cc h))
      | inr e ↦ rw e ((λ h. cc h), (λ h. cc h))
    ]

failures_of-AllRead : (g : Groups) → (is_empty (failures_of g) ≡ true) ↔ AllRead g
unfolding failures_of
failures_of-AllRead g =
    let fine = failed_names-empty (checks_of g) in
    (
      (λ h.
          let (a, (b, (c, (d, (e, (f, (k, (l, _)))))))) = fine.0 h in
          (a, b, c, d, e, f, k, leb→le 1 g.processors l)),
      (λ (a, b, c, d, e, f, k, l).
          fine.1 (a, (b, (c, (d, (e, (f, (k, (ground (arith, l), tt))))))))),
    )

-- Whatever can be read, `collect` returns a snapshot, with the time of the collection. It is healthy
-- exactly if every file could be read and parsed, the file system answered, and there is at least one
-- processor.
pub collect-AllRead :
    (world : World) (r : Readings)
    → (s : HostSnapshot) × (collect world r ≡ ok s)
      × (s.observed_at ≡ num (pos r.clock))
      × ((s.health.state ≡ healthy) ↔ AllRead (groups_of world r))
unfolding snapshot
collect-AllRead world r =
    let g = groups_of world r in
    let up =
      host_health-healthy_iff (failures_of g) (or_else g.uptime (whole 0))
        (or_else g.memory (0, 0)).0 (or_else g.interfaces []) in
    let read = failures_of-AllRead g in
    (
      snapshot world r.clock (hostname_of r.hostname) g (state_of g),
      collect-snapshot world r,
      refl,
      ((λ h. read.0 (up.0 h)), (λ h. up.1 (read.1 h))),
    )

-- For every name that is not empty: it is among the failed groups that collector.py reads from the
-- details of the snapshot exactly if that group failed in `collect`.
pub collect-failed_groups :
    (show : Scalar → String) (world : World) (r : Readings) (s : HostSnapshot) (name : String)
    → collect world r ≡ ok s
    → is_blank name ≡ false
    → any (str_eq name) (failed_groups show s) ≡ any (str_eq name) (failures_of (groups_of world r))
unfolding failed_groups snapshot get_detail failed_text
collect-failed_groups show world r s name h e =
    let g = groups_of world r in
    let same : snapshot world r.clock (hostname_of r.hostname) g (state_of g) ≡ s =
      cc (collect-snapshot world r, h) in
    subst (λ x. any (str_eq name) (failed_groups show x) ≡ any (str_eq name) (failures_of g)) same
      (failed_text-names (failures_of g) name (failures_of-IsGroup g).0 e)
