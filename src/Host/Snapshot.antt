-- ===== src/Host/Snapshot.antt =====
-- collectors/host.py: the snapshot that `collect` returns, whatever can be read.
use Prim.Native.String
use aws_ops_monitor.Prelude.{
  ℕ, suc, ◌≤◌, ◌≡◌, refl, String, Bool, false, not, ◌||◌, List, [], ◌∷◌, All, length, ok, arith,
  ltb, if-both,
}
use aws_ops_monitor.Prelude.Int.{pos}
use aws_ops_monitor.Prelude.Float.{Float, num, whole}
use aws_ops_monitor.Prelude.Text.{count, any_code}
use aws_ops_monitor.Models.{
  is_control, text, int, HealthState, InterfaceCounters, health_observation, validate_metric_part,
  validate_detail_items, validate_detail_value,
}
use aws_ops_monitor.Models.Snapshots.{HostSnapshot}
use aws_ops_monitor.Host.{World, Readings}
use aws_ops_monitor.Host.Collect.{
  Groups, is_empty, is_positive, checks_of, failed_names, or_else, groups_of, failures_of,
  hostname_of, failed_text, host_health, snapshot_of, collect, zero_loads, opaque_reset_id,
  disk_values,
}
use aws_ops_monitor.Host.Groups.{IsGroup, failed_text-bound}

checks-IsGroup : (g : Groups) → All (λ c. IsGroup c.1) (checks_of g)
unfolding count any_code
checks-IsGroup g = ground arith

failed_names-All {κ} :
    (P : String → Type κ) (cs : List (Bool × String))
    → All (λ c. P c.1) cs
    → All P (failed_names cs)
unfolding failed_names
failed_names-All P [] hs = tt
failed_names-All P ((fine, name) ∷ cs) (here, rest) =
    if-both (All P) fine _ _ (failed_names-All P cs rest) (here, failed_names-All P cs rest)

failed_names-length : (cs : List (Bool × String)) → length (failed_names cs) ≤ length cs
unfolding failed_names
failed_names-length [] = omega arith
failed_names-length ((fine, name) ∷ cs) = ground (
  arith,
  failed_names-length cs,
  if-both (λ xs. length xs ≤ suc (length cs)) fine (failed_names cs) (name ∷ failed_names cs),
)

pub failures_of-IsGroup : (g : Groups) → All IsGroup (failures_of g) × (length (failures_of g) ≤ 8)
unfolding failures_of
failures_of-IsGroup g =
    (failed_names-All IsGroup (checks_of g) (checks-IsGroup g), failed_names-length (checks_of g))

-- the snapshot of groups that were read or not
unfoldable pub snapshot : World → ℕ → String → Groups → HealthState × String → HostSnapshot
snapshot world clock hostname g state = record {
  observed_at = num (pos clock);
  hostname = hostname;
  reset_id = opaque_reset_id world "host-boot" (or_else g.boot (String.◌++◌ "fallback:" hostname));
  uptime_seconds = or_else g.uptime (whole 0);
  load_1m = (or_else g.loads zero_loads).0;
  load_5m = (or_else g.loads zero_loads).1;
  load_15m = (or_else g.loads zero_loads).2;
  cpu_count = g.processors;
  cpu_total_jiffies = (or_else g.cpu (0, 0)).0;
  cpu_idle_jiffies = (or_else g.cpu (0, 0)).1;
  memory_total_bytes = (or_else g.memory (0, 0)).0;
  memory_available_bytes = (or_else g.memory (0, 0)).1;
  disk_total_bytes = (disk_values g.disk).0;
  disk_available_bytes = (disk_values g.disk).1;
  interfaces = or_else g.interfaces [];
  health = record {
    observed_at = clock;
    component = "host";
    state = state.0;
    message = state.1;
    details =
        ("failure_count", int (pos (length (failures_of g))))
        ∷ ("failed_groups", text (failed_text (failures_of g)))
        ∷ ("interface_count", int (pos (length (or_else g.interfaces []))))
        ∷ [];
  };
}

abbrev pub state_of : Groups → HealthState × String
state_of g =
    host_health (failures_of g) (or_else g.uptime (whole 0)) (or_else g.memory (0, 0)).0
      (or_else g.interfaces [])

host_health-message :
    (failures : List String) (uptime : Float) (memory : ℕ) (interfaces : List InterfaceCounters)
    → (count (host_health failures uptime memory interfaces).1 ≤ 512)
      × (any_code is_control (host_health failures uptime memory interfaces).1 ≡ false)
unfolding host_health count any_code
host_health-message failures uptime memory interfaces =
    let P : HealthState × String → Type 0 =
      λ p. (count p.1 ≤ 512) × (any_code is_control p.1 ≡ false) in
    if-both P (is_empty failures) _ _ (ground arith) (
      if-both P (is_positive uptime || ltb 0 memory || not (is_empty interfaces)) _ _ (ground arith)
        (ground arith))

health-ok :
    (clock : ℕ) (state : HealthState) (message failed : String) (n k : ℕ)
    → count message ≤ 512
    → any_code is_control message ≡ false
    → count failed ≤ 512
    → health_observation clock "host" state message (
        ("failure_count", int (pos n))
        ∷ ("failed_groups", text failed)
        ∷ ("interface_count", int (pos k))
        ∷ [])
      ≡ ok (record {
        observed_at = clock;
        component = "host";
        state = state;
        message = message;
        details =
            ("failure_count", int (pos n))
            ∷ ("failed_groups", text failed)
            ∷ ("interface_count", int (pos k))
            ∷ [];
      })
unfolding health_observation validate_metric_part validate_detail_items validate_detail_value count
    any_code
health-ok clock state message failed n k short plain fits = ground arith

pub collect-snapshot :
    (world : World) (r : Readings)
    → collect world r
      ≡ ok (
          snapshot world r.clock
            (hostname_of r.hostname)
            (groups_of world r)
            (state_of (groups_of world r)))
unfolding collect snapshot_of snapshot
collect-snapshot world r =
    let g = groups_of world r in
    let (short, plain) =
      host_health-message (failures_of g) (or_else g.uptime (whole 0)) (or_else g.memory (0, 0)).0
        (or_else g.interfaces []) in
    let (named, few) = failures_of-IsGroup g in
    rw
      (health-ok r.clock (state_of g).0 (state_of g).1 (failed_text (failures_of g))
        (length (failures_of g)) (length (or_else g.interfaces [])) short plain
        (failed_text-bound (failures_of g) named few))
      refl
