-- ===== src/Host/Collect.antt =====
-- collectors/host.py: `collect` and `_opaque_reset_id`.
use Prim.Native.Nat.{Ordering}
use Prim.Native.String
use aws_ops_monitor.Prelude.{
  ℕ, ◌*◌, String, Bool, true, false, not, ◌||◌, Option, none, some, List, [], ◌∷◌, length, Result,
  ok, ◌>>=◌, ltb, leb, ◌==◌, is_some, if◌then◌else◌,
}
use aws_ops_monitor.Prelude.Int.{pos, negsuc}
use aws_ops_monitor.Prelude.Float.{Float, num, infinity, neg_infinity, nan, whole}
use aws_ops_monitor.Prelude.Text.{
  is_blank, is_space, lstrip, rstrip, strip, take_text, join_nul, join_with, compare_text,
}
use aws_ops_monitor.Models.{
  text, int, HealthState, healthy, degraded, unavailable, InterfaceCounters, health_observation,
}
use aws_ops_monitor.Models.Snapshots.{HostSnapshot}
use aws_ops_monitor.Host.{World, Readings, Statvfs}
use aws_ops_monitor.Host.Proc.{parse_uptime, parse_loadavg, parse_cpu_stat, parse_proc_net_dev}
use aws_ops_monitor.Host.Memory.{parse_meminfo}

-- a parser on a file that may not be readable
abbrev pub parsed : {A : Type 0} → (String → Option A) → Option String → Option A
parsed parser none = none
parsed parser (some contents) = parser contents

abbrev pub or_else : {A : Type 0} → Option A → A → A
or_else none default = default
or_else (some a) default = a

-- `_opaque_reset_id`
unfoldable pub opaque_reset_id : World → String → String → String
unfolding take_text join_nul
opaque_reset_id world namespace value =
    String.◌++◌ namespace
      (String.◌∷◌ ":" (take_text 24 (world.sha256_hex (join_nul namespace value))))

-- `strip()[:255] or "unknown-host"`
unfoldable pub hostname_of : String → String
unfolding lstrip rstrip take_text
hostname_of raw =
    let name = take_text 255 (strip is_space raw) in if is_blank name then "unknown-host" else name

-- `fragment_size * f_blocks`, and `fragment_size * f_bavail`
abbrev pub disk_of : Statvfs → ℕ × ℕ
disk_of disk =
    let fragment_size = if disk.f_frsize == 0 then disk.f_bsize else disk.f_frsize in
    (fragment_size * disk.f_blocks, fragment_size * disk.f_bavail)

abbrev pub disk_values : Option Statvfs → ℕ × ℕ
disk_values none = (0, 0)
disk_values (some disk) = disk_of disk

-- the boot identity, unless the file cannot be read or is empty
unfoldable pub boot_identity : Option String → Option String
unfolding lstrip rstrip
boot_identity none = none
boot_identity (some contents) =
    let identity = strip is_space contents in if is_blank identity then none else some identity

-- What was read of each group, `none` for one that failed.
pub record Groups : Type 0 where
  pub uptime : Option Float
  pub loads : Option (Float × Float × Float)
  pub cpu : Option (ℕ × ℕ)
  pub memory : Option (ℕ × ℕ)
  pub interfaces : Option (List InterfaceCounters)
  pub disk : Option Statvfs
  pub boot : Option String
  pub processors : ℕ

abbrev pub processor_count : Option ℕ → ℕ
processor_count none = 0
processor_count (some n) = n

unfoldable pub groups_of : World → Readings → Groups
unfolding boot_identity
groups_of world r = record {
  uptime = parsed (parse_uptime world) r.uptime;
  loads = parsed (parse_loadavg world) r.loadavg;
  cpu = parsed parse_cpu_stat r.stat;
  memory = parsed parse_meminfo r.meminfo;
  interfaces = parsed parse_proc_net_dev r.net_dev;
  disk = r.statvfs;
  boot = boot_identity r.boot_id;
  processors = processor_count r.cpu_count;
}

-- whether each group was read, in the order of `collect`
abbrev pub checks_of : Groups → List (Bool × String)
checks_of g =
    (is_some g.uptime, "uptime")
    ∷ (is_some g.loads, "loadavg")
    ∷ (is_some g.cpu, "cpu")
    ∷ (is_some g.memory, "memory")
    ∷ (is_some g.interfaces, "network")
    ∷ (is_some g.disk, "disk")
    ∷ (is_some g.boot, "boot_id")
    ∷ (leb 1 g.processors, "cpu_count")
    ∷ []

unfoldable pub failed_names : List (Bool × String) → List String
failed_names [] = []
failed_names ((fine, name) ∷ checks) =
    if fine then failed_names checks else name ∷ failed_names checks

-- `failures`
unfoldable pub failures_of : Groups → List String
unfolding failed_names
failures_of g = failed_names (checks_of g)

-- `sorted(failures)`
unfoldable pub insert_name : String → List String → List String
insert_name name [] = name ∷ []
insert_name name (x ∷ xs) = elim (compare_text name x) [
  | Ordering.gt ↦ x ∷ insert_name name xs
  | _ ↦ name ∷ x ∷ xs
]

unfoldable pub sort_names : List String → List String
unfolding insert_name
sort_names [] = []
sort_names (name ∷ names) = insert_name name (sort_names names)

-- `value > 0`, which is false for a NaN
abbrev pub is_positive : Float → Bool
is_positive (num (pos n)) = ltb 0 n
is_positive (num (negsuc n)) = false
is_positive infinity = true
is_positive neg_infinity = false
is_positive nan = false

abbrev pub is_empty : {A : Type 0} → List A → Bool
is_empty [] = true
is_empty (x ∷ xs) = false

-- `state` and `message`
unfoldable pub host_health : List String → Float → ℕ → List InterfaceCounters → HealthState × String
host_health failures uptime memory_total interfaces =
    if is_empty failures
    then (healthy, "host metrics collected")
    else if is_positive uptime || ltb 0 memory_total || not (is_empty interfaces)
    then (degraded, "partial host metrics collected")
    else (unavailable, "host metrics unavailable")

abbrev pub zero_loads : Float × Float × Float
zero_loads = (whole 0, whole 0, whole 0)

-- the text of `failed_groups`
unfoldable pub failed_text : List String → String
unfolding sort_names join_with
failed_text failures = join_with "," (sort_names failures)

unfoldable pub snapshot_of : World → ℕ → String → Groups → Result HostSnapshot
unfolding host_health failed_text opaque_reset_id failures_of
snapshot_of world clock hostname g = do
  let failures = failures_of g
  let interfaces = or_else g.interfaces []
  let memory = or_else g.memory (0, 0)
  let state = host_health failures (or_else g.uptime (whole 0)) memory.0 interfaces
  health ← health_observation clock "host" state.0 state.1 (
      ("failure_count", int (pos (length failures)))
      ∷ ("failed_groups", text (failed_text failures))
      ∷ ("interface_count", int (pos (length interfaces)))
      ∷ [])
  ok (record {
    observed_at = num (pos clock);
    hostname = hostname;
    reset_id =
        opaque_reset_id world "host-boot" (or_else g.boot (String.◌++◌ "fallback:" hostname));
    uptime_seconds = or_else g.uptime (whole 0);
    load_1m = (or_else g.loads zero_loads).0;
    load_5m = (or_else g.loads zero_loads).1;
    load_15m = (or_else g.loads zero_loads).2;
    cpu_count = g.processors;
    cpu_total_jiffies = (or_else g.cpu (0, 0)).0;
    cpu_idle_jiffies = (or_else g.cpu (0, 0)).1;
    memory_total_bytes = memory.0;
    memory_available_bytes = memory.1;
    disk_total_bytes = (disk_values g.disk).0;
    disk_available_bytes = (disk_values g.disk).1;
    interfaces = interfaces;
    health = health;
  })

unfoldable pub collect : World → Readings → Result HostSnapshot
unfolding groups_of snapshot_of hostname_of
collect world r = snapshot_of world r.clock (hostname_of r.hostname) (groups_of world r)
