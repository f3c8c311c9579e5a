-- ===== src/Host/Bounds.antt =====
-- collectors/host.py: the bounds on the memory and on the times of the processors.
use mathlib.Core.Path.{subst}
use aws_ops_monitor.Prelude.{
  ℕ, ◌≤◌, ◌≡◌, refl, String, Bool, true, false, Option, none, some, List, [], ◌∷◌, ok, arith,
  str_eq, if◌then◌else◌,
}
use aws_ops_monitor.Prelude.Int.{ℤ}
use aws_ops_monitor.Prelude.Text.{splitlines}
use aws_ops_monitor.Models.Snapshots.{HostSnapshot}
use aws_ops_monitor.Host.{World, Readings}
use aws_ops_monitor.Host.Proc.{naturals, cpu_times, cpu_of, words_of, parse_cpu_stat}
use aws_ops_monitor.Host.Memory.{
  Values, total_and_available, memory_of, parse_meminfo, read_lines, available_memory, get_value,
}
use aws_ops_monitor.Host.Collect.{parsed, or_else, groups_of, hostname_of, collect}
use aws_ops_monitor.Host.Snapshot.{snapshot, state_of, collect-snapshot}

cpu_times-bound :
    (values : Option (List ℕ)) (total idle : ℕ)
    → cpu_times values ≡ some (total, idle)
    → idle ≤ total
cpu_times-bound none total idle h = cc h
cpu_times-bound (some []) total idle h = cc h
cpu_times-bound (some (a ∷ [])) total idle h = cc h
cpu_times-bound (some (a ∷ b ∷ [])) total idle h = cc h
cpu_times-bound (some (a ∷ b ∷ c ∷ [])) total idle h = cc h
cpu_times-bound (some (a ∷ b ∷ c ∷ d ∷ [])) total idle h = ground (arith, h)
cpu_times-bound (some (a ∷ b ∷ c ∷ d ∷ e ∷ rest)) total idle h = ground (arith, h)

cpu_of-bound :
    (lines : List (List String)) (total idle : ℕ) → cpu_of lines ≡ some (total, idle) → idle ≤ total
unfolding cpu_of
cpu_of-bound [] total idle h = cc h
cpu_of-bound ([] ∷ lines) total idle h = cpu_of-bound lines total idle h
cpu_of-bound ((name ∷ fields) ∷ lines) total idle h =
    go (str_eq name "cpu") (cpu_of-bound lines total idle) h
  where
    go :
        (b : Bool)
        → (cpu_of lines ≡ some (total, idle) → idle ≤ total)
        → (if b then cpu_times (naturals fields) else cpu_of lines) ≡ some (total, idle)
        → idle ≤ total
    go true later e = cpu_times-bound (naturals fields) total idle e
    go false later e = later e

total_and_available-bound :
    (t a : Option ℤ) (total available : ℕ)
    → total_and_available t a ≡ some (total, available)
    → available ≤ total
total_and_available-bound t a total available h = ground (arith, h)

memory_of-bound :
    (values : Option Values) (total available : ℕ)
    → memory_of values ≡ some (total, available)
    → available ≤ total
memory_of-bound none total available h = cc h
memory_of-bound (some values) total available h =
    total_and_available-bound (get_value "MemTotal" values) (available_memory values) total
      available h

-- a pair that is in order, also where the group failed
or_zero-bound :
    (o : Option (ℕ × ℕ))
    → ((a b : ℕ) → o ≡ some (a, b) → b ≤ a)
    → (or_else o (0, 0)).1 ≤ (or_else o (0, 0)).0
or_zero-bound none f = omega arith
or_zero-bound (some (a, b)) f = f a b refl

parsed-bound :
    (parser : String → Option (ℕ × ℕ)) (contents : Option String)
    → ((contents : String) (a b : ℕ) → parser contents ≡ some (a, b) → b ≤ a)
    → (a b : ℕ) → parsed parser contents ≡ some (a, b)
    → b ≤ a
parsed-bound parser none f a b h = cc h
parsed-bound parser (some t) f a b h = f t a b h

parse_cpu_stat-bound :
    (contents : String) (total idle : ℕ)
    → parse_cpu_stat contents ≡ some (total, idle)
    → idle ≤ total
unfolding parse_cpu_stat
parse_cpu_stat-bound contents total idle h =
    cpu_of-bound (words_of (splitlines contents)) total idle h

parse_meminfo-bound :
    (contents : String) (total available : ℕ)
    → parse_meminfo contents ≡ some (total, available)
    → available ≤ total
unfolding parse_meminfo
parse_meminfo-bound contents total available h =
    memory_of-bound (read_lines (splitlines contents) []) total available h

-- In the snapshot that `collect` returns, the available memory is at most the total memory, and the
-- idle time of the processors at most their total time.
pub collect-bounds :
    (world : World) (r : Readings) (s : HostSnapshot)
    → collect world r ≡ ok s
    → (s.memory_available_bytes ≤ s.memory_total_bytes) × (s.cpu_idle_jiffies ≤ s.cpu_total_jiffies)
unfolding snapshot groups_of
collect-bounds world r s h =
    let g = groups_of world r in
    let same : snapshot world r.clock (hostname_of r.hostname) g (state_of g) ≡ s =
      cc (collect-snapshot world r, h) in
    subst
      (λ x.
        (x.memory_available_bytes ≤ x.memory_total_bytes)
        × (x.cpu_idle_jiffies ≤ x.cpu_total_jiffies))
      same
      (
        or_zero-bound (parsed parse_meminfo r.meminfo)
            (parsed-bound parse_meminfo r.meminfo parse_meminfo-bound),
        or_zero-bound (parsed parse_cpu_stat r.stat)
            (parsed-bound parse_cpu_stat r.stat parse_cpu_stat-bound),
      )
