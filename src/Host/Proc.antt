-- ===== src/Host/Proc.antt =====
-- collectors/host.py: the parsers of /proc. `none` is a `ValueError`, or the `IndexError` of an empty
-- uptime; `collect` treats both alike.
use Prim.Native.Nat.{Ordering}
use aws_ops_monitor.Prelude.{
  ℕ, zero, suc, ◌+◌, String, Bool, true, false, not, ◌&&◌, ◌||◌, Option, none, some, List, [], ◌∷◌,
  take, length, sum_by, leb, ◌==◌, str_eq, if◌then◌else◌,
}
use aws_ops_monitor.Prelude.Int.{ℤ, pos, negsuc}
use aws_ops_monitor.Prelude.Float.{Float, num, neg_infinity}
use aws_ops_monitor.Prelude.Numerals.{parse_int}
use aws_ops_monitor.Prelude.Text.{
  split_colon, count, all_codes, is_blank, is_space, strip, words, splitlines, compare_text,
}
use aws_ops_monitor.Models.{InterfaceCounters}
use aws_ops_monitor.Host.{World}

-- `value < 0`, which is false for a NaN
abbrev pub is_negative : Float → Bool
is_negative (num (negsuc n)) = true
is_negative neg_infinity = true
is_negative _ = false

abbrev pub non_negative : Option Float → Option Float
non_negative none = none
non_negative (some x) = if is_negative x then none else some x

abbrev pub first_float : (String → Option Float) → List String → Option Float
first_float float [] = none
first_float float (field ∷ fields) = non_negative (float field)

unfoldable pub parse_uptime : World → String → Option Float
unfolding words
parse_uptime world text = first_float world.float (words text)

abbrev pub three_floats :
    Option Float → Option Float → Option Float → Option (Float × Float × Float)
three_floats (some a) (some b) (some c) = some (a, b, c)
three_floats _ _ _ = none

abbrev pub loads_of : (String → Option Float) → List String → Option (Float × Float × Float)
loads_of float (a ∷ b ∷ c ∷ rest) =
    three_floats (non_negative (float a)) (non_negative (float b)) (non_negative (float c))
loads_of float _ = none

unfoldable pub parse_loadavg : World → String → Option (Float × Float × Float)
unfolding words
parse_loadavg world text = loads_of world.float (words text)

-- `int(field)`, unless it raises or is negative
abbrev pub natural : Option ℤ → Option ℕ
natural (some (pos n)) = some n
natural _ = none

abbrev pub join_some : Option ℕ → Option (List ℕ) → Option (List ℕ)
join_some (some n) (some ns) = some (n ∷ ns)
join_some _ _ = none

unfoldable pub naturals : List String → Option (List ℕ)
unfolding parse_int
naturals [] = some []
naturals (field ∷ fields) = join_some (natural (parse_int field)) (naturals fields)

-- `sum(values[:8])`, and `values[3] + (values[4] if len(values) > 4 else 0)`
abbrev pub cpu_times : Option (List ℕ) → Option (ℕ × ℕ)
cpu_times (some (user ∷ nice ∷ system ∷ idle ∷ [])) =
    some (sum_by (λ n. n) (user ∷ nice ∷ system ∷ idle ∷ []), idle)
cpu_times (some (user ∷ nice ∷ system ∷ idle ∷ iowait ∷ rest)) =
    some (sum_by (λ n. n) (take 8 (user ∷ nice ∷ system ∷ idle ∷ iowait ∷ rest)), idle + iowait)
cpu_times _ = none

-- the loop, over the fields of each line
unfoldable pub cpu_of : List (List String) → Option (ℕ × ℕ)
unfolding naturals
cpu_of [] = none
cpu_of ([] ∷ lines) = cpu_of lines
cpu_of ((name ∷ fields) ∷ lines) =
    let later = cpu_of lines in if str_eq name "cpu" then cpu_times (naturals fields) else later

unfoldable pub words_of : List String → List (List String)
unfolding words
words_of [] = []
words_of (line ∷ lines) = words line ∷ words_of lines

unfoldable pub parse_cpu_stat : String → Option (ℕ × ℕ)
unfolding cpu_of splitlines words_of
parse_cpu_stat text = cpu_of (words_of (splitlines text))

-- `_INTERFACE_NAME`
abbrev pub is_interface_code : ℕ → Bool
is_interface_code c =
    (leb 65 c && leb c 90)
    || (leb 97 c && leb c 122)
    || (leb 48 c && leb c 57)
    || (c == b'_')
    || (c == b'.')
    || (c == b'@')
    || (c == b'-')

unfoldable pub is_interface_name : String → Bool
unfolding all_codes count
is_interface_name name =
    not (is_blank name) && leb (count name) 64 && all_codes is_interface_code name

-- `values[n]`, of an index in range
abbrev pub value_at : ℕ → List ℕ → ℕ
value_at n [] = 0
value_at zero (v ∷ vs) = v
value_at (suc n) (v ∷ vs) = value_at n vs

-- the interface with sixteen values
abbrev pub counters_of : String → Option (List ℕ) → Option InterfaceCounters
counters_of name none = none
counters_of name (some values) =
    if length values == 16
    then some (record {
      name = name;
      receive_bytes = value_at 0 values;
      receive_packets = value_at 1 values;
      receive_errors = value_at 2 values;
      receive_drops = value_at 3 values;
      transmit_bytes = value_at 8 values;
      transmit_packets = value_at 9 values;
      transmit_errors = value_at 10 values;
      transmit_drops = value_at 11 values;
    })
    else none

-- the interface of a line with a valid name
unfoldable pub interface_of : String → String → Option InterfaceCounters
unfolding naturals words
interface_of name raw_values = counters_of name (naturals (take 16 (words raw_values)))

abbrev pub with_interface :
    Option InterfaceCounters → Option (List InterfaceCounters) → Option (List InterfaceCounters)
with_interface (some interface) (some interfaces) = some (interface ∷ interfaces)
with_interface _ _ = none

unfoldable pub line_interfaces :
    Option (String × String) → Option (List InterfaceCounters) → Option (List InterfaceCounters)
unfolding is_interface_name interface_of
line_interfaces none later = later
line_interfaces (some (raw_name, raw_values)) later =
    if is_interface_name (strip is_space raw_name)
    then with_interface (interface_of (strip is_space raw_name) raw_values) later
    else later

unfoldable pub interfaces_of : List String → Option (List InterfaceCounters)
unfolding split_colon line_interfaces
interfaces_of [] = some []
interfaces_of (line ∷ lines) = line_interfaces (split_colon line) (interfaces_of lines)

-- `sorted(interfaces, key=lambda item: item.name)`
unfoldable pub insert_interface :
    InterfaceCounters → List InterfaceCounters → List InterfaceCounters
insert_interface i [] = i ∷ []
insert_interface i (x ∷ xs) = elim (compare_text i.name x.name) [
  | Ordering.gt ↦ x ∷ insert_interface i xs
  | _ ↦ i ∷ x ∷ xs
]

unfoldable pub sort_interfaces : List InterfaceCounters → List InterfaceCounters
unfolding insert_interface
sort_interfaces [] = []
sort_interfaces (i ∷ is) = insert_interface i (sort_interfaces is)

unfoldable pub some_interfaces : Option (List InterfaceCounters) → Option (List InterfaceCounters)
unfolding sort_interfaces
some_interfaces (some (i ∷ is)) = some (sort_interfaces (i ∷ is))
some_interfaces _ = none

unfoldable pub parse_proc_net_dev : String → Option (List InterfaceCounters)
unfolding interfaces_of splitlines some_interfaces
parse_proc_net_dev text = some_interfaces (interfaces_of (splitlines text))
