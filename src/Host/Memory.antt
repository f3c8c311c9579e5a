-- ===== src/Host/Memory.antt =====
-- collectors/host.py: `parse_meminfo`.
use aws_ops_monitor.Prelude.{
  ℕ, suc, ◌+◌, ◌-◌, ◌*◌, String, Option, none, some, List, [], ◌∷◌, ltb, str_eq, if◌then◌else◌,
}
use aws_ops_monitor.Prelude.Int.{ℤ, pos, negsuc}
use aws_ops_monitor.Prelude.Numerals.{parse_int, negate}
use aws_ops_monitor.Prelude.Text.{split_colon, words, splitlines, lower_is}

-- the dictionary `values`, the last assignment first
abbrev pub Values : Type 0
Values = List (String × ℤ)

unfoldable pub get_value : String → Values → Option ℤ
get_value key [] = none
get_value key ((k, v) ∷ values) = if str_eq key k then some v else get_value key values

-- `number * multiplier`
abbrev pub scale : ℕ → ℤ → ℤ
scale k (pos n) = pos (n * k)
scale k (negsuc n) = negate (suc n * k)

abbrev pub multiplier : List String → ℕ
multiplier [] = 1
multiplier (unit ∷ rest) = if lower_is unit "kb" then 1024 else 1

abbrev pub put_number : String → Values → List String → Option ℤ → Option Values
put_number key values units none = none
put_number key values units (some number) = some ((key, scale (multiplier units) number) ∷ values)

-- A line with a colon: `none` where its number is none.
unfoldable pub put_fields : String → Values → List String → Option Values
unfolding parse_int lower_is
put_fields key values [] = some values
put_fields key values (number ∷ units) = put_number key values units (parse_int number)

unfoldable pub put_line : Values → Option (String × String) → Option Values
unfolding put_fields words
put_line values none = some values
put_line values (some (key, raw)) = put_fields key values (words raw)

abbrev pub and_then : Option Values → (Values → Option Values) → Option Values
and_then none next = none
and_then (some values) next = next values

-- the loop
unfoldable pub read_lines : List String → Values → Option Values
unfolding put_line split_colon
read_lines [] values = some values
read_lines (line ∷ lines) values = and_then (put_line values (split_colon line)) (read_lines lines)

-- `a + b`
abbrev pub add_ints : ℤ → ℤ → ℤ
add_ints (pos a) (pos b) = pos (a + b)
add_ints (pos a) (negsuc b) = if ltb b a then pos (a - suc b) else negsuc (b - a)
add_ints (negsuc a) (pos b) = if ltb a b then pos (b - suc a) else negsuc (a - b)
add_ints (negsuc a) (negsuc b) = negsuc (suc (a + b))

abbrev pub fallback : Option ℤ → Option ℤ → Option ℤ → Option ℤ
fallback (some free) (some buffers) (some cached) = some (add_ints (add_ints free buffers) cached)
fallback _ _ _ = none

unfoldable pub available_memory : Values → Option ℤ
unfolding get_value
available_memory values = elim (get_value "MemAvailable" values) [
  | some available ↦ some available
  | none ↦
      fallback (get_value "MemFree" values) (get_value "Buffers" values) (get_value "Cached" values)
]

-- `total, min(total, available)`, unless one is missing or negative
abbrev pub total_and_available : Option ℤ → Option ℤ → Option (ℕ × ℕ)
total_and_available (some (pos total)) (some (pos available)) =
    some (total, if ltb available total then available else total)
total_and_available _ _ = none

abbrev pub memory_of : Option Values → Option (ℕ × ℕ)
memory_of none = none
memory_of (some values) =
    total_and_available (get_value "MemTotal" values) (available_memory values)

unfoldable pub parse_meminfo : String → Option (ℕ × ℕ)
unfolding read_lines splitlines available_memory get_value
parse_meminfo text = memory_of (read_lines (splitlines text) [])
