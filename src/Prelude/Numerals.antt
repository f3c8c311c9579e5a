-- ===== src/Prelude/Numerals.antt =====
-- Python's `int(text)`, of ASCII text.
use Prim.Native.Nat.{ℕ, zero, suc}
use Prim.Native.Char.{code}
use Prim.Native.String.{String}
use mathlib.Core.Bool.{Bool, true, false}
use mathlib.Core.Option.{Option, none, some}
use aws_ops_monitor.Prelude.Tests.{◌==◌, if◌then◌else◌}
use aws_ops_monitor.Prelude.Int.{ℤ, pos, negsuc}
use aws_ops_monitor.Prelude.Text.{
  count, is_digit, is_space, digits_value, int_refuses, lstrip, rstrip, strip,
}

-- The digits of a numeral, which single underscores may part.
unfoldable pub numeral_digits : Bool → String → Option String
numeral_digits after_digit String.[] = if after_digit then some String.[] else none
numeral_digits after_digit (String.◌∷◌ c s) = elim (is_digit (code c)) [
  | true ↦ elim (numeral_digits true s) [ none ↦ none | some ds ↦ some (String.◌∷◌ c ds) ]
  | false ↦ elim (code c == b'_') [
    | true ↦ if after_digit then numeral_digits false s else none
    | false ↦ none
  ]
]

unfoldable pub numeral : String → Option ℕ
unfolding numeral_digits digits_value count
numeral s = elim (numeral_digits false s) [
  | none ↦ none
  | some ds ↦ if int_refuses ds then none else some (digits_value 0 ds)
]

abbrev pub negate : ℕ → ℤ
negate zero = pos 0
negate (suc n) = negsuc n

unfoldable pub signed : String → Option ℤ
unfolding numeral
signed String.[] = none
signed (String.◌∷◌ c s) =
    if code c == b'-'
    then elim (numeral s) [ none ↦ none | some n ↦ some (negate n) ]
    else elim (numeral (if code c == b'+' then s else String.◌∷◌ c s)) [
      | none ↦ none
      | some n ↦ some (pos n)
    ]

-- `none` is a `ValueError`.
unfoldable pub parse_int : String → Option ℤ
unfolding signed lstrip rstrip
parse_int s = signed (strip is_space s)
