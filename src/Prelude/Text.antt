-- ===== src/Prelude/Text.antt =====
-- Tests and operations on texts, by recursion on their characters.
use Prim.Native.Nat.{Ordering, ℕ, zero, suc, ◌+◌, ◌-◌, ◌*◌}
use Prim.Native.Char.{Char, code}
use Prim.Native.String
use aws_ops_monitor.Prelude.Tests.{ltb, leb, ◌==◌, if◌then◌else◌}
use aws_ops_monitor.Prelude.Lists.{filter}
use Prim.Native.String.{String, compare}
use mathlib.Core.Bool.{Bool, true, false, not, ◌&&◌, ◌||◌}
use mathlib.Core.Option.{Option, none, some}
use mathlib.Core.List.{List, [], ◌∷◌}

-- `len(text)`
unfoldable pub count : String → ℕ
count String.[] = 0
count (String.◌∷◌ c s) = suc (count s)

-- `not text`
abbrev pub is_blank : String → Bool
is_blank String.[] = true
is_blank (String.◌∷◌ c s) = false

-- `any(p(ord(char)) for char in text)`
unfoldable pub any_code : (ℕ → Bool) → String → Bool
any_code p String.[] = false
any_code p (String.◌∷◌ c s) = p (code c) || any_code p s

-- `all(p(ord(char)) for char in text)`
unfoldable pub all_codes : (ℕ → Bool) → String → Bool
all_codes p String.[] = true
all_codes p (String.◌∷◌ c s) = p (code c) && all_codes p s

abbrev pub nul : Char
nul = "\0"

-- `f"{a}\0{b}"`
unfoldable pub join_nul : String → String → String
join_nul a b = String.◌++◌ a (String.◌∷◌ nul b)

-- the characters up to the first separator, and the pieces behind it
abbrev pub glue : Char → List String → List String
glue c [] = String.◌∷◌ c String.[] ∷ []
glue c (piece ∷ pieces) = String.◌∷◌ c piece ∷ pieces

-- `text.split(separator)` at a separator of one character
unfoldable pub split_on : ℕ → String → List String
split_on sep String.[] = String.[] ∷ []
split_on sep (String.◌∷◌ c s) =
    let pieces = split_on sep s in if code c == sep then String.[] ∷ pieces else glue c pieces

abbrev pub is_digit : ℕ → Bool
is_digit c = leb 48 c && leb c 57

-- `text.isascii() and text.isdecimal()`
unfoldable pub is_decimal : String → Bool
unfolding all_codes
is_decimal s = not (is_blank s) && all_codes is_digit s

-- `int(text)` of a text of decimal digits
unfoldable pub digits_value : ℕ → String → ℕ
digits_value n String.[] = n
digits_value n (String.◌∷◌ c s) = digits_value (n * 10 + (code c - 48)) s

-- Python's `int` raises on a text of more than 4300 digits.
abbrev pub int_refuses : String → Bool
int_refuses s = ltb 4300 (count s)

abbrev pub lower_code : ℕ → ℕ
lower_code c = if leb 65 c && leb c 90 then c + 32 else c

-- `text.lower() == word`, for a word of ASCII letters in lower case
unfoldable pub lower_is : String → String → Bool
lower_is String.[] String.[] = true
lower_is String.[] (String.◌∷◌ d w) = false
lower_is (String.◌∷◌ c s) String.[] = false
lower_is (String.◌∷◌ c s) (String.◌∷◌ d w) = (lower_code (code c) == code d) && lower_is s w

abbrev pub is_space : ℕ → Bool
is_space c = (leb 9 c && leb c 13) || (leb 28 c && leb c 32)

-- the pieces between the characters that pass a test
unfoldable pub split_where : (ℕ → Bool) → String → List String
split_where p String.[] = String.[] ∷ []
split_where p (String.◌∷◌ c s) =
    let pieces = split_where p s in if p (code c) then String.[] ∷ pieces else glue c pieces

-- `text.split()`, at ASCII whitespace
unfoldable pub words : String → List String
unfolding split_where
words s = filter (λ w. not (is_blank w)) (split_where is_space s)

abbrev pub glue_line : Char → List String → List String
glue_line c [] = String.◌∷◌ c String.[] ∷ []
glue_line c (l ∷ ls) = String.◌∷◌ c l ∷ ls

abbrev pub starts_lf : String → Bool
starts_lf String.[] = false
starts_lf (String.◌∷◌ c s) = code c == 10

-- `text.splitlines()`, at the ASCII line boundaries; CR LF is one
unfoldable pub splitlines : String → List String
splitlines String.[] = []
splitlines (String.◌∷◌ c s) =
    let rest = splitlines s in
    if (code c == 13) && starts_lf s
    then rest
    else if (leb 10 (code c) && leb (code c) 13) || (leb 28 (code c) && leb (code c) 30)
    then String.[] ∷ rest
    else glue_line c rest

-- `text.rpartition(sep)`, or `none` where the separator is missing
unfoldable pub rpartition : ℕ → String → Option (String × String)
rpartition sep String.[] = none
rpartition sep (String.◌∷◌ c s) = elim (rpartition sep s) [
  | some (a, b) ↦ some (String.◌∷◌ c a, b)
  | none ↦ if code c == sep then some (String.[], s) else none
]

-- `text.lstrip(chars)` and `text.rstrip(chars)`
unfoldable pub lstrip : (ℕ → Bool) → String → String
lstrip p String.[] = String.[]
lstrip p (String.◌∷◌ c s) = if p (code c) then lstrip p s else String.◌∷◌ c s

unfoldable pub rstrip : (ℕ → Bool) → String → String
rstrip p String.[] = String.[]
rstrip p (String.◌∷◌ c s) =
    let rest = rstrip p s in if is_blank rest && p (code c) then String.[] else String.◌∷◌ c rest

abbrev pub strip : (ℕ → Bool) → String → String
strip p s = lstrip p (rstrip p s)

-- `text.split(sep, 1)[0]`
unfoldable pub before : ℕ → String → String
before sep String.[] = String.[]
before sep (String.◌∷◌ c s) = if code c == sep then String.[] else String.◌∷◌ c (before sep s)

abbrev pub upper_code : ℕ → ℕ
upper_code c = if leb 97 c && leb c 122 then c - 32 else c

-- `text.upper() == word`, for a word of ASCII letters in upper case
unfoldable pub upper_is : String → String → Bool
upper_is String.[] String.[] = true
upper_is String.[] (String.◌∷◌ d w) = false
upper_is (String.◌∷◌ c s) String.[] = false
upper_is (String.◌∷◌ c s) (String.◌∷◌ d w) = (upper_code (code c) == code d) && upper_is s w

-- `separator.join(texts)`
unfoldable pub join_with : String → List String → String
join_with separator [] = String.[]
join_with separator (t ∷ []) = t
join_with separator (t ∷ u ∷ ts) =
    String.◌++◌ t (String.◌++◌ separator (join_with separator (u ∷ ts)))

-- the character of a text at an index, as a text
unfoldable pub char_at : ℕ → String → String
char_at n String.[] = String.[]
char_at zero (String.◌∷◌ c s) = String.◌∷◌ c String.[]
char_at (suc n) (String.◌∷◌ c s) = char_at n s

-- `text.lower()`, of ASCII letters
unfoldable pub lower : String → String
unfolding char_at
lower String.[] = String.[]
lower (String.◌∷◌ c s) =
    if leb 65 (code c) && leb (code c) 90
    then String.◌++◌ (char_at (code c - 65) "abcdefghijklmnopqrstuvwxyz") (lower s)
    else String.◌∷◌ c (lower s)

-- the text behind a prefix
unfoldable pub strip_prefix : String → String → Option String
strip_prefix String.[] s = some s
strip_prefix (String.◌∷◌ p ps) String.[] = none
strip_prefix (String.◌∷◌ p ps) (String.◌∷◌ c s) =
    if code p == code c then strip_prefix ps s else none

-- `text[:n]`
unfoldable pub take_text : ℕ → String → String
take_text zero s = String.[]
take_text (suc n) String.[] = String.[]
take_text (suc n) (String.◌∷◌ c s) = String.◌∷◌ c (take_text n s)

-- the order of two texts, and of what follows equal ones
abbrev pub compare_text : String → String → Ordering
compare_text = compare

abbrev pub then_by : Ordering → Ordering → Ordering
then_by Ordering.eq o = o
then_by Ordering.lt o = Ordering.lt
then_by Ordering.gt o = Ordering.gt

-- `line.split(":", 1)`, or `none` where the line has no colon
unfoldable pub split_colon : String → Option (String × String)
split_colon String.[] = none
split_colon (String.◌∷◌ c s) =
    if code c == b':'
    then some (String.[], s)
    else elim (split_colon s) as (λ _. Option (String × String)) [
      | none ↦ none
      | some (a, b) ↦ some (String.◌∷◌ c a, b)
    ]
