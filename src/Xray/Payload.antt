-- ===== src/Xray/Payload.antt =====
-- collectors/xray.py: `_json_items` and `_text_items`.
use Prim.Native.Char.{Char, code}
use Prim.Native.String
use aws_ops_monitor.Prelude.{
  ℕ, zero, suc, String, Option, none, some, List, [], ◌∷◌, Result, ok, err, xray_stats_parse_error,
  ◌>>=◌, ◌==◌, if◌then◌else◌,
}
use aws_ops_monitor.Prelude.Text.{count, is_blank, is_digit, is_space, lstrip, strip_prefix}
use aws_ops_monitor.Prelude.Json.{Json, text, list, dict, Fields, end, field, get_field, item_list}
use aws_ops_monitor.Xray.{World}

abbrev pub invalid : {A : Type 0} → Result A
invalid = err (xray_stats_parse_error "invalid Xray stats payload")

-- `document.get("stat", document.get("stats"))`
abbrev pub stat_field : Fields → Option Json
stat_field fields = elim (get_field "stat" fields) [
  | some stat ↦ some stat
  | none ↦ get_field "stats" fields
]

abbrev pub listed : Option Json → Result (List Json)
listed (some (list items)) = ok (item_list items)
listed _ = invalid

abbrev pub document_items : Option Json → Result (List Json)
document_items (some (list items)) = ok (item_list items)
document_items (some (dict fields)) = listed (stat_field fields)
document_items _ = invalid

unfoldable pub json_items : World → String → Result (List Json)
unfolding item_list get_field
json_items world payload = do document ← world.json_loads payload; document_items document

abbrev pub with_character : Char → Option (String × String) → Option (String × String)
with_character c none = none
with_character c (some (inner, rest)) = some (String.◌∷◌ c inner, rest)

-- `(?:\\.|[^"\\])*"`: the text up to the closing quote, and what follows it
unfoldable pub quoted : String → Option (String × String)
quoted String.[] = none
quoted (String.◌∷◌ c String.[]) = if code c == b'"' then some (String.[], String.[]) else none
quoted (String.◌∷◌ c (String.◌∷◌ d s)) =
    let behind = quoted s in
    let next = quoted (String.◌∷◌ d s) in
    if code c == b'"'
    then some (String.[], String.◌∷◌ d s)
    else if code c == b'\\'
    then with_character c (with_character d behind)
    else with_character c next

-- `[0-9]*`, and what follows it
unfoldable pub span_digits : String → String × String
span_digits String.[] = (String.[], String.[])
span_digits (String.◌∷◌ c s) =
    let (ds, rest) = span_digits s in
    if is_digit (code c) then (String.◌∷◌ c ds, rest) else (String.[], String.◌∷◌ c s)

abbrev pub nonempty_digits : String × String → Option (String × String)
nonempty_digits (String.[], rest) = none
nonempty_digits (String.◌∷◌ c ds, rest) = some (String.◌∷◌ c ds, rest)

-- `value:\s*([0-9]+)` at this place
unfoldable pub value_here : String → Option (String × String)
unfolding strip_prefix lstrip span_digits
value_here s = elim (strip_prefix "value:" s) [
  | none ↦ none
  | some rest ↦ nonempty_digits (span_digits (lstrip is_space rest))
]

-- `.*?value:\s*([0-9]+)`: the first place that matches
unfoldable pub find_value : String → Option (String × String)
unfolding value_here
find_value String.[] = none
find_value (String.◌∷◌ c s) = elim (value_here (String.◌∷◌ c s)) [
  | some found ↦ some found
  | none ↦ find_value s
]

-- `_TEXT_STAT` at this place, from its last part to its first: the groups `name` and `value`, and
-- what follows the match
abbrev pub with_value : String → Option (String × String) → Option (String × String × String)
with_value name none = none
with_value name (some (value, after)) = some (name, value, after)

unfoldable pub with_name : Option (String × String) → Option (String × String × String)
unfolding find_value
with_name none = none
with_name (some (name, closed)) = with_value name (find_value closed)

unfoldable pub with_quote : Option String → Option (String × String × String)
unfolding quoted with_name
with_quote none = none
with_quote (some opened) = with_name (quoted opened)

unfoldable pub with_label : Option String → Option (String × String × String)
unfolding strip_prefix lstrip with_quote
with_label none = none
with_label (some rest) = with_quote (strip_prefix "\"" (lstrip is_space rest))

unfoldable pub match_here : String → Option (String × String × String)
unfolding strip_prefix with_label
match_here s = with_label (strip_prefix "name:" s)

-- `_TEXT_STAT.finditer(payload)`, on fuel
unfoldable pub find_all : ℕ → String → List (String × String)
unfolding match_here
find_all zero s = []
find_all (suc fuel) String.[] = []
find_all (suc fuel) (String.◌∷◌ c s) = elim (match_here (String.◌∷◌ c s)) [
  | none ↦ find_all fuel s
  | some (name, value, after) ↦ (name, value) ∷ find_all fuel after
]

abbrev pub named_item : Option Json → String → Result Json
named_item none value = invalid
named_item (some name) value = ok (dict (field "name" name (field "value" (text value) end)))

-- `{"name": json.loads(f'"{name}"'), "value": value}`
unfoldable pub text_item : World → String × String → Result Json
text_item world (name, value) = do
  decoded ← world.json_loads (String.◌∷◌ "\"" (String.◌++◌ name "\""))
  named_item decoded value

unfoldable pub text_item_list : World → List (String × String) → Result (List Json)
unfolding text_item
text_item_list world [] = ok []
text_item_list world (m ∷ ms) = do
  item ← text_item world m
  items ← text_item_list world ms
  ok (item ∷ items)

abbrev pub some_items : String → List Json → Result (List Json)
some_items payload [] = if is_blank payload then ok [] else invalid
some_items payload (item ∷ items) = ok (item ∷ items)

-- `payload` has been stripped.
unfoldable pub text_items : World → String → Result (List Json)
unfolding count find_all text_item_list
text_items world payload = do
  items ← text_item_list world (find_all (suc (count payload)) payload)
  some_items payload items
