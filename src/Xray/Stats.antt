-- ===== src/Xray/Stats.antt =====
-- collectors/xray.py: `parse_xray_stats`.
use Prim.Native.Nat.{Ordering}
use Prim.Native.Char.{code}
use Prim.Native.String
use aws_ops_monitor.Prelude.{
  ℕ, suc, ◌*◌, ◌/◌, String, Bool, true, false, ◌&&◌, ◌||◌, Option, none, some, List, [], ◌∷◌,
  length, Result, ok, err, other_error, value_error, xray_stats_parse_error, ◌>>=◌, ◌>>◌, raise_if,
  ltb, leb, ◌==◌, str_eq, if◌then◌else◌,
}
use aws_ops_monitor.Prelude.Int.{ℤ, pos, negsuc}
use aws_ops_monitor.Prelude.Float.{num, infinity, neg_infinity, nan, micro}
use aws_ops_monitor.Prelude.Numerals.{negate, parse_int}
use aws_ops_monitor.Prelude.Text.{
  is_blank, is_space, lstrip, rstrip, strip, take_text, then_by, compare_text,
}
use aws_ops_monitor.Prelude.Json.{Json, bool, int, float, text, dict, get_field}
use aws_ops_monitor.Models.{sqlite_integer_max}
use aws_ops_monitor.Models.Snapshots.{XrayTrafficCounter}
use aws_ops_monitor.Xray.{World}
use aws_ops_monitor.Xray.Payload.{json_items, text_items}

abbrev glue_piece : String → List String → List String
glue_piece c [] = c ∷ []
glue_piece c (piece ∷ pieces) = String.◌++◌ c piece ∷ pieces

-- `name.split(">>>")`
unfoldable pub split_marks : String → List String
split_marks String.[] = String.[] ∷ []
split_marks (String.◌∷◌ c String.[]) = String.◌∷◌ c String.[] ∷ []
split_marks (String.◌∷◌ c (String.◌∷◌ d String.[])) = String.◌∷◌ c (String.◌∷◌ d String.[]) ∷ []
split_marks (String.◌∷◌ c (String.◌∷◌ d (String.◌∷◌ e s))) =
    elim ((code c == b'>') && (code d == b'>') && (code e == b'>')) [
      | true ↦ String.[] ∷ split_marks s
      | false ↦ glue_piece (String.◌∷◌ c String.[]) (split_marks (String.◌∷◌ d (String.◌∷◌ e s)))
    ]

-- `f"{prefix}_{digest}"`
unfoldable pub pseudonym : World → String → List ℕ → String → String
unfolding take_text
pseudonym world prefix hash_key raw =
    String.◌++◌ prefix (String.◌∷◌ "_" (take_text 24 (world.hmac_hex hash_key raw)))

-- `int` of a float drops the fraction.
abbrev truncated : ℤ → ℤ
truncated (pos n) = pos (n / micro)
truncated (negsuc n) = negate (suc n / micro)

-- `int(raw_value)`: `none` for a `TypeError` or a `ValueError`, which the loop skips. An infinite
-- float is an `OverflowError`, which it does not catch.
unfoldable pub int_of : Option Json → Result (Option ℤ)
unfolding parse_int
int_of (some (int z)) = ok (some z)
int_of (some (bool true)) = ok (some (pos 1))
int_of (some (bool false)) = ok (some (pos 0))
int_of (some (text s)) = ok (parse_int s)
int_of (some (float (num z))) = ok (some (truncated z))
int_of (some (float nan)) = ok none
int_of (some (float infinity)) = err other_error
int_of (some (float neg_infinity)) = err other_error
int_of _ = ok none

abbrev pub is_scope : String → Bool
is_scope s = str_eq s "user" || str_eq s "inbound" || str_eq s "outbound"

abbrev pub is_direction : String → Bool
is_direction s = str_eq s "uplink" || str_eq s "downlink"

-- `identity_label` and `identity_value`
unfoldable pub identity : World → List ℕ → String → String → String × String
unfolding pseudonym
identity world hash_key scope raw =
    if str_eq scope "user"
    then ("user_hash", pseudonym world "usr" hash_key raw)
    else ("tag", pseudonym world "tag" hash_key raw)

unfoldable pub counter_at : World → List ℕ → String → String → String → ℕ → XrayTrafficCounter
unfolding identity
counter_at world hash_key scope raw direction value =
    let (label, name) = identity world hash_key scope raw in
    record {
      scope = scope;
      direction = direction;
      identity_label = label;
      identity_value = name;
      value = value;
    }

-- `0 <= value <= 2**63 - 1`
abbrev pub in_range : (ℕ → XrayTrafficCounter) → Option ℤ → Option XrayTrafficCounter
in_range build (some (pos n)) = if leb n sqlite_integer_max then some (build n) else none
in_range build _ = none

-- the checks on the parts of a name, and the counter
unfoldable pub parts_counter :
    World → List ℕ → Option Json → List String → Result (Option XrayTrafficCounter)
unfolding int_of counter_at
parts_counter world hash_key raw_value (scope ∷ raw ∷ metric ∷ direction ∷ []) =
    if is_scope scope && str_eq metric "traffic" && is_direction direction
    then (int_of raw_value >>= λ value.
        ok (in_range (counter_at world hash_key scope raw direction) value))
    else ok none
parts_counter world hash_key raw_value _ = ok none

-- One round of the loop: `none` where it goes on without a counter.
unfoldable pub item_counter : World → List ℕ → Json → Result (Option XrayTrafficCounter)
unfolding split_marks parts_counter get_field
item_counter world hash_key (dict fields) = elim (get_field "name" fields) [
  | some (text name) ↦ parts_counter world hash_key (get_field "value" fields) (split_marks name)
  | other ↦ ok none
]
item_counter world hash_key _ = ok none

-- the order of the keys `(scope, direction, identity_label, identity_value)`
unfoldable pub compare_counters : XrayTrafficCounter → XrayTrafficCounter → Ordering
compare_counters a b = then_by (compare_text a.scope b.scope) (
    then_by (compare_text a.direction b.direction) (
      then_by (compare_text a.identity_label b.identity_label)
        (compare_text a.identity_value b.identity_value)))

-- two counters under one key
unfoldable pub same_key : XrayTrafficCounter → XrayTrafficCounter → Bool
same_key a b =
    str_eq a.scope b.scope
    && str_eq a.direction b.direction
    && str_eq a.identity_label b.identity_label
    && str_eq a.identity_value b.identity_value

-- `counters[key] = ...`: the dictionary as the list of its values, each of which knows its key
unfoldable pub put_counter : XrayTrafficCounter → List XrayTrafficCounter → List XrayTrafficCounter
unfolding same_key
put_counter c [] = c ∷ []
put_counter c (x ∷ xs) = if same_key c x then c ∷ xs else x ∷ put_counter c xs

-- `sorted(counters)`
unfoldable pub insert_counter :
    XrayTrafficCounter → List XrayTrafficCounter → List XrayTrafficCounter
unfolding compare_counters
insert_counter c [] = c ∷ []
insert_counter c (x ∷ xs) = elim (compare_counters c x) [
  | Ordering.gt ↦ x ∷ insert_counter c xs
  | _ ↦ c ∷ x ∷ xs
]

unfoldable pub sort_counters : List XrayTrafficCounter → List XrayTrafficCounter
unfolding insert_counter
sort_counters [] = []
sort_counters (c ∷ cs) = insert_counter c (sort_counters cs)

abbrev pub put_found : Option XrayTrafficCounter → List XrayTrafficCounter → List XrayTrafficCounter
put_found none xs = xs
put_found (some c) xs = put_counter c xs

-- the loop over the items
unfoldable pub collect_items :
    World → List ℕ → List Json → List XrayTrafficCounter → Result (List XrayTrafficCounter)
unfolding item_counter put_counter sort_counters
collect_items world hash_key [] counters = ok (sort_counters counters)
collect_items world hash_key (item ∷ items) counters = do
  found ← item_counter world hash_key item
  collect_items world hash_key items (put_found found counters)

-- `stripped.startswith(("{", "["))`
abbrev opens_json : String → Bool
opens_json String.[] = false
opens_json (String.◌∷◌ c s) = (code c == b'{') || (code c == b'[')

abbrev pub payload_items : World → String → Result (List Json)
payload_items world stripped =
    if opens_json stripped then json_items world stripped else text_items world stripped

abbrev pub max_stats_output_bytes : ℕ
max_stats_output_bytes = 2 * 1024 * 1024

unfoldable pub parse_xray_stats : World → List ℕ → String → Result (List XrayTrafficCounter)
unfolding json_items text_items collect_items lstrip rstrip
parse_xray_stats world hash_key payload = do
  let stripped = strip is_space payload
  raise_if (ltb (length hash_key) 16)
      (value_error "Xray user hashing key must contain at least 16 bytes")
  raise_if (ltb max_stats_output_bytes (String.len payload))
      (xray_stats_parse_error "Xray stats payload is too large")
  elim (is_blank stripped) [
    | true ↦ ok []
    | false ↦ payload_items world stripped >>= λ items. collect_items world hash_key items []
  ]
