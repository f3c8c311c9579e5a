-- ===== src/Config/Values.antt =====
-- config.py: the parsers of single values.
use Prim.Native.String.{◌++◌ as append}
use aws_ops_monitor.Prelude.{
  value_error, ℕ, ◌/◌, ◌%◌, ◌^◌, ◌-◌, String, Bool, true, false, not, ◌&&◌, ◌||◌, Option, none,
  some, List, [], ◌∷◌, length, Result, ok, err, Error, config_error, ◌>>=◌, ◌>>◌, raise_if, ltb,
  leb, ◌==◌, if◌then◌else◌,
}
use aws_ops_monitor.Prelude.Int.{ℤ, pos, equals}
use aws_ops_monitor.Prelude.Float.{Float, whole, le_float}
use aws_ops_monitor.Prelude.Text.{
  count, int_refuses, is_blank, is_decimal, digits_value, is_space, strip, lstrip, rstrip, split_on,
  lower_is,
}
use aws_ops_monitor.Config.{World, KeyFile, unreadable, no_regular_file, regular}

-- the messages, from the name of the variable
abbrev pub says : String → String → Error
says name what = config_error (append name what)

unfoldable pub range_error : (ℕ → String) → String → ℕ → ℕ → Error
range_error digits name minimum maximum = config_error (
    append name
      (append " must be between " (append (digits minimum) (append " and " (digits maximum)))))

unfoldable pub parse_bool : String → String → Result Bool
unfolding lstrip rstrip lower_is
parse_bool name raw =
    let value = strip is_space raw in
    if lower_is value "1" || lower_is value "true" || lower_is value "yes" || lower_is value "on"
    then ok true
    else if lower_is value "0"
        || lower_is value "false"
        || lower_is value "no"
        || lower_is value "off"
    then ok false
    else err (says name " must be a boolean value")

-- `minimum <= value <= maximum`
abbrev pub within : ℕ → ℕ → Float → Bool
within minimum maximum value = le_float (whole minimum) value && le_float value (whole maximum)

unfoldable pub parse_float : World → String → String → ℕ → ℕ → Result Float
parse_float world name raw minimum maximum = elim (world.parse_float raw) [
  | none ↦ err (says name " must be numeric")
  | some value ↦
      if within minimum maximum value
      then ok value
      else err (range_error world.digits name minimum maximum)
]

-- what `int(value)` raises on a text of more than 4300 digits
abbrev pub int_error : Error
int_error = value_error "Exceeds the limit for integer string conversion"

unfoldable pub parse_int : (ℕ → String) → String → String → ℕ → ℕ → Result ℕ
unfolding lstrip rstrip is_decimal digits_value count
parse_int digits name raw minimum maximum =
    let value = strip is_space raw in
    let parsed = digits_value 0 value in
    do
      raise_if (not (is_decimal value)) (says name " must be an integer")
      raise_if (int_refuses value) int_error
      raise_if (not (leb minimum parsed && leb parsed maximum))
          (range_error digits name minimum maximum)
      ok parsed

-- `mode not in {0o600, 0o640}`
abbrev pub allowed_mode : ℤ → Bool
allowed_mode mode = equals mode (pos 384) || equals mode (pos 416)

unfoldable pub parse_database_mode : World → String → Result ℤ
parse_database_mode world raw = elim (world.parse_octal raw) [
  | none ↦ err (config_error "AWS_OPS_DB_FILE_MODE must be an octal file mode")
  | some mode ↦
      if allowed_mode mode
      then ok mode
      else err (config_error "AWS_OPS_DB_FILE_MODE must be 0600 or 0640")
]

-- `sorted(set(ports))`, built by insertion
unfoldable pub insert_port : ℕ → List ℕ → List ℕ
insert_port p [] = p ∷ []
insert_port p (q ∷ qs) =
    if ltb p q then p ∷ q ∷ qs else if p == q then q ∷ qs else q ∷ insert_port p qs

unfoldable pub sorted_set : List ℕ → List ℕ
unfolding insert_port
sorted_set [] = []
sorted_set (p ∷ ps) = insert_port p (sorted_set ps)

unfoldable pub parse_port_items : String → List String → Result (List ℕ)
unfolding lstrip rstrip is_decimal digits_value count
parse_port_items name [] = ok []
parse_port_items name (item ∷ items) = do
  let value = strip is_space item
  let port = digits_value 0 value
  raise_if (not (is_decimal value)) (says name " must be a comma-separated list of ports")
  raise_if (int_refuses value) int_error
  raise_if (not (leb 1 port && leb port 65535)) (says name " contains a port outside 1-65535")
  ports ← parse_port_items name items
  ok (port ∷ ports)

unfoldable pub parse_ports : String → String → Result (List ℕ)
unfolding lstrip rstrip split_on parse_port_items sorted_set
parse_ports name raw =
    if is_blank (strip is_space raw)
    then ok []
    else do ports ← parse_port_items name (split_on b',' raw); ok (sorted_set ports)

unfoldable pub parse_optional_bytes : String → Option String → Result (Option ℕ)
unfolding lstrip rstrip is_decimal digits_value count
parse_optional_bytes name none = ok none
parse_optional_bytes name (some raw) =
    let value = strip is_space raw in
    let parsed = digits_value 0 value in
    if is_blank value then ok none else do
      raise_if (not (is_decimal value)) (says name " must be a positive integer byte count")
      raise_if (int_refuses value) int_error
      raise_if (not (leb 1 parsed && leb parsed (2 ^ 63 - 1)))
          (says name " is outside the supported byte range")
      ok (some parsed)

-- `value.strip()` of bytes
unfoldable pub lstrip_bytes : List ℕ → List ℕ
lstrip_bytes [] = []
lstrip_bytes (b ∷ bs) = if (leb 9 b && leb b 13) || (b == 32) then lstrip_bytes bs else b ∷ bs

unfoldable pub rstrip_bytes : List ℕ → List ℕ
rstrip_bytes [] = []
rstrip_bytes (b ∷ bs) = elim (rstrip_bytes bs) [
  | [] ↦ if (leb 9 b && leb b 13) || (b == 32) then [] else b ∷ []
  | c ∷ cs ↦ b ∷ c ∷ cs
]

-- `not mode & 0o400 or mode & 0o077`
abbrev exposed_mode : ℕ → Bool
exposed_mode mode = (mode / 256 % 2 == 0) || not (mode % 64 == 0)

unfoldable pub read_key_file : KeyFile → Result (List ℕ)
unfolding lstrip_bytes rstrip_bytes
read_key_file unreadable = err (config_error "unable to read AWS_OPS_XRAY_USER_HASH_KEY_FILE")
read_key_file no_regular_file =
    err (config_error "AWS_OPS_XRAY_USER_HASH_KEY_FILE must be a regular file")
read_key_file (regular st_mode st_size bytes) = do
  raise_if (exposed_mode st_mode)
      (config_error "AWS_OPS_XRAY_USER_HASH_KEY_FILE must be owner-readable only")
  raise_if (ltb 4096 st_size) (config_error "AWS_OPS_XRAY_USER_HASH_KEY_FILE is unexpectedly large")
  ok (lstrip_bytes (rstrip_bytes bytes))

-- an unset variable and an empty one are both false
abbrev pub nonempty : Option String → Option String
nonempty none = none
nonempty (some s) = if is_blank s then none else some s

abbrev long_enough : List ℕ → Result (Option (List ℕ))
long_enough value =
    if ltb (length value) 16
    then err (config_error "the Xray user hashing key must contain at least 16 bytes")
    else ok (some value)

abbrev key_of_sources : World → Option String → Option String → Result (Option (List ℕ))
key_of_sources world (some direct) (some file) =
    err (
      config_error "set only one of AWS_OPS_XRAY_USER_HASH_KEY and AWS_OPS_XRAY_USER_HASH_KEY_FILE")
key_of_sources world none (some file) =
    read_key_file (world.key_file (world.expanduser file)) >>= long_enough
key_of_sources world (some direct) none = long_enough (world.encode direct)
key_of_sources world none none = ok none

unfoldable pub read_hash_key : World → Option String → Option String → Result (Option (List ℕ))
unfolding read_key_file
read_hash_key world direct key_file = key_of_sources world (nonempty direct) (nonempty key_file)
