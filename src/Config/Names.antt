-- ===== src/Config/Names.antt =====
-- config.py: the patterns that names, servers, hosts and paths must match.
use Prim.Native.Char.{code}
use Prim.Native.String
use aws_ops_monitor.Prelude.{
  ℕ, String, Bool, false, not, ◌&&◌, ◌||◌, Option, none, some, is_some, all, Result, ok, err,
  config_error, ◌>>◌, raise_if, ltb, leb, ◌==◌, str_eq, if◌then◌else◌,
}
use aws_ops_monitor.Prelude.Text.{
  strip_prefix, count, all_codes, any_code, is_digit, is_decimal, digits_value, split_on, rstrip,
  lower,
}
use aws_ops_monitor.Network.{IpParser}

abbrev one_of : String → ℕ → Bool
one_of chars c = any_code (λ d. d == c) chars

abbrev is_lower : ℕ → Bool
is_lower c = leb b'a' c && leb c b'z'

abbrev is_alnum : ℕ → Bool
is_alnum c = is_lower c || (leb b'A' c && leb c b'Z') || is_digit c

-- a first character of one class, and at most `limit` of another
unfoldable pub matches : (ℕ → Bool) → (ℕ → Bool) → ℕ → String → Bool
unfolding all_codes count
matches first rest limit String.[] = false
matches first rest limit (String.◌∷◌ c s) =
    first (code c) && all_codes rest s && leb (count s) limit

unfoldable pub safe_executable : String → Bool
unfolding matches any_code
safe_executable =
    matches (λ c. is_alnum c || one_of "_./-" c) (λ c. is_alnum c || one_of "_./-" c) 254

unfoldable pub safe_container : String → Bool
unfolding matches any_code
safe_container = matches is_alnum (λ c. is_alnum c || one_of "_.-" c) 127

unfoldable pub safe_aws_name : String → Bool
unfolding matches any_code
safe_aws_name = matches is_alnum (λ c. is_alnum c || one_of "_.-" c) 254

unfoldable pub safe_aws_region : String → Bool
unfolding matches
safe_aws_region =
    matches (λ c. is_lower c || is_digit c) (λ c. is_lower c || is_digit c || (c == b'-')) 62

unfoldable pub safe_provenance : String → Bool
unfolding matches any_code
safe_provenance = matches is_alnum (λ c. is_alnum c || one_of "_.:-" c) 127

unfoldable pub ends_alnum : String → Bool
ends_alnum String.[] = false
ends_alnum (String.◌∷◌ c String.[]) = is_alnum (code c)
ends_alnum (String.◌∷◌ c (String.◌∷◌ d s)) = ends_alnum (String.◌∷◌ d s)

unfoldable pub safe_host_label : String → Bool
unfolding matches ends_alnum
safe_host_label s = matches is_alnum (λ c. is_alnum c || (c == b'-')) 62 s && ends_alnum s

unfoldable pub safe_http_path : String → Bool
unfolding matches any_code
safe_http_path = matches (λ c. c == b'/') (λ c. is_alnum c || one_of "._~!$&'()*+,;=:@%/-" c) 255

-- the group of `_LOOPBACK_SERVER`
abbrev port_group : Option String → Option String → Option String
port_group (some port) other = some port
port_group none other = other

unfoldable pub loopback_port : String → Option String
unfolding strip_prefix is_decimal count
loopback_port server =
    elim (port_group (strip_prefix "127.0.0.1:" server) (strip_prefix "[::1]:" server)) [
      | none ↦ none
      | some port ↦ if is_decimal port && leb (count port) 5 then some port else none
    ]

-- `"//" in value`
unfoldable pub has_double_slash : String → Bool
has_double_slash String.[] = false
has_double_slash (String.◌∷◌ c String.[]) = false
has_double_slash (String.◌∷◌ c (String.◌∷◌ d s)) =
    ((code c == b'/') && (code d == b'/')) || has_double_slash (String.◌∷◌ d s)

unfoldable pub validate_executable : String → String → Result String
unfolding safe_executable
validate_executable name value = do
  raise_if (not (safe_executable value))
      (config_error (String.◌++◌ name " contains unsafe characters"))
  ok value

unfoldable pub validate_server : String → Result String
unfolding loopback_port digits_value
validate_server value = elim (loopback_port value) [
  | none ↦ err (config_error "AWS_OPS_XRAY_API_SERVER must use a loopback address")
  | some port ↦
      if leb 1 (digits_value 0 port) && leb (digits_value 0 port) 65535
      then ok value
      else err (config_error "AWS_OPS_XRAY_API_SERVER port is out of range")
]

unfoldable pub validate_public_hostname : IpParser → String → Result String
unfolding rstrip count any_code split_on safe_host_label lower
validate_public_hostname ip_address value = do
  let hostname = rstrip (λ c. c == b'.') value
  raise_if (is_some (ip_address hostname))
      (config_error "AWS_OPS_PROBE_PUBLIC_HOST must be a valid DNS hostname")
  raise_if
      (not (str_eq hostname value)
        || ltb 253 (count hostname)
        || not (one_of hostname b'.')
        || not (all safe_host_label (split_on b'.' hostname)))
      (config_error "AWS_OPS_PROBE_PUBLIC_HOST must be a valid DNS hostname")
  ok (lower hostname)

unfoldable pub validate_http_path : String → Result String
unfolding safe_http_path has_double_slash
validate_http_path value = do
  raise_if (not (safe_http_path value) || has_double_slash value)
      (config_error "AWS_OPS_PROBE_PUBLIC_PATH must be a bounded absolute path")
  ok value
