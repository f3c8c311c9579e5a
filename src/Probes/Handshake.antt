-- ===== src/Probes/Handshake.antt =====
-- collectors/probes.py: `_valid_websocket_upgrade`, and the helpers on results.
use Prim.Native.Char.{code}
use Prim.Native.String
use aws_ops_monitor.Prelude.{
  ℕ, ◌+◌, ◌-◌, ◌/◌, ◌%◌, ◌^◌, String, Bool, false, ◌&&◌, ◌||◌, Option, none, some, List, [], ◌∷◌,
  map, any, filter, ltb, leb, ◌==◌, str_eq, if◌then◌else◌,
}
use aws_ops_monitor.Prelude.Int.{ℤ, pos}
use aws_ops_monitor.Prelude.Text.{
  is_blank, lower, lstrip, rstrip, strip, strip_prefix, split_on, split_colon,
}
use aws_ops_monitor.Probes.{World}

-- `round(micros / 1000)`, to the nearest, and from halfway to the even one
abbrev pub round_ms : ℕ → ℕ
round_ms n =
    let w = n / 1000 in
    let r = n % 1000 in
    if ltb r 500 then w else if ltb 500 r then w + 1 else if w % 2 == 0 then w else w + 1

abbrev pub max_latency : ℕ
max_latency = 2 ^ 31 - 1

-- `_bounded_ms`, of two readings of the monotonic clock
unfoldable pub bounded_ms : ℕ → ℕ → ℕ
bounded_ms started now =
    let elapsed = round_ms (now - started) in
    if ltb max_latency elapsed then max_latency else elapsed

abbrev pub safe_reasons : List String
safe_reasons =
    "collector_failed" ∷ "connection_failed" ∷ "dns_unavailable" ∷ "invalid_upgrade"
    ∷ "no_global_address" ∷ "proxy_unavailable" ∷ "resolution_failed" ∷ "resolved"
    ∷ "resolver_unavailable" ∷ "response_too_large" ∷ "timeout" ∷ "tls_failed"
    ∷ "trace_marker_missing" ∷ "trace_marker_observed" ∷ "unexpected_status" ∷ "upgrade_accepted"
    ∷ "unavailable" ∷ []

unfoldable pub safe_reason : String → String
safe_reason value = if any (str_eq value) safe_reasons then value else "unavailable"

unfoldable pub safe_latency : ℤ → ℕ
safe_latency (pos n) = if leb n max_latency then n else 0
safe_latency _ = 0

unfoldable pub safe_status : Option ℤ → Option ℕ
safe_status (some (pos n)) = if leb 100 n && leb n 599 then some n else none
safe_status _ = none

-- the white space of bytes
abbrev pub is_byte_space : ℕ → Bool
is_byte_space c = (leb 9 c && leb c 13) || (c == 32)

-- `payload.partition(b"\r\n\r\n")`, or `none` where the separator is missing
unfoldable pub header_block : String → Option String
unfolding strip_prefix
header_block String.[] = none
header_block (String.◌∷◌ c s) =
    let later = header_block s in
    elim (strip_prefix "\r\n\r\n" (String.◌∷◌ c s)) [
      | some body ↦ some String.[]
      | none ↦ elim later [ none ↦ none | some block ↦ some (String.◌∷◌ c block) ]
    ]

abbrev pub glue_crlf : String → List String → List String
glue_crlf c [] = c ∷ []
glue_crlf c (line ∷ lines) = String.◌++◌ c line ∷ lines

-- `block.split(b"\r\n")`
unfoldable pub split_crlf : String → List String
split_crlf String.[] = String.[] ∷ []
split_crlf (String.◌∷◌ c String.[]) = String.◌∷◌ c String.[] ∷ []
split_crlf (String.◌∷◌ c (String.◌∷◌ d s)) =
    let behind = split_crlf s in
    let next = split_crlf (String.◌∷◌ d s) in
    if (code c == 13) && (code d == 10)
    then String.[] ∷ behind
    else glue_crlf (String.◌∷◌ c String.[]) next

-- `line.split(b" ", 2)[:2] == [b"HTTP/1.1", b"101"]`
abbrev pub is_switching : List String → Bool
is_switching (version ∷ status ∷ rest) = str_eq version "HTTP/1.1" && str_eq status "101"
is_switching _ = false

abbrev pub Headers : Type 0
Headers = List (String × String)

abbrev pub header_of : Option (String × String) → Option Headers → Option Headers
header_of (some (name, value)) (some later) =
    if is_blank name
    then none
    else some ((lower (strip is_byte_space name), strip is_byte_space value) ∷ later)
header_of _ _ = none

-- the loop over the header lines, `none` where a line is no header
unfoldable pub headers_of : List String → Option Headers
unfolding lower lstrip rstrip split_colon
headers_of [] = some []
headers_of (line ∷ lines) = header_of (split_colon line) (headers_of lines)

-- `headers.get(name, ())`
abbrev pub values_of : String → Headers → List String
values_of name headers = map (λ (_, value). value) (filter (λ (key, _). str_eq key name) headers)

-- whether one of the tokens that commas part in a value is this word
unfoldable pub has_token : String → String → Bool
unfolding split_on lower lstrip rstrip
has_token word value =
    any (λ token. str_eq (lower (strip is_byte_space token)) word) (split_on b',' value)

abbrev pub websocket_guid : String
websocket_guid = "258EAFA5-E914-47DA-95CA-C5AB0DC85B11"

-- `len(accepts) == 1`, and the digest
abbrev pub accepted : World → String → List String → Bool
accepted world key (accept ∷ []) = str_eq accept (world.accept_of (String.◌++◌ key websocket_guid))
accepted world key _ = false

abbrev pub valid_headers : World → String → Option Headers → Bool
valid_headers world key none = false
valid_headers world key (some headers) =
    any (has_token "websocket") (values_of "upgrade" headers)
    && (any (has_token "upgrade") (values_of "connection" headers)
        && accepted world key (values_of "sec-websocket-accept" headers))

abbrev pub valid_lines : World → String → List String → Bool
valid_lines world key [] = false
valid_lines world key (first ∷ lines) =
    is_switching (split_on b' ' first) && valid_headers world key (headers_of lines)

abbrev pub valid_block : World → String → Option String → Bool
valid_block world key none = false
valid_block world key (some block) = valid_lines world key (split_crlf block)

unfoldable pub valid_websocket_upgrade : World → String → String → Bool
unfolding header_block split_crlf split_on headers_of has_token
valid_websocket_upgrade world payload key = valid_block world key (header_block payload)
