-- ===== src/Probes/Resolve.antt =====
-- collectors/probes.py: `resolve_public_addresses`.
use Prim.Native.Char.{code}
use aws_ops_monitor.Prelude.{
  ℕ, ◌*◌, String, true, false, not, ◌&&◌, ◌||◌, Option, none, some, List, [], ◌∷◌, ◌++◌, any,
  filter, take, length, ltb, leb, ◌==◌, str_eq, if◌then◌else◌,
}
use aws_ops_monitor.Prelude.Int.{ℤ, pos, is_zero}
use aws_ops_monitor.Prelude.Text.{count, is_blank, any_code, starts_lf, split_where, glue_line}
use aws_ops_monitor.Probes.{World, Address, DnsResult}
use aws_ops_monitor.Probes.Handshake.{is_byte_space, bounded_ms}

-- the run of `getent`
pub data Command : Type 0 where
  expired os_error : Command
  finished : ℤ → String → Command

-- `stdout.splitlines()` of bytes
unfoldable pub byte_lines : String → List String
byte_lines String.[] = []
byte_lines (String.◌∷◌ c s) =
    let rest = byte_lines s in
    if (code c == 13) && starts_lf s
    then rest
    else if (code c == 10) || (code c == 13)
    then String.[] ∷ rest
    else glue_line c rest

abbrev pub first_or_empty : List String → String
first_or_empty [] = String.[]
first_or_empty (word ∷ words) = word

-- `raw_line.split(maxsplit=1)[0]`, or nothing
unfoldable pub first_word : String → String
unfolding split_where
first_word line = first_or_empty (filter (λ w. not (is_blank w)) (split_where is_byte_space line))

-- `ipaddress.ip_address(field.decode("ascii"))`
unfoldable pub address_of : World → String → Option Address
unfolding any_code
address_of world field = if any_code (λ c. leb 128 c) field then none else world.ip_address field

abbrev pub add_address : Option Address → List String → List String
add_address none addresses = addresses
add_address (some address) addresses =
    if address.is_global && not (any (str_eq address.text) addresses)
    then addresses ++ address.text ∷ []
    else addresses

-- the loop
unfoldable pub resolve_lines : World → List String → List String → List String
unfolding address_of first_word
resolve_lines world [] addresses = addresses
resolve_lines world (line ∷ lines) addresses =
    let more = add_address (address_of world (first_word line)) addresses in
    let later = resolve_lines world lines more in if leb 4 (length more) then more else later

abbrev pub unresolved : String → ℕ → DnsResult
unresolved reason latency = record {
  succeeded = false;
  addresses = [];
  reason = reason;
  latency_ms = pos latency;
}

abbrev pub resolved : List String → ℕ → DnsResult
resolved [] latency = unresolved "no_global_address" latency
resolved (a ∷ rest) latency = record {
  succeeded = true;
  addresses = a ∷ rest;
  reason = "resolved";
  latency_ms = pos latency;
}

abbrev pub max_dns_output_bytes : ℕ
max_dns_output_bytes = 64 * 1024

-- with the readings of the monotonic clock at the start and at the end
unfoldable pub resolve_public_addresses : World → ℕ → ℕ → Command → DnsResult
unfolding count bounded_ms byte_lines resolve_lines
resolve_public_addresses world started ended expired =
    unresolved "timeout" (bounded_ms started ended)
resolve_public_addresses world started ended os_error =
    unresolved "resolver_unavailable" (bounded_ms started ended)
resolve_public_addresses world started ended (finished returncode stdout) =
    if not (is_zero returncode)
    then unresolved "resolution_failed" (bounded_ms started ended)
    else if ltb max_dns_output_bytes (count stdout)
    then unresolved "response_too_large" (bounded_ms started ended)
    else resolved (resolve_lines world (take 128 (byte_lines stdout)) []) (bounded_ms started ended)
