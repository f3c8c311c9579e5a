-- ===== src/Network/Parse.antt =====
-- collectors/network.py: `parse_ss_listeners` and `_classify_endpoint`.
use Prim.Native.Nat.{Ordering, compare as compare_ℕ}
use Prim.Native.String.{compare}
use aws_ops_monitor.Prelude.{
  any, false, raise_if, value_error, ◌>>◌, ℕ, String, Bool, not, ◌&&◌, ◌||◌, Option, none, some,
  List, [], ◌∷◌, Result, ok, ◌>>=◌, leb, if◌then◌else◌, take, ◌==◌,
}
use aws_ops_monitor.Prelude.Text.{
  then_by, count, int_refuses, is_decimal, digits_value, lower_is, upper_is, words, splitlines,
  rpartition, strip, before,
}
use aws_ops_monitor.Models.Snapshots.{ListenerObservation, listener_observation}
use aws_ops_monitor.Network.{IpParser}

-- an element of the set of listeners
pub record Listener : Type 0 where
  pub transport : String
  pub port : ℕ
  pub exposure : String

abbrev is_bracket : ℕ → Bool
is_bracket c = b'[' == c || b']' == c

-- the address without its brackets and its zone
unfoldable pub bare_address : String → String
unfolding before
bare_address address = before b'%' (strip is_bracket address)

unfoldable pub address_exposure : IpParser → String → String
address_exposure ip_address address =
    if lower_is address "localhost" then "loopback" else elim (ip_address address) [
      | none ↦ "public"
      | some ip ↦
          if ip.is_loopback then "loopback" else if ip.is_link_local then "link_local" else "public"
    ]

unfoldable pub classify_endpoint : IpParser → String → Option (ℕ × String)
unfolding rpartition is_decimal digits_value bare_address address_exposure
classify_endpoint ip_address endpoint = elim (rpartition b':' endpoint) [
  | none ↦ none
  | some (address, raw_port) ↦
      let port = digits_value 0 raw_port in
      if not (is_decimal raw_port) || not (leb 1 port && leb port 65535)
      then none
      else some (port, address_exposure ip_address (bare_address address))
]

-- the transport and the endpoint of a line, by its fields
unfoldable pub line_endpoint : List String → Option (String × String)
line_endpoint (kind ∷ f1 ∷ f2 ∷ f3 ∷ f4 ∷ rest) =
    if lower_is kind "tcp"
    then some ("tcp", f4)
    else if lower_is kind "udp"
    then some ("udp", f4)
    else if upper_is kind "LISTEN"
    then some ("tcp", f3)
    else if upper_is kind "UNCONN"
    then some ("udp", f3)
    else none
line_endpoint (kind ∷ f1 ∷ f2 ∷ f3 ∷ []) =
    if upper_is kind "LISTEN"
    then some ("tcp", f3)
    else if upper_is kind "UNCONN"
    then some ("udp", f3)
    else none
line_endpoint _ = none

unfoldable pub line_listener : IpParser → String → Option Listener
unfolding words line_endpoint classify_endpoint
line_listener ip_address line = elim (line_endpoint (words line)) [
  | none ↦ none
  | some (transport, endpoint) ↦ elim (classify_endpoint ip_address endpoint) [
    | none ↦ none
    | some (port, exposure) ↦
        some (record { transport = transport; port = port; exposure = exposure })
  ]
]

-- the sort key `(exposure, port, transport)`
unfoldable pub compare_listeners : Listener → Listener → Ordering
compare_listeners a b =
    then_by (compare a.exposure b.exposure)
      (then_by (compare_ℕ a.port b.port) (compare a.transport b.transport))

-- The set as its sorted list: an element that is there already is not added.
unfoldable pub add_listener : Listener → List Listener → List Listener
unfolding compare_listeners
add_listener l [] = l ∷ []
add_listener l (m ∷ ms) = elim (compare_listeners l m) [
  | Ordering.lt ↦ l ∷ m ∷ ms
  | Ordering.eq ↦ m ∷ ms
  | Ordering.gt ↦ m ∷ add_listener l ms
]

abbrev pub add_line : Option Listener → List Listener → List Listener
add_line none ms = ms
add_line (some l) ms = add_listener l ms

unfoldable pub listener_set : IpParser → List String → List Listener
unfolding line_listener add_listener
listener_set ip_address [] = []
listener_set ip_address (line ∷ lines) =
    add_line (line_listener ip_address line) (listener_set ip_address lines)

-- the constructor of each element
unfoldable pub observe_all : List Listener → Result (List ListenerObservation)
observe_all [] = ok []
observe_all (l ∷ ls) = do
  o ← listener_observation l.transport l.port l.exposure
  os ← observe_all ls
  ok (o ∷ os)

-- `int(raw_port)` raises
unfoldable pub line_raises : String → Bool
unfolding words line_endpoint rpartition is_decimal count
line_raises line = elim (line_endpoint (words line)) [
  | none ↦ false
  | some (transport, endpoint) ↦ elim (rpartition b':' endpoint) [
    | none ↦ false
    | some (address, raw_port) ↦ is_decimal raw_port && int_refuses raw_port
  ]
]

-- The exception of a line leaves the loop, before any listener is built.
unfoldable pub parse_ss_listeners : IpParser → String → Result (List ListenerObservation)
unfolding splitlines listener_set observe_all line_raises
parse_ss_listeners ip_address payload = do
  let lines = take 4096 (splitlines payload)
  raise_if (any line_raises lines) (value_error "Exceeds the limit for integer string conversion")
  observe_all (listener_set ip_address lines)
