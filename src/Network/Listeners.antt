-- ===== src/Network/Listeners.antt =====
-- collectors/network.py: the listeners that are parsed, and what the policy says of them.
use Prim.Native.Nat.{Ordering}
use aws_ops_monitor.Prelude.{
  any, false, ℕ, ◌≤◌, ◌≡◌, refl, ◌⊎◌, inl, inr, ◌↔◌, String, Option, none, some, List, [], ◌∷◌, All,
  map, take, ok, Any, arith, eq_iff,
}
use aws_ops_monitor.Prelude.Text.{splitlines, words}
use aws_ops_monitor.Models.Snapshots.{ListenerObservation, listener_observation}
use aws_ops_monitor.Network.{IpParser}
use aws_ops_monitor.Network.Parse.{
  Listener, address_exposure, classify_endpoint, line_endpoint, line_listener, add_listener,
  add_line, compare_listeners, listener_set, observe_all, line_raises, parse_ss_listeners,
}

-- the fields that the constructor accepts
abbrev pub IsTransport : String → Type 0
IsTransport t = (t ≡ "tcp") ⊎ (t ≡ "udp")

abbrev pub IsExposure : String → Type 0
IsExposure e = (e ≡ "loopback") ⊎ (e ≡ "link_local") ⊎ (e ≡ "public")

abbrev pub IsListener : Listener → Type 0
IsListener l = IsTransport l.transport × (1 ≤ l.port) × (l.port ≤ 65535) × IsExposure l.exposure

address_exposure-IsExposure :
    (ip_address : IpParser) (address : String) → IsExposure (address_exposure ip_address address)
unfolding address_exposure
address_exposure-IsExposure ip_address address = ground arith

classify_endpoint-bounds :
    (ip_address : IpParser) (endpoint : String) (port : ℕ) (exposure : String)
    → classify_endpoint ip_address endpoint ≡ some (port, exposure)
    → (1 ≤ port) × (port ≤ 65535) × IsExposure exposure
unfolding classify_endpoint
classify_endpoint-bounds ip_address endpoint port exposure h =
    ground (arith, address_exposure-IsExposure ip_address)

line_endpoint-IsTransport :
    (fields : List String) (transport endpoint : String)
    → line_endpoint fields ≡ some (transport, endpoint)
    → IsTransport transport
unfolding line_endpoint
line_endpoint-IsTransport fields transport endpoint h = ground arith

pub listener_observation-ok :
    (l : Listener)
    → IsListener l
    → listener_observation l.transport l.port l.exposure
      ≡ ok (record { transport = l.transport; port = l.port; exposure = l.exposure })
unfolding listener_observation
listener_observation-ok l (t, low, high, e) = ground (
  arith,
  eq_iff l.transport "tcp",
  eq_iff l.transport "udp",
  eq_iff l.exposure "loopback",
  eq_iff l.exposure "link_local",
  eq_iff l.exposure "public",
)

line_listener-IsListener :
    (ip_address : IpParser) (line : String) (l : Listener)
    → line_listener ip_address line ≡ some l
    → IsListener l
unfolding line_listener
line_listener-IsListener ip_address line l h =
    ground (arith, line_endpoint-IsTransport (words line), classify_endpoint-bounds ip_address)

add_listener-IsListener :
    (l : Listener) (ms : List Listener)
    → IsListener l
    → All IsListener ms
    → All IsListener (add_listener l ms)
unfolding add_listener
add_listener-IsListener l [] h hs = (h, tt)
add_listener-IsListener l (m ∷ ms) h (here, rest) =
    ground (arith, add_listener-IsListener l ms h rest)

compare_listeners-eq : (l m : Listener) → compare_listeners l m ≡ Ordering.eq → l ≡ m
unfolding compare_listeners
compare_listeners-eq l m h =
    let fields : (l.exposure ≡ m.exposure) × (l.port ≡ m.port) × (l.transport ≡ m.transport) =
      ground (arith, eq_iff l.exposure m.exposure, eq_iff l.transport m.transport) in
    rw (fields.0, fields.1, fields.2) refl

add_listener-Any_iff :
    (k l : Listener) (ms : List Listener)
    → Any (λ m. k ≡ m) (add_listener l ms) ↔ ((k ≡ l) ⊎ Any (λ m. k ≡ m) ms)
unfolding add_listener
add_listener-Any_iff k l [] = (λ h. h, λ h. h)
add_listener-Any_iff k l (m ∷ ms) =
    ground (arith, add_listener-Any_iff k l ms, compare_listeners-eq l m)

add_line-lem :
    (o : Option Listener) (ms : List Listener)
    → ((l : Listener) → o ≡ some l → IsListener l)
    → All IsListener ms
    → All IsListener (add_line o ms)
      × ((k : Listener) → Any (λ m. k ≡ m) (add_line o ms) ↔ ((o ≡ some k) ⊎ Any (λ m. k ≡ m) ms))
add_line-lem none ms h hs = (hs, λ k. ground arith)
add_line-lem (some l) ms h hs =
    (add_listener-IsListener l ms (h l refl) hs, λ k. ground (arith, add_listener-Any_iff k l ms))

listener_set-IsListener :
    (ip_address : IpParser) (lines : List String) → All IsListener (listener_set ip_address lines)
unfolding listener_set
listener_set-IsListener ip_address [] = tt
listener_set-IsListener ip_address (line ∷ lines) =
    (add_line-lem (line_listener ip_address line) (listener_set ip_address lines)
      (line_listener-IsListener ip_address line) (listener_set-IsListener ip_address lines)).0

listener_set-Any_iff :
    (ip_address : IpParser) (lines : List String) (k : Listener)
    → Any (λ m. k ≡ m) (listener_set ip_address lines)
      ↔ Any (λ line. line_listener ip_address line ≡ some k) lines
unfolding listener_set
listener_set-Any_iff ip_address [] k = (λ h. h, λ h. h)
listener_set-Any_iff ip_address (line ∷ lines) k =
    let step =
      (add_line-lem (line_listener ip_address line) (listener_set ip_address lines)
          (line_listener-IsListener ip_address line) (listener_set-IsListener ip_address lines)).1
        k in
    let rest = listener_set-Any_iff ip_address lines k in
    (λ h. go rest.0 (step.0 h), λ h. step.1 (go rest.1 h))
  where
    go : {A B C : Type 0} → (B → C) → A ⊎ B → A ⊎ C
    go f (inl a) = inl a
    go f (inr b) = inr (f b)

abbrev pub observe : Listener → ListenerObservation
observe l = record { transport = l.transport; port = l.port; exposure = l.exposure }

observe_all-ok : (ls : List Listener) → All IsListener ls → observe_all ls ≡ ok (map observe ls)
unfolding observe_all
observe_all-ok [] h = refl
observe_all-ok (l ∷ ls) (here, rest) =
    rw (listener_observation-ok l here, observe_all-ok ls rest) refl

-- Whatever `ss` prints, if none of the first 4096 lines has a port of more than 4300 digits, the
-- output is parsed without an exception: the result has exactly the listeners that one of these lines
-- stands for, and each has a port from 1 to 65535, a transport and an exposure that the constructor
-- accepts.
pub parse_ss_listeners-lines :
    (ip_address : IpParser) (payload : String)
    → any line_raises (take 4096 (splitlines payload)) ≡ false
    → (ls : List Listener) × (parse_ss_listeners ip_address payload ≡ ok (map observe ls))
      × All IsListener ls
      × ((k : Listener)
          → Any (λ l. k ≡ l) ls
            ↔ Any (λ line. line_listener ip_address line ≡ some k) (take 4096 (splitlines payload)))
unfolding parse_ss_listeners
parse_ss_listeners-lines ip_address payload short =
    let lines = take 4096 (splitlines payload) in
    let valid = listener_set-IsListener ip_address lines in
    (
      listener_set ip_address lines,
      rw short (observe_all-ok (listener_set ip_address lines) valid),
      valid,
      listener_set-Any_iff ip_address lines,
    )
