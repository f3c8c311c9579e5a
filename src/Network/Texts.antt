-- ===== src/Network/Texts.antt =====
-- collectors/network.py: `_listener_text` stays within what a health detail may hold.
use Prim.Native.String
use aws_ops_monitor.Prelude.{
  ℕ, suc, ◌≤◌, ◌≡◌, refl, zero, inl, inr, String, List, [], ◌∷◌, ◌++◌, All, All-append, map, take,
  length, length-append, length-take-le, arith, ltb, if◌then◌else◌,
}
use aws_ops_monitor.Prelude.Text.{count, join_with}
use aws_ops_monitor.Prelude.Bounds.{count-append, join_with-bound}
use aws_ops_monitor.Models.Snapshots.{ListenerObservation}
use aws_ops_monitor.Network.Listeners.{IsTransport}
use aws_ops_monitor.Network.Policy.{port_text, listener_text}

-- What is asked of a listener for its text to be short; `str` of a port has at most five digits.
abbrev pub HasShortText : (ℕ → String) → ListenerObservation → Type 0
HasShortText digits l = (count (digits l.port) ≤ 5) × IsTransport l.transport

slash_count : count "/" ≡ 1
unfolding count
slash_count = refl

transport-bound : (t : String) → IsTransport t → count t ≤ 3
unfolding count
transport-bound t (inl e) = rw e (omega arith)
transport-bound t (inr e) = rw e (omega arith)

port_text-bound :
    (digits : ℕ → String) (l : ListenerObservation)
    → HasShortText digits l
    → count (port_text digits l) ≤ 9
port_text-bound digits l (short, t) = omega (
  arith,
  short,
  transport-bound l.transport t,
  slash_count,
  count-append (digits l.port) (String.◌++◌ "/" l.transport),
  count-append "/" l.transport,
)

port_texts-bound :
    (digits : ℕ → String) (ls : List ListenerObservation)
    → All (HasShortText digits) ls
    → All (λ t. count t ≤ 9) (map (port_text digits) ls)
port_texts-bound digits [] h = tt
port_texts-bound digits (l ∷ ls) (here, rest) =
    (port_text-bound digits l here, port_texts-bound digits ls rest)

All-take :
    (n : ℕ) (ts : List String) → All (λ t. count t ≤ 9) ts → All (λ t. count t ≤ 9) (take n ts)
All-take zero ts h = tt
All-take (suc n) [] h = tt
All-take (suc n) (t ∷ ts) (here, rest) = (here, All-take n ts rest)

more_bound : All (λ t. count t ≤ 9) ("more" ∷ [])
unfolding count
more_bound = (omega arith, tt)

limited-bound :
    (values : List String)
    → All (λ t. count t ≤ 9) values
    → count
        (join_with "," (if ltb 32 (length values) then take 32 values ++ "more" ∷ [] else values))
      ≤ 512
limited-bound values h =
    let front = take 32 values ++ "more" ∷ [] in
    ground (
      arith,
      join_with-bound 9 front (
          All-append (λ t. count t ≤ 9) (take 32 values) ("more" ∷ []) (All-take 32 values h)
            more_bound),
      join_with-bound 9 values h,
      length-append (take 32 values) ("more" ∷ []),
      length-take-le 32 values,
    )

pub listener_text-bound :
    (digits : ℕ → String) (ls : List ListenerObservation)
    → All (HasShortText digits) ls
    → count (listener_text digits ls) ≤ 512
unfolding listener_text
listener_text-bound digits ls h =
    limited-bound (map (port_text digits) ls) (port_texts-bound digits ls h)
