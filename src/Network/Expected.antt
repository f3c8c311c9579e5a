-- ===== src/Network/Expected.antt =====
-- collectors/network.py: the listeners that the expected ports stand for.
use aws_ops_monitor.Prelude.{
  ℕ, ◌≤◌, ◌≡◌, refl, inl, inr, String, List, [], ◌∷◌, ◌++◌, All, map, ok, arith,
}
use aws_ops_monitor.Prelude.Sorting.{insert_by, sort_by}
use aws_ops_monitor.Models.Snapshots.{ListenerObservation}
use aws_ops_monitor.Network.Policy.{expect_ports, expect_both}
use aws_ops_monitor.Network.Listeners.{IsTransport, IsExposure, listener_observation-ok}

abbrev pub IsPort : ℕ → Type 0
IsPort p = (1 ≤ p) × (p ≤ 65535)

insert_by-IsPort :
    (p : ℕ) (ps : List ℕ) → IsPort p → All IsPort ps → All IsPort (insert_by (λ p. p) p ps)
unfolding insert_by
insert_by-IsPort p [] h hs = (h, tt)
insert_by-IsPort p (q ∷ ps) h (here, rest) = ground (arith, insert_by-IsPort p ps h rest)

pub sort_by-IsPort : (ps : List ℕ) → All IsPort ps → All IsPort (sort_by (λ p. p) ps)
unfolding sort_by
sort_by-IsPort [] h = tt
sort_by-IsPort (p ∷ ps) (here, rest) =
    insert_by-IsPort p (sort_by (λ p. p) ps) here (sort_by-IsPort ps rest)

-- the listener that a port asks for
abbrev pub expected_at : String → String → ℕ → ListenerObservation
expected_at transport exposure port = record {
  transport = transport;
  port = port;
  exposure = exposure;
}

expect_ports-ok :
    (transport exposure : String) (ps : List ℕ)
    → IsTransport transport
    → IsExposure exposure
    → All IsPort ps
    → expect_ports transport exposure ps ≡ ok (map (expected_at transport exposure) ps)
unfolding expect_ports
expect_ports-ok transport exposure [] t e h = refl
expect_ports-ok transport exposure (p ∷ ps) t e (here, rest) =
    let this =
      listener_observation-ok (record { transport = transport; port = p; exposure = exposure })
        (t, here.0, here.1, e) in
    rw (this, expect_ports-ok transport exposure ps t e rest) refl

-- `expected_public` and `expected_loopback`
abbrev pub expected_for : String → List ℕ → List ℕ → List ListenerObservation
expected_for exposure tcp udp =
    map (expected_at "tcp" exposure) (sort_by (λ p. p) tcp)
    ++ map (expected_at "udp" exposure) (sort_by (λ p. p) udp)

pub expect_both-ok :
    (exposure : String) (tcp udp : List ℕ)
    → IsExposure exposure
    → All IsPort tcp
    → All IsPort udp
    → expect_both exposure tcp udp ≡ ok (expected_for exposure tcp udp)
unfolding expect_both
expect_both-ok exposure tcp udp e ht hu =
    rw
      (
        expect_ports-ok "tcp" exposure (sort_by (λ p. p) tcp) (inl refl) e (sort_by-IsPort tcp ht),
        expect_ports-ok "udp" exposure (sort_by (λ p. p) udp) (inr refl) e (sort_by-IsPort udp hu),
      )
      refl
