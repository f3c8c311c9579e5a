-- ===== src/Config/Ports.antt =====
-- config.py: the lists of ports, as `_parse_ports` makes them and `__post_init__` wants them.
use mathlib.Core.Path.{subst}
use aws_ops_monitor.Prelude.{
  sym, Error, ◌>>◌, ℕ, ◌<◌, ◌≡◌, refl, ◌↔◌, String, Bool, true, false, not, List, [], ◌∷◌, All, all,
  Result, ok, err, arith, bind-ok, ◌>>=◌, ◌&&◌, raise_if, leb, if◌then◌else◌,
}
use aws_ops_monitor.Prelude.Text.{
  int_refuses, is_blank, is_decimal, digits_value, is_space, strip, split_on,
}
use aws_ops_monitor.Network.Expected.{IsPort}
use aws_ops_monitor.Config.Values.{
  int_error, says, insert_port, sorted_set, parse_port_items, parse_ports,
}
use aws_ops_monitor.Config.Checks.{same_ports, check_port_list}

-- each port is below all later ones
abbrev pub IsSorted : List ℕ → Type 0
IsSorted [] = Unit
IsSorted (p ∷ ps) = All (λ q. p < q) ps × IsSorted ps

insert_port-All_lt :
    (r p : ℕ) (ps : List ℕ) → r < p → All (λ q. r < q) ps → All (λ q. r < q) (insert_port p ps)
unfolding insert_port
insert_port-All_lt r p [] h hs = (h, tt)
insert_port-All_lt r p (q ∷ ps) h (here, rest) = ground (arith, insert_port-All_lt r p ps h rest)

All-lt_trans : (p q : ℕ) (ps : List ℕ) → p < q → All (λ r. q < r) ps → All (λ r. p < r) ps
All-lt_trans p q [] h hs = tt
All-lt_trans p q (r ∷ ps) h (here, rest) = (omega (arith, h, here), All-lt_trans p q ps h rest)

insert_port-IsSorted : (p : ℕ) (ps : List ℕ) → IsSorted ps → IsSorted (insert_port p ps)
unfolding insert_port
insert_port-IsSorted p [] h = (tt, tt)
insert_port-IsSorted p (q ∷ ps) (here, rest) =
    ground (arith, insert_port-IsSorted p ps rest, insert_port-All_lt q p ps, All-lt_trans p q ps)

sorted_set-IsSorted : (ps : List ℕ) → IsSorted (sorted_set ps)
unfolding sorted_set
sorted_set-IsSorted [] = tt
sorted_set-IsSorted (p ∷ ps) = insert_port-IsSorted p (sorted_set ps) (sorted_set-IsSorted ps)

-- A sorted list is its own sorted set.
insert_port-first : (p : ℕ) (ps : List ℕ) → All (λ q. p < q) ps → insert_port p ps ≡ p ∷ ps
unfolding insert_port
insert_port-first p [] h = refl
insert_port-first p (q ∷ ps) (here, rest) = ground arith

sorted_set-IsSorted_eq : (ps : List ℕ) → IsSorted ps → sorted_set ps ≡ ps
unfolding sorted_set
sorted_set-IsSorted_eq [] h = refl
sorted_set-IsSorted_eq (p ∷ ps) (here, rest) =
    rw (sorted_set-IsSorted_eq ps rest) (insert_port-first p ps here)

same_ports_iff : (ps qs : List ℕ) → (same_ports ps qs ≡ true) ↔ (ps ≡ qs)
unfolding same_ports
same_ports_iff [] [] = ground arith
same_ports_iff [] (q ∷ qs) = ground arith
same_ports_iff (p ∷ ps) [] = ground arith
same_ports_iff (p ∷ ps) (q ∷ qs) = ground (arith, same_ports_iff ps qs)

all-IsPort_iff : (ps : List ℕ) → (all (λ p. leb 1 p && leb p 65535) ps ≡ true) ↔ All IsPort ps
all-IsPort_iff [] = (λ h. tt, λ h. refl)
all-IsPort_iff (p ∷ ps) = ground (arith, all-IsPort_iff ps)

-- the constructor's test on a list of ports
pub check_port_list-ok_iff :
    (name : String) (ps : List ℕ)
    → (check_port_list name ps ≡ ok tt) ↔ (IsSorted ps × All IsPort ps)
unfolding check_port_list
check_port_list-ok_iff name ps = ground (
  arith,
  all-IsPort_iff ps,
  same_ports_iff (sorted_set ps) ps,
  sorted_set-IsSorted ps,
  sorted_set-IsSorted_eq ps,
)

insert_port-IsPort :
    (p : ℕ) (ps : List ℕ) → IsPort p → All IsPort ps → All IsPort (insert_port p ps)
unfolding insert_port
insert_port-IsPort p [] h hs = (h, tt)
insert_port-IsPort p (q ∷ ps) h (here, rest) = ground (arith, insert_port-IsPort p ps h rest)

sorted_set-IsPort : (ps : List ℕ) → All IsPort ps → All IsPort (sorted_set ps)
unfolding sorted_set
sorted_set-IsPort [] h = tt
sorted_set-IsPort (p ∷ ps) (here, rest) =
    insert_port-IsPort p (sorted_set ps) here (sorted_set-IsPort ps rest)

item_ok :
    (port : ℕ) (bad long : Bool) (e f g : Error) (rest : Result (List ℕ)) (ps : List ℕ)
    → (raise_if bad e
        >> (raise_if long f
            >> (raise_if (not (leb 1 port && leb port 65535)) g
                >> (rest >>= λ ports. ok (port ∷ ports)))))
      ≡ ok ps
    → (qs : List ℕ) × (rest ≡ ok qs) × (ps ≡ port ∷ qs) × IsPort port
item_ok port bad long e f g (ok qs) ps h = (qs, refl, ground arith, ground arith)
item_ok port bad long e f g (err x) ps h = ground arith

parse_port_items-IsPort :
    (name : String) (items : List String) (ps : List ℕ)
    → parse_port_items name items ≡ ok ps
    → All IsPort ps
unfolding parse_port_items
parse_port_items-IsPort name [] ps h = let same : [] ≡ ps = cc h in subst (All IsPort) same tt
parse_port_items-IsPort name (item ∷ items) ps h =
    let (qs, rest, same, port) =
      item_ok (digits_value 0 (strip is_space item)) (not (is_decimal (strip is_space item)))
        (int_refuses (strip is_space item)) (says name " must be a comma-separated list of ports")
        int_error (says name " contains a port outside 1-65535") (parse_port_items name items) ps
        h in
    subst (All IsPort) (sym same) (port, parse_port_items-IsPort name items qs rest)

-- The list that the parser returns, of whatever text, is one that the constructor accepts.
pub parse_ports-check_port_list :
    (variable field raw : String) (ps : List ℕ)
    → parse_ports variable raw ≡ ok ps
    → check_port_list field ps ≡ ok tt
unfolding parse_ports
parse_ports-check_port_list variable field raw ps h =
    (check_port_list-ok_iff field ps).1 (ports_of (is_blank (strip is_space raw)) h)
  where
    ports_of :
        (blank : Bool)
        → (if blank
            then ok []
            else (parse_port_items variable (split_on b',' raw) >>= λ ports. ok (sorted_set ports)))
          ≡ ok ps
        → IsSorted ps × All IsPort ps
    ports_of true e = ground arith
    ports_of false e =
        let (ports, parsed, same) = bind-ok (parse_port_items variable (split_on b',' raw)) _ e in
        let set : sorted_set ports ≡ ps = cc same in
        (
          subst IsSorted set (sorted_set-IsSorted ports),
          subst (All IsPort) set (
              sorted_set-IsPort ports
                (parse_port_items-IsPort variable (split_on b',' raw) ports parsed)),
        )
