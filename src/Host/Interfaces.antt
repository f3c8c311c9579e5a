-- ===== src/Host/Interfaces.antt =====
-- collectors/host.py: the interfaces that `parse_proc_net_dev` returns have names that are labels.
use Prim.Native.Nat.{Ordering}
use mathlib.Core.Path.{subst}
use aws_ops_monitor.Prelude.{
  ℕ, ◌≡◌, refl, sym, String, Bool, true, false, Option, none, some, List, [], ◌∷◌, All, arith,
  if◌then◌else◌, Bool-cases, inl, inr, length, ◌==◌, take,
}
use aws_ops_monitor.Prelude.Text.{
  split_colon, words, any_code, all_codes, is_space, strip, splitlines, compare_text,
}
use aws_ops_monitor.Models.{is_control, InterfaceCounters}
use aws_ops_monitor.Collector.Conversion.{IsLabelValue}
use aws_ops_monitor.Host.Proc.{
  naturals, is_interface_code, is_interface_name, counters_of, interface_of, with_interface,
  line_interfaces, interfaces_of, insert_interface, sort_interfaces, some_interfaces,
  parse_proc_net_dev,
}

codes_plain : (t : String) → all_codes is_interface_code t ≡ true → any_code is_control t ≡ false
unfolding all_codes any_code
codes_plain String.[] e = refl
codes_plain (String.◌∷◌ c t) e = ground (arith, e, codes_plain t)

pub is_interface_name-IsLabelValue : (s : String) → is_interface_name s ≡ true → IsLabelValue s
unfolding is_interface_name
is_interface_name-IsLabelValue s h = (ground (arith, h), codes_plain s (ground (arith, h)))

-- the name of an interface is one that the pattern admits
abbrev pub IsNamed : InterfaceCounters → Type 0
IsNamed i = is_interface_name i.name ≡ true

insert_interface-All :
    (i : InterfaceCounters) (is : List InterfaceCounters)
    → IsNamed i
    → All IsNamed is
    → All IsNamed (insert_interface i is)
unfolding insert_interface
insert_interface-All i [] h hs = (h, tt)
insert_interface-All i (x ∷ xs) h (here, rest) =
    go (compare_text i.name x.name) (insert_interface-All i xs h rest)
  where
    go :
        (o : Ordering)
        → All IsNamed (insert_interface i xs)
        → All IsNamed (elim o [ Ordering.gt ↦ x ∷ insert_interface i xs | _ ↦ i ∷ x ∷ xs ])
    go Ordering.gt later = (here, later)
    go Ordering.lt later = (h, (here, rest))
    go Ordering.eq later = (h, (here, rest))

sort_interfaces-All :
    (is : List InterfaceCounters) → All IsNamed is → All IsNamed (sort_interfaces is)
unfolding sort_interfaces
sort_interfaces-All [] hs = tt
sort_interfaces-All (i ∷ is) (here, rest) =
    insert_interface-All i (sort_interfaces is) here (sort_interfaces-All is rest)

counters_of-name :
    (name : String) (values : Option (List ℕ)) (i : InterfaceCounters)
    → counters_of name values ≡ some i
    → i.name ≡ name
counters_of-name name none i h = cc h
counters_of-name name (some values) i h = elim (Bool-cases (length values == 16)) [
  | inl e ↦ ground (arith, h, e)
  | inr e ↦ ground (arith, h, e)
]

interface_of-name :
    (name raw_values : String) (i : InterfaceCounters)
    → interface_of name raw_values ≡ some i
    → i.name ≡ name
unfolding interface_of
interface_of-name name raw_values i h =
    counters_of-name name (naturals (take 16 (words raw_values))) i h

line_interfaces-All :
    (line : Option (String × String)) (later : Option (List InterfaceCounters))
    (is : List InterfaceCounters)
    → ((js : List InterfaceCounters) → later ≡ some js → All IsNamed js)
    → line_interfaces line later ≡ some is
    → All IsNamed is
unfolding line_interfaces
line_interfaces-All none later is f h = f is h
line_interfaces-All (some (raw_name, raw_values)) later is f h =
    go (is_interface_name name) (interface_of name raw_values) later refl refl f h
  where
    name : String
    name = strip is_space raw_name

    go :
        (valid : Bool) (found : Option InterfaceCounters) (rest : Option (List InterfaceCounters))
        → is_interface_name name ≡ valid
        → interface_of name raw_values ≡ found
        → ((js : List InterfaceCounters) → rest ≡ some js → All IsNamed js)
        → (if valid then with_interface found rest else rest) ≡ some is
        → All IsNamed is
    go false found rest e k g x = g is x
    go true none rest e k g x = cc x
    go true (some i) none e k g x = cc x
    go true (some i) (some js) e k g x =
        let same : i ∷ js ≡ is = cc x in
        let named : i.name ≡ name = interface_of-name name raw_values i k in
        subst (All IsNamed) same (subst (λ n. is_interface_name n ≡ true) (sym named) e, g js refl)

interfaces_of-All :
    (lines : List String) (is : List InterfaceCounters)
    → interfaces_of lines ≡ some is
    → All IsNamed is
unfolding interfaces_of
interfaces_of-All [] is h = let same : [] ≡ is = cc h in subst (All IsNamed) same tt
interfaces_of-All (line ∷ lines) is h =
    line_interfaces-All (split_colon line) (interfaces_of lines) is
      (λ js e. interfaces_of-All lines js e) h

some_interfaces-All :
    (o : Option (List InterfaceCounters)) (is : List InterfaceCounters)
    → ((js : List InterfaceCounters) → o ≡ some js → All IsNamed js)
    → some_interfaces o ≡ some is
    → All IsNamed is
unfolding some_interfaces
some_interfaces-All none is f h = cc h
some_interfaces-All (some []) is f h = cc h
some_interfaces-All (some (j ∷ js)) is f h =
    let same : sort_interfaces (j ∷ js) ≡ is = cc h in
    subst (All IsNamed) same (sort_interfaces-All (j ∷ js) (f (j ∷ js) refl))

-- Every interface has a name that the pattern admits.
pub parse_proc_net_dev-IsNamed :
    (contents : String) (is : List InterfaceCounters)
    → parse_proc_net_dev contents ≡ some is
    → All IsNamed is
unfolding parse_proc_net_dev
parse_proc_net_dev-IsNamed contents is h =
    some_interfaces-All (interfaces_of (splitlines contents)) is
      (λ js e. interfaces_of-All (splitlines contents) js e) h
