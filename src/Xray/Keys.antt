-- ===== src/Xray/Keys.antt =====
-- collectors/xray.py: the dictionary of counters keeps its keys apart, and sorting it does too.
use Prim.Native.Nat.{Ordering}
use aws_ops_monitor.Prelude.{
  ◌≡◌, inl, inr, true, false, List, [], ◌∷◌, All, arith, eq_iff, Bool-cases,
}
use aws_ops_monitor.Models.Snapshots.{XrayTrafficCounter}
use aws_ops_monitor.Xray.Stats.{
  compare_counters, same_key, put_counter, insert_counter, sort_counters,
}

-- Each value is under a key of its own.
abbrev pub UniqueKeys : List XrayTrafficCounter → Type 0
UniqueKeys [] = Unit
UniqueKeys (c ∷ cs) = All (λ x. same_key c x ≡ false) cs × UniqueKeys cs

same_key_comm : (a b : XrayTrafficCounter) → same_key a b ≡ false → same_key b a ≡ false
unfolding same_key
same_key_comm a b h = ground (
  arith,
  eq_iff a.scope b.scope,
  eq_iff b.scope a.scope,
  eq_iff a.direction b.direction,
  eq_iff b.direction a.direction,
  eq_iff a.identity_label b.identity_label,
  eq_iff b.identity_label a.identity_label,
  eq_iff a.identity_value b.identity_value,
  eq_iff b.identity_value a.identity_value,
)

same_key_trans :
    (a b c : XrayTrafficCounter) → same_key a b ≡ true → same_key b c ≡ false → same_key a c ≡ false
unfolding same_key
same_key_trans a b c h k = ground (
  arith,
  eq_iff a.scope b.scope,
  eq_iff a.direction b.direction,
  eq_iff a.identity_label b.identity_label,
  eq_iff a.identity_value b.identity_value,
)

All-apart-replace :
    (a b : XrayTrafficCounter) (cs : List XrayTrafficCounter)
    → same_key a b ≡ true
    → All (λ x. same_key b x ≡ false) cs
    → All (λ x. same_key a x ≡ false) cs
All-apart-replace a b [] h hs = tt
All-apart-replace a b (c ∷ cs) h (here, rest) =
    (same_key_trans a b c h here, All-apart-replace a b cs h rest)

pub put_counter-All {κ} :
    (P : XrayTrafficCounter → Type κ) (c : XrayTrafficCounter) (cs : List XrayTrafficCounter)
    → P c
    → All P cs
    → All P (put_counter c cs)
unfolding put_counter
put_counter-All P c [] h hs = (h, tt)
put_counter-All P c (x ∷ xs) h (here, rest) = elim (Bool-cases (same_key c x)) [
  | inl same ↦ rw same (h, rest)
  | inr other ↦ rw other (here, put_counter-All P c xs h rest)
]

insert_counter-All {κ} :
    (P : XrayTrafficCounter → Type κ) (c : XrayTrafficCounter) (cs : List XrayTrafficCounter)
    → P c
    → All P cs
    → All P (insert_counter c cs)
unfolding insert_counter
insert_counter-All P c [] h hs = (h, tt)
insert_counter-All P c (x ∷ xs) h (here, rest) =
    go (compare_counters c x) (insert_counter-All P c xs h rest)
  where
    go :
        (o : Ordering)
        → All P (insert_counter c xs)
        → All P (elim o [ Ordering.gt ↦ x ∷ insert_counter c xs | _ ↦ c ∷ x ∷ xs ])
    go Ordering.gt later = (here, later)
    go Ordering.lt later = (h, (here, rest))
    go Ordering.eq later = (h, (here, rest))

pub sort_counters-All {κ} :
    (P : XrayTrafficCounter → Type κ) (cs : List XrayTrafficCounter)
    → All P cs
    → All P (sort_counters cs)
unfolding sort_counters
sort_counters-All P [] hs = tt
sort_counters-All P (c ∷ cs) (here, rest) =
    insert_counter-All P c (sort_counters cs) here (sort_counters-All P cs rest)

pub put_counter-UniqueKeys :
    (c : XrayTrafficCounter) (cs : List XrayTrafficCounter)
    → UniqueKeys cs
    → UniqueKeys (put_counter c cs)
unfolding put_counter
put_counter-UniqueKeys c [] h = (tt, tt)
put_counter-UniqueKeys c (x ∷ xs) (apart, rest) = elim (Bool-cases (same_key c x)) [
  | inl same ↦ rw same (All-apart-replace c x xs same apart, rest)
  | inr other ↦ rw other (
    put_counter-All (λ y. same_key x y ≡ false) c xs (same_key_comm c x other) apart,
    put_counter-UniqueKeys c xs rest,
  )
]

insert_counter-UniqueKeys :
    (c : XrayTrafficCounter) (cs : List XrayTrafficCounter)
    → All (λ x. same_key c x ≡ false) cs
    → UniqueKeys cs
    → UniqueKeys (insert_counter c cs)
unfolding insert_counter
insert_counter-UniqueKeys c [] h hs = (tt, tt)
insert_counter-UniqueKeys c (x ∷ xs) (other, h) (apart, rest) =
    go (compare_counters c x) (insert_counter-UniqueKeys c xs h rest)
      (insert_counter-All (λ y. same_key x y ≡ false) c xs (same_key_comm c x other) apart)
  where
    go :
        (o : Ordering)
        → UniqueKeys (insert_counter c xs)
        → All (λ y. same_key x y ≡ false) (insert_counter c xs)
        → UniqueKeys (elim o [ Ordering.gt ↦ x ∷ insert_counter c xs | _ ↦ c ∷ x ∷ xs ])
    go Ordering.gt later all = (all, later)
    go Ordering.lt later all = ((other, h), (apart, rest))
    go Ordering.eq later all = ((other, h), (apart, rest))

pub sort_counters-UniqueKeys :
    (cs : List XrayTrafficCounter) → UniqueKeys cs → UniqueKeys (sort_counters cs)
unfolding sort_counters
sort_counters-UniqueKeys [] h = tt
sort_counters-UniqueKeys (c ∷ cs) (apart, rest) =
    insert_counter-UniqueKeys c (sort_counters cs)
      (sort_counters-All (λ x. same_key c x ≡ false) cs apart) (sort_counters-UniqueKeys cs rest)
