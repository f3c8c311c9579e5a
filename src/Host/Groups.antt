-- ===== src/Host/Groups.antt =====
-- collectors/host.py: the text of `failed_groups`, which collector.py splits again.
use Prim.Native.Nat.{Ordering}
use Prim.Native.Char.{code}
use Prim.Native.String
use Prim.Native.String.append
use aws_ops_monitor.Prelude.{
  ℕ, suc, ◌≤◌, ◌≡◌, refl, ap, ◌∙◌, String, Bool, true, false, ◌||◌, List, [], ◌∷◌, any, All,
  All-map, length, arith, ◌==◌, str_eq, eq_iff, Bool-cases, inl, inr,
}
use aws_ops_monitor.Prelude.Text.{is_blank, count, any_code, split_on, join_with, compare_text}
use aws_ops_monitor.Prelude.Bounds.{join_with-bound}
use aws_ops_monitor.Host.Collect.{insert_name, sort_names, failed_text}

abbrev pub is_comma : ℕ → Bool
is_comma c = c == b','

neither : (a b : Bool) → (a || b) ≡ false → (a ≡ false) × (b ≡ false)
neither true b h = cc h
neither false b h = (refl, h)

comma-append : (rest : String) → String.◌++◌ "," rest ≡ String.◌∷◌ "," rest
comma-append rest = append.cons "," String.[] rest ∙ ap (String.◌∷◌ ",") (append.nil rest)

split_on-piece : (t : String) → any_code is_comma t ≡ false → split_on b',' t ≡ t ∷ []
unfolding any_code split_on
split_on-piece String.[] h = refl
split_on-piece (String.◌∷◌ c t) h =
    let (here, rest) = neither (code c == b',') (any_code is_comma t) h in
    rw (here, split_on-piece t rest) refl

split_on-comma :
    (t rest : String)
    → any_code is_comma t ≡ false
    → split_on b',' (String.◌++◌ t (String.◌++◌ "," rest)) ≡ t ∷ split_on b',' rest
unfolding any_code split_on
split_on-comma String.[] rest h =
    ap (split_on b',') (append.nil (String.◌++◌ "," rest) ∙ comma-append rest)
split_on-comma (String.◌∷◌ c t) rest h =
    let (here, later) = neither (code c == b',') (any_code is_comma t) h in
    ap (split_on b',') (append.cons c t (String.◌++◌ "," rest))
    ∙ rw (here, split_on-comma t rest later) refl

pub split_on-join_with :
    (t : String) (ts : List String)
    → All (λ x. any_code is_comma x ≡ false) (t ∷ ts)
    → split_on b',' (join_with "," (t ∷ ts)) ≡ t ∷ ts
unfolding join_with
split_on-join_with t [] (here, rest) = split_on-piece t here
split_on-join_with t (u ∷ us) (here, rest) =
    split_on-comma t (join_with "," (u ∷ us)) here
    ∙ ap (λ xs. t ∷ xs) (split_on-join_with u us rest)

module _ {κ} (P : String → Type κ) where
  insert_name-All : (x : String) (xs : List String) → P x → All P xs → All P (insert_name x xs)
  unfolding insert_name
  insert_name-All x [] h hs = (h, tt)
  insert_name-All x (y ∷ ys) h (here, rest) = go (compare_text x y) (insert_name-All x ys h rest)
    where
      go :
          (o : Ordering)
          → All P (insert_name x ys)
          → All P (elim o [ Ordering.gt ↦ y ∷ insert_name x ys | _ ↦ x ∷ y ∷ ys ])
      go Ordering.gt later = (here, later)
      go Ordering.lt later = (h, (here, rest))
      go Ordering.eq later = (h, (here, rest))

  pub sort_names-All : (xs : List String) → All P xs → All P (sort_names xs)
  unfolding sort_names
  sort_names-All [] hs = tt
  sort_names-All (x ∷ xs) (here, rest) =
      insert_name-All x (sort_names xs) here (sort_names-All xs rest)

any-insert_name :
    (p : String → Bool) (x : String) (xs : List String)
    → any p (insert_name x xs) ≡ (p x || any p xs)
unfolding insert_name
any-insert_name p x [] = refl
any-insert_name p x (y ∷ ys) = go (compare_text x y) (any-insert_name p x ys)
  where
    go :
        (o : Ordering)
        → any p (insert_name x ys) ≡ (p x || any p ys)
        → any p (elim o [ Ordering.gt ↦ y ∷ insert_name x ys | _ ↦ x ∷ y ∷ ys ])
          ≡ (p x || (p y || any p ys))
    go Ordering.gt later = ground (arith, later)
    go Ordering.lt later = refl
    go Ordering.eq later = refl

pub any-sort_names : (p : String → Bool) (xs : List String) → any p (sort_names xs) ≡ any p xs
unfolding sort_names
any-sort_names p [] = refl
any-sort_names p (x ∷ xs) =
    any-insert_name p x (sort_names xs) ∙ ap (λ b. p x || b) (any-sort_names p xs)

length-insert_name : (x : String) (xs : List String) → length (insert_name x xs) ≡ suc (length xs)
unfolding insert_name
length-insert_name x [] = refl
length-insert_name x (y ∷ ys) = go (compare_text x y) (length-insert_name x ys)
  where
    go :
        (o : Ordering)
        → length (insert_name x ys) ≡ suc (length ys)
        → length (elim o [ Ordering.gt ↦ y ∷ insert_name x ys | _ ↦ x ∷ y ∷ ys ])
          ≡ suc (suc (length ys))
    go Ordering.gt later = omega (arith, later)
    go Ordering.lt later = refl
    go Ordering.eq later = refl

pub length-sort_names : (xs : List String) → length (sort_names xs) ≡ length xs
unfolding sort_names
length-sort_names [] = refl
length-sort_names (x ∷ xs) =
    omega (arith, length-insert_name x (sort_names xs), length-sort_names xs)

-- a name that the text can carry: short, without a comma, not empty
abbrev pub IsGroup : String → Type 0
IsGroup s = (count s ≤ 9) × (any_code is_comma s ≡ false) × (is_blank s ≡ false)

pub failed_text-bound :
    (xs : List String) → All IsGroup xs → length xs ≤ 8 → count (failed_text xs) ≤ 512
unfolding failed_text
failed_text-bound xs h few =
    let short = All-map IsGroup (λ x. count x ≤ 9) xs (λ x p. p.0) h in
    omega (
      arith,
      join_with-bound 9 (sort_names xs) (sort_names-All (λ x. count x ≤ 9) xs short),
      length-sort_names xs,
      few,
    )

not_blank : (name : String) → is_blank name ≡ false → str_eq name "" ≡ false
not_blank name e = elim (Bool-cases (str_eq name "")) [
  | inl same ↦ cc (ap is_blank ((eq_iff name "").0 same), e)
  | inr other ↦ other
]

-- Splitting the text gives the names back, up to their order.
pub failed_text-names :
    (xs : List String) (name : String)
    → All IsGroup xs
    → is_blank name ≡ false
    → any (str_eq name) (split_on b',' (failed_text xs)) ≡ any (str_eq name) xs
unfolding failed_text split_on join_with
failed_text-names xs name h e =
    go (sort_names xs) (
      sort_names-All (λ x. any_code is_comma x ≡ false) xs
        (All-map IsGroup (λ x. any_code is_comma x ≡ false) xs (λ x p. p.1) h))
    ∙ any-sort_names (str_eq name) xs
  where
    go :
        (ys : List String)
        → All (λ x. any_code is_comma x ≡ false) ys
        → any (str_eq name) (split_on b',' (join_with "," ys)) ≡ any (str_eq name) ys
    go [] hs = rw (not_blank name e) refl
    go (y ∷ ys) hs = ap (any (str_eq name)) (split_on-join_with y ys hs)
