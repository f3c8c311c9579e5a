-- ===== src/Prelude/Bounds.antt =====
-- What joining and cutting texts does to their length and their characters.
use Prim.Native.String
use Prim.Native.String.{String}
use Prim.Native.String.append
use mathlib.Core.Path.{subst}
use aws_ops_monitor.Prelude.{
  ℕ, zero, suc, ◌+◌, ◌≤◌, refl, ap, ◌∙◌, Bool, false, ◌*◌, List, [], ◌∷◌, All, any, length, str_eq,
  eq_iff, Bool-cases, inl, inr, sym, ◌≡◌, true, arith,
}
use aws_ops_monitor.Prelude.Text.{count, any_code, take_text, join_with}

pub count-append : (a b : String) → count (String.◌++◌ a b) ≡ count a + count b
unfolding count
count-append String.[] b = omega (arith, ap count (append.nil b))
count-append (String.◌∷◌ c a) b = omega (arith, ap count (append.cons c a b), count-append a b)

pub any_code-append :
    (p : ℕ → Bool) (a b : String)
    → any_code p a ≡ false
    → any_code p b ≡ false
    → any_code p (String.◌++◌ a b) ≡ false
unfolding any_code
any_code-append p String.[] b h k = ap (any_code p) (append.nil b) ∙ k
any_code-append p (String.◌∷◌ c a) b h k =
    ground (arith, ap (any_code p) (append.cons c a b), any_code-append p a b)

pub count-take_text : (n : ℕ) (s : String) → count (take_text n s) ≤ n
unfolding count take_text
count-take_text zero s = omega arith
count-take_text (suc n) String.[] = omega arith
count-take_text (suc n) (String.◌∷◌ c s) = omega (arith, count-take_text n s)

pub any_code-take_text :
    (p : ℕ → Bool) (n : ℕ) (s : String) → any_code p s ≡ false → any_code p (take_text n s) ≡ false
unfolding any_code take_text
any_code-take_text p zero s h = refl
any_code-take_text p (suc n) String.[] h = refl
any_code-take_text p (suc n) (String.◌∷◌ c s) h = ground (arith, any_code-take_text p n s)

pub join_with-bound :
    (n : ℕ) (ts : List String)
    → All (λ t. count t ≤ n) ts
    → count (join_with "," ts) ≤ length ts * suc n
unfolding join_with count
join_with-bound n [] h = ground arith
join_with-bound n (t ∷ []) h = grind (arith, h)
join_with-bound n (t ∷ u ∷ ts) (here, rest) = ground (
  arith,
  here,
  join_with-bound n (u ∷ ts) rest,
  count-append t (String.◌++◌ "," (join_with "," (u ∷ ts))),
  count-append "," (join_with "," (u ∷ ts)),
)

-- What holds of the texts of a list holds of a text that is one of them.
pub any_str_eq-All {κ} :
    (P : String → Type κ) (s : String) (xs : List String)
    → any (str_eq s) xs ≡ true
    → All P xs
    → P s
any_str_eq-All P s [] h hs = cc h
any_str_eq-All P s (x ∷ xs) h (here, rest) = elim (Bool-cases (str_eq s x)) [
  | inl same ↦ subst P (sym ((eq_iff s x).0 same)) here
  | inr other ↦ any_str_eq-All P s xs (ground (arith, h, other)) rest
]
