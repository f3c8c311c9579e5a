-- ===== src/Xray/Scan.antt =====
-- collectors/xray.py: the scan for `_TEXT_STAT` ends; its fuel is enough.
use Prim.Native.Char.{code}
use aws_ops_monitor.Prelude.{
  ℕ, zero, suc, ◌≤◌, ◌<◌, ◌≡◌, refl, ap, inl, inr, String, Bool, true, false, Option, none, some,
  ◌∷◌, arith, ◌==◌, Option-cases, if◌then◌else◌,
}
use aws_ops_monitor.Prelude.Text.{count, is_space, lstrip, strip_prefix}
use aws_ops_monitor.Xray.Payload.{
  with_character, quoted, span_digits, nonempty_digits, value_here, find_value, with_value,
  with_name, with_quote, with_label, match_here, find_all,
}

count-strip_prefix : (p s rest : String) → strip_prefix p s ≡ some rest → count rest ≤ count s
unfolding count strip_prefix
count-strip_prefix String.[] s rest h = ground arith
count-strip_prefix (String.◌∷◌ p ps) String.[] rest h = cc h
count-strip_prefix (String.◌∷◌ p ps) (String.◌∷◌ c s) rest h =
    ground (arith, count-strip_prefix ps s rest)

count-lstrip : (p : ℕ → Bool) (s : String) → count (lstrip p s) ≤ count s
unfolding count lstrip
count-lstrip p String.[] = omega arith
count-lstrip p (String.◌∷◌ c s) = ground (arith, count-lstrip p s)

count-quoted : (s inner rest : String) → quoted s ≡ some (inner, rest) → count rest < count s
unfolding count quoted
count-quoted String.[] inner rest h = cc h
count-quoted (String.◌∷◌ c String.[]) inner rest h = go (code c == b'"') h
  where
    go :
        (b : Bool)
        → if◌then◌else◌ {A = Option (String × String)} b (some (String.[], String.[])) none
          ≡ some (inner, rest)
        → count rest < count (String.◌∷◌ c String.[])
    go true e = let empty : String.[] ≡ rest = cc e in omega (arith, ap count empty)
    go false e = cc e
count-quoted (String.◌∷◌ c (String.◌∷◌ d s)) inner rest h =
    go (code c == b'"') (code c == b'\\') (quoted s) (quoted (String.◌∷◌ d s)) (count-quoted s)
      (count-quoted (String.◌∷◌ d s)) h
  where
    go :
        (closes escapes : Bool) (behind next : Option (String × String))
        → ((i r : String) → behind ≡ some (i, r) → count r < count s)
        → ((i r : String) → next ≡ some (i, r) → count r < suc (count s))
        → if◌then◌else◌ {A = Option (String × String)} closes
            (some (String.[], String.◌∷◌ d s))
            (if escapes then with_character c (with_character d behind) else with_character c next)
          ≡ some (inner, rest)
        → count rest < count (String.◌∷◌ c (String.◌∷◌ d s))
    go true escapes behind next b n e =
        let after : String.◌∷◌ d s ≡ rest = cc e in omega (arith, ap count after)
    go false true none next b n e = cc e
    go false true (some (i, r)) next b n e = ground (arith, e, b i r refl)
    go false false behind none b n e = cc e
    go false false behind (some (i, r)) b n e = ground (arith, e, n i r refl)

count-span_digits : (s : String) → count (span_digits s).1 ≤ count s
unfolding count span_digits
count-span_digits String.[] = omega arith
count-span_digits (String.◌∷◌ c s) = ground (arith, count-span_digits s)

count-value_here :
    (s value rest : String) → value_here s ≡ some (value, rest) → count rest ≤ count s
unfolding value_here
count-value_here s value rest h = go (strip_prefix "value:" s) refl h
  where
    opened : (parts : String × String) → nonempty_digits parts ≡ some (value, rest) → parts.1 ≡ rest
    opened (String.[], r) e = cc e
    opened (String.◌∷◌ c ds, r) e = ground (arith, e)

    go :
        (o : Option String)
        → strip_prefix "value:" s ≡ o
        → elim o [ none ↦ none | some r ↦ nonempty_digits (span_digits (lstrip is_space r)) ]
          ≡ some (value, rest)
        → count rest ≤ count s
    go none e k = cc k
    go (some r) e k = omega (
      arith,
      count-strip_prefix "value:" s r e,
      count-lstrip is_space r,
      count-span_digits (lstrip is_space r),
      ap count (opened (span_digits (lstrip is_space r)) k),
    )

count-find_value :
    (s value rest : String) → find_value s ≡ some (value, rest) → count rest ≤ count s
unfolding count find_value
count-find_value String.[] value rest h = cc h
count-find_value (String.◌∷◌ c s) value rest h = elim (Option-cases (value_here (String.◌∷◌ c s))) [
  | inl e ↦ ground (arith, e, count-find_value s value rest)
  | inr ((v, r), e) ↦ ground (arith, e, count-value_here (String.◌∷◌ c s) v r e)
]

count-with_value :
    (closed i name value rest : String) (o : Option (String × String))
    → find_value closed ≡ o
    → with_value i o ≡ some (name, value, rest)
    → count rest ≤ count closed
count-with_value closed i name value rest none e k = cc k
count-with_value closed i name value rest (some (v, r)) e k =
    ground (arith, k, count-find_value closed v r e)

count-with_name :
    (opened name value rest : String) (o : Option (String × String))
    → quoted opened ≡ o
    → with_name o ≡ some (name, value, rest)
    → count rest < count opened
unfolding with_name
count-with_name opened name value rest none e k = cc k
count-with_name opened name value rest (some (i, closed)) e k = omega (
  arith,
  count-quoted opened i closed e,
  count-with_value closed i name value rest (find_value closed) refl k,
)

count-with_quote :
    (s name value rest : String) (o : Option String)
    → strip_prefix "\"" (lstrip is_space s) ≡ o
    → with_quote o ≡ some (name, value, rest)
    → count rest < count s
unfolding with_quote
count-with_quote s name value rest none e k = cc k
count-with_quote s name value rest (some opened) e k = omega (
  arith,
  count-strip_prefix "\"" (lstrip is_space s) opened e,
  count-lstrip is_space s,
  count-with_name opened name value rest (quoted opened) refl k,
)

count-with_label :
    (s name value rest : String) (o : Option String)
    → strip_prefix "name:" s ≡ o
    → with_label o ≡ some (name, value, rest)
    → count rest < count s
unfolding with_label
count-with_label s name value rest none e k = cc k
count-with_label s name value rest (some r) e k = omega (
  arith,
  count-strip_prefix "name:" s r e,
  count-with_quote r name value rest (strip_prefix "\"" (lstrip is_space r)) refl k,
)

count-match_here :
    (s name value rest : String) → match_here s ≡ some (name, value, rest) → count rest < count s
unfolding match_here
count-match_here s name value rest h =
    count-with_label s name value rest (strip_prefix "name:" s) refl h

-- The scan over a text finds the same matches on every fuel that is larger than the length of the text.
pub find_all-enough :
    (f g : ℕ) (s : String) → count s < f → count s < g → find_all f s ≡ find_all g s
unfolding count find_all
find_all-enough zero g s h k = absurd (omega (arith, h))
find_all-enough (suc f) zero s h k = absurd (omega (arith, k))
find_all-enough (suc f) (suc g) String.[] h k = refl
find_all-enough (suc f) (suc g) (String.◌∷◌ c s) h k =
    go (match_here (String.◌∷◌ c s)) refl
      (λ t shorter. find_all-enough f g t (omega (arith, h, shorter)) (omega (arith, k, shorter)))
  where
    go :
        (o : Option (String × String × String))
        → match_here (String.◌∷◌ c s) ≡ o
        → ((t : String) → count t ≤ count s → find_all f t ≡ find_all g t)
        → elim o [
          | none ↦ find_all f s
          | some (name, value, rest) ↦ (name, value) ∷ find_all f rest
        ]
          ≡ elim o [
            | none ↦ find_all g s
            | some (name, value, rest) ↦ (name, value) ∷ find_all g rest
          ]
    go none e later = later s (omega arith)
    go (some (name, value, rest)) e later =
        ap (λ ms. (name, value) ∷ ms)
          (later rest (omega (arith, count-match_here (String.◌∷◌ c s) name value rest e)))
