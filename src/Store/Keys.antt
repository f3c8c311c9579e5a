-- ===== src/Store/Keys.antt =====
-- store.py: two counters with the same key are the same counter.
use Prim.Native.Char.{Char, code}
use Prim.Native.String.{String}
use text.Mathlib.TextLemmas.{cons-eq-cons, cons-append, nil-append}
use mathlib.Core.Path.{ap₂}
use aws_ops_monitor.Prelude.{◌≡◌, ap, sym, ◌∙◌, false, arith, ◌≢◌, refl}
use aws_ops_monitor.Prelude.Text.{join_nul, nul, any_code}
use aws_ops_monitor.Models.{is_control, CounterObservation}
use aws_ops_monitor.Models.Checks.{IsCounterObservation}
use aws_ops_monitor.Store.{Codec}
use aws_ops_monitor.Store.Batch.{counter_key, key_of}

join_nul-nil : (b : String) → join_nul String.[] b ≡ String.◌∷◌ nul b
unfolding join_nul
join_nul-nil b = nil-append (String.◌∷◌ nul b)

join_nul-cons :
    (c : Char) (a b : String) → join_nul (String.◌∷◌ c a) b ≡ String.◌∷◌ c (join_nul a b)
unfolding join_nul
join_nul-cons c a b = cons-append c a (String.◌∷◌ nul b)

not_nul : (c : Char) (a : String) → any_code is_control (String.◌∷◌ c a) ≡ false → nul ≢ c
unfolding any_code
not_nul c a h e = let k : code nul ≡ code c = ap code e in ground arith

tail_free :
    (c : Char) (a : String)
    → any_code is_control (String.◌∷◌ c a) ≡ false
    → any_code is_control a ≡ false
unfolding any_code
tail_free c a h = ground arith

-- a text without control characters is told apart from what follows its terminator
join_nul_injective :
    (a b a' b' : String)
    → any_code is_control a ≡ false
    → any_code is_control a' ≡ false
    → join_nul a b ≡ join_nul a' b'
    → (a ≡ a') × (b ≡ b')
join_nul_injective String.[] b String.[] b' h h' e =
    (refl, (cons-eq-cons.0 (sym (join_nul-nil b) ∙ e ∙ join_nul-nil b')).1)
join_nul_injective String.[] b (String.◌∷◌ c a') b' h h' e =
    absurd (not_nul c a' h' (cons-eq-cons.0 (sym (join_nul-nil b) ∙ e ∙ join_nul-cons c a' b')).0)
join_nul_injective (String.◌∷◌ c a) b String.[] b' h h' e =
    absurd
      (not_nul c a h (sym (cons-eq-cons.0 (sym (join_nul-cons c a b) ∙ e ∙ join_nul-nil b')).0))
join_nul_injective (String.◌∷◌ c a) b (String.◌∷◌ c' a') b' h h' e =
    let (heads, tails) = cons-eq-cons.0 (sym (join_nul-cons c a b) ∙ e ∙ join_nul-cons c' a' b') in
    let (same, rest) = join_nul_injective a b a' b' (tail_free c a h) (tail_free c' a' h') tails in
    (ap₂ String.◌∷◌ heads same, rest)

-- what the key of an observation is the digest of
abbrev material_of : Codec → CounterObservation → String
material_of codec o = join_nul o.source (join_nul o.name (codec.dump_labels o.labels))

-- Two observations that the constructors accept and that have the same key have the same source,
-- the same name and the same label text, if SHA-256 does not collide on the two texts that their
-- keys are digests of.
pub counter_key-injective :
    (codec : Codec) (o o' : CounterObservation)
    → (codec.sha256 (material_of codec o) ≡ codec.sha256 (material_of codec o')
        → material_of codec o ≡ material_of codec o')
    → IsCounterObservation o
    → IsCounterObservation o'
    → key_of codec o ≡ key_of codec o'
    → (o.source ≡ o'.source)
      × (o.name ≡ o'.name)
      × (codec.dump_labels o.labels ≡ codec.dump_labels o'.labels)
unfolding key_of counter_key
counter_key-injective codec o o' distinct v v' same =
    let (sources, rest) =
      join_nul_injective o.source _ o'.source _ v.source_part.2 v'.source_part.2 (distinct same) in
    let (names, labels) = join_nul_injective o.name _ o'.name _ v.name_part.2 v'.name_part.2 rest in
    (sources, names, labels)
