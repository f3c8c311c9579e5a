-- ===== src/Probes/Receive.antt =====
-- collectors/probes.py: the loop over `recv` ends, and reads a bounded response.
use Prim.Native.String
use aws_ops_monitor.Prelude.{
  ℕ, zero, suc, ◌+◌, ◌-◌, ◌≤◌, ◌≡◌, refl, ap, ◌⊎◌, inl, inr, String, Bool, true, false, arith,
  Bool-cases,
}
use aws_ops_monitor.Prelude.Text.{count, is_blank}
use aws_ops_monitor.Prelude.Bounds.{count-append}
use aws_ops_monitor.Probes.{Step, done, failed}
use aws_ops_monitor.Probes.WebSocket.{
  max_http_output_bytes, smaller, wants_more, extended, receive, receive_fuel,
}

wants_more-bound : (r : String) → wants_more r ≡ true → count r ≤ max_http_output_bytes
unfolding wants_more
wants_more-bound r h = ground (arith, h)

wants_more-full : (r : String) → receive_fuel ≤ count r → wants_more r ≡ false
unfolding wants_more
wants_more-full r h = ground (arith, h)

blank_or_longer : (s : String) → (is_blank s ≡ true) ⊎ ((is_blank s ≡ false) × (1 ≤ count s))
unfolding count
blank_or_longer String.[] = inl refl
blank_or_longer (String.◌∷◌ c s) = inr (refl, omega arith)

-- The fuel beyond what a response may still need does not matter.
pub receive-enough :
    (recv : ℕ → ℕ → Step String) (f g n : ℕ) (r : String)
    → receive_fuel ≤ f + count r
    → receive_fuel ≤ g + count r
    → receive recv f n r ≡ receive recv g n r
unfolding receive
receive-enough recv zero zero n r h k = refl
receive-enough recv zero (suc g) n r h k = rw (receive, wants_more-full r (omega (arith, h))) refl
receive-enough recv (suc f) zero n r h k = rw (receive, wants_more-full r (omega (arith, k))) refl
receive-enough recv (suc f) (suc g) n r h k =
    go (wants_more r) (recv n (smaller 4096 (max_http_output_bytes + 1 - count r))) (λ chunk longer.
      receive-enough recv f g (suc n) (String.◌++◌ r chunk)
        (omega (arith, h, count-append r chunk, longer))
        (omega (arith, k, count-append r chunk, longer)))
  where
    next :
        (chunk : String)
        → (1 ≤ count chunk
            → receive recv f (suc n) (String.◌++◌ r chunk)
              ≡ receive recv g (suc n) (String.◌++◌ r chunk))
        → extended (receive recv f (suc n)) r (done chunk)
          ≡ extended (receive recv g (suc n)) r (done chunk)
    next chunk later = elim (blank_or_longer chunk) [
      | inl blank ↦ rw blank refl
      | inr (full, longer) ↦ rw full (later longer)
    ]

    go :
        (more : Bool) (step : Step String)
        → ((chunk : String)
            → 1 ≤ count chunk
            → receive recv f (suc n) (String.◌++◌ r chunk)
              ≡ receive recv g (suc n) (String.◌++◌ r chunk))
        → elim more [ true ↦ extended (receive recv f (suc n)) r step | false ↦ done r ]
          ≡ elim more [ true ↦ extended (receive recv g (suc n)) r step | false ↦ done r ]
    go false step later = refl
    go true (failed x) later = refl
    go true (done chunk) later = next chunk (later chunk)

-- `recv` returns at most as many bytes as it is asked for.
abbrev pub IsBounded : (ℕ → ℕ → Step String) → Type 0
IsBounded recv = (n limit : ℕ) (chunk : String) → recv n limit ≡ done chunk → count chunk ≤ limit

pub receive-bound :
    (recv : ℕ → ℕ → Step String) (f n : ℕ) (r s : String)
    → IsBounded recv
    → count r ≤ suc max_http_output_bytes
    → receive recv f n r ≡ done s
    → count s ≤ suc max_http_output_bytes
unfolding receive
receive-bound recv zero n r s b h e = let same : r ≡ s = cc e in omega (arith, ap count same, h)
receive-bound recv (suc f) n r s b h e =
    go (wants_more r) (wants_more-bound r)
      (recv n (smaller 4096 (max_http_output_bytes + 1 - count r)))
      (b n (smaller 4096 (max_http_output_bytes + 1 - count r)))
      (λ chunk. receive-bound recv f (suc n) (String.◌++◌ r chunk) s b) e
  where
    go :
        (more : Bool)
        → (more ≡ true → count r ≤ max_http_output_bytes)
        → (step : Step String)
        → ((chunk : String)
            → step ≡ done chunk
            → count chunk ≤ smaller 4096 (max_http_output_bytes + 1 - count r))
        → ((chunk : String)
            → count (String.◌++◌ r chunk) ≤ suc max_http_output_bytes
            → receive recv f (suc n) (String.◌++◌ r chunk) ≡ done s
            → count s ≤ suc max_http_output_bytes)
        → elim more [ true ↦ extended (receive recv f (suc n)) r step | false ↦ done r ] ≡ done s
        → count s ≤ suc max_http_output_bytes
    go false room step fits later e = let same : r ≡ s = cc e in omega (arith, ap count same, h)
    go true room (failed x) fits later e = cc e
    go true room (done chunk) fits later e = elim (Bool-cases (is_blank chunk)) [
      | inl blank ↦ let same : r ≡ s = ground (arith, e, blank) in omega (arith, ap count same, h)
      | inr full ↦
          later chunk (ground (arith, count-append r chunk, fits chunk refl, room refl))
            (ground (arith, e, full))
    ]

-- The loop over `recv` ends: every larger fuel gives the same. If `recv` returns at most as many bytes
-- as it is asked for, the response has at most one byte more than `MAX_HTTP_OUTPUT_BYTES`.
pub receive-ends :
    (recv : ℕ → ℕ → Step String) (f : ℕ)
    → receive_fuel ≤ f
    → IsBounded recv
    → (receive recv f 0 String.[] ≡ receive recv receive_fuel 0 String.[])
      × ((s : String)
          → receive recv receive_fuel 0 String.[] ≡ done s
          → count s ≤ suc max_http_output_bytes)
unfolding count
receive-ends recv f enough bounded = (
  receive-enough recv f receive_fuel 0 String.[] (omega (arith, enough)) (omega arith),
  λ s. receive-bound recv receive_fuel 0 String.[] s bounded (omega arith),
)
