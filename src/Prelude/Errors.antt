-- ===== src/Prelude/Errors.antt =====
-- What a Python function that may raise returns. An exception carries its class and its message.
use Prim.Native.String.{String}
use mathlib.Core.Bool.{Bool, true, false}
use mathlib.Core.Path.{◌≡◌, refl}
use mathlib.Core.Logic.{◌⊎◌, inl, inr}

pub data Error : Type 0 where
  value_error config_error xray_stats_parse_error : String → Error
  -- an exception of a library or of the operating system
  other_error : Error

pub data Result {ℓ} (Value : Type ℓ) : Type ℓ where
  ok : Value → Result Value
  err : Error → Result Value

module _ {ℓ κ} {X : Type ℓ} {Y : Type κ} where
  -- the rest of a block, which an exception skips
  infixl 10 ◌>>=◌
  abbrev pub ◌>>=◌ : Result X → (X → Result Y) → Result Y
  ok x >>= next = next x
  err raised >>= next = err raised

module _ {ℓ} {Y : Type ℓ} where
  infixl 10 ◌>>◌
  abbrev pub ◌>>◌ : Result (Unit {0}) → Result Y → Result Y
  check >> next = check >>= λ _. next

-- `if b: raise e`
abbrev pub raise_if : Bool → Error → Result (Unit {0})
raise_if true e = err e
raise_if false e = ok tt

-- A block that returns went through its first step.
pub bind-ok {ℓ κ} :
    {X : Type ℓ} {Y : Type κ} (step : Result X) (next : X → Result Y) {y : Y}
    → (step >>= next) ≡ ok y
    → (x : X) × (step ≡ ok x) × (next x ≡ ok y)
bind-ok (ok x) next through = (x, refl, through)
bind-ok (err raised) next through = cc

pub Result-cases {ℓ} :
    {A : Type ℓ} (r : Result A) → ((a : A) × (r ≡ ok a)) ⊎ ((e : Error) × (r ≡ err e))
Result-cases (ok a) = inl (a, refl)
Result-cases (err e) = inr (e, refl)

-- A block that returns passed the test that it began with.
pub raise_if-ok {ℓ} :
    {A : Type ℓ} (b : Bool) (e : Error) (rest : Result A) {a : A}
    → (raise_if b e >> rest) ≡ ok a
    → (b ≡ false) × (rest ≡ ok a)
raise_if-ok true e rest h = cc h
raise_if-ok false e rest h = (refl, h)
