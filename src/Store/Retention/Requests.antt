-- ===== src/Store/Retention/Requests.antt =====
-- store.py: the arguments of `apply_retention`.
use aws_ops_monitor.Prelude.{
  ℕ, ◌≤◌, ◌<◌, ◌≡◌, refl, ◌↔◌, String, arith, leb, true, false, Bool, if◌then◌else◌, other_error,
  ok, err, Error, bind-ok, raise_if, ◌>>◌,
}
use aws_ops_monitor.Prelude.Int.{ℤ, pos, pos_part}
use aws_ops_monitor.Prelude.Float.{Float, num}
use aws_ops_monitor.Models.{Scalar, int}
use aws_ops_monitor.Store.{Tables, transaction}
use aws_ops_monitor.Store.Retention.{
  retain, Cutoffs, cutoffs, retention_cutoffs, finite_now, days_between, apply_retention, sums_fit,
  compact,
}

days_between_iff :
    (message : String) (minimum maximum : ℕ) (x : Scalar) (n : ℕ)
    → (days_between message minimum maximum x ≡ ok n)
      ↔ ((x ≡ int (pos n)) × (minimum ≤ n) × (n ≤ maximum))
unfolding days_between
days_between_iff message minimum maximum x n = ground arith

-- the arguments that the call accepts, and their cutoffs
abbrev pub IsRequest : Float → Scalar → Scalar → Cutoffs → Type 0
IsRequest now raw_days rollup_days c =
    (z : ℤ) × (raw rollup : ℕ) × (now ≡ num z)
    × (raw_days ≡ int (pos raw))
    × (rollup_days ≡ int (pos rollup))
    × (1 ≤ raw)
    × (raw ≤ 30)
    × (30 ≤ rollup)
    × (rollup ≤ 800)
    × (raw < rollup)
    × (c ≡ cutoffs (pos_part z) raw rollup)

finite_now_num :
    (x : Float) (t : ℕ) → finite_now x ≡ ok t → (z : ℤ) × (x ≡ num z) × (t ≡ pos_part z)
unfolding finite_now
finite_now_num (num z) t h = (z, refl, ground arith)
finite_now_num _ t h = cc

ordered :
    (raw rollup t : ℕ) (c : Cutoffs) (e : Error)
    → (raise_if (leb rollup raw) e >> ok (cutoffs t raw rollup)) ≡ ok c
    → (raw < rollup) × (c ≡ cutoffs t raw rollup)
ordered raw rollup t c e h = ground arith

module _ (now : Float) (raw_days rollup_days : Scalar) (c : Cutoffs) where
  pub accepted :
      retention_cutoffs now raw_days rollup_days ≡ ok c → IsRequest now raw_days rollup_days c
  unfolding retention_cutoffs
  accepted h =
      let (t, time, h1) = bind-ok (finite_now now) _ h in
      let (raw, short, h2) = bind-ok (days_between _ 1 30 raw_days) _ h1 in
      let (rollup, long, h3) = bind-ok (days_between _ 30 800 rollup_days) _ h2 in
      let (z, finite, from_epoch) = finite_now_num now t time in
      let (r, r_min, r_max) = (days_between_iff _ 1 30 raw_days raw).0 short in
      let (l, l_min, l_max) = (days_between_iff _ 30 800 rollup_days rollup).0 long in
      let (longer, same) = ordered raw rollup t c _ h3 in
      (z, raw, rollup, finite, r, l, r_min, r_max, l_min, l_max, longer, rw (← from_epoch) same)

  pub accepts :
      IsRequest now raw_days rollup_days c → retention_cutoffs now raw_days rollup_days ≡ ok c
  unfolding retention_cutoffs finite_now days_between
  accepts (z, raw, rollup, e, f, g, b1, b2, b3, b4, longer, same) =
      rw (e, f, g, same) (ground arith)

pub transaction-compact :
    (c : Cutoffs) (db : Tables)
    → transaction (compact c) db
      ≡ (if sums_fit c db then (ok (retain c db).0, (retain c db).1) else (err other_error, db))
transaction-compact c db = go (sums_fit c db)
  where
    go :
        (b : Bool)
        → transaction (λ t. if b then ok (retain c db) else err other_error) db
          ≡ (if b then (ok (retain c db).0, (retain c db).1) else (err other_error, db))
    go true = refl
    go false = refl

module _ (now : Float) (raw_days rollup_days : Scalar) (db : Tables) where
  pub compact-accepted :
      (c : Cutoffs)
      → IsRequest now raw_days rollup_days c
      → apply_retention now raw_days rollup_days db ≡ transaction (compact c) db
  unfolding apply_retention
  compact-accepted c r = rw (accepts now raw_days rollup_days c r, apply_retention)

  pub only_cutoffs :
      (c c' : Cutoffs)
      → IsRequest now raw_days rollup_days c
      → IsRequest now raw_days rollup_days c'
      → c ≡ c'
  only_cutoffs c c' r r' =
      cc (accepts now raw_days rollup_days c r, accepts now raw_days rollup_days c' r')
