-- ===== src/Store/Retention/Effects.antt =====
-- store.py: the arguments of `apply_retention`, and the batches that are recorded after it.
use aws_ops_monitor.Prelude.{
  ◌≡◌, refl, ◌⊎◌, inl, inr, ap, sym, ◌∙◌, List, [], ◌∷◌, true, false, Bool-cases, other_error,
  Result, ok, err, Error, ◌>>=◌, Result-cases,
}
use aws_ops_monitor.Prelude.Float.{Float}
use aws_ops_monitor.Models.{
  Scalar, GaugeObservation, CounterObservation, HealthObservation, CounterResult,
}
use aws_ops_monitor.Store.{Tables, Codec, transaction}
use aws_ops_monitor.Store.Counters.{find_cursor, upsert_cursor, judge, Verdict}
use aws_ops_monitor.Store.Batch.{
  key_of, cursor_of, counter_result, write_counter, record_one, record_counters, insert_gauge,
  insert_gauges, batch_body, record_batch, insert_healths,
}
use aws_ops_monitor.Store.Retention.{retain, Cutoffs, retention_cutoffs, apply_retention, sums_fit}
use aws_ops_monitor.Store.Retention.Requests.{
  IsRequest, accepted, accepts, compact-accepted, only_cutoffs,
}

pub apply_retention-cases :
    (now : Float) (raw_days rollup_days : Scalar) (db : Tables)
    → ((c : Cutoffs) × IsRequest now raw_days rollup_days c
        × (sums_fit c db ≡ true)
        × (apply_retention now raw_days rollup_days db ≡ (ok (retain c db).0, (retain c db).1)))
      ⊎ (((c : Cutoffs) → IsRequest now raw_days rollup_days c → sums_fit c db ≡ false)
          × ((e : Error) × (apply_retention now raw_days rollup_days db ≡ (err e, db))))
unfolding apply_retention
apply_retention-cases now raw_days rollup_days db =
    elim (Result-cases (retention_cutoffs now raw_days rollup_days)) [
      | inl (c, e) ↦ judged c (accepted now raw_days rollup_days c e) (Bool-cases (sums_fit c db))
      | inr (x, e) ↦
          inr (λ c r. cc (e, accepts now raw_days rollup_days c r), (x, rw (e, apply_retention)))
    ]
  where
    judged :
        (c : Cutoffs)
        → IsRequest now raw_days rollup_days c
        → (sums_fit c db ≡ true) ⊎ (sums_fit c db ≡ false)
        → ((c : Cutoffs) × IsRequest now raw_days rollup_days c
            × (sums_fit c db ≡ true)
            × (apply_retention now raw_days rollup_days db ≡ (ok (retain c db).0, (retain c db).1)))
          ⊎ (((c : Cutoffs) → IsRequest now raw_days rollup_days c → sums_fit c db ≡ false)
              × ((e : Error) × (apply_retention now raw_days rollup_days db ≡ (err e, db))))
    judged c r (inl fits) =
        inl (
          c,
          r,
          fits,
          compact-accepted now raw_days rollup_days db c r ∙ rw (transaction, fits) refl,
        )
    judged c r (inr large) = inr (
      λ c' r'. rw (only_cutoffs now raw_days rollup_days db c' c r' r) large,
      (
        other_error,
        compact-accepted now raw_days rollup_days db c r ∙ rw (transaction, large) refl,
      ),
    )

retain-cursors : (c : Cutoffs) (db : Tables) → (retain c db).1.counter_cursors ≡ db.counter_cursors
unfolding retain
retain-cursors c db = refl

-- what a batch returns, without the tables
abbrev returned : {A : Type 0} → Result (A × Tables) → Result A
returned (ok (a, db)) = ok a
returned (err e) = err e

abbrev prepend : CounterResult → Result (List CounterResult) → Result (List CounterResult)
prepend r (ok rs) = ok (r ∷ rs)
prepend r (err e) = err e

returned-prepend :
    (r : CounterResult) (m : Result (List CounterResult × Tables))
    → returned (m >>= λ x. ok (r ∷ x.0, x.1)) ≡ prepend r (returned m)
returned-prepend r (ok x) = refl
returned-prepend r (err e) = refl

returned-tables :
    (f : Tables → Tables) (m : Result (List CounterResult × Tables))
    → returned (m >>= λ x. ok (x.0, f x.1)) ≡ returned m
returned-tables f (ok x) = refl
returned-tables f (err e) = refl

returned-transaction :
    {A : Type 0} (body : Tables → Result (A × Tables)) (db : Tables)
    → (transaction body db).0 ≡ returned (body db)
returned-transaction body db = elim (Result-cases (body db)) [
  | inl (x, e) ↦ rw (e, transaction)
  | inr (x, e) ↦ rw (e, transaction)
]

module _ (codec : Codec) where
  module _ (o : CounterObservation) (os : List CounterObservation) (db : Tables) where
    returned_if_ok :
        (v : Verdict)
        → judge (find_cursor (key_of codec o) db.counter_cursors) o ≡ ok v
        → returned (record_counters codec (o ∷ os) db)
          ≡ prepend
              (counter_result codec o v)
              (returned (record_counters codec os (write_counter codec db o v)))
    unfolding record_counters record_one
    returned_if_ok v e = rw e (
        returned-prepend (counter_result codec o v)
          (record_counters codec os (write_counter codec db o v)))

    returned_if_err :
        (x : Error)
        → judge (find_cursor (key_of codec o) db.counter_cursors) o ≡ err x
        → returned (record_counters codec (o ∷ os) db) ≡ err x
    unfolding record_counters record_one
    returned_if_err x e = rw e

  write_counter-cursors :
      (o : CounterObservation) (v : Verdict) (a b : Tables)
      → a.counter_cursors ≡ b.counter_cursors
      → (write_counter codec a o v).counter_cursors ≡ (write_counter codec b o v).counter_cursors
  unfolding write_counter
  write_counter-cursors o v a b same = ap (upsert_cursor (cursor_of codec o)) same

  -- The results depend on the cursors alone.
  record_counters-cursors :
      (os : List CounterObservation) (a b : Tables)
      → a.counter_cursors ≡ b.counter_cursors
      → returned (record_counters codec os a) ≡ returned (record_counters codec os b)
  record_counters-cursors [] a b same = unfold record_counters in refl
  record_counters-cursors (o ∷ os) a b same =
      let seen = ap (λ cs. judge (find_cursor (key_of codec o) cs) o) same in
      elim (Result-cases (judge (find_cursor (key_of codec o) b.counter_cursors) o)) [
        | inl (v, e) ↦
            returned_if_ok o os a v (seen ∙ e)
            ∙ ap (prepend (counter_result codec o v)) (
                record_counters-cursors os (write_counter codec a o v) (write_counter codec b o v)
                  (write_counter-cursors o v a b same))
            ∙ sym (returned_if_ok o os b v e)
        | inr (x, e) ↦ returned_if_err o os a x (seen ∙ e) ∙ sym (returned_if_err o os b x e)
      ]

  insert_gauges-cursors :
      (gs : List GaugeObservation) (db : Tables)
      → (insert_gauges codec gs db).counter_cursors ≡ db.counter_cursors
  unfolding insert_gauges insert_gauge
  insert_gauges-cursors [] db = refl
  insert_gauges-cursors (g ∷ gs) db = insert_gauges-cursors gs (insert_gauge codec db g)

  -- Retention changes nothing that the counters of a later batch can see: whatever was pruned, the
  -- batch is accepted or refused as before, with the same deltas, baselines and resets.
  pub record_batch-retain :
      (gauges : List GaugeObservation) (counters : List CounterObservation)
      (health : List HealthObservation) (c : Cutoffs) (db : Tables)
      → (record_batch codec gauges counters health (retain c db).1).0
        ≡ (record_batch codec gauges counters health db).0
  unfolding record_batch batch_body
  record_batch-retain gauges counters health c db =
      let after : Tables = insert_gauges codec gauges (retain c db).1 in
      let before : Tables = insert_gauges codec gauges db in
      returned-transaction (batch_body codec gauges counters health) (retain c db).1
      ∙ returned-tables (insert_healths codec health) (record_counters codec counters after)
      ∙ record_counters-cursors counters after before (
          insert_gauges-cursors gauges (retain c db).1
          ∙ retain-cursors c db
          ∙ sym (insert_gauges-cursors gauges db))
      ∙ sym (returned-tables (insert_healths codec health) (record_counters codec counters before))
      ∙ sym (returned-transaction (batch_body codec gauges counters health) db)
