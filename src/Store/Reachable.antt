-- ===== src/Store/Reachable.antt =====
-- store.py: every database that a `MetricStore` can reach.
use mathlib.Core.Path.{subst}
use aws_ops_monitor.Prelude.{
  ◌≡◌, refl, inl, inr, sym, ap, ◌∙◌, Bool, false, List, [], ◌∷◌, ok, arith, leb, filter, All,
  All-filter, Result-cases, bind-ok,
}
use aws_ops_monitor.Prelude.Float.{Float}
use aws_ops_monitor.Models.{
  Scalar, GaugeObservation, CounterObservation, HealthObservation, CounterResult,
}
use aws_ops_monitor.Store.{Tables, Rollup, Codec, empty_tables, transaction}
use aws_ops_monitor.Store.Batch.{
  insert_gauge, insert_gauges, insert_health, insert_healths, record_counters, batch_body,
  record_batch,
}
use aws_ops_monitor.Store.Invariant.{
  IsCovered, IsConsistent, IsSound, UniqueBuckets, empty_tables-IsSound, record_counters-IsSound,
}
use aws_ops_monitor.Store.Retention.{
  same_bucket, add_rollup, merge_rollup, merge_all, group_rows, Cutoffs, retain, is_compacted,
  apply_retention,
}
use aws_ops_monitor.Store.Retention.Effects.{apply_retention-cases}

-- No row of the list is in the bucket.
abbrev IsFresh : Rollup → List Rollup → Type 0
IsFresh r = All (λ s. same_bucket r s ≡ false)

IsFresh-merge_rollup :
    (r new : Rollup) (rs : List Rollup)
    → same_bucket r new ≡ false
    → IsFresh r rs
    → IsFresh r (merge_rollup new rs)
unfolding merge_rollup
IsFresh-merge_rollup r new [] ne h = (ne, tt)
IsFresh-merge_rollup r new (s ∷ rs) ne h =
    ground (arith, IsFresh-merge_rollup r new rs ne h.1, same_bucket-add_right r s new)
  where
    same_bucket-add_right : (r s new : Rollup) → same_bucket r (add_rollup s new) ≡ same_bucket r s
    same_bucket-add_right r s new = unfold same_bucket add_rollup in refl

same_bucket-add_left : (s new r : Rollup) → same_bucket (add_rollup s new) r ≡ same_bucket s r
unfolding same_bucket add_rollup
same_bucket-add_left s new r = refl

IsFresh-add_rollup :
    (s new : Rollup) (rs : List Rollup) → IsFresh s rs → IsFresh (add_rollup s new) rs
IsFresh-add_rollup s new [] h = tt
IsFresh-add_rollup s new (r ∷ rs) h =
    (same_bucket-add_left s new r ∙ h.0, IsFresh-add_rollup s new rs h.1)

merge_rollup-UniqueBuckets :
    (new : Rollup) (rs : List Rollup) → UniqueBuckets rs → UniqueBuckets (merge_rollup new rs)
unfolding merge_rollup
merge_rollup-UniqueBuckets new [] h = (tt, tt)
merge_rollup-UniqueBuckets new (r ∷ rs) h = ground (
  arith,
  IsFresh-add_rollup r new rs h.0,
  merge_rollup-UniqueBuckets new rs h.1,
  IsFresh-merge_rollup r new rs,
)

merge_all-UniqueBuckets :
    (new rs : List Rollup) → UniqueBuckets rs → UniqueBuckets (merge_all new rs)
unfolding merge_all
merge_all-UniqueBuckets [] rs h = h
merge_all-UniqueBuckets (r ∷ new) rs h =
    merge_all-UniqueBuckets new (merge_rollup r rs) (merge_rollup-UniqueBuckets r rs h)

filter-UniqueBuckets :
    (p : Rollup → Bool) (rs : List Rollup) → UniqueBuckets rs → UniqueBuckets (filter p rs)
filter-UniqueBuckets p [] h = tt
filter-UniqueBuckets p (r ∷ rs) h =
    ground
      (arith, filter-UniqueBuckets p rs h.1, All-filter (λ s. same_bucket r s ≡ false) p rs h.0)

retain-IsSound : (c : Cutoffs) (db : Tables) → IsSound db → IsSound (retain c db).1
unfolding retain
retain-IsSound c db s = record {
  covered =
      All-filter (IsCovered db.counter_cursors) (λ r. leb c.raw r.observed_at) db.counter_samples
        s.covered;
  consistent =
      All-filter IsConsistent (λ r. leb c.raw r.observed_at) db.counter_samples s.consistent;
  unique_keys = s.unique_keys;
  unique_buckets = filter-UniqueBuckets _ _ (
      merge_all-UniqueBuckets (group_rows (filter (is_compacted c) db.counter_samples))
        db.counter_hourly_rollups s.unique_buckets);
}

module _ (codec : Codec) where
  insert_gauges-IsSound :
      (gs : List GaugeObservation) (db : Tables) → IsSound db → IsSound (insert_gauges codec gs db)
  unfolding insert_gauges insert_gauge
  insert_gauges-IsSound [] db s = s
  insert_gauges-IsSound (g ∷ gs) db s = insert_gauges-IsSound gs (insert_gauge codec db g) (record {
    covered = s.covered;
    consistent = s.consistent;
    unique_keys = s.unique_keys;
    unique_buckets = s.unique_buckets;
  })

  insert_healths-IsSound :
      (hs : List HealthObservation) (db : Tables)
      → IsSound db
      → IsSound (insert_healths codec hs db)
  unfolding insert_healths insert_health
  insert_healths-IsSound [] db s = s
  insert_healths-IsSound (h ∷ hs) db s =
      insert_healths-IsSound hs (insert_health codec db h) (record {
        covered = s.covered;
        consistent = s.consistent;
        unique_keys = s.unique_keys;
        unique_buckets = s.unique_buckets;
      })

  batch_body-IsSound :
      (gauges : List GaugeObservation) (counters : List CounterObservation)
      (health : List HealthObservation) (db : Tables) (r : List CounterResult × Tables)
      → batch_body codec gauges counters health db ≡ ok r
      → IsSound db
      → IsSound r.1
  unfolding batch_body
  batch_body-IsSound gauges counters health db r h s =
      let (made, recorded, done) =
        bind-ok (record_counters codec counters (insert_gauges codec gauges db)) _ h in
      let e : insert_healths codec health made.1 ≡ r.1 = ground arith in
      subst IsSound e (
        insert_healths-IsSound health made.1 (
          record_counters-IsSound codec counters (insert_gauges codec gauges db) made.1 made.0
            recorded (insert_gauges-IsSound gauges db s)))

  pub record_batch-IsSound :
      (gauges : List GaugeObservation) (counters : List CounterObservation)
      (health : List HealthObservation) (db : Tables)
      → IsSound db
      → IsSound (record_batch codec gauges counters health db).1
  unfolding record_batch
  record_batch-IsSound gauges counters health db s =
      elim (Result-cases (batch_body codec gauges counters health db)) [
        | inl (r, e) ↦ rw (e, transaction) (batch_body-IsSound gauges counters health db r e s)
        | inr (x, e) ↦ rw (e, transaction) s
      ]

  pub apply_retention-IsSound :
      (now : Float) (raw_days rollup_days : Scalar) (db : Tables)
      → IsSound db
      → IsSound (apply_retention now raw_days rollup_days db).1
  apply_retention-IsSound now raw_days rollup_days db s =
      elim (apply_retention-cases now raw_days rollup_days db) [
        | inl (c, good, fits, e) ↦ subst IsSound (sym (ap (λ p. p.1) e)) (retain-IsSound c db s)
        | inr (bad, (x, e)) ↦ subst IsSound (sym (ap (λ p. p.1) e)) s
      ]

  -- The databases that calls of the two writing methods lead to, whatever they are given and whether
  -- or not they raise. The schema is created empty.
  pub data Reaches : Tables → Type 0 where
    created : Reaches empty_tables
    batch :
        {db : Tables}
        → Reaches db
        → (gauges : List GaugeObservation) (counters : List CounterObservation)
          (health : List HealthObservation)
        → Reaches (record_batch codec gauges counters health db).1
    retention :
        {db : Tables}
        → Reaches db
        → (now : Float) (raw_days rollup_days : Scalar)
        → Reaches (apply_retention now raw_days rollup_days db).1

  -- In every database that the store can reach the keys of cursors and rollups are unique, no
  -- counter row is later than the cursor of its counter, baselines and resets have no delta, and no
  -- delta passes the raw value.
  pub Reaches-IsSound : {db : Tables} → Reaches db → IsSound db
  Reaches-IsSound created = empty_tables-IsSound
  Reaches-IsSound (batch r gauges counters health) =
      record_batch-IsSound gauges counters health _ (Reaches-IsSound r)
  Reaches-IsSound (retention r now raw_days rollup_days) =
      apply_retention-IsSound now raw_days rollup_days _ (Reaches-IsSound r)
