-- ===== src/Store/Growth.antt =====
-- store.py: the deltas of one counter, added up.
use aws_ops_monitor.Prelude.{
  ℕ, ◌+◌, ◌-◌, ◌≤◌, ◌≡◌, ap, sym, ◌∙◌, inl, inr, String, some, List, [], ◌∷◌, ok, arith, eq_iff,
  sum_by,
}
use aws_ops_monitor.Models.{GaugeObservation, CounterObservation, HealthObservation, CounterResult}
use aws_ops_monitor.Store.{Codec, Tables, Cursor}
use aws_ops_monitor.Store.Counters.{find_cursor}
use aws_ops_monitor.Store.Batch.{key_of, counter_result, record_batch}
use aws_ops_monitor.Store.Verdicts.{Last, last_of, last_in, expected}
use aws_ops_monitor.Store.History.{Memory, remember, memory, expected_results}
use aws_ops_monitor.Store.Recorded.{record_batch-all_or_nothing}

module _ (codec : Codec) (key reset : String) where
  -- The observations are of one counter, under one reset identity, and its value never falls.
  abbrev Climbs : ℕ → List CounterObservation → Type 0
  Climbs v [] = Unit
  Climbs v (o ∷ os) =
      ((key_of codec o ≡ key) × (o.reset_id ≡ reset) × (v ≤ o.value)) × Climbs o.value os

  abbrev final_value : ℕ → List CounterObservation → ℕ
  final_value v [] = v
  final_value v (o ∷ os) = final_value o.value os

  abbrev pub total_delta : List CounterResult → ℕ
  total_delta = sum_by (λ r. r.delta)

  delta_of_known :
      (m : Memory codec) (l : Last) (o : CounterObservation)
      → m key ≡ some l
      → key_of codec o ≡ key
      → o.reset_id ≡ l.reset_id
      → (expected (m (key_of codec o)) o).delta ≡ o.value - l.value
  delta_of_known m l o known k same = rw (k, known) (ground (arith, eq_iff o.reset_id l.reset_id))

  total_delta-expected_results :
      (m : Memory codec) (l : Last) (os : List CounterObservation)
      → m key ≡ some l
      → l.reset_id ≡ reset
      → Climbs l.value os
      → l.value + total_delta (expected_results codec m os) ≡ final_value l.value os
  unfolding counter_result
  total_delta-expected_results m l [] known same h = omega arith
  total_delta-expected_results m l (o ∷ os) known same ((k, r, rise), h) = omega (
    arith,
    delta_of_known m l o known k (r ∙ sym same),
    total_delta-expected_results (remember codec m o) (last_of o) os
        (ground (arith, eq_iff (key_of codec o) key)) r h,
  )

  -- While a counter climbs under the reset identity of its cursor, the deltas that a batch of its
  -- observations returns add up to exactly the rise from the value of the cursor to the last value
  -- observed, however many observations lie between.
  pub record_batch-total_delta :
      (gauges : List GaugeObservation) (os : List CounterObservation)
      (health : List HealthObservation) (db db' : Tables) (c : Cursor) (rs : List CounterResult)
      → find_cursor key db.counter_cursors ≡ some c
      → c.reset_id ≡ reset
      → Climbs c.raw_value os
      → record_batch codec gauges os health db ≡ (ok rs, db')
      → c.raw_value + total_delta rs ≡ final_value c.raw_value os
  record_batch-total_delta gauges os health db db' c rs found same climbs recorded =
      elim (record_batch-all_or_nothing codec gauges os health db) [
        | inl (all, e) ↦
            let made : rs ≡ expected_results codec (memory codec db) os = cc (e, recorded) in
            rw made (
              total_delta-expected_results (memory codec db)
                (record { reset_id = c.reset_id; value = c.raw_value; time = c.observed_at }) os
                (ap last_in found) same climbs)
        | inr (fails, (x, e)) ↦ cc (e, recorded)
      ]
