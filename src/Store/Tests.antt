-- ===== src/Store/Tests.antt =====
-- store.py: the theorems and the code at concrete batches.
use Prim.Native.String
use aws_ops_monitor.Prelude.{
  other_error, ℕ, ◌+◌, ◌*◌, ◌≡◌, refl, ◌↔◌, ◌⊎◌, Bool, String, true, false, some, List, [], ◌∷◌,
  map, Result, ok, err, Error, arith,
}
use aws_ops_monitor.Prelude.Int.{pos}
use aws_ops_monitor.Prelude.Float.{whole, micro}
use aws_ops_monitor.Prelude.Text.{take_text, count, any_code, join_nul}
use aws_ops_monitor.Models.{sqlite_integer_max, int, Labels, CounterObservation, CounterResult}
use aws_ops_monitor.Models.Checks.{IsCounterObservation}
use aws_ops_monitor.Store.{Tables, Codec, Cursor, Rollup, empty_tables}
use aws_ops_monitor.Store.Counters.{find_cursor, upsert_cursor, judge, detects_reset}
use aws_ops_monitor.Store.Batch.{
  counter_key, key_of, gauge_row, health_row, counter_row, cursor_of, counter_result, write_counter,
  record_one, record_counters, insert_gauges, insert_healths, batch_body, record_batch,
}
use aws_ops_monitor.Store.Keys.{counter_key-injective}
use aws_ops_monitor.Store.Verdicts.{last_in, MayFollow, expected, judge-ok_iff}
use aws_ops_monitor.Store.History.{AllFollow, expected_results, memory}
use aws_ops_monitor.Store.Recorded.{after_batch, record_batch-all_or_nothing}
use aws_ops_monitor.Store.Growth.{total_delta, record_batch-total_delta}
use aws_ops_monitor.Store.Retention.{
  merge_rollup, merge_all, same_bucket, add_rollup, rollup_of, group_rows, delete_before, retain,
  Cutoffs, apply_retention, sums_fit, retention_cutoffs, finite_now, days_between, cutoffs,
}
use aws_ops_monitor.Store.Retention.Conservation.{bucket_total, retain_conserves}
use aws_ops_monitor.Store.Retention.Repeat.{no_counts, retain_idempotent}
use aws_ops_monitor.Store.Retention.Effects.{record_batch-retain}
use aws_ops_monitor.Store.Invariant.{IsSound}
use aws_ops_monitor.Store.Reachable.{created, batch, retention, Reaches-IsSound}

abbrev plain_labels : Labels → String
plain_labels [] = ""
plain_labels ((k, v) ∷ ls) = String.◌++◌ k (String.◌++◌ "=" (String.◌++◌ v (plain_labels ls)))

-- a codec that can be run: labels as they stand, and no hashing
abbrev codec : Codec
codec = record { dump_labels = plain_labels; dump_details = λ _. "{}"; sha256 = λ s. s }

abbrev at : ℕ → ℕ → String → CounterObservation
at t v boot = record {
  observed_at = t * micro;
  source = "host";
  name = "cpu_total_jiffies";
  value = v;
  reset_id = boot;
  labels = ("host", "edge-1") ∷ [];
}

abbrev first : CounterObservation
first = at 100 10 "boot-1"

abbrev key : String
key = "host\0cpu_total_jiffies\0host=edge-1"

code_runs : Unit {0}
unfolding find_cursor upsert_cursor judge detects_reset counter_key key_of gauge_row health_row
    counter_row cursor_of counter_result write_counter record_one record_counters insert_gauges
    insert_healths batch_body record_batch join_nul merge_rollup merge_all same_bucket add_rollup
    rollup_of group_rows delete_before retain
code_runs = tt

abbrev results : Result (List CounterResult) → List CounterResult
results (ok rs) = rs
results (err e) = []

-- the delta of a second observation, and a reset that gives none
batch_deltas :
    map {B = ℕ × Bool × Bool}
      (λ r. (r.delta, r.is_baseline, r.is_reset))
      (results
        (record_batch codec []
          (first ∷ at 130 17 "boot-1" ∷ at 160 3 "boot-2" ∷ [])
          []
          empty_tables).0)
    ≡ (0, true, false) ∷ (7, false, false) ∷ (0, false, true) ∷ []
unfolding code_runs
batch_deltas = refl

first-IsCounterObservation : IsCounterObservation first
unfolding count any_code
first-IsCounterObservation = record {
  source_part = (refl, omega arith, refl);
  name_part = (refl, omega arith, refl);
  reset_part = (refl, omega arith, refl);
  few_labels = omega arith;
  label_parts = (((refl, omega arith, refl), (omega arith, refl)), tt);
  in_range = omega arith;
}

-- a digest that is shorter than the text, as one of SHA-256 can be, and so collides on others
abbrev short_codec : Codec
short_codec = record codec { sha256 = take_text 32 }

abbrev second : CounterObservation
second = at 130 17 "boot-2"

second-IsCounterObservation : IsCounterObservation second
unfolding count any_code
second-IsCounterObservation = record {
  source_part = (refl, omega arith, refl);
  name_part = (refl, omega arith, refl);
  reset_part = (refl, omega arith, refl);
  few_labels = omega arith;
  label_parts = (((refl, omega arith, refl), (omega arith, refl)), tt);
  in_range = omega arith;
}

counter_key-injective_example :
    (first.source ≡ second.source)
    × (first.name ≡ second.name)
    × (short_codec.dump_labels first.labels ≡ short_codec.dump_labels second.labels)
unfolding code_runs
counter_key-injective_example =
    counter_key-injective short_codec first second (λ e. refl) first-IsCounterObservation
      second-IsCounterObservation refl

-- one observation recorded
abbrev one : Tables
one = (record_batch codec [] (first ∷ []) [] empty_tables).1

abbrev cursor : Cursor
cursor = cursor_of codec first

judge-ok_iff_example :
    (judge (some cursor) (at 130 17 "boot-1")
      ≡ ok (record { is_baseline = false; is_reset = false; delta = 7 }))
    ↔ (MayFollow (last_in (some cursor)) (at 130 17 "boot-1")
        × (record { is_baseline = false; is_reset = false; delta = 7 }
            ≡ expected (last_in (some cursor)) (at 130 17 "boot-1")))
judge-ok_iff_example =
    judge-ok_iff (some cursor) (at 130 17 "boot-1")
      (record { is_baseline = false; is_reset = false; delta = 7 })

record_batch-all_or_nothing_example :
    (AllFollow codec (memory codec one) (at 130 17 "boot-1" ∷ [])
      × (record_batch codec [] (at 130 17 "boot-1" ∷ []) [] one ≡ (
        ok (expected_results codec (memory codec one) (at 130 17 "boot-1" ∷ [])),
        after_batch codec [] (at 130 17 "boot-1" ∷ []) [] one,
      )))
    ⊎ ((¬ AllFollow codec (memory codec one) (at 130 17 "boot-1" ∷ []))
        × ((e : Error) × (record_batch codec [] (at 130 17 "boot-1" ∷ []) [] one ≡ (err e, one))))
record_batch-all_or_nothing_example =
    record_batch-all_or_nothing codec [] (at 130 17 "boot-1" ∷ []) [] one

-- two more observations of one counter, after the first was recorded
climb_recorded : record_batch codec [] (at 130 17 "boot-1" ∷ at 160 20 "boot-1" ∷ []) [] one ≡ (
  ok (results (record_batch codec [] (at 130 17 "boot-1" ∷ at 160 20 "boot-1" ∷ []) [] one).0),
  (record_batch codec [] (at 130 17 "boot-1" ∷ at 160 20 "boot-1" ∷ []) [] one).1,
)
unfolding code_runs
climb_recorded = refl

abbrev one_cursor : Cursor
one_cursor = cursor_of codec first

record_batch-total_delta_example :
    10
      + total_delta codec key "boot-1"
          (results (record_batch codec [] (at 130 17 "boot-1" ∷ at 160 20 "boot-1" ∷ []) [] one).0)
    ≡ 20
unfolding code_runs
record_batch-total_delta_example =
    record_batch-total_delta codec key "boot-1" [] (at 130 17 "boot-1" ∷ at 160 20 "boot-1" ∷ []) []
      one (record_batch codec [] (at 130 17 "boot-1" ∷ at 160 20 "boot-1" ∷ []) [] one).1 one_cursor
      (results (record_batch codec [] (at 130 17 "boot-1" ∷ at 160 20 "boot-1" ∷ []) [] one).0) refl
      refl ((refl, refl, omega arith), ((refl, refl, omega arith), tt)) climb_recorded

-- now is 100 days after the epoch, 7 and 60 days are kept
abbrev cuts : Cutoffs
cuts = record { raw = 93 * 86400 * micro; rollup = 40 * 86400 * micro }

abbrev bucket : Rollup
bucket = record {
  bucket_start = 50 * 86400;
  source = "host";
  name = "cpu_total_jiffies";
  labels_json = "host=edge-1";
  delta_value = 0;
  reset_count = 0;
}

abbrev old : Tables
old =
    (record_batch codec [] (at 4320000 10 "boot-1" ∷ at 4320060 15 "boot-1" ∷ []) [] empty_tables).1

retain_conserves_example :
    (bucket_total (λ r. r.delta_value) bucket (retain cuts old).1
      ≡ bucket_total (λ r. r.delta_value) bucket old)
    × (bucket_total (λ r. r.reset_count) bucket (retain cuts old).1
        ≡ bucket_total (λ r. r.reset_count) bucket old)
retain_conserves_example = retain_conserves bucket cuts old (omega arith)

-- the five units of the two samples are in the rollup, and the samples are gone
retain_compacts :
    ((retain cuts old).1.counter_hourly_rollups ≡ record bucket { delta_value = 5 } ∷ [])
    × ((retain cuts old).1.counter_samples ≡ [])
unfolding code_runs
retain_compacts = (refl, refl)

retain_idempotent_example : retain cuts (retain cuts old).1 ≡ (no_counts, (retain cuts old).1)
retain_idempotent_example = retain_idempotent cuts old

-- two climbs to the largest value within an hour, with a reset between them
abbrev large : Tables
large =
    (record_batch codec []
      (at 4320000 0 "boot-1"
        ∷ at 4320010 sqlite_integer_max "boot-1"
        ∷ at 4320020 0 "boot-2"
        ∷ at 4320030 sqlite_integer_max "boot-2"
        ∷ [])
      [] empty_tables).1

sum_overflows :
    apply_retention (whole 8640000) (int (pos 7)) (int (pos 60)) large ≡ (err other_error, large)
unfolding code_runs apply_retention sums_fit retention_cutoffs finite_now days_between cutoffs
sum_overflows = refl

record_batch-retain_example :
    (record_batch codec [] (at 4320090 21 "boot-1" ∷ []) [] (retain cuts old).1).0
    ≡ (record_batch codec [] (at 4320090 21 "boot-1" ∷ []) [] old).0
record_batch-retain_example = record_batch-retain codec [] (at 4320090 21 "boot-1" ∷ []) [] cuts old

Reaches-IsSound_example :
    IsSound (apply_retention (whole 8640000) (int (pos 7)) (int (pos 60)) one).1
Reaches-IsSound_example =
    Reaches-IsSound codec
      (retention (batch created [] (first ∷ []) []) (whole 8640000) (int (pos 7)) (int (pos 60)))
