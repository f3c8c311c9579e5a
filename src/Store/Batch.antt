-- ===== src/Store/Batch.antt =====
-- store.py: `record_batch`, one transaction over all observations of a collection.
use aws_ops_monitor.Prelude.{String, List, [], ◌∷◌, ◌++◌, Result, ok, ◌>>=◌}
use aws_ops_monitor.Prelude.Text.{join_nul}
use aws_ops_monitor.Models.{GaugeObservation, CounterObservation, HealthObservation, CounterResult}
use aws_ops_monitor.Store.{Tables, GaugeRow, CounterRow, HealthRow, Cursor, Codec, transaction}
use aws_ops_monitor.Store.Counters.{find_cursor, upsert_cursor, judge, Verdict}

module _ (codec : Codec) where
  -- `_counter_key`
  unfoldable pub counter_key : String → String → String → String
  counter_key source name labels_json = codec.sha256 (join_nul source (join_nul name labels_json))

  unfoldable pub key_of : CounterObservation → String
  key_of o = counter_key o.source o.name (codec.dump_labels o.labels)

  unfoldable pub gauge_row : GaugeObservation → GaugeRow
  gauge_row o = record {
    observed_at = o.observed_at;
    source = o.source;
    name = o.name;
    labels_json = codec.dump_labels o.labels;
    value = o.value;
  }

  unfoldable pub insert_gauge : Tables → GaugeObservation → Tables
  insert_gauge db o = record db { gauge_samples = db.gauge_samples ++ gauge_row o ∷ [] }

  unfoldable pub counter_row : CounterObservation → Verdict → CounterRow
  counter_row o v = record {
    observed_at = o.observed_at;
    counter_key = key_of o;
    source = o.source;
    name = o.name;
    labels_json = codec.dump_labels o.labels;
    reset_id = o.reset_id;
    raw_value = o.value;
    delta_value = v.delta;
    is_baseline = v.is_baseline;
    is_reset = v.is_reset;
  }

  unfoldable pub cursor_of : CounterObservation → Cursor
  cursor_of o = record {
    counter_key = key_of o;
    source = o.source;
    name = o.name;
    labels_json = codec.dump_labels o.labels;
    reset_id = o.reset_id;
    raw_value = o.value;
    observed_at = o.observed_at;
  }

  unfoldable pub counter_result : CounterObservation → Verdict → CounterResult
  counter_result o v = record {
    source = o.source;
    name = o.name;
    value = o.value;
    delta = v.delta;
    reset_id = o.reset_id;
    is_baseline = v.is_baseline;
    is_reset = v.is_reset;
    labels = o.labels;
  }

  -- both `INSERT`s of an observation
  unfoldable pub write_counter : Tables → CounterObservation → Verdict → Tables
  write_counter db o v = record db {
    counter_samples = db.counter_samples ++ counter_row o v ∷ [];
    counter_cursors = upsert_cursor (cursor_of o) db.counter_cursors;
  }

  -- one round of the loop over the counters
  unfoldable pub record_one : Tables → CounterObservation → Result (CounterResult × Tables)
  record_one db o = do
    v ← judge (find_cursor (key_of o) db.counter_cursors) o
    ok (counter_result o v, write_counter db o v)

  unfoldable pub record_counters :
      List CounterObservation → Tables → Result (List CounterResult × Tables)
  record_counters [] db = ok ([], db)
  record_counters (o ∷ os) db = do
    (r, db') ← record_one db o
    (rs, db'') ← record_counters os db'
    ok (r ∷ rs, db'')

  unfoldable pub health_row : HealthObservation → HealthRow
  health_row o = record {
    observed_at = o.observed_at;
    component = o.component;
    state = o.state;
    message = o.message;
    details_json = codec.dump_details o.details;
  }

  unfoldable pub insert_health : Tables → HealthObservation → Tables
  insert_health db o = record db { health_samples = db.health_samples ++ health_row o ∷ [] }

  unfoldable pub insert_gauges : List GaugeObservation → Tables → Tables
  insert_gauges [] db = db
  insert_gauges (o ∷ os) db = insert_gauges os (insert_gauge db o)

  unfoldable pub insert_healths : List HealthObservation → Tables → Tables
  insert_healths [] db = db
  insert_healths (o ∷ os) db = insert_healths os (insert_health db o)

  -- the body of the `with` block
  unfoldable pub batch_body :
      List GaugeObservation
      → List CounterObservation
      → List HealthObservation
      → Tables
      → Result (List CounterResult × Tables)
  batch_body gauges counters health db = do
    (results, db') ← record_counters counters (insert_gauges gauges db)
    ok (results, insert_healths health db')

  unfoldable pub record_batch :
      List GaugeObservation
      → List CounterObservation
      → List HealthObservation
      → Tables
      → Result (List CounterResult) × Tables
  record_batch gauges counters health = transaction (batch_body gauges counters health)
