-- ===== src/Store/Recorded.antt =====
-- store.py: what `record_batch` leaves in the tables.
use mathlib.Core.List.{append_assoc, append-nil}
use aws_ops_monitor.Prelude.{
  ◌≡◌, refl, ap, sym, ◌∙◌, ◌⊎◌, inl, inr, List, [], ◌∷◌, ◌++◌, map, ok, err, Error, bind-ok,
  Result-cases,
}
use aws_ops_monitor.Models.{GaugeObservation, CounterObservation, HealthObservation, CounterResult}
use aws_ops_monitor.Store.{Codec, Tables, GaugeRow, HealthRow, transaction}
use aws_ops_monitor.Store.Batch.{
  gauge_row, health_row, insert_gauge, insert_gauges, insert_health, insert_healths,
  record_counters, batch_body, record_batch,
}
use aws_ops_monitor.Store.History.{
  AllFollow, expected_results, expected_rows, upsert_all, memory, after_counters,
  record_counters-ok_iff,
}

module _ (codec : Codec) where
  insert_gauges-eq :
      (gs : List GaugeObservation) (db : Tables)
      → insert_gauges codec gs db
        ≡ record db { gauge_samples = db.gauge_samples ++ map (gauge_row codec) gs }
  unfolding insert_gauges insert_gauge
  insert_gauges-eq [] db =
      ap (λ (l : List GaugeRow). record db { gauge_samples = l })
        (sym (append-nil db.gauge_samples))
  insert_gauges-eq (g ∷ gs) db =
      insert_gauges-eq gs (insert_gauge codec db g)
      ∙ ap (λ (l : List GaugeRow). record db { gauge_samples = l })
          (append_assoc db.gauge_samples (gauge_row codec g ∷ []) _)

  insert_healths-eq :
      (hs : List HealthObservation) (db : Tables)
      → insert_healths codec hs db
        ≡ record db { health_samples = db.health_samples ++ map (health_row codec) hs }
  unfolding insert_healths insert_health
  insert_healths-eq [] db =
      ap (λ (l : List HealthRow). record db { health_samples = l })
        (sym (append-nil db.health_samples))
  insert_healths-eq (h ∷ hs) db =
      insert_healths-eq hs (insert_health codec db h)
      ∙ ap (λ (l : List HealthRow). record db { health_samples = l })
          (append_assoc db.health_samples (health_row codec h ∷ []) _)

  -- every observation as a row behind the old ones, and the cursors moved
  abbrev pub after_batch :
      List GaugeObservation → List CounterObservation → List HealthObservation → Tables → Tables
  after_batch gauges counters health db = record db {
    gauge_samples = db.gauge_samples ++ map (gauge_row codec) gauges;
    counter_samples = db.counter_samples ++ expected_rows codec (memory codec db) counters;
    counter_cursors = upsert_all codec counters db.counter_cursors;
    health_samples = db.health_samples ++ map (health_row codec) health;
  }

  module _ (gauges : List GaugeObservation) (counters : List CounterObservation)
      (health : List HealthObservation) (db : Tables) where
    with_gauges : Tables
    with_gauges = record db { gauge_samples = db.gauge_samples ++ map (gauge_row codec) gauges }

    batch_body-ok :
        AllFollow codec (memory codec db) counters
        → batch_body codec gauges counters health db
          ≡ ok (
            expected_results codec (memory codec db) counters,
            after_batch gauges counters health db,
          )
    unfolding batch_body with_gauges
    batch_body-ok all = rw (
      insert_gauges-eq gauges db,
      (record_counters-ok_iff codec counters with_gauges (after_counters codec counters with_gauges)
            _).1
          (all, refl, refl),
      insert_healths-eq,
    )

    batch_body-follows :
        (r : List CounterResult × Tables)
        → batch_body codec gauges counters health db ≡ ok r
        → AllFollow codec (memory codec db) counters
    unfolding batch_body with_gauges
    batch_body-follows r h =
        let (made, recorded, _) =
          bind-ok (record_counters codec counters (insert_gauges codec gauges db)) _ h in
        let e : record_counters codec counters with_gauges ≡ ok (made.0, made.1) =
          rw (insert_gauges-eq gauges db) at recorded in
        ((record_counters-ok_iff codec counters with_gauges made.1 made.0).0 e).0

    -- A batch is written whole or not at all. It is written exactly if each counter observation may
    -- follow the last one of its counter, and then each observation is a new row, each delta is the
    -- growth that the history gives, and the cursors move; otherwise the call raises and no table
    -- changes.
    pub record_batch-all_or_nothing :
        (AllFollow codec (memory codec db) counters
          × (record_batch codec gauges counters health db ≡ (
            ok (expected_results codec (memory codec db) counters),
            after_batch gauges counters health db,
          )))
        ⊎ ((¬ AllFollow codec (memory codec db) counters)
            × ((e : Error) × (record_batch codec gauges counters health db ≡ (err e, db))))
    unfolding record_batch
    record_batch-all_or_nothing = elim (Result-cases (batch_body codec gauges counters health db)) [
      | inl (r, e) ↦
          let all = batch_body-follows r e in inl (all, rw (batch_body-ok all, transaction))
      | inr (x, e) ↦ inr (λ all. cc (e, batch_body-ok all), (x, rw (e, transaction)))
    ]
