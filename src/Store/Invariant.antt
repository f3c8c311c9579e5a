-- ===== src/Store/Invariant.antt =====
-- store.py: the invariant of the tables, and the steps of `record_batch` under it.
use mathlib.Core.Path.{subst}
use aws_ops_monitor.Prelude.{
  ℕ, suc, ◌≤◌, ◌<◌, ◌≡◌, refl, ◌≢◌, String, true, false, Option, none, some, List, [], ◌∷◌, ok,
  arith, eq_iff, All, All-append,
}
use aws_ops_monitor.Models.{CounterObservation, CounterResult}
use aws_ops_monitor.Store.{Tables, CounterRow, Rollup, Cursor, Codec, empty_tables}
use aws_ops_monitor.Store.Counters.{find_cursor, upsert_cursor, Verdict, judge}
use aws_ops_monitor.Store.Batch.{key_of, counter_row, cursor_of, write_counter, record_counters}
use aws_ops_monitor.Store.Verdicts.{
  Last, last_in, MayFollow, expected, judge-ok_iff, last_in-find_cursor-upsert_cursor,
}
use aws_ops_monitor.Store.History.{follows}
use aws_ops_monitor.Store.Retention.{same_bucket}

-- the first time that is later than all that a counter has
abbrev pub limit : Option Last → ℕ
limit none = 0
limit (some l) = suc l.time

-- A row is not later than the cursor of its counter.
abbrev pub IsCovered : List Cursor → CounterRow → Type 0
IsCovered cs row = row.observed_at < limit (last_in (find_cursor row.counter_key cs))

-- A baseline has no delta and is no reset, a reset has no delta, and no delta passes the raw value.
pub record IsConsistent (row : CounterRow) : Type 0 where
  pub of_baseline : row.is_baseline ≡ true → (row.delta_value ≡ 0) × (row.is_reset ≡ false)
  pub of_reset : row.is_reset ≡ true → row.delta_value ≡ 0
  pub bounded : row.delta_value ≤ row.raw_value

-- the primary key of the cursors
abbrev pub UniqueKeys : List Cursor → Type 0
UniqueKeys [] = Unit
UniqueKeys (c ∷ cs) = (find_cursor c.counter_key cs ≡ none) × UniqueKeys cs

-- the primary key of the rollups
abbrev pub UniqueBuckets : List Rollup → Type 0
UniqueBuckets [] = Unit
UniqueBuckets (r ∷ rs) = All (λ s. same_bucket r s ≡ false) rs × UniqueBuckets rs

pub record IsSound (db : Tables) : Type 0 where
  pub covered : All (IsCovered db.counter_cursors) db.counter_samples
  pub consistent : All IsConsistent db.counter_samples
  pub unique_keys : UniqueKeys db.counter_cursors
  pub unique_buckets : UniqueBuckets db.counter_hourly_rollups

pub empty_tables-IsSound : IsSound empty_tables
empty_tables-IsSound = record {
  covered = tt;
  consistent = tt;
  unique_keys = tt;
  unique_buckets = tt;
}

upsert_cursor_absent :
    (key : String) (new : Cursor) (cs : List Cursor)
    → new.counter_key ≢ key
    → find_cursor key cs ≡ none
    → find_cursor key (upsert_cursor new cs) ≡ none
unfolding find_cursor upsert_cursor
upsert_cursor_absent key new [] ne h = ground (arith, eq_iff new.counter_key key)
upsert_cursor_absent key new (c ∷ cs) ne h = ground (
  arith,
  eq_iff new.counter_key key,
  eq_iff c.counter_key key,
  eq_iff c.counter_key new.counter_key,
  upsert_cursor_absent key new cs,
)

upsert_cursor-UniqueKeys :
    (new : Cursor) (cs : List Cursor) → UniqueKeys cs → UniqueKeys (upsert_cursor new cs)
unfolding upsert_cursor find_cursor
upsert_cursor-UniqueKeys new [] h = (refl, tt)
upsert_cursor-UniqueKeys new (c ∷ cs) h = ground (
  arith,
  eq_iff c.counter_key new.counter_key,
  upsert_cursor-UniqueKeys new cs h.1,
  upsert_cursor_absent c.counter_key new cs,
)

module _ (codec : Codec) (o : CounterObservation) (cs : List Cursor) where
  upsert_cursor-IsCovered :
      (row : CounterRow)
      → MayFollow (last_in (find_cursor (key_of codec o) cs)) o
      → IsCovered cs row
      → IsCovered (upsert_cursor (cursor_of codec o) cs) row
  unfolding cursor_of
  upsert_cursor-IsCovered row may h =
      rw (last_in-find_cursor-upsert_cursor row.counter_key (cursor_of codec o) cs)
        (ground (arith, eq_iff (key_of codec o) row.counter_key))

  upsert_cursor-AllCovered :
      (rows : List CounterRow)
      → MayFollow (last_in (find_cursor (key_of codec o) cs)) o
      → All (IsCovered cs) rows
      → All (IsCovered (upsert_cursor (cursor_of codec o) cs)) rows
  upsert_cursor-AllCovered [] may h = tt
  upsert_cursor-AllCovered (row ∷ rows) may h =
      (upsert_cursor-IsCovered row may h.0, upsert_cursor-AllCovered rows may h.1)

  counter_row-IsCovered :
      (v : Verdict) → IsCovered (upsert_cursor (cursor_of codec o) cs) (counter_row codec o v)
  unfolding cursor_of counter_row
  counter_row-IsCovered v =
      rw (last_in-find_cursor-upsert_cursor (key_of codec o) (cursor_of codec o) cs)
        (ground (arith, eq_iff (key_of codec o) (key_of codec o)))

  counter_row-IsConsistent : (l : Option Last) → IsConsistent (counter_row codec o (expected l o))
  unfolding counter_row
  counter_row-IsConsistent none = ground arith
  counter_row-IsConsistent (some l) = ground (arith, eq_iff o.reset_id l.reset_id)

module _ (codec : Codec) where
  pub write_counter-IsSound :
      (db : Tables) (o : CounterObservation) (v : Verdict)
      → judge (find_cursor (key_of codec o) db.counter_cursors) o ≡ ok v
      → IsSound db
      → IsSound (write_counter codec db o v)
  unfolding write_counter
  write_counter-IsSound db o v judged s =
      let cs = db.counter_cursors in
      let l = last_in (find_cursor (key_of codec o) cs) in
      let (may, e) = (judge-ok_iff _ o v).0 judged in
      record {
        covered =
            All-append (IsCovered (upsert_cursor (cursor_of codec o) cs)) db.counter_samples
              (counter_row codec o v ∷ [])
              (upsert_cursor-AllCovered codec o cs db.counter_samples may s.covered)
              (counter_row-IsCovered codec o cs v, tt);
        consistent =
            All-append IsConsistent db.counter_samples (counter_row codec o v ∷ []) s.consistent
              (rw e (counter_row-IsConsistent codec o cs l), tt);
        unique_keys = upsert_cursor-UniqueKeys (cursor_of codec o) cs s.unique_keys;
        unique_buckets = s.unique_buckets;
      }

  same_tables :
      (db db' : Tables) (rs : List CounterResult)
      → record_counters codec [] db ≡ ok (rs, db')
      → db ≡ db'
  unfolding record_counters
  same_tables db db' rs h = ground arith

  pub record_counters-IsSound :
      (os : List CounterObservation) (db db' : Tables) (rs : List CounterResult)
      → record_counters codec os db ≡ ok (rs, db')
      → IsSound db
      → IsSound db'
  record_counters-IsSound [] db db' rs h s = subst IsSound (same_tables db db' rs h) s
  record_counters-IsSound (o ∷ os) db db' rs h s =
      let (v, rest, judged, recorded, shape) = follows codec o os db db' rs h in
      record_counters-IsSound os (write_counter codec db o v) db' rest recorded
        (write_counter-IsSound db o v judged s)
