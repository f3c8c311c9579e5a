-- ===== src/Store/History.antt =====
-- store.py: the counters of a batch, against the history of the observations before each.
use mathlib.Core.Path.{fun_ext, subst, ap₂}
use mathlib.Core.List.{append_assoc, append-nil}
use aws_ops_monitor.Prelude.{
  ◌≡◌, refl, ap, sym, ◌∙◌, String, Option, some, List, [], ◌∷◌, ◌++◌, ok, ◌↔◌, arith, str_eq,
  bind-ok, if◌then◌else◌,
}
use aws_ops_monitor.Models.{CounterObservation, CounterResult}
use aws_ops_monitor.Store.{Cursor, Codec, Tables, CounterRow}
use aws_ops_monitor.Store.Counters.{find_cursor, upsert_cursor, Verdict, judge}
use aws_ops_monitor.Store.Batch.{
  key_of, counter_row, cursor_of, counter_result, write_counter, record_one, record_counters,
}
use aws_ops_monitor.Store.Verdicts.{
  Last, last_of, last_in, MayFollow, expected, judge-ok_iff, last_in-find_cursor-upsert_cursor,
}

module _ (codec : Codec) where
  -- What was last observed of each counter.
  abbrev pub Memory : Type 0
  Memory = String → Option Last

  -- the memory after one more observation
  abbrev pub remember : Memory → CounterObservation → Memory
  remember m o key = if str_eq (key_of codec o) key then some (last_of o) else m key

  -- Each observation may follow what was last observed of its counter.
  abbrev pub AllFollow : Memory → List CounterObservation → Type 0
  AllFollow m [] = Unit
  AllFollow m (o ∷ os) = MayFollow (m (key_of codec o)) o × AllFollow (remember m o) os

  abbrev pub expected_results : Memory → List CounterObservation → List CounterResult
  expected_results m [] = []
  expected_results m (o ∷ os) =
      counter_result codec o (expected (m (key_of codec o)) o) ∷ expected_results (remember m o) os

  abbrev pub expected_rows : Memory → List CounterObservation → List CounterRow
  expected_rows m [] = []
  expected_rows m (o ∷ os) =
      counter_row codec o (expected (m (key_of codec o)) o) ∷ expected_rows (remember m o) os

  abbrev pub remember_all : Memory → List CounterObservation → Memory
  remember_all m [] = m
  remember_all m (o ∷ os) = remember_all (remember m o) os

  abbrev pub memory : Tables → Memory
  memory db key = last_in (find_cursor key db.counter_cursors)

  abbrev pub upsert_all : List CounterObservation → List Cursor → List Cursor
  upsert_all [] cs = cs
  upsert_all (o ∷ os) cs = upsert_all os (upsert_cursor (cursor_of codec o) cs)

  memory-write_counter :
      (db : Tables) (o : CounterObservation) (v : Verdict)
      → memory (write_counter codec db o v) ≡ remember (memory db) o
  unfolding write_counter cursor_of
  memory-write_counter db o v =
      fun_ext λ key. last_in-find_cursor-upsert_cursor key (cursor_of codec o) db.counter_cursors

  -- the tables after the loop
  abbrev pub after_counters : List CounterObservation → Tables → Tables
  after_counters os db = record db {
    counter_samples = db.counter_samples ++ expected_rows (memory db) os;
    counter_cursors = upsert_all os db.counter_cursors;
  }

  after_counters-cons :
      (o : CounterObservation) (os : List CounterObservation) (db : Tables)
      → after_counters os (write_counter codec db o (expected (memory db (key_of codec o)) o))
        ≡ after_counters (o ∷ os) db
  unfolding write_counter
  after_counters-cons o os db =
      let row : CounterRow = counter_row codec o (expected (memory db (key_of codec o)) o) in
      let cursors : List Cursor =
        upsert_all os (upsert_cursor (cursor_of codec o) db.counter_cursors) in
      ap
        (λ (m : Memory). record db {
          counter_samples = (db.counter_samples ++ row ∷ []) ++ expected_rows m os;
          counter_cursors = cursors;
        })
        (memory-write_counter db o (expected (memory db (key_of codec o)) o))
      ∙ ap (λ (l : List CounterRow). record db { counter_samples = l; counter_cursors = cursors })
          (append_assoc db.counter_samples (row ∷ []) _)

  pub follows :
      (o : CounterObservation) (os : List CounterObservation) (db db' : Tables)
      (rs : List CounterResult)
      → (record_counters codec (o ∷ os) db ≡ ok (rs, db'))
      → (v : Verdict) × (rest : List CounterResult) × (judge
            (find_cursor (key_of codec o) db.counter_cursors)
            o
          ≡ ok v)
        × (record_counters codec os (write_counter codec db o v) ≡ ok (rest, db'))
        × (rs ≡ counter_result codec o v ∷ rest)
  unfolding record_counters record_one
  follows o os db db' rs h =
      let (one, made, later) = bind-ok (record_one codec db o) _ h in
      let (v, judged, written) =
        bind-ok (judge (find_cursor (key_of codec o) db.counter_cursors) o) _ made in
      let (rest, recorded, done) = bind-ok (record_counters codec os one.1) _ later in
      (v, rest.0, judged, ground arith, ground arith)

  succeeds :
      (o : CounterObservation) (os : List CounterObservation) (db db' : Tables) (v : Verdict)
      (rest : List CounterResult)
      → (judge (find_cursor (key_of codec o) db.counter_cursors) o ≡ ok v)
      → (record_counters codec os (write_counter codec db o v) ≡ ok (rest, db'))
      → record_counters codec (o ∷ os) db ≡ ok (counter_result codec o v ∷ rest, db')
  unfolding record_counters record_one
  succeeds o os db db' v rest judged recorded = rw (judged, recorded)

  -- the loop from `db`, as the history says
  abbrev RunsAs : List CounterObservation → Tables → Type 0
  RunsAs os db =
      (db' : Tables) (rs : List CounterResult)
      → (record_counters codec os db ≡ ok (rs, db')) ↔ (
          AllFollow (memory db) os
          × (rs ≡ expected_results (memory db) os)
          × (db' ≡ after_counters os db))

  module _ (o : CounterObservation) (os : List CounterObservation) (db db' : Tables)
      (rs : List CounterResult) where
    runs_as :
        RunsAs os (write_counter codec db o (expected (memory db (key_of codec o)) o))
        → record_counters codec (o ∷ os) db ≡ ok (rs, db')
        → AllFollow (memory db) (o ∷ os)
          × (rs ≡ expected_results (memory db) (o ∷ os))
          × (db' ≡ after_counters (o ∷ os) db)
    runs_as ih h =
        let (v, rest, judged, recorded, shape) = follows o os db db' rs h in
        let (may, is_expected) = (judge-ok_iff _ o v).0 judged in
        let (all, results, tables) = (ih db' rest).0 (
          subst (λ w. record_counters codec os (write_counter codec db o w) ≡ ok (rest, db'))
            is_expected recorded) in
        let m = memory-write_counter db o (expected (memory db (key_of codec o)) o) in
        (
          (may, subst (λ k. AllFollow k os) m all),
          shape
              ∙ ap₂ ◌∷◌ (ap (counter_result codec o) is_expected)
                  (results ∙ ap (λ k. expected_results k os) m),
          tables ∙ after_counters-cons o os db,
        )

    runs_back :
        RunsAs os (write_counter codec db o (expected (memory db (key_of codec o)) o))
        → AllFollow (memory db) (o ∷ os)
          × (rs ≡ expected_results (memory db) (o ∷ os))
          × (db' ≡ after_counters (o ∷ os) db)
        → record_counters codec (o ∷ os) db ≡ ok (rs, db')
    runs_back ih ((may, all), results, tables) =
        let v : Verdict = expected (memory db (key_of codec o)) o in
        let m = memory-write_counter db o v in
        let rest : List CounterResult = expected_results (remember (memory db) o) os in
        rw results (
          succeeds o os db db' v rest ((judge-ok_iff _ o v).1 (may, refl)) (
            (ih db' rest).1 (
              subst (λ k. AllFollow k os) (sym m) all,
              ap (λ k. expected_results k os) (sym m),
              tables ∙ sym (after_counters-cons o os db),
            )))

  -- The loop over the counters succeeds exactly if each observation may follow the last one of its
  -- counter, in the tables or earlier in the batch. Then each result and each new row has the growth
  -- since that one, in the order of the batch, and no other table is touched.
  pub record_counters-ok_iff :
      (os : List CounterObservation) (db db' : Tables) (rs : List CounterResult)
      → (record_counters codec os db ≡ ok (rs, db')) ↔ (
          AllFollow (memory db) os
          × (rs ≡ expected_results (memory db) os)
          × (db' ≡ after_counters os db))
  unfolding record_counters
  record_counters-ok_iff [] db db' rs = rw append-nil (ground arith)
  record_counters-ok_iff (o ∷ os) db db' rs =
      let e : Verdict = expected (memory db (key_of codec o)) o in
      let ih : RunsAs os (write_counter codec db o e) =
        record_counters-ok_iff os (write_counter codec db o e) in
      (runs_as o os db db' rs ih, runs_back o os db db' rs ih)
