-- ===== src/Store/Verdicts.antt =====
-- store.py: what the loop of `record_batch` decides about one observation.
use aws_ops_monitor.Prelude.{
  ℕ, ◌-◌, ◌<◌, ◌≡◌, ◌↔◌, ◌⊎◌, String, true, false, Option, none, some, List, [], ◌∷◌, ok, arith,
  eq_iff, str_eq, ltb, if◌then◌else◌,
}
use aws_ops_monitor.Models.{CounterObservation}
use aws_ops_monitor.Store.{Cursor}
use aws_ops_monitor.Store.Counters.{find_cursor, upsert_cursor, Verdict, baseline, judge}

-- what a cursor remembers of the last observation
pub record Last : Type 0 where
  pub reset_id : String
  pub value : ℕ
  pub time : ℕ

abbrev pub last_of : CounterObservation → Last
last_of o = record { reset_id = o.reset_id; value = o.value; time = o.observed_at }

abbrev pub last_in : Option Cursor → Option Last
last_in none = none
last_in (some c) =
    some (record { reset_id = c.reset_id; value = c.raw_value; time = c.observed_at })

-- An observation may follow another: it is later, or it repeats it.
abbrev pub MayFollow : Option Last → CounterObservation → Type 0
MayFollow none o = Unit
MayFollow (some l) o =
    (l.time < o.observed_at)
    ⊎ ((o.observed_at ≡ l.time) × (o.value ≡ l.value) × (o.reset_id ≡ l.reset_id))

-- The growth since the last observation: nothing over a restart, and nothing for a fall.
abbrev pub growth : Last → CounterObservation → ℕ
growth l o = if str_eq o.reset_id l.reset_id then o.value - l.value else 0

abbrev pub expected : Option Last → CounterObservation → Verdict
expected none o = baseline
expected (some l) o = record {
  is_baseline = false;
  is_reset = if str_eq o.reset_id l.reset_id then ltb o.value l.value else true;
  delta = growth l o;
}

-- An observation is accepted exactly if it may follow the last one of its counter, and then its
-- delta is the growth since that one; the first observation of a counter is the baseline.
pub judge-ok_iff :
    (cursor : Option Cursor) (o : CounterObservation) (v : Verdict)
    → (judge cursor o ≡ ok v) ↔ (MayFollow (last_in cursor) o × (v ≡ expected (last_in cursor) o))
unfolding judge
judge-ok_iff none o v = ground arith
judge-ok_iff (some c) o v = ground (arith, eq_iff o.reset_id c.reset_id)

-- What a later look at a key finds after a write.
pub last_in-find_cursor-upsert_cursor :
    (key : String) (new : Cursor) (cs : List Cursor)
    → last_in (find_cursor key (upsert_cursor new cs))
      ≡ (if str_eq new.counter_key key then last_in (some new) else last_in (find_cursor key cs))
unfolding find_cursor upsert_cursor
last_in-find_cursor-upsert_cursor key new [] = ground arith
last_in-find_cursor-upsert_cursor key new (c ∷ cs) = ground (
  arith,
  eq_iff c.counter_key new.counter_key,
  eq_iff c.counter_key key,
  eq_iff new.counter_key key,
  last_in-find_cursor-upsert_cursor key new cs,
)
