-- ===== src/Store/Counters.antt =====
-- store.py: the cursors of the counters, and the delta of an observation.
use aws_ops_monitor.Prelude.{
  ℕ, ◌-◌, String, Bool, true, false, not, ◌&&◌, ◌||◌, Option, none, some, List, [], ◌∷◌, Result, ok,
  value_error, ◌>>◌, raise_if, ltb, ◌==◌, if◌then◌else◌, str_eq,
}
use aws_ops_monitor.Models.{CounterObservation}
use aws_ops_monitor.Store.{Cursor}

-- `SELECT ... FROM counter_cursors WHERE counter_key = ?`
unfoldable pub find_cursor : String → List Cursor → Option Cursor
find_cursor key [] = none
find_cursor key (c ∷ cs) = if str_eq c.counter_key key then some c else find_cursor key cs

-- `INSERT INTO counter_cursors ... ON CONFLICT(counter_key) DO UPDATE SET reset_id, raw_value,
-- observed_at`
unfoldable pub upsert_cursor : Cursor → List Cursor → List Cursor
upsert_cursor new [] = new ∷ []
upsert_cursor new (c ∷ cs) =
    if str_eq c.counter_key new.counter_key
    then record c {
      reset_id = new.reset_id;
      raw_value = new.raw_value;
      observed_at = new.observed_at;
    }
      ∷ cs
    else c ∷ upsert_cursor new cs

pub record Verdict : Type 0 where
  pub is_baseline : Bool
  pub is_reset : Bool
  pub delta : ℕ

abbrev pub baseline : Verdict
baseline = record { is_baseline = true; is_reset = false; delta = 0 }

-- `is_reset`, from the observation and the cursor
unfoldable pub detects_reset : Cursor → CounterObservation → Bool
detects_reset cursor o = not (str_eq o.reset_id cursor.reset_id) || ltb o.value cursor.raw_value

-- The body of the loop up to the first `INSERT`. `delta` is only computed where it is not negative.
unfoldable pub judge : Option Cursor → CounterObservation → Result Verdict
unfolding detects_reset
judge none o = ok baseline
judge (some cursor) o = do
  raise_if (ltb o.observed_at cursor.observed_at)
      (value_error "counter observations must be time ordered")
  raise_if
      ((o.observed_at == cursor.observed_at)
        && (not (o.value == cursor.raw_value) || not (str_eq o.reset_id cursor.reset_id)))
      (value_error "conflicting counter observations share a timestamp")
  let reset = detects_reset cursor o
  ok (record {
    is_baseline = false;
    is_reset = reset;
    delta = if reset then 0 else o.value - cursor.raw_value;
  })
