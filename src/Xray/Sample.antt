-- ===== src/Xray/Sample.antt =====
-- collectors/xray.py: outputs of `docker`, and what is parsed of them.
use aws_ops_monitor.Prelude.{
  ℕ, ◌≡◌, refl, String, true, false, if◌then◌else◌, str_eq, Option, none, some, List, [], ◌∷◌, ok,
}
use aws_ops_monitor.Prelude.Int.{pos}
use aws_ops_monitor.Prelude.Float.{num}
use aws_ops_monitor.Prelude.Numerals.{parse_int, signed, numeral, numeral_digits}
use aws_ops_monitor.Prelude.Text.{
  count, any_code, take_text, lstrip, rstrip, strip_prefix, digits_value, split_on, lower_is,
  join_nul,
}
use aws_ops_monitor.Prelude.Json.{text}
use aws_ops_monitor.Models
use aws_ops_monitor.Models.{
  int, bool, CounterObservation, healthy, health_observation, validate_metric_part,
  validate_detail_items, validate_detail_value,
}
use aws_ops_monitor.Models.Snapshots.{XrayTrafficCounter, XraySnapshot}
use aws_ops_monitor.Xray.{World, CommandResult}
use aws_ops_monitor.Xray.Payload.{
  quoted, span_digits, value_here, find_value, match_here, find_all, text_item, text_item_list,
  text_items, with_name, with_quote, with_label,
}
use aws_ops_monitor.Xray.Stats.{
  split_marks, pseudonym, int_of, identity, counter_at, parts_counter, item_counter,
  compare_counters, same_key, put_counter, insert_counter, sort_counters, collect_items,
  parse_xray_stats,
}
use aws_ops_monitor.Xray.Container.{inspected, parse_fields, parse_container_state, reset_identity}
use aws_ops_monitor.Xray.Collect.{
  snapshot_of, failure_snapshot, container_health, after_parse, after_stats, after_commands,
  collect,
}
use aws_ops_monitor.Xray.Convert.{Printable}

abbrev hex : String
hex = "0123456789abcdef0123456789abcdef0123456789abcdef0123456789abcdef"

-- a `json` that knows one string, and digests that are all the same
abbrev pub world : World
world = record {
  json_loads = λ s.
      if str_eq s "\"user>>>alice>>>traffic>>>uplink\""
      then ok (some (text "user>>>alice>>>traffic>>>uplink"))
      else ok none;
  hmac_hex = λ key raw. hex;
  sha256_hex = λ s. hex;
}

abbrev pub key : List ℕ
key = 1 ∷ 2 ∷ 3 ∷ 4 ∷ 5 ∷ 6 ∷ 7 ∷ 8 ∷ 9 ∷ 10 ∷ 11 ∷ 12 ∷ 13 ∷ 14 ∷ 15 ∷ 16 ∷ []

abbrev pub output : String
output = "stat: <\n name: \"user>>>alice>>>traffic>>>uplink\"\n value: 42\n>\n"

abbrev pub stats : Option CommandResult
stats = some (record { returncode = pos 0; stdout = output })

abbrev pub inspect : Option CommandResult
inspect = some (record { returncode = pos 0; stdout = "abc|2026-01-01|running|0|false\n" })

abbrev pub alice : XrayTrafficCounter
alice = record {
  scope = "user";
  direction = "uplink";
  identity_label = "user_hash";
  identity_value = "usr_0123456789abcdef01234567";
  value = 42;
}

pub code_runs : Unit {0}
unfolding quoted span_digits value_here find_value match_here find_all text_item text_item_list
    text_items with_name with_quote with_label split_marks pseudonym int_of identity counter_at
    parts_counter item_counter compare_counters same_key put_counter insert_counter sort_counters
    collect_items parse_xray_stats inspected parse_fields parse_container_state reset_identity
    snapshot_of failure_snapshot container_health after_parse after_stats after_commands collect
    parse_int signed numeral numeral_digits count any_code take_text lstrip rstrip strip_prefix
    digits_value split_on lower_is join_nul health_observation validate_metric_part
    validate_detail_items validate_detail_value
code_runs = tt

pub parsed : parse_xray_stats world key output ≡ ok (alice ∷ [])
unfolding code_runs
parsed = refl

pub printable : Printable world
unfolding code_runs
printable = record { hmac = λ k raw. refl; sha256 = λ s. refl }

abbrev pub snapshot : XraySnapshot
snapshot = record {
  observed_at = num (pos 9);
  reset_id = "xray-container:0123456789abcdef01234567";
  counters = alice ∷ [];
  health = record {
    observed_at = 9;
    component = "xray";
    state = healthy;
    message = "Xray counters and container health collected";
    details =
        ("counter_count", int (pos 1))
        ∷ ("inspect_ok", bool true)
        ∷ ("container_status", Models.text "running")
        ∷ ("restart_count", int (pos 0))
        ∷ ("oom_killed", bool false)
        ∷ [];
  };
}

pub collected : collect world key 9 (ok inspect) (ok stats) ≡ ok snapshot
unfolding code_runs
collected = refl
