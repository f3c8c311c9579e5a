-- ===== src/Store/SeriesTests.antt =====
-- store.py: `series` at a small database.
use aws_ops_monitor.Prelude.{
  ℕ, ◌*◌, ◌≡◌, ◌≤◌, refl, String, false, Option, none, some, List, [], ◌∷◌, length, ok, str_eq,
  sum_by, if◌then◌else◌,
}
use aws_ops_monitor.Prelude.Int.{pos}
use aws_ops_monitor.Prelude.Float.{micro}
use aws_ops_monitor.Prelude.Json.{Json, text, dict, end, field, get_field}
use aws_ops_monitor.Prelude.Text.{strip_prefix}
use aws_ops_monitor.Prelude.Sorting.{sort_by, insert_by}
use aws_ops_monitor.Models
use aws_ops_monitor.Store.{Tables, CounterRow, empty_tables}
use aws_ops_monitor.Store.SeriesRows.{
  Reader, SeriesRow, of_sample, series_rows, label_text, is_external_name, is_external_interface,
  labelled_cell, parsed_cell, cell_of,
}
use aws_ops_monitor.Store.Series.{
  Point, at_bucket, add_xray, add_cell, fill, merge_xray, merged, series_points, series,
}
use aws_ops_monitor.Store.SeriesTotals.{rx_at, tx_at, row_rx, row_tx, series_points-host_bytes}
use aws_ops_monitor.Store.SeriesOrder.{Ascending, series-Ascending}

abbrev loads : String → Option Json
loads s =
    if str_eq s "eth0"
    then some (dict (field "interface" (text "eth0") end))
    else if str_eq s "veth1"
    then some (dict (field "interface" (text "veth1") end))
    else if str_eq s "user"
    then some (dict (field "scope" (text "user") (field "direction" (text "uplink") end)))
    else none

abbrev reader : Reader
reader = record { json_loads = loads; show = λ _. "None" }

abbrev at : ℕ → String → String → String → ℕ → CounterRow
at t source name labels delta = record {
  observed_at = t * micro;
  counter_key = "key";
  source = source;
  name = name;
  labels_json = labels;
  reset_id = "boot";
  raw_value = delta;
  delta_value = delta;
  is_baseline = false;
  is_reset = false;
}

abbrev traffic : Tables
traffic = record empty_tables {
  counter_samples =
      at 125 "host" "network_receive_bytes_total" "eth0" 7
      ∷ at 61 "host" "network_receive_bytes_total" "eth0" 5
      ∷ at 130 "host" "network_receive_bytes_total" "veth1" 100
      ∷ at 140 "host" "network_receive_bytes_total" "eth0" 4
      ∷ at 70 "xray" "traffic_bytes_total" "user" 3
      ∷ [];
}

abbrev charted : List Point
charted =
    record {
      timestamp = 60;
      host_rx_bytes = some 5;
      host_tx_bytes = none;
      xray_up_bytes = some 3;
      xray_down_bytes = some 0;
    }
    ∷ record {
      timestamp = 120;
      host_rx_bytes = some 11;
      host_tx_bytes = none;
      xray_up_bytes = none;
      xray_down_bytes = none;
    }
    ∷ []

code_runs : Unit {0}
unfolding label_text is_external_name is_external_interface labelled_cell parsed_cell cell_of
    at_bucket add_xray add_cell fill merge_xray merged series_points series_rows series sort_by
    insert_by get_field strip_prefix
code_runs = tt

drawn_points : series reader traffic (Models.int (pos 0)) (Models.int (pos 10)) ≡ ok charted
unfolding code_runs
drawn_points = refl

-- a traffic of the host that falls into two buckets
abbrev rows : List SeriesRow
rows =
    of_sample (at 61 "host" "network_receive_bytes_total" "eth0" 5)
    ∷ of_sample (at 125 "host" "network_transmit_bytes_total" "eth0" 7)
    ∷ []

series_points-host_bytes_example :
    (sum_by (rx_at 120) (series_points reader rows) ≡ sum_by (row_rx reader 120) rows)
    × (sum_by (tx_at 120) (series_points reader rows) ≡ sum_by (row_tx reader 120) rows)
series_points-host_bytes_example = series_points-host_bytes reader rows 120

series-Ascending_example :
    (n : ℕ) × (Models.int (pos 10) ≡ Models.int (pos n))
    × (1 ≤ n)
    × (n ≤ 10000)
    × (length charted ≤ n)
    × Ascending charted
series-Ascending_example =
    series-Ascending reader traffic (Models.int (pos 0)) (Models.int (pos 10)) charted drawn_points
