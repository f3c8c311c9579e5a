-- ===== src/Store/SeriesRows.antt =====
-- store.py: the rows that `series` selects, and what each of them counts for.
use aws_ops_monitor.Prelude.{
  ℕ, ◌*◌, ◌/◌, String, Bool, not, ◌&&◌, ◌||◌, Option, none, some, List, [], ◌∷◌, ◌++◌, map, any,
  filter, leb, is_some, str_eq, if◌then◌else◌,
}
use aws_ops_monitor.Prelude.Float.{micro}
use aws_ops_monitor.Prelude.Json.{Json, text, dict, Fields, get_field}
use aws_ops_monitor.Prelude.Text.{is_blank, strip_prefix}
use aws_ops_monitor.Prelude.Sorting.{sort_by}
use aws_ops_monitor.Store.{Tables, CounterRow, Rollup}

-- `json.loads`, `none` for a `JSONDecodeError`, and Python's `str` on a value that is no text.
pub record Reader : Type 0 where
  pub json_loads : String → Option Json
  pub show : Json → String

abbrev pub virtual_interface_prefixes : List String
virtual_interface_prefixes =
    "br-" ∷ "cni" ∷ "docker" ∷ "dummy" ∷ "flannel" ∷ "tap" ∷ "tailscale" ∷ "tun" ∷ "veth" ∷ "virbr"
    ∷ "wg" ∷ []

-- `str(labels.get(key, ""))`
unfoldable pub label_text : Reader → String → Fields → String
unfolding get_field
label_text reader key labels = elim (get_field key labels) [
  | none ↦ ""
  | some (text s) ↦ s
  | some other ↦ reader.show other
]

unfoldable pub is_external_name : String → Bool
unfolding strip_prefix
is_external_name name =
    not (is_blank name)
    && not (str_eq name "lo")
    && not (any (λ p. is_some (strip_prefix p name)) virtual_interface_prefixes)

-- `_is_external_interface`
unfoldable pub is_external_interface : Reader → Fields → Bool
unfolding label_text is_external_name
is_external_interface reader labels = is_external_name (label_text reader "interface" labels)

-- a row of the query; the time in millionths of a second
pub record SeriesRow : Type 0 where
  pub observed_at : ℕ
  pub source : String
  pub name : String
  pub labels_json : String
  pub delta : ℕ

abbrev pub of_sample : CounterRow → SeriesRow
of_sample r = record {
  observed_at = r.observed_at;
  source = r.source;
  name = r.name;
  labels_json = r.labels_json;
  delta = r.delta_value;
}

abbrev pub of_rollup : Rollup → SeriesRow
of_rollup r = record {
  observed_at = r.bucket_start * micro;
  source = r.source;
  name = r.name;
  labels_json = r.labels_json;
  delta = r.delta_value;
}

-- the `WHERE` of the outer query
abbrev pub is_charted : SeriesRow → Bool
is_charted r =
    (str_eq r.source "host"
      && (str_eq r.name "network_receive_bytes_total"
          || str_eq r.name "network_transmit_bytes_total"))
    || (str_eq r.source "xray" && str_eq r.name "traffic_bytes_total")

-- the rows of the query, in the order of their times
unfoldable pub series_rows : ℕ → Tables → List SeriesRow
unfolding sort_by
series_rows since db =
    sort_by (λ r. r.observed_at)
      (filter is_charted (
        map of_sample (filter (λ r. leb (since * micro) r.observed_at) db.counter_samples)
        ++ map of_rollup
            (filter (λ r. leb (since / 3600 * 3600) r.bucket_start) db.counter_hourly_rollups)))

-- what a row adds to
pub data Cell : Type 0 where
  host_rx host_tx : Cell
  xray_traffic : (scope direction : String) → Cell

abbrev pub is_xray_scope : String → Bool
is_xray_scope s = str_eq s "user" || str_eq s "inbound" || str_eq s "outbound"

unfoldable pub labelled_cell : Reader → SeriesRow → Fields → Option Cell
unfolding is_external_interface label_text
labelled_cell reader r labels =
    if str_eq r.source "host"
    then (if is_external_interface reader labels
        then some (if str_eq r.name "network_receive_bytes_total" then host_rx else host_tx)
        else none)
    else if is_xray_scope (label_text reader "scope" labels)
        && (str_eq (label_text reader "direction" labels) "uplink"
            || str_eq (label_text reader "direction" labels) "downlink")
    then some
        (xray_traffic (label_text reader "scope" labels) (label_text reader "direction" labels))
    else none

unfoldable pub parsed_cell : Reader → SeriesRow → Option Json → Option Cell
unfolding labelled_cell
parsed_cell reader r (some (dict labels)) = labelled_cell reader r labels
parsed_cell reader r _ = none

-- `none` where the loop goes on with the next row
unfoldable pub cell_of : Reader → SeriesRow → Option Cell
unfolding parsed_cell
cell_of reader r = parsed_cell reader r (reader.json_loads r.labels_json)

-- `int(observed_at // 60) * 60`
abbrev pub bucket_of : SeriesRow → ℕ
bucket_of r = r.observed_at / (60 * micro) * 60
