-- ===== src/Store/Series.antt =====
-- store.py: `series`, the buckets of one minute that the dashboard draws.
use aws_ops_monitor.Prelude.{
  ℕ, ◌+◌, ◌-◌, String, Bool, ◌&&◌, Option, none, some, List, [], ◌∷◌, any, drop, length, Result, ok,
  err, value_error, other_error, ◌>>=◌, ltb, leb, ◌==◌, str_eq, if◌then◌else◌,
}
use aws_ops_monitor.Prelude.Int.{ℤ, pos, pos_part, neg_part}
use aws_ops_monitor.Prelude.Sorting.{sort_by}
use aws_ops_monitor.Models
use aws_ops_monitor.Models.{Scalar}
use aws_ops_monitor.Store.{Tables}
use aws_ops_monitor.Store.SeriesRows.{
  Reader, SeriesRow, series_rows, Cell, cell_of, bucket_of, host_rx, host_tx, xray_traffic,
}

-- a point of the chart; a field that was not set is `none`
pub record Point : Type 0 where
  pub timestamp : ℕ
  pub host_rx_bytes : Option ℕ
  pub host_tx_bytes : Option ℕ
  pub xray_up_bytes : Option ℕ
  pub xray_down_bytes : Option ℕ

abbrev pub empty_point : ℕ → Point
empty_point bucket = record {
  timestamp = bucket;
  host_rx_bytes = none;
  host_tx_bytes = none;
  xray_up_bytes = none;
  xray_down_bytes = none;
}

-- `buckets.setdefault(bucket, {"timestamp": bucket})`, and what is done to it
unfoldable pub at_bucket : ℕ → (Point → Point) → List Point → List Point
at_bucket bucket change [] = change (empty_point bucket) ∷ []
at_bucket bucket change (p ∷ points) =
    if p.timestamp == bucket then change p ∷ points else p ∷ at_bucket bucket change points

abbrev pub added : Option ℕ → ℕ → Option ℕ
added none delta = some delta
added (some n) delta = some (n + delta)

abbrev pub add_rx : ℕ → Point → Point
add_rx delta p = record p { host_rx_bytes = added p.host_rx_bytes delta }

abbrev pub add_tx : ℕ → Point → Point
add_tx delta p = record p { host_tx_bytes = added p.host_tx_bytes delta }

-- an entry of `xray_buckets`
pub record XrayPoint : Type 0 where
  pub scope : String
  pub bucket : ℕ
  pub uplink : ℕ
  pub downlink : ℕ

abbrev pub add_direction : String → ℕ → XrayPoint → XrayPoint
add_direction direction delta x =
    if str_eq direction "uplink"
    then record x { uplink = x.uplink + delta }
    else record x { downlink = x.downlink + delta }

unfoldable pub add_xray : String → ℕ → String → ℕ → List XrayPoint → List XrayPoint
add_xray scope bucket direction delta [] =
    add_direction direction delta
      (record { scope = scope; bucket = bucket; uplink = 0; downlink = 0 })
    ∷ []
add_xray scope bucket direction delta (x ∷ xs) =
    if str_eq x.scope scope && (x.bucket == bucket)
    then add_direction direction delta x ∷ xs
    else x ∷ add_xray scope bucket direction delta xs

-- `buckets` and `xray_buckets`
abbrev pub Buckets : Type 0
Buckets = List Point × List XrayPoint

unfoldable pub add_cell : Option Cell → ℕ → ℕ → Buckets → Buckets
unfolding at_bucket add_xray
add_cell none bucket delta buckets = buckets
add_cell (some host_rx) bucket delta (points, xs) = (at_bucket bucket (add_rx delta) points, xs)
add_cell (some host_tx) bucket delta (points, xs) = (at_bucket bucket (add_tx delta) points, xs)
add_cell (some (xray_traffic scope direction)) bucket delta (points, xs) =
    (points, add_xray scope bucket direction delta xs)

-- the loop over the rows
unfoldable pub fill : Reader → List SeriesRow → Buckets → Buckets
unfolding add_cell cell_of
fill reader [] buckets = buckets
fill reader (r ∷ rows) buckets =
    fill reader rows (add_cell (cell_of reader r) (bucket_of r) r.delta buckets)

abbrev pub has_scope : String → List XrayPoint → Bool
has_scope scope = any (λ x. str_eq x.scope scope)

-- `_preferred_xray_scope`, of the scopes that have an entry
abbrev pub preferred_xray_scope : List XrayPoint → Option String
preferred_xray_scope xs =
    if has_scope "user" xs
    then some "user"
    else if has_scope "inbound" xs
    then some "inbound"
    else if has_scope "outbound" xs
    then some "outbound"
    else none

abbrev pub set_xray : XrayPoint → Point → Point
set_xray x p = record p { xray_up_bytes = some x.uplink; xray_down_bytes = some x.downlink }

unfoldable pub merge_xray : String → List XrayPoint → List Point → List Point
unfolding at_bucket
merge_xray scope [] points = points
merge_xray scope (x ∷ xs) points =
    let changed = merge_xray scope xs (at_bucket x.bucket (set_xray x) points) in
    let same = merge_xray scope xs points in if str_eq x.scope scope then changed else same

unfoldable pub merged : Option String → Buckets → List Point
unfolding merge_xray
merged none (points, xs) = points
merged (some scope) (points, xs) = merge_xray scope xs points

unfoldable pub series_points : Reader → List SeriesRow → List Point
unfolding fill sort_by merged
series_points reader rows =
    let buckets = fill reader rows ([], []) in
    sort_by (λ p. p.timestamp) (merged (preferred_xray_scope buckets.1) buckets)

-- the tests on `since_unix` and `limit`
abbrev pub since_of : Scalar → Result ℤ
since_of (Models.int z) = ok z
since_of _ = err (value_error "since_unix must be an integer Unix timestamp")

abbrev pub limit_of : Scalar → Result ℕ
limit_of (Models.int (pos n)) =
    if leb 1 n && leb n 10000 then ok n else err (value_error "limit must be between 1 and 10000")
limit_of _ = err (value_error "limit must be between 1 and 10000")

-- The query takes integers of 64 bits, and others raise an `OverflowError`. A time before 1970 selects
-- every row, as 0 does.
abbrev pub bound_time : ℤ → Result ℕ
bound_time z =
    if ltb (pos_part z) 9223372036854775808 && leb (neg_part z) 9223372036854775808
    then ok (pos_part z)
    else err other_error

-- `points[-limit:]`
abbrev pub last_points : ℕ → List Point → List Point
last_points limit points = drop (length points - limit) points

unfoldable pub series : Reader → Tables → Scalar → Scalar → Result (List Point)
unfolding series_rows series_points
series reader db since_unix limit = do
  given ← since_of since_unix
  n ← limit_of limit
  since ← bound_time given
  ok (last_points n (series_points reader (series_rows since db)))
