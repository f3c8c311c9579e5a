-- ===== src/Store/SeriesTotals.antt =====
-- store.py: the host traffic of `series` is that of the rows, bucket by bucket.
use aws_ops_monitor.Prelude.{
  ℕ, ◌+◌, ◌≡◌, refl, inl, inr, String, Option, none, some, List, [], ◌∷◌, sum_by, leb, ◌==◌, ==_iff,
  arith, Bool-cases, str_eq, if◌then◌else◌,
}
use aws_ops_monitor.Prelude.Sorting.{sort_by, insert_by}
use aws_ops_monitor.Store.SeriesRows.{
  Reader, SeriesRow, Cell, host_rx, host_tx, xray_traffic, cell_of, bucket_of,
}
use aws_ops_monitor.Store.Series.{
  Point, empty_point, at_bucket, add_rx, add_tx, XrayPoint, Buckets, add_cell, fill,
  preferred_xray_scope, set_xray, merge_xray, merged, series_points,
}

-- a field that was not set counts for nothing
abbrev pub amount : Option ℕ → ℕ
amount none = 0
amount (some n) = n

-- what the point of a bucket holds
abbrev pub rx_at : ℕ → Point → ℕ
rx_at b p = if p.timestamp == b then amount p.host_rx_bytes else 0

abbrev pub tx_at : ℕ → Point → ℕ
tx_at b p = if p.timestamp == b then amount p.host_tx_bytes else 0

abbrev pub rx_of : Option Cell → ℕ → ℕ
rx_of (some host_rx) delta = delta
rx_of (some host_tx) delta = 0
rx_of (some (xray_traffic s d)) delta = 0
rx_of none delta = 0

abbrev pub tx_of : Option Cell → ℕ → ℕ
tx_of (some host_tx) delta = delta
tx_of (some host_rx) delta = 0
tx_of (some (xray_traffic s d)) delta = 0
tx_of none delta = 0

-- what a row adds to the traffic of a bucket
abbrev pub row_rx : Reader → ℕ → SeriesRow → ℕ
row_rx reader b r = if bucket_of r == b then rx_of (cell_of reader r) r.delta else 0

abbrev pub row_tx : Reader → ℕ → SeriesRow → ℕ
row_tx reader b r = if bucket_of r == b then tx_of (cell_of reader r) r.delta else 0

sum_by-at_bucket :
    (f : Point → ℕ) (bucket k : ℕ) (change : Point → Point) (points : List Point)
    → ((p : Point) → p.timestamp ≡ bucket → f (change p) ≡ f p + k)
    → f (empty_point bucket) ≡ 0
    → sum_by f (at_bucket bucket change points) ≡ sum_by f points + k
unfolding at_bucket
sum_by-at_bucket f bucket k change [] h e = omega (arith, h (empty_point bucket) refl, e)
sum_by-at_bucket f bucket k change (p ∷ points) h e = elim (Bool-cases (p.timestamp == bucket)) [
  | inl here ↦ rw here (omega (arith, h p ((==_iff p.timestamp bucket).0 here)))
  | inr later ↦ rw later (omega (arith, sum_by-at_bucket f bucket k change points h e))
]

sum_by-insert_by :
    (f key : Point → ℕ) (p : Point) (points : List Point)
    → sum_by f (insert_by key p points) ≡ f p + sum_by f points
unfolding insert_by
sum_by-insert_by f key p [] = refl
sum_by-insert_by f key p (x ∷ xs) = elim (Bool-cases (leb (key p) (key x))) [
  | inl e ↦ rw e refl
  | inr e ↦ rw e (omega (arith, sum_by-insert_by f key p xs))
]

sum_by-sort_by :
    (f key : Point → ℕ) (points : List Point) → sum_by f (sort_by key points) ≡ sum_by f points
unfolding sort_by
sum_by-sort_by f key [] = refl
sum_by-sort_by f key (p ∷ points) =
    omega (arith, sum_by-insert_by f key p (sort_by key points), sum_by-sort_by f key points)

-- A measure of points that a row of a cell changes by its own share, and Xray does not change.
record Measure (f : Point → ℕ) (share : Option Cell → ℕ → ℕ → ℕ) : Type 0 where
  empty : (bucket : ℕ) → f (empty_point bucket) ≡ 0
  rx :
      (bucket delta : ℕ) (p : Point)
      → p.timestamp ≡ bucket
      → f (add_rx delta p) ≡ f p + share (some host_rx) bucket delta
  tx :
      (bucket delta : ℕ) (p : Point)
      → p.timestamp ≡ bucket
      → f (add_tx delta p) ≡ f p + share (some host_tx) bucket delta
  xray : (x : XrayPoint) (p : Point) → f (set_xray x p) ≡ f p
  none_share : (bucket delta : ℕ) → share none bucket delta ≡ 0
  xray_share : (s d : String) (bucket delta : ℕ) → share (some (xray_traffic s d)) bucket delta ≡ 0

module _ (f : Point → ℕ) (share : Option Cell → ℕ → ℕ → ℕ) (m : Measure f share) where
  sum_by-add_cell :
      (cell : Option Cell) (bucket delta : ℕ) (buckets : Buckets)
      → sum_by f (add_cell cell bucket delta buckets).0
        ≡ sum_by f buckets.0 + share cell bucket delta
  unfolding add_cell
  sum_by-add_cell none bucket delta (points, xs) = omega (arith, m.none_share bucket delta)
  sum_by-add_cell (some host_rx) bucket delta (points, xs) =
      sum_by-at_bucket f bucket (share (some host_rx) bucket delta) (add_rx delta) points
        (m.rx bucket delta) (m.empty bucket)
  sum_by-add_cell (some host_tx) bucket delta (points, xs) =
      sum_by-at_bucket f bucket (share (some host_tx) bucket delta) (add_tx delta) points
        (m.tx bucket delta) (m.empty bucket)
  sum_by-add_cell (some (xray_traffic s d)) bucket delta (points, xs) =
      omega (arith, m.xray_share s d bucket delta)

  sum_by-fill :
      (reader : Reader) (rows : List SeriesRow) (buckets : Buckets)
      → sum_by f (fill reader rows buckets).0
        ≡ sum_by f buckets.0 + sum_by (λ r. share (cell_of reader r) (bucket_of r) r.delta) rows
  unfolding fill
  sum_by-fill reader [] buckets = omega arith
  sum_by-fill reader (r ∷ rows) buckets = omega (
    arith,
    sum_by-fill reader rows (add_cell (cell_of reader r) (bucket_of r) r.delta buckets),
    sum_by-add_cell (cell_of reader r) (bucket_of r) r.delta buckets,
  )

  sum_by-merge_xray :
      (scope : String) (xs : List XrayPoint) (points : List Point)
      → sum_by f (merge_xray scope xs points) ≡ sum_by f points
  unfolding merge_xray
  sum_by-merge_xray scope [] points = refl
  sum_by-merge_xray scope (x ∷ xs) points = elim (Bool-cases (str_eq x.scope scope)) [
    | inl e ↦ rw e (
        omega (
          arith,
          sum_by-merge_xray scope xs (at_bucket x.bucket (set_xray x) points),
          sum_by-at_bucket f x.bucket 0 (set_xray x) points (λ p _. omega (arith, m.xray x p))
              (m.empty x.bucket),
        ))
    | inr e ↦ rw e (sum_by-merge_xray scope xs points)
  ]

  sum_by-merged :
      (scope : Option String) (buckets : Buckets)
      → sum_by f (merged scope buckets) ≡ sum_by f buckets.0
  unfolding merged
  sum_by-merged none (points, xs) = refl
  sum_by-merged (some scope) (points, xs) = sum_by-merge_xray scope xs points

  sum_by-series_points :
      (reader : Reader) (rows : List SeriesRow)
      → sum_by f (series_points reader rows)
        ≡ sum_by (λ r. share (cell_of reader r) (bucket_of r) r.delta) rows
  unfolding series_points
  sum_by-series_points reader rows =
      let buckets = fill reader rows ([], []) in
      omega (
        arith,
        sum_by-sort_by f (λ p. p.timestamp) (merged (preferred_xray_scope buckets.1) buckets),
        sum_by-merged (preferred_xray_scope buckets.1) buckets,
        sum_by-fill reader rows ([], []),
      )

rx-Measure :
    (b : ℕ) → Measure (rx_at b) (λ cell bucket delta. if bucket == b then rx_of cell delta else 0)
rx-Measure b = record {
  empty = λ bucket. ground arith;
  rx = λ bucket delta p e. ground (arith, e);
  tx = λ bucket delta p e. ground (arith, e);
  xray = λ x p. refl;
  none_share = λ bucket delta. ground arith;
  xray_share = λ s d bucket delta. ground arith;
}

tx-Measure :
    (b : ℕ) → Measure (tx_at b) (λ cell bucket delta. if bucket == b then tx_of cell delta else 0)
tx-Measure b = record {
  empty = λ bucket. ground arith;
  rx = λ bucket delta p e. ground (arith, e);
  tx = λ bucket delta p e. ground (arith, e);
  xray = λ x p. refl;
  none_share = λ bucket delta. ground arith;
  xray_share = λ s d bucket delta. ground arith;
}

-- For each bucket, the bytes received and sent that its points hold are the sums of the deltas of the
-- rows that fall into it and count for an external interface of the host.
pub series_points-host_bytes :
    (reader : Reader) (rows : List SeriesRow) (b : ℕ)
    → (sum_by (rx_at b) (series_points reader rows) ≡ sum_by (row_rx reader b) rows)
      × (sum_by (tx_at b) (series_points reader rows) ≡ sum_by (row_tx reader b) rows)
series_points-host_bytes reader rows b = (
  sum_by-series_points (rx_at b) _ (rx-Measure b) reader rows,
  sum_by-series_points (tx_at b) _ (tx-Measure b) reader rows,
)
