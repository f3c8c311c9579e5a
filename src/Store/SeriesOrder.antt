-- ===== src/Store/SeriesOrder.antt =====
-- store.py: the points of `series` ascend, and are at most as many as were asked for.
use mathlib.Core.Path.{subst}
use aws_ops_monitor.Prelude.{
  ℕ, zero, suc, ◌-◌, ◌≤◌, ◌<◌, ◌≡◌, refl, sym, inl, inr, String, false, Option, none, some, List,
  [], ◌∷◌, All, drop, length, length-drop, leb, ◌==◌, arith, Bool-cases, str_eq, ok, bind-ok,
}
use aws_ops_monitor.Prelude.Int.{pos, negsuc}
use aws_ops_monitor.Prelude.Sorting.{sort_by, insert_by}
use aws_ops_monitor.Models
use aws_ops_monitor.Models.{Scalar}
use aws_ops_monitor.Store.{Tables}
use aws_ops_monitor.Store.SeriesRows.{
  Reader, SeriesRow, Cell, host_rx, host_tx, xray_traffic, cell_of, bucket_of, series_rows,
}
use aws_ops_monitor.Store.Series.{
  Point, empty_point, at_bucket, add_rx, add_tx, XrayPoint, Buckets, add_cell, fill,
  preferred_xray_scope, set_xray, merge_xray, merged, series_points, since_of, limit_of, bound_time,
  last_points, series,
}

-- none of the points is of this time
abbrev Avoids : ℕ → List Point → Type 0
Avoids t points = All (λ q. (q.timestamp == t) ≡ false) points

abbrev UniqueTimes : List Point → Type 0
UniqueTimes [] = Unit
UniqueTimes (p ∷ points) = Avoids p.timestamp points × UniqueTimes points

-- Each point is of an earlier time than the next.
abbrev pub Ascending : List Point → Type 0
Ascending [] = Unit
Ascending (p ∷ points) = All (λ q. p.timestamp < q.timestamp) points × Ascending points

-- a change that leaves the time of a point
abbrev KeepsTime : (Point → Point) → Type 0
KeepsTime change = (p : Point) → (change p).timestamp ≡ p.timestamp

at_bucket-Avoids :
    (t bucket : ℕ) (change : Point → Point) (points : List Point)
    → KeepsTime change
    → (bucket == t) ≡ false
    → Avoids t points
    → Avoids t (at_bucket bucket change points)
unfolding at_bucket
at_bucket-Avoids t bucket change [] keeps other hs = (rw (keeps (empty_point bucket)) other, tt)
at_bucket-Avoids t bucket change (p ∷ points) keeps other (here, rest) =
    elim (Bool-cases (p.timestamp == bucket)) [
      | inl e ↦ rw e (rw (keeps p) here, rest)
      | inr e ↦ rw e (here, at_bucket-Avoids t bucket change points keeps other rest)
    ]

at_bucket-UniqueTimes :
    (bucket : ℕ) (change : Point → Point) (points : List Point)
    → KeepsTime change
    → UniqueTimes points
    → UniqueTimes (at_bucket bucket change points)
unfolding at_bucket
at_bucket-UniqueTimes bucket change [] keeps h = (tt, tt)
at_bucket-UniqueTimes bucket change (p ∷ points) keeps (apart, rest) =
    elim (Bool-cases (p.timestamp == bucket)) [
      | inl e ↦ rw e (subst (λ t. Avoids t points) (sym (keeps p)) apart, rest)
      | inr e ↦ rw e (
        at_bucket-Avoids p.timestamp bucket change points keeps (ground (arith, e)) apart,
        at_bucket-UniqueTimes bucket change points keeps rest,
      )
    ]

add_cell-UniqueTimes :
    (cell : Option Cell) (bucket delta : ℕ) (buckets : Buckets)
    → UniqueTimes buckets.0
    → UniqueTimes (add_cell cell bucket delta buckets).0
unfolding add_cell
add_cell-UniqueTimes none bucket delta (points, xs) h = h
add_cell-UniqueTimes (some host_rx) bucket delta (points, xs) h =
    at_bucket-UniqueTimes bucket (add_rx delta) points (λ p. refl) h
add_cell-UniqueTimes (some host_tx) bucket delta (points, xs) h =
    at_bucket-UniqueTimes bucket (add_tx delta) points (λ p. refl) h
add_cell-UniqueTimes (some (xray_traffic s d)) bucket delta (points, xs) h = h

fill-UniqueTimes :
    (reader : Reader) (rows : List SeriesRow) (buckets : Buckets)
    → UniqueTimes buckets.0
    → UniqueTimes (fill reader rows buckets).0
unfolding fill
fill-UniqueTimes reader [] buckets h = h
fill-UniqueTimes reader (r ∷ rows) buckets h =
    fill-UniqueTimes reader rows (add_cell (cell_of reader r) (bucket_of r) r.delta buckets)
      (add_cell-UniqueTimes (cell_of reader r) (bucket_of r) r.delta buckets h)

merge_xray-UniqueTimes :
    (scope : String) (xs : List XrayPoint) (points : List Point)
    → UniqueTimes points
    → UniqueTimes (merge_xray scope xs points)
unfolding merge_xray
merge_xray-UniqueTimes scope [] points h = h
merge_xray-UniqueTimes scope (x ∷ xs) points h = elim (Bool-cases (str_eq x.scope scope)) [
  | inl e ↦ rw e (
      merge_xray-UniqueTimes scope xs (at_bucket x.bucket (set_xray x) points)
        (at_bucket-UniqueTimes x.bucket (set_xray x) points (λ p. refl) h))
  | inr e ↦ rw e (merge_xray-UniqueTimes scope xs points h)
]

merged-UniqueTimes :
    (scope : Option String) (buckets : Buckets)
    → UniqueTimes buckets.0
    → UniqueTimes (merged scope buckets)
unfolding merged
merged-UniqueTimes none (points, xs) h = h
merged-UniqueTimes (some scope) (points, xs) h = merge_xray-UniqueTimes scope xs points h

insert_by-All {κ} :
    (P : Point → Type κ) (p : Point) (points : List Point)
    → P p
    → All P points
    → All P (insert_by (λ q. q.timestamp) p points)
unfolding insert_by
insert_by-All P p [] h hs = (h, tt)
insert_by-All P p (x ∷ xs) h (here, rest) = elim (Bool-cases (leb p.timestamp x.timestamp)) [
  | inl e ↦ rw e (h, (here, rest))
  | inr e ↦ rw e (here, insert_by-All P p xs h rest)
]

sort_by-All {κ} :
    (P : Point → Type κ) (points : List Point)
    → All P points
    → All P (sort_by (λ q. q.timestamp) points)
unfolding sort_by
sort_by-All P [] hs = tt
sort_by-All P (p ∷ points) (here, rest) =
    insert_by-All P p (sort_by (λ q. q.timestamp) points) here (sort_by-All P points rest)

later_than :
    (p x : Point) (xs : List Point)
    → p.timestamp < x.timestamp
    → All (λ q. x.timestamp < q.timestamp) xs
    → All (λ q. p.timestamp < q.timestamp) xs
later_than p x [] h hs = tt
later_than p x (y ∷ ys) h (here, rest) = (omega (arith, h, here), later_than p x ys h rest)

insert_by-Ascending :
    (p : Point) (points : List Point)
    → Avoids p.timestamp points
    → Ascending points
    → Ascending (insert_by (λ q. q.timestamp) p points)
unfolding insert_by
insert_by-Ascending p [] apart h = (tt, tt)
insert_by-Ascending p (x ∷ xs) (other, apart) (later, rest) =
    elim (Bool-cases (leb p.timestamp x.timestamp)) [
      | inl e ↦
          let before : p.timestamp < x.timestamp = ground (arith, e, other) in
          rw e ((before, later_than p x xs before later), (later, rest))
      | inr e ↦ rw e (
        insert_by-All (λ q. x.timestamp < q.timestamp) p xs (ground (arith, e)) later,
        insert_by-Ascending p xs apart rest,
      )
    ]

sort_by-Ascending :
    (points : List Point) → UniqueTimes points → Ascending (sort_by (λ q. q.timestamp) points)
unfolding sort_by
sort_by-Ascending [] h = tt
sort_by-Ascending (p ∷ points) (apart, rest) =
    insert_by-Ascending p (sort_by (λ q. q.timestamp) points)
      (sort_by-All (λ q. (q.timestamp == p.timestamp) ≡ false) points apart)
      (sort_by-Ascending points rest)

series_points-Ascending :
    (reader : Reader) (rows : List SeriesRow) → Ascending (series_points reader rows)
unfolding series_points
series_points-Ascending reader rows =
    let buckets = fill reader rows ([], []) in
    sort_by-Ascending (merged (preferred_xray_scope buckets.1) buckets) (
      merged-UniqueTimes (preferred_xray_scope buckets.1) buckets
        (fill-UniqueTimes reader rows ([], []) tt))

drop-Ascending : (n : ℕ) (points : List Point) → Ascending points → Ascending (drop n points)
drop-Ascending zero points h = h
drop-Ascending (suc n) [] h = tt
drop-Ascending (suc n) (p ∷ points) (_, rest) = drop-Ascending n points rest

limit_of-ok :
    (limit : Scalar) (n : ℕ)
    → limit_of limit ≡ ok n
    → (limit ≡ Models.int (pos n)) × (1 ≤ n) × (n ≤ 10000)
limit_of-ok (Models.int (pos m)) n h = ground (arith, h)
limit_of-ok (Models.int (negsuc m)) n h = cc h
limit_of-ok (Models.text s) n h = cc h
limit_of-ok (Models.float x) n h = cc h
limit_of-ok (Models.bool b) n h = cc h
limit_of-ok Models.null n h = cc h

-- Where `series` returns, the limit is an integer from 1 to 10000, the points are at most as many, and
-- each is of an earlier time than the next; so no two are of one bucket.
pub series-Ascending :
    (reader : Reader) (db : Tables) (since_unix limit : Scalar) (points : List Point)
    → series reader db since_unix limit ≡ ok points
    → (n : ℕ) × (limit ≡ Models.int (pos n))
      × (1 ≤ n)
      × (n ≤ 10000)
      × (length points ≤ n)
      × Ascending points
unfolding series
series-Ascending reader db since_unix limit points h =
    let (z, _, rest) = bind-ok (since_of since_unix) _ h in
    let (n, limited, bound) = bind-ok (limit_of limit) _ rest in
    let (since, _, last) = bind-ok (bound_time z) _ bound in
    let (given, low, high) = limit_of-ok limit n limited in
    let all = series_points reader (series_rows since db) in
    let same : last_points n all ≡ points = cc last in
    (
      n,
      given,
      low,
      high,
      subst (λ ps. length ps ≤ n) same (omega (arith, length-drop (length all - n) all)),
      subst Ascending same (
          drop-Ascending (length all - n) all
            (series_points-Ascending reader (series_rows since db))),
    )
