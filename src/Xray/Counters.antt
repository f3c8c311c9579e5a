-- ===== src/Xray/Counters.antt =====
-- collectors/xray.py: what the counters of `parse_xray_stats` are.
use Prim.Native.String
use mathlib.Core.Path.{subst}
use aws_ops_monitor.Prelude.{
  ℕ, ◌≤◌, ◌≡◌, refl, Bool-cases, ◌⊎◌, inl, inr, String, Bool, true, false, ◌&&◌, Option, none, some,
  List, [], ◌∷◌, All, length, ok, ◌>>=◌, arith, bind-ok, str_eq, if◌then◌else◌, raise_if-ok, ltb,
}
use aws_ops_monitor.Prelude.Int.{ℤ, pos, negsuc}
use aws_ops_monitor.Prelude.Json.{Json, null, bool, int, float, text, list, dict, get_field}
use aws_ops_monitor.Prelude.Text.{is_blank, is_space, strip}
use aws_ops_monitor.Models.{sqlite_integer_max}
use aws_ops_monitor.Models.Snapshots.{XrayTrafficCounter}
use aws_ops_monitor.Xray.{World}
use aws_ops_monitor.Xray.Stats.{
  pseudonym, is_scope, is_direction, int_of, in_range, identity, counter_at, parts_counter,
  item_counter, split_marks, put_found, sort_counters, collect_items, payload_items,
  parse_xray_stats, max_stats_output_bytes,
}
use aws_ops_monitor.Xray.Keys.{
  UniqueKeys, put_counter-All, sort_counters-All, put_counter-UniqueKeys, sort_counters-UniqueKeys,
}

in_range_found :
    (build : ℕ → XrayTrafficCounter) (value : Option ℤ) (c : XrayTrafficCounter)
    → in_range build value ≡ some c
    → (n : ℕ) × (n ≤ sqlite_integer_max) × (build n ≡ c)
in_range_found build (some (pos n)) c h = (n, ground arith, ground arith)
in_range_found build (some (negsuc n)) c h = cc h
in_range_found build none c h = cc h

module _ (world : World) (hash_key : List ℕ) where
  -- The identity of a counter is the pseudonym of a raw one: that of a user under one label and
  -- prefix, that of a tag under another.
  abbrev pub IsPseudonym : XrayTrafficCounter → Type 0
  IsPseudonym c =
      (raw : String) × (((str_eq c.scope "user" ≡ true)
          × (c.identity_label ≡ "user_hash")
          × (c.identity_value ≡ pseudonym world "usr" hash_key raw))
        ⊎ ((str_eq c.scope "user" ≡ false)
            × (c.identity_label ≡ "tag")
            × (c.identity_value ≡ pseudonym world "tag" hash_key raw)))

  -- The scope and the direction are known ones, and the value fits the store.
  abbrev pub IsTraffic : XrayTrafficCounter → Type 0
  IsTraffic c =
      (is_scope c.scope ≡ true)
      × (is_direction c.direction ≡ true)
      × (c.value ≤ sqlite_integer_max)
      × IsPseudonym c

  counter_at-IsPseudonym :
      (scope raw direction : String) (n : ℕ)
      → IsPseudonym (counter_at world hash_key scope raw direction n)
  unfolding counter_at identity
  counter_at-IsPseudonym scope raw direction n = elim (Bool-cases (str_eq scope "user")) [
    | inl user ↦ (raw, inl (user, rw user refl, rw user refl))
    | inr tag ↦ (raw, inr (tag, rw tag refl, rw tag refl))
  ]

  counter_at-IsTraffic :
      (scope raw direction : String) (n : ℕ)
      → is_scope scope ≡ true
      → is_direction direction ≡ true
      → n ≤ sqlite_integer_max
      → IsTraffic (counter_at world hash_key scope raw direction n)
  unfolding counter_at
  counter_at-IsTraffic scope raw direction n s d small =
      (s, d, small, counter_at-IsPseudonym scope raw direction n)

  parts_counter-IsTraffic :
      (raw_value : Option Json) (parts : List String) (c : XrayTrafficCounter)
      → parts_counter world hash_key raw_value parts ≡ ok (some c)
      → IsTraffic c
  unfolding parts_counter
  parts_counter-IsTraffic v (scope ∷ raw ∷ metric ∷ direction ∷ []) c h =
      go (is_scope scope && str_eq metric "traffic" && is_direction direction) refl h
    where
      go :
          (b : Bool)
          → (is_scope scope && str_eq metric "traffic" && is_direction direction) ≡ b
          → (if b
              then (int_of v >>= λ value.
                  ok (in_range (counter_at world hash_key scope raw direction) value))
              else ok none)
            ≡ ok (some c)
          → IsTraffic c
      go false off e = cc e
      go true on e =
          let (value, _, kept) = bind-ok (int_of v) _ e in
          let (n, small, same) =
            in_range_found (counter_at world hash_key scope raw direction) value c (cc kept) in
          subst IsTraffic same (
            counter_at-IsTraffic scope raw direction n (ground (arith, on)) (ground (arith, on))
              small)
  parts_counter-IsTraffic v _ c h = cc h

  item_counter-IsTraffic :
      (item : Json) (c : XrayTrafficCounter)
      → item_counter world hash_key item ≡ ok (some c)
      → IsTraffic c
  unfolding item_counter
  item_counter-IsTraffic (dict fields) c h = go (get_field "name" fields) h
    where
      go :
          (name : Option Json)
          → elim name [
            | some (text t) ↦
                parts_counter world hash_key (get_field "value" fields) (split_marks t)
            | other ↦ ok none
          ]
            ≡ ok (some c)
          → IsTraffic c
      go (some (text t)) e = parts_counter-IsTraffic (get_field "value" fields) (split_marks t) c e
      go (some null) e = cc e
      go (some (bool b)) e = cc e
      go (some (int z)) e = cc e
      go (some (float x)) e = cc e
      go (some (list l)) e = cc e
      go (some (dict l)) e = cc e
      go none e = cc e
  item_counter-IsTraffic _ c h = cc h

  collect_items-IsTraffic :
      (items : List Json) (counters result : List XrayTrafficCounter)
      → All IsTraffic counters
      → UniqueKeys counters
      → collect_items world hash_key items counters ≡ ok result
      → All IsTraffic result × UniqueKeys result
  unfolding collect_items
  collect_items-IsTraffic [] counters result h u e =
      let same : sort_counters counters ≡ result = cc e in
      (
        subst (All IsTraffic) same (sort_counters-All IsTraffic counters h),
        subst UniqueKeys same (sort_counters-UniqueKeys counters u),
      )
  collect_items-IsTraffic (item ∷ items) counters result h u e =
      let (found, item_ok, rest) = bind-ok (item_counter world hash_key item) _ e in
      let (h', u') = put found item_ok in
      collect_items-IsTraffic items (put_found found counters) result h' u' rest
    where
      put :
          (found : Option XrayTrafficCounter)
          → item_counter world hash_key item ≡ ok found
          → All IsTraffic (put_found found counters) × UniqueKeys (put_found found counters)
      put none i = (h, u)
      put (some c) i = (
        put_counter-All IsTraffic c counters (item_counter-IsTraffic item c i) h,
        put_counter-UniqueKeys c counters u,
      )

  -- Every counter that is returned has a known scope and direction, the pseudonym of some raw identity
  -- in place of it, of a user as `user_hash` and of any other scope as `tag`, and a value that the
  -- store can keep; no two have the same key.
  pub parse_xray_stats-IsTraffic :
      (payload : String) (counters : List XrayTrafficCounter)
      → parse_xray_stats world hash_key payload ≡ ok counters
      → All IsTraffic counters × UniqueKeys counters
  unfolding parse_xray_stats
  parse_xray_stats-IsTraffic payload counters h =
      let (_, long) = raise_if-ok (ltb (length hash_key) 16) _ _ h in
      let (_, small) = raise_if-ok (ltb max_stats_output_bytes (String.len payload)) _ _ long in
      go (is_blank (strip is_space payload)) small
    where
      go :
          (blank : Bool)
          → elim blank [
            | true ↦ ok []
            | false ↦ payload_items world (strip is_space payload) >>= λ items.
                collect_items world hash_key items []
          ]
            ≡ ok counters
          → All IsTraffic counters × UniqueKeys counters
      go true e =
          let same : [] ≡ counters = cc e in
          (subst (All IsTraffic) same tt, subst UniqueKeys same tt)
      go false e =
          let (items, _, rest) = bind-ok (payload_items world (strip is_space payload)) _ e in
          collect_items-IsTraffic items [] counters tt tt rest
