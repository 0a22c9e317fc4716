-- ===== src/Web/History/Series.antt =====
-- The series of a chart (`load_series` of argus/web/history.py): the rows of a range, taken apart by
-- network and bucket. The two dictionaries, one inside the other, are one list of entries by the pair of
-- their keys.
use bitcoin_argus.Common.{
  ℕ, ◌-◌, ◌≡◌, ◌∙◌, refl, sym, String, Bool, ◌&&◌, Option, none, some, List, [], ◌∷◌, ◌++◌, map,
  arith, if◌then◌else◌, str_eq, str_eq_iff, filter, inl, inr, Bool-cases,
}
use mathlib.Core.List.{append_assoc, append-nil}
use bitcoin_argus.Common.Table.{find?}
use bitcoin_argus.Web.History.{Tier, MetricRow, Gauge, query, sort_by_ts, tier_for_range, total}
use bitcoin_argus.Web.History.Retention.{in_window}
use bitcoin_argus.Web.History.Order.{
  Ascending, sort_by_ts-Ascending, filter-Ascending, total-sort_by_ts,
}

pub record Columns (g : Gauge) : Type 0 where
  pub ts : List ℕ
  pub dt : List ℕ
  pub cpu : List g.Carrier
  pub ram : List ℕ
  pub disk : List (Option ℕ)
  pub rx : List ℕ
  pub tx : List ℕ

pub record Entry (g : Gauge) : Type 0 where
  pub net : String
  pub bucket : String
  pub columns : Columns g

module _ {g : Gauge} where
  abbrev pub no_columns : Columns g
  no_columns = record { ts = []; dt = []; cpu = []; ram = []; disk = []; rx = []; tx = [] }

  abbrev pub append_row : MetricRow g → Columns g → Columns g
  append_row r c = record {
    ts = c.ts ++ r.key.ts ∷ [];
    dt = c.dt ++ r.dt ∷ [];
    cpu = c.cpu ++ g.round4 r.cpu_avg ∷ [];
    ram = c.ram ++ r.ram_avg ∷ [];
    disk = c.disk ++ r.disk ∷ [];
    rx = c.rx ++ r.rx_bytes ∷ [];
    tx = c.tx ++ r.tx_bytes ∷ [];
  }

  abbrev pub entry_of : String → String → Entry g → Bool
  entry_of net bucket e = str_eq e.net net && str_eq e.bucket bucket

  -- `setdefault` and the appends, for one row.
  unfoldable pub add_point : MetricRow g → List (Entry g) → List (Entry g)
  add_point r [] =
      record { net = r.key.net; bucket = r.key.bucket; columns = append_row r no_columns } ∷ []
  add_point r (e ∷ es) =
      if entry_of r.key.net r.key.bucket e
      then record { net = e.net; bucket = e.bucket; columns = append_row r e.columns } ∷ es
      else e ∷ add_point r es

  unfoldable pub add_points : List (MetricRow g) → List (Entry g) → List (Entry g)
  add_points [] es = es
  add_points (r ∷ rows) es = add_points rows (add_point r es)

  unfoldable pub load_series : ℕ → ℕ → ℕ → List (MetricRow g) → Tier × List (Entry g)
  load_series range_seconds raw_hours now rows =
      let tier = tier_for_range range_seconds raw_hours in
      (tier, add_points (query tier (now - range_seconds) now rows) [])

  -- The columns of an entry, none where there is no entry.
  abbrev pub columns_of : String → String → List (Entry g) → Columns g
  columns_of net bucket es = elim (find? (entry_of net bucket) es) [
    | none ↦ no_columns
    | some e ↦ e.columns
  ]

  abbrev pub append_rows : List (MetricRow g) → Columns g → Columns g
  append_rows [] c = c
  append_rows (r ∷ rows) c = append_rows rows (append_row r c)

  abbrev pub is_point : String → String → MetricRow g → Bool
  is_point net bucket r = str_eq r.key.net net && str_eq r.key.bucket bucket

  columns_of-add_point :
      (net bucket : String) (r : MetricRow g) (es : List (Entry g))
      → columns_of net bucket (add_point r es) ≡ (
          if is_point net bucket r
          then append_row r (columns_of net bucket es)
          else columns_of net bucket es)
  unfolding add_point
  columns_of-add_point net bucket r [] = ground arith
  columns_of-add_point net bucket r (e ∷ es) =
      elim (Bool-cases (entry_of r.key.net r.key.bucket e)) [
        | inl t ↦ ground (arith, str_eq_iff e.net r.key.net, str_eq_iff e.bucket r.key.bucket)
        | inr t ↦ elim (Bool-cases (entry_of net bucket e)) [
          | inl u ↦ ground (
            arith,
            str_eq_iff e.net net,
            str_eq_iff e.bucket bucket,
            str_eq_iff r.key.net net,
            str_eq_iff r.key.bucket bucket,
            str_eq_iff e.net r.key.net,
            str_eq_iff e.bucket r.key.bucket,
          )
          | inr u ↦ ground (arith, columns_of-add_point net bucket r es)
        ]
      ]

  columns_of-add_points :
      (net bucket : String) (rows : List (MetricRow g)) (es : List (Entry g))
      → columns_of net bucket (add_points rows es)
        ≡ append_rows (filter (is_point net bucket) rows) (columns_of net bucket es)
  unfolding add_points
  columns_of-add_points net bucket [] es = refl
  columns_of-add_points net bucket (r ∷ rows) es = elim (Bool-cases (is_point net bucket r)) [
    | inl e ↦ rw (e) (
        columns_of-add_points net bucket rows (add_point r es)
        ∙ rw (columns_of-add_point net bucket r es, e))
    | inr e ↦ rw (e) (
        columns_of-add_points net bucket rows (add_point r es)
        ∙ rw (columns_of-add_point net bucket r es, e))
  ]

  -- The columns of rows, in the rows' order.
  abbrev pub columns : List (MetricRow g) → Columns g
  columns rows = record {
    ts = map (λ r. r.key.ts) rows;
    dt = map (λ r. r.dt) rows;
    cpu = map (λ r. g.round4 r.cpu_avg) rows;
    ram = map (λ r. r.ram_avg) rows;
    disk = map (λ r. r.disk) rows;
    rx = map (λ r. r.rx_bytes) rows;
    tx = map (λ r. r.tx_bytes) rows;
  }

  abbrev pub join : Columns g → Columns g → Columns g
  join a b = record {
    ts = a.ts ++ b.ts;
    dt = a.dt ++ b.dt;
    cpu = a.cpu ++ b.cpu;
    ram = a.ram ++ b.ram;
    disk = a.disk ++ b.disk;
    rx = a.rx ++ b.rx;
    tx = a.tx ++ b.tx;
  }

  append_rows-columns :
      (rows : List (MetricRow g)) (c : Columns g) → append_rows rows c ≡ join c (columns rows)
  append_rows-columns [] c = sym (
      rw
        (
          append-nil c.ts,
          append-nil c.dt,
          append-nil c.cpu,
          append-nil c.ram,
          append-nil c.disk,
          append-nil c.rx,
          append-nil c.tx,
        )
        refl)
  append_rows-columns (r ∷ rows) c =
      append_rows-columns rows (append_row r c)
      ∙ rw
          (
            append_assoc c.ts (r.key.ts ∷ []) (map (λ r. r.key.ts) rows),
            append_assoc c.dt (r.dt ∷ []) (map (λ r. r.dt) rows),
            append_assoc c.cpu (g.round4 r.cpu_avg ∷ []) (map (λ r. g.round4 r.cpu_avg) rows),
            append_assoc c.ram (r.ram_avg ∷ []) (map (λ r. r.ram_avg) rows),
            append_assoc c.disk (r.disk ∷ []) (map (λ r. r.disk) rows),
            append_assoc c.rx (r.rx_bytes ∷ []) (map (λ r. r.rx_bytes) rows),
            append_assoc c.tx (r.tx_bytes ∷ []) (map (λ r. r.tx_bytes) rows),
          )
          refl

  -- The rows of the window that have the network and the bucket.
  abbrev pub shown : ℕ → ℕ → ℕ → String → String → List (MetricRow g) → List (MetricRow g)
  shown range_seconds raw_hours now net bucket rows =
      filter (is_point net bucket)
        (query (tier_for_range range_seconds raw_hours) (now - range_seconds) now rows)

  -- The columns of a series are those of the rows of its network and bucket in the window, oldest first;
  -- and their sums of bytes are the sums over such rows of the table.
  pub load_series_lem :
      (range_seconds raw_hours now : ℕ) (net bucket : String) (rows : List (MetricRow g))
      → (columns_of net bucket (load_series range_seconds raw_hours now rows).1
          ≡ columns (shown range_seconds raw_hours now net bucket rows))
        × Ascending (shown range_seconds raw_hours now net bucket rows)
        × ((f : MetricRow g → ℕ)
            → total f (shown range_seconds raw_hours now net bucket rows)
              ≡ total f (
                  filter
                    (λ r.
                      in_window (tier_for_range range_seconds raw_hours) (now - range_seconds) now r
                      && is_point net bucket r)
                    rows))
  unfolding load_series query
  load_series_lem range_seconds raw_hours now net bucket rows =
      let wanted : MetricRow g → Bool =
        in_window (tier_for_range range_seconds raw_hours) (now - range_seconds) now in
      let found : List (MetricRow g) = sort_by_ts (filter wanted rows) in
      (
        columns_of-add_points net bucket found []
            ∙ append_rows-columns (filter (is_point net bucket) found) no_columns,
        filter-Ascending (is_point net bucket) found (sort_by_ts-Ascending (filter wanted rows)),
        λ f. total-sort_by_ts f (is_point net bucket) wanted rows,
      )
