-- ===== src/Examples/History.antt =====
-- The theorems about the history, at a small table whose readings are whole numbers.
use bitcoin_argus.Common.{
  ℕ, ◌+◌, ◌-◌, ◌*◌, ◌≤◌, max, ◌≡◌, true, ◌&&◌, some, List, [], ◌∷◌, arith, leb, any, filter,
}
use bitcoin_argus.Common.Table.{find?}
use bitcoin_argus.Web.History.{
  raw, hour, Gauge, SampleRow, MetricRow, Key, rollup_into, raw_row, prune, query, tier_for_range,
  total, hour_seconds, in_group,
}
use bitcoin_argus.Web.History.Keys.{at}
use bitcoin_argus.Web.History.Rollup.{Sums, rollup_into-Sums}
use bitcoin_argus.Web.History.Retention.{Write, samples, rolled, pruned, query-prune, in_window}
use bitcoin_argus.Web.History.Order.{Ascending}
use bitcoin_argus.Web.History.Series.{
  load_series, load_series_lem, columns_of, columns, shown, is_point,
}

-- The readings are weighed by their durations.
abbrev sum_of : List (ℕ × ℕ) → ℕ
sum_of [] = 0
sum_of (r ∷ rs) = r.0 * r.1 + sum_of rs

abbrev highest : List ℕ → ℕ
highest [] = 0
highest (x ∷ xs) = max x (highest xs)

abbrev pub gauge : Gauge
gauge = record {
  Carrier = ℕ;
  average = sum_of;
  peak = highest;
  round4 = λ x. x;
  nothing = 0;
  plus = λ x y. x + y;
}

abbrev sample : ℕ → SampleRow gauge
sample bytes = record {
  net = "signet";
  bucket = "lnd";
  cpu = 1;
  ram = 1000;
  disk = some 7;
  rx = bytes;
  tx = 0;
}

-- Two samples of the hour from 7200 to 10,800, one before and one after the time 9000.
abbrev table : List (MetricRow gauge)
table = raw_row 8000 60 (sample 40) ∷ raw_row 9500 60 (sample 2) ∷ []

abbrev hour_key : Key
hour_key = record { tier = hour; ts = 7200; net = "signet"; bucket = "lnd" }

selected :
    (since : ℕ)
    → since ≤ 9500
    → any (λ r. leb since r.key.ts && in_group raw hour_seconds hour_key r) table ≡ true
unfolding raw_row
selected since h = ground arith

rollup_into-Sums_example :
    (row : MetricRow gauge) × (find? (at hour_key) (rollup_into raw hour hour_seconds 9000 table)
      ≡ some row)
    × Sums raw hour_seconds 9000 hour_key table row
rollup_into-Sums_example =
    rollup_into-Sums raw hour_seconds 9000 hour_key table (selected 9000 (omega arith))

abbrev writes : List (Write gauge)
writes =
    samples 8000 60 (sample 40 ∷ [])
    ∷ samples 8000 60 (sample 41 ∷ [])
    ∷ rolled 9000
    ∷ pruned 9000 2 3 30
    ∷ []

query-prune_example :
    query (tier_for_range 3600 2) (9600 - 3600) 9600 (prune 9600 2 3 30 table)
    ≡ query (tier_for_range 3600 2) (9600 - 3600) 9600 table
query-prune_example = query-prune 3600 2 3 30 9600 table (omega arith) (omega arith)

load_series_lem_example :
    (columns_of "signet" "lnd" (load_series 3600 2 9600 table).1
      ≡ columns (shown 3600 2 9600 "signet" "lnd" table))
    × Ascending (shown 3600 2 9600 "signet" "lnd" table)
    × ((f : MetricRow gauge → ℕ)
        → total f (shown 3600 2 9600 "signet" "lnd" table)
          ≡ total f (
              filter
                (λ r.
                  in_window (tier_for_range 3600 2) (9600 - 3600) 9600 r
                  && is_point "signet" "lnd" r)
                table))
load_series_lem_example = load_series_lem 3600 2 9600 "signet" "lnd" table
