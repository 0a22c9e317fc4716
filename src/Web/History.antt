-- ===== src/Web/History.antt =====
-- The history of resource use that the dashboard keeps in SQLite (argus/web/history.py): the table
-- `metric` as the list of its rows, and the statements on it.
pub mod Keys
pub mod Rollup
pub mod Retention
pub mod Order
pub mod Series
use bitcoin_argus.Common.{
  ℕ, zero, suc, ◌+◌, ◌-◌, ◌*◌, ◌/◌, max, String, Bool, true, false, not, ◌&&◌, Option, none, some,
  List, [], ◌∷◌, ◌++◌, map, ltb, leb, ◌==◌, if◌then◌else◌, str_eq, filter,
}
use bitcoin_argus.Common.Table.{delete}

pub data Tier : Type 0 where
  raw hour day : Tier

abbrev pub same_tier : Tier → Tier → Bool
same_tier raw raw = true
same_tier hour hour = true
same_tier day day = true
same_tier _ _ = false

-- What SQLite makes of REAL columns: the average of readings by their
-- durations, the largest, Python's `round(x, 4)` of one, `0.0` and the sum of two.
pub record Gauge : Type 1 where
  pub Carrier : Type 0
  pub average : List (Carrier × ℕ) → Carrier
  pub peak : List Carrier → Carrier
  pub round4 : Carrier → Carrier
  pub nothing : Carrier
  pub plus : Carrier → Carrier → Carrier

pub record SampleRow (g : Gauge) : Type 0 where
  pub net : String
  pub bucket : String
  pub cpu : g.Carrier
  pub ram : ℕ
  pub disk : Option ℕ
  pub rx : ℕ
  pub tx : ℕ

-- The primary key of the table.
pub record Key : Type 0 where
  pub tier : Tier
  pub ts : ℕ
  pub net : String
  pub bucket : String

pub record MetricRow (g : Gauge) : Type 0 where
  pub key : Key
  pub cpu_avg : g.Carrier
  pub cpu_max : g.Carrier
  pub ram_avg : ℕ
  pub ram_max : ℕ
  pub disk : Option ℕ
  pub rx_bytes : ℕ
  pub tx_bytes : ℕ
  pub dt : ℕ

abbrev pub same_key : Key → Key → Bool
same_key a b =
    same_tier a.tier b.tier && ((a.ts == b.ts) && (str_eq a.net b.net && str_eq a.bucket b.bucket))

-- `HOUR` and `DAY`
abbrev pub hour_seconds : ℕ
hour_seconds = 3600

abbrev pub day_seconds : ℕ
day_seconds = 86_400

-- The sum of a column.
abbrev pub total {ℓ} : {A : Type ℓ} → (A → ℕ) → List A → ℕ
total f [] = 0
total f (x ∷ xs) = f x + total f xs

abbrev pub largest {ℓ} : {A : Type ℓ} → (A → ℕ) → List A → ℕ
largest f [] = 0
largest f (x ∷ xs) = max (f x) (largest f xs)

-- The keys of a GROUP BY, each once.
unfoldable pub distinct : List Key → List Key
distinct [] = []
distinct (k ∷ ks) = k ∷ filter (λ k'. not (same_key k' k)) (distinct ks)

-- The start of the bucket of `span` seconds that a time falls into.
abbrev pub floor_to : ℕ → ℕ → ℕ
floor_to span ts = ts / span * span

module _ {g : Gauge} where
  -- INSERT OR REPLACE of one row.
  unfoldable pub put : MetricRow g → List (MetricRow g) → List (MetricRow g)
  put new rows = delete (λ r. same_key r.key new.key) rows ++ new ∷ []

  unfoldable pub put_all : List (MetricRow g) → List (MetricRow g) → List (MetricRow g)
  put_all [] rows = rows
  put_all (new ∷ news) rows = put_all news (put new rows)

  unfoldable pub raw_row : ℕ → ℕ → SampleRow g → MetricRow g
  raw_row ts dt s = record {
    key = record { tier = raw; ts = ts; net = s.net; bucket = s.bucket };
    cpu_avg = s.cpu;
    cpu_max = s.cpu;
    ram_avg = s.ram;
    ram_max = s.ram;
    disk = s.disk;
    rx_bytes = s.rx;
    tx_bytes = s.tx;
    dt = dt;
  }

  unfoldable pub write_samples :
      ℕ → ℕ → List (SampleRow g) → List (MetricRow g) → List (MetricRow g)
  write_samples ts dt samples rows = put_all (map (raw_row ts dt) samples) rows

  -- The key in the destination tier that a row is aggregated into.
  abbrev pub group_of : Tier → ℕ → MetricRow g → Key
  group_of dst span r = record {
    tier = dst;
    ts = floor_to span r.key.ts;
    net = r.key.net;
    bucket = r.key.bucket;
  }

  -- The rows of the source tier that belong to a group.
  abbrev pub in_group : Tier → ℕ → Key → MetricRow g → Bool
  in_group src span k r = same_tier r.key.tier src && same_key (group_of k.tier span r) k

  -- The last reading of the disk in a group: ORDER BY ts DESC LIMIT 1 of those that are there.
  unfoldable pub latest_disk : List (MetricRow g) → Option (ℕ × ℕ)
  latest_disk [] = none
  latest_disk (r ∷ rs) = elim r.disk [
    | none ↦ latest_disk rs
    | some d ↦ elim (latest_disk rs) [
      | none ↦ some (r.key.ts, d)
      | some (ts, d') ↦ if ltb r.key.ts ts then some (ts, d') else some (r.key.ts, d)
    ]
  ]

  -- The row that the SELECT yields for a group, from the rows of the group that are selected and,
  -- for the disk, all rows of the group.
  unfoldable pub aggregate : Tier → ℕ → ℕ → List (MetricRow g) → Key → MetricRow g
  aggregate src span since rows k =
      let selected = filter (λ r. leb since r.key.ts && in_group src span k r) rows in
      let seconds = total (λ r. r.dt) selected in
      record {
        key = k;
        cpu_avg = g.average (map (λ r. (r.cpu_avg, r.dt)) selected);
        cpu_max = g.peak (map (λ r. r.cpu_max) selected);
        ram_avg = if ltb 0 seconds then total (λ r. r.ram_avg * r.dt) selected / seconds else 0;
        ram_max = largest (λ r. r.ram_max) selected;
        disk = elim (latest_disk (filter (in_group src span k) rows)) [
          | none ↦ none
          | some (ts, d) ↦ some d
        ];
        rx_bytes = total (λ r. r.rx_bytes) selected;
        tx_bytes = total (λ r. r.tx_bytes) selected;
        dt = seconds;
      }

  -- WHERE tier = src AND ts >= since
  abbrev pub is_selected : Tier → ℕ → MetricRow g → Bool
  is_selected src since r = same_tier r.key.tier src && leb since r.key.ts

  unfoldable pub rollup_into : Tier → Tier → ℕ → ℕ → List (MetricRow g) → List (MetricRow g)
  rollup_into src dst span since rows =
      let groups = distinct (map (group_of dst span) (filter (is_selected src since) rows)) in
      put_all (map (aggregate src span since rows) groups) rows

  unfoldable pub rollup : ℕ → List (MetricRow g) → List (MetricRow g)
  rollup now rows =
      rollup_into hour day day_seconds (now - 2 * day_seconds)
        (rollup_into raw hour hour_seconds (now - 2 * hour_seconds) rows)

  -- One of the three statements of `prune`.
  abbrev pub older : Tier → ℕ → MetricRow g → Bool
  older tier horizon r = same_tier r.key.tier tier && ltb r.key.ts horizon

  unfoldable pub prune : ℕ → ℕ → ℕ → ℕ → List (MetricRow g) → List (MetricRow g)
  prune now raw_hours hourly_days daily_days rows =
      delete (older day (now - daily_days * day_seconds)) (
        delete (older hour (now - hourly_days * day_seconds))
          (delete (older raw (now - raw_hours * hour_seconds)) rows))

  -- ORDER BY ts ASC
  unfoldable pub insert_by_ts : MetricRow g → List (MetricRow g) → List (MetricRow g)
  insert_by_ts r [] = r ∷ []
  insert_by_ts r (s ∷ rows) =
      let rest = insert_by_ts r rows in if leb r.key.ts s.key.ts then r ∷ s ∷ rows else s ∷ rest

  unfoldable pub sort_by_ts : List (MetricRow g) → List (MetricRow g)
  sort_by_ts [] = []
  sort_by_ts (r ∷ rows) = insert_by_ts r (sort_by_ts rows)

  unfoldable pub query : Tier → ℕ → ℕ → List (MetricRow g) → List (MetricRow g)
  query tier since until rows =
      sort_by_ts
        (filter (λ r. same_tier r.key.tier tier && (leb since r.key.ts && leb r.key.ts until)) rows)

unfoldable pub tier_for_range : ℕ → ℕ → Tier
tier_for_range range_seconds raw_hours =
    if leb range_seconds (raw_hours * hour_seconds)
    then raw
    else if leb range_seconds (3 * day_seconds)
    then hour
    else day
