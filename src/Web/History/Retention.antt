-- ===== src/Web/History/Retention.antt =====
-- What the writes of argus/web/history.py keep of its table: the primary key, and the rows that a chart
-- of an allowed range reads.
use bitcoin_argus.Common.{
  ℕ, ◌-◌, ◌*◌, ◌≤◌, ◌≡◌, refl, Bool, true, false, ◌&&◌, List, [], ◌∷◌, arith, leb, filter, map, ap,
  ◌∙◌,
}
use bitcoin_argus.Common.Table.{count, delete, count-delete-le}
use bitcoin_argus.Web.History.{
  Tier, raw, hour, day, same_tier, Key, MetricRow, Gauge, SampleRow, hour_seconds, day_seconds,
  write_samples, rollup, prune, older, query, sort_by_ts, tier_for_range, rollup_into, distinct,
  aggregate, group_of, is_selected, raw_row,
}
use bitcoin_argus.Web.History.Keys.{at, count-put_all, same_tier_iff}

-- The writes of the sampler, with their arguments.
pub data Write (g : Gauge) : Type 0 where
  samples : ℕ → ℕ → List (SampleRow g) → Write g
  rolled : ℕ → Write g
  pruned : ℕ → ℕ → ℕ → ℕ → Write g

module _ {g : Gauge} where
  unfoldable pub run_write : Write g → List (MetricRow g) → List (MetricRow g)
  run_write (samples ts dt rows') rows = write_samples ts dt rows' rows
  run_write (rolled now) rows = rollup now rows
  run_write (pruned now raw_hours hourly_days daily_days) rows =
      prune now raw_hours hourly_days daily_days rows

  unfoldable pub run_writes : List (Write g) → List (MetricRow g) → List (MetricRow g)
  run_writes [] rows = rows
  run_writes (w ∷ ws) rows = run_writes ws (run_write w rows)

  count-prune-le :
      (q : MetricRow g → Bool) (now raw_hours hourly_days daily_days : ℕ)
      (rows : List (MetricRow g))
      → count q (prune now raw_hours hourly_days daily_days rows) ≤ count q rows
  unfolding prune
  count-prune-le q now raw_hours hourly_days daily_days rows =
      let one = delete (older raw (now - raw_hours * hour_seconds)) rows in
      let two = delete (older hour (now - hourly_days * day_seconds)) one in
      omega (
        arith,
        count-delete-le (older raw (now - raw_hours * hour_seconds)) q rows,
        count-delete-le (older hour (now - hourly_days * day_seconds)) q one,
        count-delete-le (older day (now - daily_days * day_seconds)) q two,
      )

  count-rollup_into :
      (src dst : Tier) (span since : ℕ) (rows : List (MetricRow g)) (k : Key)
      → count (at k) rows ≤ 1
      → count (at k) (rollup_into src dst span since rows) ≤ 1
  unfolding rollup_into
  count-rollup_into src dst span since rows k h =
      count-put_all
        (map (aggregate src span since rows)
          (distinct (map (group_of dst span) (filter (is_selected src since) rows))))
        rows k h

  count-run_write :
      (w : Write g) (rows : List (MetricRow g)) (k : Key)
      → count (at k) rows ≤ 1
      → count (at k) (run_write w rows) ≤ 1
  unfolding run_write write_samples rollup
  count-run_write (samples ts dt rows') rows k h =
      count-put_all (map (raw_row ts dt) rows') rows k h
  count-run_write (rolled now) rows k h =
      count-rollup_into hour day day_seconds (now - 2 * day_seconds)
        (rollup_into raw hour hour_seconds (now - 2 * hour_seconds) rows) k
        (count-rollup_into raw hour hour_seconds (now - 2 * hour_seconds) rows k h)
  count-run_write (pruned now raw_hours hourly_days daily_days) rows k h =
      omega (arith, count-prune-le (at k) now raw_hours hourly_days daily_days rows)

  -- After any writes to a table in which no key has two rows, no key has two rows.
  pub run_writes_unique :
      (ws : List (Write g)) (rows : List (MetricRow g)) (k : Key)
      → count (at k) rows ≤ 1
      → count (at k) (run_writes ws rows) ≤ 1
  unfolding run_writes
  run_writes_unique [] rows k h = h
  run_writes_unique (w ∷ ws) rows k h =
      run_writes_unique ws (run_write w rows) k (count-run_write w rows k h)

  filter-delete_disjoint :
      (q p : MetricRow g → Bool) (rows : List (MetricRow g))
      → ((r : MetricRow g) → q r ≡ true → p r ≡ false)
      → filter q (delete p rows) ≡ filter q rows
  filter-delete_disjoint q p [] h = refl
  filter-delete_disjoint q p (r ∷ rows) h = ground (arith, filter-delete_disjoint q p rows h, h r)

-- The rows that a chart reads.
abbrev pub in_window : {g : Gauge} → Tier → ℕ → ℕ → MetricRow g → Bool
in_window tier since until r =
    same_tier r.key.tier tier && (leb since r.key.ts && leb r.key.ts until)

-- The look-back of the tier that a range is served from, as `prune` keeps it.
abbrev pub retention : Tier → ℕ → ℕ → ℕ → ℕ
retention raw raw_hours hourly_days daily_days = raw_hours * hour_seconds
retention hour raw_hours hourly_days daily_days = hourly_days * day_seconds
retention day raw_hours hourly_days daily_days = daily_days * day_seconds

tier_for_range-covers :
    (range raw_hours hourly_days daily_days : ℕ)
    → 3 ≤ hourly_days
    → range ≤ daily_days * day_seconds
    → range ≤ retention (tier_for_range range raw_hours) raw_hours hourly_days daily_days
unfolding tier_for_range
tier_for_range-covers range raw_hours hourly_days daily_days h l = ground arith

kept_window :
    {g : Gauge} (tier at_tier : Tier) (now range raw_hours hourly_days daily_days until : ℕ)
    (r : MetricRow g)
    → range ≤ retention tier raw_hours hourly_days daily_days
    → in_window tier (now - range) until r ≡ true
    → older at_tier (now - retention at_tier raw_hours hourly_days daily_days) r ≡ false
kept_window raw raw now range a b c until r l w = ground arith
kept_window hour hour now range a b c until r l w = ground arith
kept_window day day now range a b c until r l w = ground arith
kept_window raw hour now range a b c until r l w = ground (arith, same_tier_iff r.key.tier raw)
kept_window raw day now range a b c until r l w = ground (arith, same_tier_iff r.key.tier raw)
kept_window hour raw now range a b c until r l w = ground (arith, same_tier_iff r.key.tier hour)
kept_window hour day now range a b c until r l w = ground (arith, same_tier_iff r.key.tier hour)
kept_window day raw now range a b c until r l w = ground (arith, same_tier_iff r.key.tier day)
kept_window day hour now range a b c until r l w = ground (arith, same_tier_iff r.key.tier day)

-- If hour rows are kept for three days or more and the range is no longer than day rows are kept, then
-- a prune at the time of the request does not change what the chart of the range reads.
pub query-prune :
    {g : Gauge} (range raw_hours hourly_days daily_days now : ℕ) (rows : List (MetricRow g))
    → 3 ≤ hourly_days
    → range ≤ daily_days * day_seconds
    → query
        (tier_for_range range raw_hours)
        (now - range)
        now
        (prune now raw_hours hourly_days daily_days rows)
      ≡ query (tier_for_range range raw_hours) (now - range) now rows
unfolding query prune
query-prune {g} range raw_hours hourly_days daily_days now rows h l =
    let tier = tier_for_range range raw_hours in
    let covers : range ≤ retention tier raw_hours hourly_days daily_days =
      tier_for_range-covers range raw_hours hourly_days daily_days h l in
    let wanted : MetricRow g → Bool = in_window tier (now - range) now in
    let old : Tier → MetricRow g → Bool =
      λ t. older t (now - retention t raw_hours hourly_days daily_days) in
    let drop_old : (t : Tier) (rs : List (MetricRow g))
        → filter wanted (delete (old t) rs) ≡ filter wanted rs =
      λ t rs.
        filter-delete_disjoint wanted (old t) rs
          (λ r w. kept_window tier t now range raw_hours hourly_days daily_days now r covers w) in
    let kept : filter wanted (delete (old day) (delete (old hour) (delete (old raw) rows)))
        ≡ filter wanted rows =
      drop_old day (delete (old hour) (delete (old raw) rows))
      ∙ (drop_old hour (delete (old raw) rows) ∙ drop_old raw rows) in
    ap sort_by_ts kept
