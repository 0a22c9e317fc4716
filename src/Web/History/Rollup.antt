-- ===== src/Web/History/Rollup.antt =====
-- What `_rollup_into` (argus/web/history.py) leaves in the destination tier, compared with the rows of
-- the source tier.
use native.Mathlib.Nat.{div-mul-le_self}
use bitcoin_argus.Common.{
  ℕ, ◌+◌, ◌≤◌, ◌≡◌, ◌≢◌, ◌∙◌, refl, sym, Bool, true, false, ◌&&◌, some, List, [], ◌∷◌, map, arith,
  leb, ltb, if◌then◌else◌, filter, any, inl, inr, Bool-cases,
}
use bitcoin_argus.Common.Table.{find?}
use bitcoin_argus.Web.History.{
  Tier, Key, same_key, MetricRow, Gauge, total, group_of, in_group, is_selected, aggregate,
  rollup_into, distinct,
}
use bitcoin_argus.Web.History.Keys.{
  at, same_key_iff, same_tier_iff, find?-put_all, filter-put_all, any-distinct,
}

any-groups :
    {g : Gauge} (src : Tier) (span since : ℕ) (k : Key) (rows : List (MetricRow g))
    → any (λ a. same_key a k) (map (group_of k.tier span) (filter (is_selected src since) rows))
      ≡ any (λ r. leb since r.key.ts && in_group src span k r) rows
any-groups src span since k [] = refl
any-groups src span since k (r ∷ rows) = ground (arith, any-groups src span since k rows)

-- What a group's row is after a rollup: the aggregate of what is selected, or what it was before.
pub find?-rollup_into :
    {g : Gauge} (src : Tier) (span since : ℕ) (k : Key) (rows : List (MetricRow g))
    → find? (at k) (rollup_into src k.tier span since rows) ≡ (
        if any (λ r. leb since r.key.ts && in_group src span k r) rows
        then some (aggregate src span since rows k)
        else find? (at k) rows)
unfolding rollup_into aggregate
find?-rollup_into src span since k rows =
    let groups = map (group_of k.tier span) (filter (is_selected src since) rows) in
    rw (← any-groups src span since k rows, ← any-distinct k groups)
      (find?-put_all (aggregate src span since rows) (λ a. refl) (distinct groups) rows k)

-- A column's sum over the rows of a group, and over those of them that are older than `since`.
abbrev pub in_all : {g : Gauge} → (MetricRow g → ℕ) → Tier → ℕ → Key → List (MetricRow g) → ℕ
in_all f src span k rows = total f (filter (in_group src span k) rows)

abbrev pub left_out : {g : Gauge} → (MetricRow g → ℕ) → Tier → ℕ → ℕ → Key → List (MetricRow g) → ℕ
left_out f src span since k rows =
    total f (filter (λ r. ltb r.key.ts since && in_group src span k r) rows)

total_split :
    {g : Gauge} (f : MetricRow g → ℕ) (p : MetricRow g → Bool) (since : ℕ)
    (rows : List (MetricRow g))
    → total f (filter (λ r. leb since r.key.ts && p r) rows)
        + total f (filter (λ r. ltb r.key.ts since && p r) rows)
      ≡ total f (filter p rows)
total_split f p since [] = omega arith
total_split f p since (r ∷ rows) = elim (Bool-cases (p r)) [
  | inl e ↦ elim (Bool-cases (leb since r.key.ts)) [
    | inl l ↦ ground (arith, total_split f p since rows)
    | inr l ↦ ground (arith, total_split f p since rows)
  ]
  | inr e ↦ ground (arith, total_split f p since rows)
]

-- The three columns that are summed.
pub record Sums {g : Gauge} (src : Tier) (span since : ℕ) (k : Key) (rows : List (MetricRow g))
    (row : MetricRow g) : Type 0 where
  pub received :
      row.rx_bytes + left_out (λ r. r.rx_bytes) src span since k rows
      ≡ in_all (λ r. r.rx_bytes) src span k rows
  pub sent :
      row.tx_bytes + left_out (λ r. r.tx_bytes) src span since k rows
      ≡ in_all (λ r. r.tx_bytes) src span k rows
  pub seconds :
      row.dt + left_out (λ r. r.dt) src span since k rows ≡ in_all (λ r. r.dt) src span k rows

-- If a group has a row that is selected, its row after the rollup counts the bytes and the seconds of
-- the rows since `since` and no others: what is older is left out, also where the bucket began before.
pub rollup_into-Sums :
    {g : Gauge} (src : Tier) (span since : ℕ) (k : Key) (rows : List (MetricRow g))
    → any (λ r. leb since r.key.ts && in_group src span k r) rows ≡ true
    → (row : MetricRow g) × (find? (at k) (rollup_into src k.tier span since rows) ≡ some row)
      × Sums src span since k rows row
unfolding aggregate
rollup_into-Sums src span since k rows h = (
  aggregate src span since rows k,
  find?-rollup_into src span since k rows ∙ rw (h),
  record {
    received = total_split (λ r. r.rx_bytes) (in_group src span k) since rows;
    sent = total_split (λ r. r.tx_bytes) (in_group src span k) since rows;
    seconds = total_split (λ r. r.dt) (in_group src span k) since rows;
  },
)

left_out_none :
    {g : Gauge} (f : MetricRow g → ℕ) (src : Tier) (span since : ℕ) (k : Key)
    (rows : List (MetricRow g))
    → since ≤ k.ts
    → left_out f src span since k rows ≡ 0
left_out_none f src span since k [] h = refl
left_out_none f src span since k (r ∷ rows) h =
    elim (Bool-cases (ltb r.key.ts since && in_group src span k r)) [
      | inl e ↦ absurd (ground (arith, div-mul-le_self r.key.ts span))
      | inr e ↦ rw (e) (left_out_none f src span since k rows h)
    ]

-- The row of a bucket that began at `since` or later counts all of the bucket's rows.
pub rollup_into_sealed :
    {g : Gauge} (src : Tier) (span since : ℕ) (k : Key) (rows : List (MetricRow g))
    → since ≤ k.ts
    → any (λ r. leb since r.key.ts && in_group src span k r) rows ≡ true
    → (row : MetricRow g) × (find? (at k) (rollup_into src k.tier span since rows) ≡ some row)
      × (row.rx_bytes ≡ in_all (λ r. r.rx_bytes) src span k rows)
      × (row.tx_bytes ≡ in_all (λ r. r.tx_bytes) src span k rows)
      × (row.dt ≡ in_all (λ r. r.dt) src span k rows)
rollup_into_sealed src span since k rows late h =
    let (row, found, sums) = rollup_into-Sums src span since k rows h in
    (
      row,
      found,
      omega (arith, sums.received, left_out_none (λ r. r.rx_bytes) src span since k rows late),
      omega (arith, sums.sent, left_out_none (λ r. r.tx_bytes) src span since k rows late),
      omega (arith, sums.seconds, left_out_none (λ r. r.dt) src span since k rows late),
    )

any-filter_self :
    {A : Type 0} (p : A → Bool) (xs : List A) → any p xs ≡ any (λ x. true) (filter p xs)
any-filter_self p [] = refl
any-filter_self p (x ∷ xs) = ground (arith, any-filter_self p xs)

groups_tier :
    {g : Gauge} (dst : Tier) (span : ℕ) (k : Key) (rows : List (MetricRow g))
    → any (λ a. same_key a k) (map (group_of dst span) rows) ≡ true
    → k.tier ≡ dst
groups_tier dst span k [] h = cc
groups_tier dst span k (r ∷ rows) h = elim (Bool-cases (same_key (group_of dst span r) k)) [
  | inl e ↦ ground (arith, same_key_iff (group_of dst span r) k)
  | inr e ↦ groups_tier dst span k rows (ground arith)
]

-- A rollup leaves the rows of other tiers as they are.
filter-rollup_into :
    {g : Gauge} (src dst : Tier) (span since : ℕ) (q : MetricRow g → Bool)
    (rows : List (MetricRow g))
    → ((r : MetricRow g) → r.key.tier ≡ dst → q r ≡ false)
    → filter q (rollup_into src dst span since rows) ≡ filter q rows
unfolding rollup_into aggregate
filter-rollup_into src dst span since q rows h =
    let groups = map (group_of dst span) (filter (is_selected src since) rows) in
    filter-put_all (aggregate src span since rows) (λ a. refl) q (distinct groups) rows
      (λ k r m e.
        let t : k.tier ≡ dst =
          groups_tier dst span k (filter (is_selected src since) rows)
            (sym (any-distinct k groups) ∙ m) in
        h r (ground (arith, same_key_iff r.key k)))

-- A second rollup at the same time changes no read of the tier that is written.
pub rollup_into_idem :
    {g : Gauge} (src : Tier) (span since : ℕ) (k : Key) (rows : List (MetricRow g))
    → src ≢ k.tier
    → find? (at k) (rollup_into src k.tier span since (rollup_into src k.tier span since rows))
      ≡ find? (at k) (rollup_into src k.tier span since rows)
unfolding aggregate
rollup_into_idem {g} src span since k rows d =
    let rows' = rollup_into src k.tier span since rows in
    let p : MetricRow g → Bool = λ r. leb since r.key.ts && in_group src span k r in
    let other : (r : MetricRow g) → r.key.tier ≡ k.tier → in_group src span k r ≡ false =
      λ r e. ground (arith, same_tier_iff r.key.tier src) in
    let same_selected : filter p rows' ≡ filter p rows =
      filter-rollup_into src k.tier span since p rows (λ r e. ground (arith, other r e)) in
    let same_group : filter (in_group src span k) rows' ≡ filter (in_group src span k) rows =
      filter-rollup_into src k.tier span since (in_group src span k) rows other in
    let same_any : any p rows' ≡ any p rows =
      any-filter_self p rows' ∙ rw (same_selected) (sym (any-filter_self p rows)) in
    let same_row : aggregate src span since rows' k ≡ aggregate src span since rows k =
      rw (same_selected, same_group) in
    elim (Bool-cases (any p rows)) [
      | inl e ↦
          find?-rollup_into src span since k rows'
          ∙ rw (same_any, e, same_row) (sym (find?-rollup_into src span since k rows ∙ rw (e)))
      | inr e ↦ find?-rollup_into src span since k rows' ∙ rw (same_any, e)
    ]
