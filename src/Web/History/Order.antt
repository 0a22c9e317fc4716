-- ===== src/Web/History/Order.antt =====
-- The rows of a query in the order of their times (`query` of argus/web/history.py), and the sums over
-- them.
use bitcoin_argus.Common.{
  ℕ, ◌≤◌, ◌≡◌, refl, Bool, ◌&&◌, List, [], ◌∷◌, arith, leb, filter, inl, inr, Bool-cases, All,
}
use bitcoin_argus.Web.History.{MetricRow, Gauge, sort_by_ts, insert_by_ts, total}

module _ {g : Gauge} where
  -- Each row is no older than the one before.
  abbrev pub Ascending : List (MetricRow g) → Type 0
  Ascending [] = Unit
  Ascending (r ∷ rows) = All (λ s. r.key.ts ≤ s.key.ts) rows × Ascending rows

  All-insert_by_ts :
      (t : ℕ) (r : MetricRow g) (rows : List (MetricRow g))
      → t ≤ r.key.ts
      → All (λ s. t ≤ s.key.ts) rows
      → All (λ s. t ≤ s.key.ts) (insert_by_ts r rows)
  unfolding insert_by_ts
  All-insert_by_ts t r [] h a = (h, a)
  All-insert_by_ts t r (s ∷ rows) h a = elim (Bool-cases (leb r.key.ts s.key.ts)) [
    | inl e ↦ rw (e) (h, a)
    | inr e ↦ rw (e) (a.0, All-insert_by_ts t r rows h a.1)
  ]

  All-later :
      (t u : ℕ) (rows : List (MetricRow g))
      → t ≤ u
      → All (λ s. u ≤ s.key.ts) rows
      → All (λ s. t ≤ s.key.ts) rows
  All-later t u [] h a = a
  All-later t u (r ∷ rows) h a = (omega (arith, a.0), All-later t u rows h a.1)

  insert_by_ts-Ascending :
      (r : MetricRow g) (rows : List (MetricRow g))
      → Ascending rows
      → Ascending (insert_by_ts r rows)
  unfolding insert_by_ts
  insert_by_ts-Ascending r [] h = (tt, h)
  insert_by_ts-Ascending r (s ∷ rows) h = elim (Bool-cases (leb r.key.ts s.key.ts)) [
    | inl e ↦
        let le : r.key.ts ≤ s.key.ts = ground arith in
        rw (e) ((le, All-later r.key.ts s.key.ts rows le h.0), h)
    | inr e ↦
        rw (e)
          (All-insert_by_ts s.key.ts r rows (ground arith) h.0, insert_by_ts-Ascending r rows h.1)
  ]

  pub sort_by_ts-Ascending : (rows : List (MetricRow g)) → Ascending (sort_by_ts rows)
  unfolding sort_by_ts
  sort_by_ts-Ascending [] = tt
  sort_by_ts-Ascending (r ∷ rows) =
      insert_by_ts-Ascending r (sort_by_ts rows) (sort_by_ts-Ascending rows)

  All-filter :
      (P : MetricRow g → Type 0) (p : MetricRow g → Bool) (rows : List (MetricRow g))
      → All P rows
      → All P (filter p rows)
  All-filter P p [] h = h
  All-filter P p (r ∷ rows) h = elim (Bool-cases (p r)) [
    | inl e ↦ rw (e) (h.0, All-filter P p rows h.1)
    | inr e ↦ rw (e) (All-filter P p rows h.1)
  ]

  pub filter-Ascending :
      (p : MetricRow g → Bool) (rows : List (MetricRow g))
      → Ascending rows
      → Ascending (filter p rows)
  filter-Ascending p [] h = h
  filter-Ascending p (r ∷ rows) h = elim (Bool-cases (p r)) [
    | inl e ↦ rw (e) (All-filter (λ s. r.key.ts ≤ s.key.ts) p rows h.0, filter-Ascending p rows h.1)
    | inr e ↦ rw (e) (filter-Ascending p rows h.1)
  ]

  total-insert_by_ts :
      (f : MetricRow g → ℕ) (p : MetricRow g → Bool) (r : MetricRow g) (rows : List (MetricRow g))
      → total f (filter p (insert_by_ts r rows)) ≡ total f (filter p (r ∷ rows))
  unfolding insert_by_ts
  total-insert_by_ts f p r [] = refl
  total-insert_by_ts f p r (s ∷ rows) = ground (arith, total-insert_by_ts f p r rows)

  pub total-sort_by_ts :
      (f : MetricRow g → ℕ) (p q : MetricRow g → Bool) (rows : List (MetricRow g))
      → total f (filter p (sort_by_ts (filter q rows))) ≡ total f (filter (λ r. q r && p r) rows)
  unfolding sort_by_ts
  total-sort_by_ts f p q [] = refl
  total-sort_by_ts f p q (r ∷ rows) =
      ground
        (arith, total-insert_by_ts f p r (sort_by_ts (filter q rows)), total-sort_by_ts f p q rows)
