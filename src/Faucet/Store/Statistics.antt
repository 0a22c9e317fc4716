-- ===== src/Faucet/Store/Statistics.antt =====
-- `usage_stats` of argus/faucet/store.py: the expected yearly count.
use bitcoin_argus.Common.{
  ℕ, zero, suc, ◌+◌, ◌-◌, ◌*◌, ◌≤◌, ◌<◌, max, String, ◌≡◌, inl, inr, some, List, [], ◌∷◌, arith,
  Option-cases, All,
}
use bitcoin_argus.Common.Table.{find?, All-find?}
use bitcoin_argus.Faucet.Clock.{day_ordinal}
use bitcoin_argus.Faucet.Store.{
  Database, DailyUsage, usage_key, usage_on, busiest_day, window_sum, usage_stats,
}
use bitcoin_argus.Faucet.Store.Invariant.{IsValid}

usage_on_pos :
    (net : String) (day : ℕ) (rows : List DailyUsage) {c : ℕ}
    → All (λ r. 1 ≤ r.uses) rows
    → usage_on net day rows ≡ some c
    → 1 ≤ c
unfolding usage_on
usage_on_pos net day rows h e = elim (Option-cases (find? (usage_key net day) rows)) [
  | inl absent ↦ ground arith
  | inr (r, found) ↦
      ground (arith, All-find? (λ (x : DailyUsage). 1 ≤ x.uses) (usage_key net day) rows found h)
]

usage_on-le-busiest :
    (net : String) (day : ℕ) (rows : List DailyUsage) {c : ℕ}
    → usage_on net day rows ≡ some c
    → c ≤ busiest_day net rows
unfolding usage_on busiest_day
usage_on-le-busiest net day [] e = cc
usage_on-le-busiest net day (r ∷ rows) {c} e =
    ground (arith, usage_on-le-busiest net day rows {c = c})

module _ (net : String) (today fill : ℕ) (rows : List DailyUsage) where
  window_sum_lower :
      (n : ℕ) → 1 ≤ fill → All (λ r. 1 ≤ r.uses) rows → n ≤ window_sum net today fill rows n
  unfolding window_sum
  window_sum_lower zero f h = omega arith
  window_sum_lower (suc n) f h = elim (Option-cases (usage_on net (today - n) rows)) [
    | inl e ↦ ground (arith, window_sum_lower n f h)
    | inr (c, e) ↦ ground (arith, window_sum_lower n f h, usage_on_pos net (today - n) rows h e)
  ]

  window_sum_upper :
      (n : ℕ) → busiest_day net rows ≤ fill → window_sum net today fill rows n ≤ n * fill
  unfolding window_sum
  window_sum_upper zero f = omega arith
  window_sum_upper (suc n) f = elim (Option-cases (usage_on net (today - n) rows)) [
    | inl e ↦ ground (arith, window_sum_upper n f)
    | inr (c, e) ↦ ground (arith, window_sum_upper n f, usage_on-le-busiest net (today - n) rows e)
  ]

  window_sum_steady :
      (c n : ℕ)
      → n ≤ today + 1
      → ((k : ℕ) → k < n → usage_on net (today - k) rows ≡ some c)
      → window_sum net today fill rows n ≡ n * c
  unfolding window_sum
  window_sum_steady c zero h every = omega arith
  window_sum_steady c (suc n) h every = ground (
    arith,
    every n (omega arith),
    window_sum_steady c n (omega arith) (λ k l. every k (omega arith)),
  )

-- On a valid database the expected yearly count is at least 365 and at most 365 times the fill
-- value, which is the busiest day's count or 10, whichever is larger.
pub usage_stats_bounds :
    (net : String) (now : ℕ) (db : Database)
    → IsValid db
    → let (expected, busiest) = usage_stats net now db in
      (365 ≤ expected) × (expected ≤ 365 * max busiest 10)
unfolding usage_stats
usage_stats_bounds net now db v =
    let today = day_ordinal now in
    let fill = max (busiest_day net db.usage) 10 in
    (
      window_sum_lower net today fill db.usage 365 (omega arith) v.usage_positive,
      window_sum_upper net today fill db.usage 365 (omega arith),
    )

-- Where each of the 365 days of the window has the same count `c`, the expected yearly count is
-- 365 times `c`. So it is below 3650 whenever `c` is below 10.
pub usage_stats_steady :
    (net : String) (now c : ℕ) (db : Database)
    → 364 ≤ day_ordinal now
    → ((k : ℕ) → k < 365 → usage_on net (day_ordinal now - k) db.usage ≡ some c)
    → ((usage_stats net now db).0 ≡ 365 * c) × (c < 10 → (usage_stats net now db).0 < 3650)
unfolding usage_stats
usage_stats_steady net now c db h every =
    let e =
      window_sum_steady net (day_ordinal now) (max (busiest_day net db.usage) 10) db.usage c 365
        (omega arith) every in
    (e, λ l. omega (arith, e))
