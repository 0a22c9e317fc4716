-- ===== src/Faucet/Store/Retention.antt =====
-- The purges of argus/faucet/store.py: what later reads of the tables find. Then the daily claim
-- of the maintenance run.
use bitcoin_argus.Common.{
  ℕ, ◌+◌, ◌≤◌, ◌<◌, String, ◌≡◌, ◌⊎◌, inl, inr, Bool, true, false, none, some, List, [], ◌∷◌, arith,
  ◌==◌, length, Bool-cases, Option-cases,
}
use bitcoin_argus.Common.Table.{find?, count, update, find?-delete, find?-test}
use bitcoin_argus.Faucet.Clock.{day_ticks, day_ordinal}
use bitcoin_argus.Faucet.Store.{
  Database, ip_key, usage_key, pow_key, last_ip_claim, ip_expired, purge_ip_claims, usage_on,
  usage_expired, purge_usage, usage_retention_days, pow_on, pow_claims_today, pow_expired,
  purge_pow_claims, claim_maintenance_run, run_due,
}
use bitcoin_argus.Faucet.Store.Invariant.{IsValid}

-- Purging at `purged` the claims that are older than a day changes no answer of the one-claim-a-day
-- test at that time or later: what is found is the same, or it was a day old already.
pub last_ip_claim-purge :
    (net ip : String) (purged now : ℕ) (db : Database)
    → IsValid db
    → purged ≤ now
    → (last_ip_claim net ip (purge_ip_claims purged db).0 ≡ last_ip_claim net ip db)
      ⊎ ((last : ℕ) × (last_ip_claim net ip db ≡ some last)
          × (last + day_ticks ≤ now)
          × (last_ip_claim net ip (purge_ip_claims purged db).0 ≡ none))
unfolding last_ip_claim purge_ip_claims
last_ip_claim-purge net ip purged now db v h =
    let e = find?-delete (ip_expired purged) (ip_key net ip) db.ip_claims (v.ip_unique net ip) in
    elim (Option-cases (find? (ip_key net ip) db.ip_claims)) [
      | inl absent ↦ inl (ground arith)
      | inr (r, found) ↦ elim (Bool-cases (ip_expired purged r)) [
        | inl old ↦ inr (r.last_claim_at, ground arith, ground arith, ground arith)
        | inr recent ↦ inl (ground arith)
      ]
    ]

-- Purging at `purged` changes no count of proof-of-work claims of that UTC day or later.
pub pow_claims_today-purge :
    (net ip : String) (purged now : ℕ) (db : Database)
    → IsValid db
    → day_ordinal purged ≤ day_ordinal now
    → pow_claims_today net ip now (purge_pow_claims purged db).0 ≡ pow_claims_today net ip now db
unfolding pow_claims_today pow_on purge_pow_claims
pow_claims_today-purge net ip purged now db v h =
    let key = pow_key net ip (day_ordinal now) in
    let e =
      find?-delete (pow_expired purged) key db.pow_claims (v.pow_unique net ip (day_ordinal now)) in
    elim (Option-cases (find? key db.pow_claims)) [
      | inl absent ↦ ground arith
      | inr (r, found) ↦ ground (arith, find?-test key db.pow_claims found)
    ]

-- Purging at `purged` keeps the counts of the 366 days that end with that day, so all that a
-- trailing-year window then or later reads.
pub usage_on-purge :
    (net : String) (purged day : ℕ) (db : Database)
    → IsValid db
    → day_ordinal purged ≤ day + usage_retention_days
    → usage_on net day (purge_usage purged db).0.usage ≡ usage_on net day db.usage
unfolding usage_on purge_usage
usage_on-purge net purged day db v h =
    let key = usage_key net day in
    let e = find?-delete (usage_expired purged) key db.usage (v.usage_unique net day) in
    elim (Option-cases (find? key db.usage)) [
      | inl absent ↦ ground arith
      | inr (r, found) ↦ ground (arith, find?-test key db.usage found)
    ]

-- A call that claims the maintenance run is the only one of its interval: whoever asks again before
-- the interval is over, at a later time or the same, is refused, and the claim stands.
pub claim_maintenance_run_once :
    (now now' interval : ℕ) (db : Database)
    → IsValid db
    → (claim_maintenance_run now interval db).1 ≡ true
    → now' < now + interval
    → claim_maintenance_run now' interval (claim_maintenance_run now interval db).0
      ≡ ((claim_maintenance_run now interval db).0, false)
unfolding claim_maintenance_run
claim_maintenance_run_once now now' interval db v won h = one_row db.maintenance v.one_row won
  where
    one_row :
        (rows : List ℕ)
        → length rows ≡ 1
        → (count (run_due now interval) rows == 1) ≡ true
        → let rows' = update (run_due now interval) (λ x. now) rows in
          ◌≡◌ {A = Database × Bool}
            (
              record db { maintenance = update (run_due now' interval) (λ x. now') rows' },
              count (run_due now' interval) rows' == 1,
            )
            (record db { maintenance = rows' }, false)
    one_row [] l w = absurd (omega arith)
    one_row (last ∷ []) l w = ground arith
    one_row (last ∷ other ∷ rows) l w = absurd (omega arith)
