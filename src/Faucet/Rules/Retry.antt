-- ===== src/Faucet/Rules/Retry.antt =====
-- The times at which the rules of argus/faucet/rules.py tell a visitor to come back, and the
-- daily purge of the claims.
use bitcoin_argus.Common.{
  ℕ, ◌+◌, ◌≤◌, ◌<◌, String, ◌≡◌, ◌↔◌, refl, inl, inr, none, some, List, [], ◌∷◌, arith,
  Option-cases, All,
}
use bitcoin_argus.Common.Float.{Float}
use bitcoin_argus.Faucet.Clock.{day_ticks, day_ordinal}
use bitcoin_argus.Faucet.Config.{FaucetCfg}
use bitcoin_argus.Faucet.Store.{
  Database, PowDailyClaim, last_ip_claim, purge_ip_claims, pow_on, pow_claims_today,
}
use bitcoin_argus.Faucet.Store.Invariant.{IsValid}
use bitcoin_argus.Faucet.Store.Retention.{last_ip_claim-purge}
use bitcoin_argus.Faucet.Rules.{RuleContext, RuleOutcome, one_per_ip_rule, pow_cap_rule, next_day}

module _ (fl : Float) (cfg : FaucetCfg fl) (ctx : RuleContext) where
  -- If the one-claim-a-day rule refuses, it names a time in the future, and with the claims of that
  -- moment the same request passes the rule from that time on and not before.
  pub one_per_ip_retry :
      (db : Database) (o : RuleOutcome)
      → one_per_ip_rule fl cfg ctx db ≡ some o
      → (t : ℕ) × (o.retry_after ≡ some t)
        × (ctx.now < t)
        × ((now' : ℕ) → (one_per_ip_rule fl cfg (record ctx { now = now' }) db ≡ none) ↔ (t ≤ now'))
  unfolding one_per_ip_rule
  one_per_ip_retry db o h = elim (Option-cases ctx.ip_hash) [
    | inl e ↦ absurd (ground arith)
    | inr (ip, e) ↦ elim (Option-cases (last_ip_claim ctx.net_key ip db)) [
      | inl f ↦ absurd (ground arith)
      | inr (last, f) ↦ (
        last + day_ticks,
        ground arith,
        ground arith,
        λ now'. (λ g. ground arith, λ g. ground arith),
      )
    ]
  ]

  -- The purge at `purged` changes no verdict of the one-claim-a-day rule at that time or later.
  pub one_per_ip-purge :
      (purged : ℕ) (db : Database)
      → IsValid db
      → purged ≤ ctx.now
      → one_per_ip_rule fl cfg ctx (purge_ip_claims purged db).0 ≡ one_per_ip_rule fl cfg ctx db
  unfolding one_per_ip_rule
  one_per_ip-purge purged db v h = elim (Option-cases ctx.ip_hash) [
    | inl e ↦ ground arith
    | inr (ip, e) ↦ ground (arith, last_ip_claim-purge ctx.net_key ip purged ctx.now db v h)
  ]

pow_on-later :
    (net ip : String) (day day' : ℕ) (rows : List PowDailyClaim)
    → All (λ r. r.day ≤ day) rows
    → day < day'
    → pow_on net ip day' rows ≡ none
unfolding pow_on
pow_on-later net ip day day' [] h l = refl
pow_on-later net ip day day' (r ∷ rows) h l =
    ground (arith, pow_on-later net ip day day' rows h.1 l)

module _ (fl : Float) (cfg : FaucetCfg fl) (ctx : RuleContext) where
  -- If the proof-of-work rule refuses, it names the start of the next UTC day: a time in the future
  -- and at most a day away. With the claims logged up to the refusal the rule passes from then on.
  pub pow_cap_retry :
      (o : RuleOutcome)
      → pow_cap_rule fl cfg ctx ≡ some o
      → (t : ℕ) × (o.retry_after ≡ some t)
        × (ctx.now < t)
        × (t ≤ ctx.now + day_ticks)
        × ((ip : String) (now' : ℕ) (db : Database)
            → All (λ r. r.day ≤ day_ordinal ctx.now) db.pow_claims
            → t ≤ now'
            → pow_cap_rule fl cfg (record ctx {
              now = now';
              pow_claims_today = pow_claims_today ctx.net_key ip now' db;
            })
              ≡ none)
  unfolding pow_cap_rule pow_claims_today
  pow_cap_retry o h = (
    next_day fl ctx.now,
    ground arith,
    omega arith,
    omega arith,
    λ ip now' db old late.
        let e : pow_on ctx.net_key ip (day_ordinal now') db.pow_claims ≡ none =
          pow_on-later ctx.net_key ip (day_ordinal ctx.now) (day_ordinal now') db.pow_claims old
            (omega arith) in
        ground arith,
  )
