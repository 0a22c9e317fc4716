-- ===== src/Examples/Rulings.antt =====
-- The theorems about the rules, at concrete requests.
use bitcoin_argus.Common.{
  ℕ, ◌+◌, ◌*◌, ◌≤◌, ◌<◌, ◌≡◌, ◌↔◌, refl, true, false, none, some, [], arith, inl,
}
use bitcoin_argus.Common.Float.{fixed_point, fixed_point_laws}
use bitcoin_argus.Faucet.Clock.{second, day_ticks}
use bitcoin_argus.Faucet.Store
use bitcoin_argus.Faucet.Store.{
  Database, empty_database, last_ip_claim, purge_ip_claims, pow_claims_today,
}
use bitcoin_argus.Faucet.Store.Operations.{apply, apply_all}
use bitcoin_argus.Faucet.Rules.{
  RuleContext, RuleOutcome, claimed_recently, pow_limit, one_per_ip_rule, pow_cap_rule,
  max_amount_rule, balance_cap_rule, min_claim_rule, compute_limits, evaluate, next_day, daily_cap,
}
use bitcoin_argus.Faucet.Rules.Permits.{Permits, evaluate-Permits}
use bitcoin_argus.Faucet.Rules.Retry.{one_per_ip_retry}
use bitcoin_argus.Faucet.Rules.Limits.{accepted-le-balance}
use bitcoin_argus.Examples.{midnight, faucet_cfg, context, used_database}

evaluate-Permits_example :
    (evaluate fixed_point faucet_cfg context used_database ≡ [])
    ↔ Permits fixed_point faucet_cfg context used_database
evaluate-Permits_example = evaluate-Permits fixed_point faucet_cfg context used_database

abbrev too_early : RuleOutcome
too_early = record {
  passed = false;
  label = "One claim per 24 hours";
  reason = claimed_recently;
  retry_after = some (midnight + day_ticks);
}

claimed_already : one_per_ip_rule fixed_point faucet_cfg context used_database ≡ some too_early
unfolding one_per_ip_rule last_ip_claim apply_all apply Store.init_db Store.redeem_nonce
    Store.record_pow_claim Store.record_ip_claim Store.increment_usage
claimed_already = refl

one_per_ip_retry_example :
    (t : ℕ) × (too_early.retry_after ≡ some t)
    × (context.now < t)
    × ((now' : ℕ)
        → (one_per_ip_rule fixed_point faucet_cfg (record context { now = now' }) used_database
            ≡ none)
          ↔ (t ≤ now'))
one_per_ip_retry_example =
    one_per_ip_retry fixed_point faucet_cfg context used_database too_early claimed_already

abbrev spent_context : RuleContext
spent_context = record context { pow_verified = true; pow_claims_today = 1 }

abbrev spent_limit : RuleOutcome
spent_limit = record {
  passed = false;
  label = "Daily proof-of-work limit";
  reason = pow_limit 1;
  retry_after = some (next_day fixed_point (midnight + 3600 * second));
}

limit_reached : pow_cap_rule fixed_point faucet_cfg spent_context ≡ some spent_limit
unfolding pow_cap_rule
limit_reached = refl

abbrev capped_context : RuleContext
capped_context = record context {
  requested_sat = 2000;
  limits =
      compute_limits fixed_point faucet_cfg "signet" (some 10_000_000) context.now 365_000_000
        empty_database;
}

accepted : evaluate fixed_point faucet_cfg capped_context empty_database ≡ []
unfolding evaluate one_per_ip_rule last_ip_claim pow_cap_rule max_amount_rule balance_cap_rule
    min_claim_rule compute_limits Store.usage_stats daily_cap Store.busiest_day Store.window_sum
    Store.usage_on Store.usage_today
accepted = refl

accepted-le-balance_example : 2000 ≤ 10_000_000
accepted-le-balance_example =
    accepted-le-balance fixed_point fixed_point_laws faucet_cfg capped_context 10_000_000
      365_000_000 empty_database (omega arith) refl (inl refl) refl accepted
