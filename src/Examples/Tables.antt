-- ===== src/Examples/Tables.antt =====
-- The theorems about the database, at a database that was used.
use bitcoin_argus.Common.{◌+◌, ◌≡◌, refl, true, [], ◌∷◌, arith}
use bitcoin_argus.Faucet.Clock.{day_ticks}
use bitcoin_argus.Faucet.Store
use bitcoin_argus.Faucet.Store.{
  empty_database, init_db, last_ip_claim, purge_ip_claims, pow_claims_today, purge_pow_claims,
  usage_on, purge_usage, claim_maintenance_run, usage_stats, uses_of, increment_usage, usage_today,
}
use bitcoin_argus.Faucet.Store.Invariant.{IsValid}
use bitcoin_argus.Faucet.Store.Operations.{
  apply, apply_all, apply_all-IsValid, purge_redeemed_nonces,
}
use bitcoin_argus.Faucet.Store.Redemption.{is_held, apply_all-is_held}
use bitcoin_argus.Faucet.Store.Usage.{ready, finished_count, run_schedule, run_schedule_counts}
use bitcoin_argus.Examples.{midnight, operations, used_database}

used-IsValid : IsValid used_database
used-IsValid = apply_all-IsValid operations

apply_all-IsValid_example : IsValid used_database
apply_all-IsValid_example = apply_all-IsValid operations

run_schedule_counts_example :
    let (rows, ws) = run_schedule "signet" 20_000 (0 ∷ 1 ∷ 1 ∷ 0 ∷ []) (ready ∷ ready ∷ []) [] in
    uses_of (usage_on "signet" 20_000 rows) + finished_count (ready ∷ ready ∷ [])
    ≡ uses_of (usage_on "signet" 20_000 []) + finished_count ws
run_schedule_counts_example =
    run_schedule_counts "signet" 20_000 (0 ∷ 1 ∷ 1 ∷ 0 ∷ []) (ready ∷ ready ∷ []) []

used_nonce : is_held "signet" "n0" 1_728_000_600 used_database ≡ true
unfolding is_held apply_all apply init_db Store.redeem_nonce Store.record_pow_claim
    Store.record_ip_claim Store.increment_usage
used_nonce = refl

apply_all-is_held_example :
    is_held "signet" "n0" 1_728_000_600
      (apply_all (purge_redeemed_nonces midnight ∷ []) used_database)
    ≡ true
apply_all-is_held_example =
    apply_all-is_held "signet" "n0" 1_728_000_600 midnight (omega arith)
      (purge_redeemed_nonces midnight ∷ []) used_database (omega arith, tt) used_nonce

claimed : (claim_maintenance_run midnight day_ticks used_database).1 ≡ true
unfolding claim_maintenance_run apply_all apply init_db Store.redeem_nonce Store.record_pow_claim
    Store.record_ip_claim Store.increment_usage
claimed = refl
