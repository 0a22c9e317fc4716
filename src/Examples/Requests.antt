-- ===== src/Examples/Requests.antt =====
-- The theorems about requests, at concrete requests.
use bitcoin_argus.Common.{
  ◌+◌, ◌*◌, ◌≡◌, ◌≢◌, ◌↔◌, refl, true, some, List, [], ◌∷◌, ◌++◌, arith, inl, inr,
}
use bitcoin_argus.Common.Float.{fixed_point}
use bitcoin_argus.Faucet.Clock.{second}
use bitcoin_argus.Faucet.Store.Operations.{
  Operation, record_ip_claim, purge_ip_claims, purge_redeemed_nonces, apply_all,
}
use bitcoin_argus.Faucet.Pow.Token.{verify, verified, issue, split_dot, Text, Payload}
use bitcoin_argus.Faucet.Pow.Token.Laws.{verify-verified, verify-issue, Binds}
use bitcoin_argus.Faucet.Pow.Token.{check_solution}
use bitcoin_argus.Faucet.Address.{codes, is_valid_address}
use bitcoin_argus.Faucet.Amount.{sats}
use bitcoin_argus.Faucet.Amount.Exact.{btc_to_sats_exact}
use bitcoin_argus.Faucet.Pow.Target.{max_per_day}
use bitcoin_argus.Faucet.Store.{
  empty_database, redeem_nonce, pow_claims_today, pow_on, last_ip_claim,
}
use bitcoin_argus.Faucet.Rules.{
  evaluate, one_per_ip_rule, pow_cap_rule, max_amount_rule, balance_cap_rule, min_claim_rule,
}
use bitcoin_argus.Faucet.Rules.Permits.{Permits, evaluate-Permits}
use bitcoin_argus.Faucet.Request.{
  World, success, process, pow_absent, pow_verified, verify_pow, after_verify, judge, pow_enabled,
  algorithm_available, to_sats, hash_ip, decision, rule_context,
}
use bitcoin_argus.Faucet.Request.Success.{process_success_iff, Payable}
use bitcoin_argus.Faucet.Request.Replay.{no_replay}
use bitcoin_argus.Faucet.Request.Limits.{one_free_claim_a_day}
use bitcoin_argus.Examples.{
  address, faucet_cfg, services, free_request, earned_request, fresh_world, challenge, codec, token,
  midnight,
}

process_success_iff_example :
    ((process fixed_point services faucet_cfg free_request fresh_world).0
      ≡ success "txid" 100_000 address)
    ↔ (Payable fixed_point services faucet_cfg free_request fresh_world "txid" 100_000
        × (address ≡ address))
process_success_iff_example =
    process_success_iff fixed_point services faucet_cfg free_request fresh_world "txid" address
      100_000

address_ok : is_valid_address services.sha256 (codes address) "signet" ≡ true
unfolding is_valid_address
address_ok = refl

amount_read : to_sats fixed_point services faucet_cfg "0.001" ≡ sats 100_000
unfolding to_sats
amount_read = (btc_to_sats_exact 1 (omega arith) (omega arith)).0 3 (omega arith)

free_proof : verify_pow fixed_point services faucet_cfg free_request 100_000 ≡ pow_absent
unfolding verify_pow
free_proof = refl

earned_challenge :
    verify codec token "secret" "signet" address 100_000 midnight ≡ verified challenge
unfolding verify
earned_challenge = refl

earned_proof :
    verify_pow fixed_point services faucet_cfg earned_request 100_000 ≡ pow_verified challenge
unfolding verify_pow after_verify judge verify check_solution pow_enabled algorithm_available
earned_proof = refl

free-Permits :
    Permits fixed_point faucet_cfg
      (rule_context fixed_point services faucet_cfg free_request 100_000 pow_absent empty_database)
      empty_database
unfolding evaluate one_per_ip_rule hash_ip last_ip_claim pow_cap_rule max_amount_rule
    balance_cap_rule min_claim_rule
free-Permits =
    (evaluate-Permits fixed_point faucet_cfg
        (rule_context fixed_point services faucet_cfg free_request 100_000 pow_absent
          empty_database)
        empty_database).0
      refl

earned-Permits :
    Permits fixed_point faucet_cfg
      (rule_context fixed_point services faucet_cfg earned_request 100_000
        (pow_verified challenge)
        empty_database)
      empty_database
unfolding evaluate pow_claims_today one_per_ip_rule pow_cap_rule max_per_day hash_ip pow_on
    max_amount_rule balance_cap_rule min_claim_rule
earned-Permits =
    (evaluate-Permits fixed_point faucet_cfg
        (rule_context fixed_point services faucet_cfg earned_request 100_000
          (pow_verified challenge) empty_database)
        empty_database).0
      refl

free-Payable : Payable fixed_point services faucet_cfg free_request fresh_world "txid" 100_000
unfolding decision
free-Payable = record {
  address_ok = address_ok;
  amount_read = amount_read;
  cleared =
      rw (free_proof)
        (record { approved = refl; permits = free-Permits; proof = inl refl; node = refl });
}

earned-Payable : Payable fixed_point services faucet_cfg earned_request fresh_world "txid" 100_000
unfolding decision redeem_nonce
earned-Payable = record {
  address_ok = address_ok;
  amount_read = amount_read;
  cleared = rw (earned_proof) (record {
    approved = refl;
    permits = earned-Permits;
    proof = inr (challenge, refl, refl);
    node = refl;
  });
}

free_request_paid :
    (process fixed_point services faucet_cfg free_request fresh_world).0
    ≡ success "txid" 100_000 address
free_request_paid =
    (process_success_iff fixed_point services faucet_cfg free_request fresh_world "txid" address
        100_000).1
      (free-Payable, refl)

earned_request_paid :
    (process fixed_point services faucet_cfg earned_request fresh_world).0
    ≡ success "txid" 100_000 address
earned_request_paid =
    (process_success_iff fixed_point services faucet_cfg earned_request fresh_world "txid" address
        100_000).1
      (earned-Payable, refl)

address_known : hash_ip fixed_point services faucet_cfg (some "203.0.113.7") ≡ some "203.0.113.7"
unfolding hash_ip
address_known = refl

no_replay_example :
    (process fixed_point services faucet_cfg earned_request (record {
      db =
          apply_all
            (purge_redeemed_nonces midnight ∷ [])
            (process fixed_point services faucet_cfg earned_request fresh_world).1.db;
      paid = [];
    })).0
    ≢ success "txid" 100_000 address
no_replay_example =
    no_replay fixed_point services faucet_cfg earned_request earned_request fresh_world
      (record {
        db =
            apply_all (purge_redeemed_nonces midnight ∷ [])
              (process fixed_point services faucet_cfg earned_request fresh_world).1.db;
        paid = [];
      })
      (purge_redeemed_nonces midnight ∷ []) "txid" address "txid" address 100_000 100_000 challenge
      earned_request_paid earned_proof refl earned_proof (omega arith, tt) refl

-- Another visitor claims, and old claims are purged.
abbrev others : List Operation
others = record_ip_claim "signet" "198.51.100.9" midnight ∷ purge_ip_claims midnight ∷ []

abbrev world_then : World
world_then = record {
  db = apply_all others (process fixed_point services faucet_cfg free_request fresh_world).1.db;
  paid = [];
}

one_free_claim_a_day_example :
    (process fixed_point services faucet_cfg free_request world_then).0
    ≢ success "txid" 100_000 address
one_free_claim_a_day_example =
    one_free_claim_a_day fixed_point services faucet_cfg free_request free_request fresh_world
      world_then others "txid" address "txid" address "203.0.113.7" 100_000 100_000 refl
      free_request_paid free_proof address_known refl address_known free_proof (omega arith)
      (omega arith, (omega arith, tt)) refl

verify-verified_example :
    (body : Text) × (p : Payload) × (token ≡ body ++ b'.' ∷ codec.sign body "secret")
    × (codec.decode body ≡ some p)
    × Binds codec p "signet" address 100_000 midnight challenge
verify-verified_example =
    verify-verified codec token "secret" "signet" address 100_000 midnight challenge
      earned_challenge

verify-issue_example :
    verify codec
      (issue codec "secret" "signet" address 100_000 "sha256d" 5 600 "n1" midnight)
      "secret"
      "signet"
      address
      100_000
      (midnight + 600 * second)
    ≡ verified challenge
unfolding split_dot
verify-issue_example =
    verify-issue codec "secret" "signet" address 100_000 "sha256d" 5 600 "n1" midnight
      (midnight + 600 * second) refl refl refl (omega arith)
