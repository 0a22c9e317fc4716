-- ===== src/Faucet/Request.antt =====
-- One dispense request: `_process` and `_verify_pow` of argus/faucet/app.py, with `hash_ip` of
-- argus/faucet/ip.py. What other programs and the standard library answer stands in `Services`.
pub mod Success
pub mod Payments
pub mod Limits
pub mod Replay
use bitcoin_argus.Common.{
  ℕ, ◌+◌, ◌-◌, ◌*◌, ◌/◌, ◌%◌, String, Bool, true, false, not, ◌&&◌, ◌||◌, Option, none, some, List,
  [], ◌∷◌, ◌++◌, map, ltb, leb, ◌==◌, if◌then◌else◌, str_eq, length,
}
use bitcoin_argus.Common.Float.{Float}
use bitcoin_argus.Faucet.Clock.{second, whole_seconds}
use bitcoin_argus.Faucet.Config.{Algorithm, yespower, sha256d, PowCfg, FaucetCfg}
use bitcoin_argus.Faucet.Store.{
  Database, record_payout, increment_usage, record_ip_claim, record_pow_claim, redeem_nonce,
  pow_claims_today,
}
use bitcoin_argus.Faucet.Rules.{LimitsView, RuleContext, RuleOutcome, Reason, evaluate}
use bitcoin_argus.Faucet.Amount.{Decimal, Conversion, rejected, sats, overflow, btc_to_sats}
use bitcoin_argus.Faucet.Approval.{FaucetDecision}
use bitcoin_argus.Faucet.Address.{codes, is_valid_address}
use bitcoin_argus.Faucet.Pow.Target.{max_per_day}
use bitcoin_argus.Faucet.Pow.Token.{
  Text, Codec, Hasher, hasher, unavailable, unknown, Challenge, PowError, Verdict, verified,
  refused, type_error, verify, Check, answer, pow_error, pow_unavailable, encoding_error,
  check_solution,
}
pub use bitcoin_argus.Faucet.Dispensing.{
  FaucetContext, Sending, Services, Request, Payment, World, Delta, PowFailure, Detail, Failure,
  Outcome, PowResult, algorithm_name, is_pow_verified, payment, with_unseen, pow_label,
  pow_failures, rule_entry, sent, failed, raised, hours_minutes, only_hours, only_minutes,
  less_than_a_minute, not_available, not_solved, temporarily_unavailable, already_used, invalid,
  policy_reason, amount_format, pow_reason, rule_reason, invalid_address, crash, disapproved,
  payment_failure, success, pow_absent, pow_crash, pow_verified, pow_failed,
}
unfoldable pub use bitcoin_argus.Faucet.Dispensing.{human_delta}

module _ (fl : Float) (svc : Services) (cfg : FaucetCfg fl) where
  unfoldable pub hash_ip : Option String → Option String
  hash_ip none = none
  hash_ip (some raw) = elim (svc.canonical_ip raw) [
    | none ↦ none
    | some ip ↦ elim svc.ip_salt [
      | none ↦ none
      | some salt ↦ if str_eq salt "" then none else some (svc.hmac_ip salt ip)
    ]
  ]

  -- `_btc_to_sats` on the text.
  unfoldable pub to_sats : String → Conversion
  to_sats raw = elim (svc.read_decimal raw) [ none ↦ rejected | some d ↦ btc_to_sats d ]

  unfoldable pub algorithm_available : String → Bool
  algorithm_available name = elim (svc.get_hasher name) [ hasher _ ↦ true | _ ↦ false ]

  unfoldable pub pow_enabled : Bool
  pow_enabled = elim svc.pow_secret [
    | none ↦ false
    | some _ ↦ cfg.pow.enabled && algorithm_available (algorithm_name cfg.pow.algorithm)
  ]

  -- The answer to a solution of a challenge that was accepted.
  unfoldable pub judge : Challenge → Check → PowResult
  judge ch (answer true) = pow_verified ch
  judge ch (answer false) = pow_failed not_solved
  judge ch (pow_error e) = pow_failed (invalid e)
  judge ch pow_unavailable = pow_failed temporarily_unavailable
  judge ch encoding_error = pow_crash

  unfoldable pub after_verify : Verdict → Request → PowResult
  after_verify (refused e) r = pow_failed (invalid e)
  after_verify type_error r = pow_crash
  after_verify (verified ch) r = judge ch (check_solution svc.get_hasher r.challenge r.solution ch)

  unfoldable pub verify_pow : Request → ℕ → PowResult
  verify_pow r amount =
      if (length r.challenge == 0) || (length r.solution == 0)
      then pow_absent
      else elim svc.pow_secret [
        | none ↦ pow_failed not_available
        | some secret ↦
            if pow_enabled
            then after_verify (verify svc.codec r.challenge secret r.net_key r.address amount r.now)
                r
            else pow_failed not_available
      ]

  unfoldable pub decision : Request → FaucetDecision
  decision r = svc.policy (record {
    net_key = r.net_key;
    chain = r.chain;
    address = r.address;
    amount_raw = r.amount_raw;
    balance_sat = r.balance_sat;
  })

  unfoldable pub policy_failures : Request → List Failure
  policy_failures r =
      if (decision r).approved
      then []
      else record {
        label = "Amount policy";
        reason = policy_reason (decision r).reason;
        retry_in = none;
      }
        ∷ []

  -- The context of the rules for a request of `amount` satoshis.
  abbrev pub rule_context : Request → ℕ → PowResult → Database → RuleContext
  rule_context r amount pow db = record {
    net_key = r.net_key;
    ip_hash = hash_ip r.client_ip;
    requested_sat = amount;
    balance_sat = r.balance_sat;
    now = r.now;
    limits = r.limits;
    pow_verified = is_pow_verified pow;
    pow_claims_today = elim (hash_ip r.client_ip) [
      | none ↦ 0
      | some ip ↦ pow_claims_today r.net_key ip r.now db
    ];
    pow_max_per_day = max_per_day fl cfg.pow r.net_key;
  }

  -- All failures of a request whose amount was read.
  unfoldable pub all_failures : Request → ℕ → PowResult → Database → List Failure
  all_failures r amount pow db =
      policy_failures r
      ++ pow_failures pow
      ++ map (rule_entry r.now) (evaluate fl cfg (rule_context r amount pow db) db)

  -- The records of a payment: the payout, the day's count, and the free or the earned claim.
  unfoldable pub record_success : Request → ℕ → PowResult → String → Database → Database
  record_success r amount pow txid db =
      let db1 = record_payout r.net_key txid amount r.address r.stored_at db in
      let db2 = increment_usage r.net_key r.now db1 in
      elim (hash_ip r.client_ip) [
        | none ↦ db2
        | some ip ↦
            if is_pow_verified pow
            then record_pow_claim r.net_key ip r.now db2
            else record_ip_claim r.net_key ip r.now db2
      ]

  -- `paid` has every payment that the node makes, also one after which the client raised.
  unfoldable pub dispense : Request → ℕ → PowResult → World → Outcome × World
  dispense r amount pow w = elim (svc.send r.net_key r.address amount cfg.fee_sat_per_vbyte) [
    | failed message unseen ↦
        (payment_failure message, record w { paid = with_unseen r amount unseen w.paid })
    | raised unseen ↦ (crash, record w { paid = with_unseen r amount unseen w.paid })
    | sent txid ↦ (
      success txid amount r.address,
      record {
        db = record_success r amount pow txid w.db;
        paid = w.paid ++ payment r amount txid ∷ [];
      },
    )
  ]

  -- The nonce of a proof is spent before the payment.
  unfoldable pub spend : Request → ℕ → PowResult → World → Outcome × World
  spend r amount (pow_verified ch) w =
      let (db', won) = redeem_nonce r.net_key ch.nonce (ch.issued_at + ch.ttl) w.db in
      if won
      then dispense r amount (pow_verified ch) (record w { db = db' })
      else (disapproved (pow_label already_used ∷ []), record w { db = db' })
  spend r amount pow_absent w = dispense r amount pow_absent w
  spend r amount pow_crash w = dispense r amount pow_crash w
  spend r amount (pow_failed f) w = dispense r amount (pow_failed f) w

  -- Any failure blocks the payout.
  unfoldable pub settle : List Failure → Request → ℕ → PowResult → World → Outcome × World
  settle [] r amount pow w = spend r amount pow w
  settle (f ∷ fs) r amount pow w = (disapproved (f ∷ fs), w)

  unfoldable pub with_amount : Request → ℕ → PowResult → World → Outcome × World
  with_amount r amount pow_crash w = (crash, w)
  with_amount r amount pow w = settle (all_failures r amount pow w.db) r amount pow w

  abbrev pub format_failure : Failure
  format_failure = record { label = "Amount format"; reason = amount_format; retry_in = none }

  unfoldable pub after_amount : Conversion → Request → World → Outcome × World
  after_amount overflow r w = (crash, w)
  after_amount rejected r w = (
    disapproved (policy_failures r ++ (if (decision r).approved then format_failure ∷ [] else [])),
    w,
  )
  after_amount (sats amount) r w = with_amount r amount (verify_pow r amount) w

  unfoldable pub process : Request → World → Outcome × World
  process r w =
      if is_valid_address svc.sha256 (codes r.address) r.chain
      then after_amount (to_sats r.amount_raw) r w
      else (invalid_address, w)
