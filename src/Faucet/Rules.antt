-- ===== src/Faucet/Rules.antt =====
-- The speed-limit rules (argus/faucet/rules.py). A rule returns no outcome when it passes. The texts
-- of the reasons are data: a constructor for each text, with the numbers that the text shows.
pub mod Permits
pub mod Retry
pub mod Limits
use bitcoin_argus.Common.{
  ℕ, ◌+◌, ◌*◌, ◌-◌, ◌/◌, ◌≤◌, min, String, Bool, true, false, not, ◌&&◌, ◌||◌, Option, none, some,
  List, [], ◌∷◌, ltb, leb, if◌then◌else◌,
}
use bitcoin_argus.Common.Float.{Float, fmax}
use bitcoin_argus.Faucet.Clock.{second, day_seconds, day_ticks}
use bitcoin_argus.Faucet.Config.{FaucetCfg}
use bitcoin_argus.Faucet.Store.{Database, last_ip_claim, usage_stats}

pub data Reason : Type 0 where
  claimed_recently : Reason
  daily_maximum : ℕ → Reason
  balance_share : ℕ → ℕ → Reason
  below_minimum : ℕ → Reason
  pow_limit : ℕ → Reason

pub record RuleOutcome : Type 0 where
  pub passed : Bool
  pub label : String
  pub reason : Reason
  pub retry_after : Option ℕ

pub record LimitsView : Type 0 where
  pub one_per_day : Bool
  pub daily_cap_sat : Option ℕ
  pub balance_cap_sat : Option ℕ
  pub min_claim_sat : Option ℕ
  pub max_request_sat : Option ℕ

pub record RuleContext : Type 0 where
  pub net_key : String
  pub ip_hash : Option String
  pub requested_sat : ℕ
  pub balance_sat : Option ℕ
  pub now : ℕ
  pub limits : LimitsView
  pub pow_verified : Bool
  pub pow_claims_today : ℕ
  pub pow_max_per_day : ℕ

-- `min(active)` over the caps that are there.
abbrev pub min_active : Option ℕ → Option ℕ → Option ℕ
min_active none none = none
min_active none (some b) = some b
min_active (some a) none = some a
min_active (some a) (some b) = some (min a b)

module _ (fl : Float) where
  open fl use {Carrier, of_nat, mul, div, trunc, round}

  -- The daily cap for a balance that was read.
  unfoldable pub daily_cap : String → ℕ → ℕ → Carrier → Database → ℕ
  daily_cap net_key balance now horizon_days db =
      let (expected_year, _) = usage_stats net_key now db in
      let expected =
        fmax fl (of_nat 1) (div (mul (of_nat expected_year) horizon_days) (of_nat 365)) in
      trunc (div (of_nat balance) expected)

  -- The horizon is the argument `horizon_days`.
  unfoldable pub compute_limits :
      FaucetCfg fl → String → Option ℕ → ℕ → Carrier → Database → LimitsView
  compute_limits cfg net_key balance_sat now horizon_days db =
      let daily : Option ℕ = elim balance_sat [
        | none ↦ none
        | some b ↦
            if cfg.max_amount_per_day then some (daily_cap net_key b now horizon_days db) else none
      ] in
      let share : Option ℕ = elim balance_sat [
        | none ↦ none
        | some b ↦
            if cfg.per_request_balance_cap
            then some (trunc (mul (of_nat b) cfg.balance_cap_fraction))
            else none
      ] in
      record {
        one_per_day = cfg.one_per_ip_per_day;
        daily_cap_sat = daily;
        balance_cap_sat = share;
        min_claim_sat = if cfg.min_claim_enabled then some cfg.min_claim_sat else none;
        max_request_sat = min_active daily share;
      }

  -- The time test of the rule, for a claim made at `last`.
  abbrev pub claim_outcome : ℕ → ℕ → Option RuleOutcome
  claim_outcome now last =
      if leb (last + day_ticks) now
      then none
      else some (record {
        passed = false;
        label = "One claim per 24 hours";
        reason = claimed_recently;
        retry_after = some (last + day_ticks);
      })

  unfoldable pub one_per_ip_rule : FaucetCfg fl → RuleContext → Database → Option RuleOutcome
  one_per_ip_rule cfg ctx db = if ctx.pow_verified then none else elim ctx.ip_hash [
    | none ↦ none
    | some ip ↦
        if cfg.one_per_ip_per_day
        then elim (last_ip_claim ctx.net_key ip db) [
          | none ↦ none
          | some last ↦ claim_outcome ctx.now last
        ]
        else none
  ]

  unfoldable pub max_amount_rule : FaucetCfg fl → RuleContext → Option RuleOutcome
  max_amount_rule cfg ctx = elim ctx.limits.daily_cap_sat [
    | none ↦ none
    | some cap ↦
        if not cfg.max_amount_per_day || leb ctx.requested_sat cap
        then none
        else some (record {
          passed = false;
          label = "Daily maximum";
          reason = daily_maximum cap;
          retry_after = none;
        })
  ]

  unfoldable pub balance_cap_rule : FaucetCfg fl → RuleContext → Option RuleOutcome
  balance_cap_rule cfg ctx = elim ctx.limits.balance_cap_sat [
    | none ↦ none
    | some cap ↦
        if not cfg.per_request_balance_cap || leb ctx.requested_sat cap
        then none
        else some (record {
          passed = false;
          label = "Per-request balance cap";
          reason = balance_share (round (mul cfg.balance_cap_fraction (of_nat 100))) cap;
          retry_after = none;
        })
  ]

  unfoldable pub min_claim_rule : FaucetCfg fl → RuleContext → Option RuleOutcome
  min_claim_rule cfg ctx =
      if not cfg.min_claim_enabled || leb cfg.min_claim_sat ctx.requested_sat
      then none
      else some (record {
        passed = false;
        label = "Minimum claim";
        reason = below_minimum cfg.min_claim_sat;
        retry_after = none;
      })

  -- The first second of the next UTC day, in ticks.
  abbrev pub next_day : ℕ → ℕ
  next_day now = (now / day_ticks + 1) * day_seconds * second

  unfoldable pub pow_cap_rule : FaucetCfg fl → RuleContext → Option RuleOutcome
  pow_cap_rule cfg ctx =
      if not ctx.pow_verified || leb ctx.pow_max_per_day 0
      then none
      else if ltb ctx.pow_claims_today ctx.pow_max_per_day
      then none
      else some (record {
        passed = false;
        label = "Daily proof-of-work limit";
        reason = pow_limit ctx.pow_max_per_day;
        retry_after = some (next_day ctx.now);
      })

  -- The tuple `RULES`, run on one request.
  unfoldable pub rule_results : FaucetCfg fl → RuleContext → Database → List (Option RuleOutcome)
  rule_results cfg ctx db =
      one_per_ip_rule cfg ctx db
      ∷ pow_cap_rule cfg ctx
      ∷ max_amount_rule cfg ctx
      ∷ balance_cap_rule cfg ctx
      ∷ min_claim_rule cfg ctx
      ∷ []

-- The outcomes that are there and did not pass.
unfoldable pub failures_of : List (Option RuleOutcome) → List RuleOutcome
failures_of [] = []
failures_of (none ∷ os) = failures_of os
failures_of (some o ∷ os) = if o.passed then failures_of os else o ∷ failures_of os

unfoldable pub evaluate : (fl : Float) → FaucetCfg fl → RuleContext → Database → List RuleOutcome
unfolding failures_of rule_results
evaluate fl cfg ctx db = failures_of (rule_results fl cfg ctx db)
