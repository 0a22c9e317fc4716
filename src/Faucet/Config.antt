-- ===== src/Faucet/Config.antt =====
-- The faucet's settings: `PowCfg` and `FaucetCfg` of argus/config.py, without the documentation of
-- the fields. A number that the program holds as a float is a value of the interface.
use bitcoin_argus.Common.{ℕ, String, Bool, Option}
use bitcoin_argus.Common.Float.{Float}

pub data Algorithm : Type 0 where
  yespower sha256d : Algorithm

pub record PowCfg (fl : Float) : Type 0 where
  pub enabled : Bool
  pub algorithm : Algorithm
  pub seconds_per_100k : fl.Carrier
  pub min_seconds : fl.Carrier
  pub max_seconds : fl.Carrier
  pub ttl_seconds : ℕ
  pub value_pegged : Option Bool
  pub value_safety_factor : fl.Carrier
  pub value_cap_seconds : fl.Carrier
  pub max_per_day : Option ℕ
  pub balance_anchor : Bool
  pub balance_full_sat : ℕ
  pub balance_max_mult : fl.Carrier
  pub demand_retarget : Bool
  pub demand_target_per_day : ℕ
  pub demand_max_mult : fl.Carrier
  pub reference_yespower_hps : fl.Carrier
  pub reference_sha256d_hps : fl.Carrier

pub record FaucetCfg (fl : Float) : Type 0 where
  pub enabled : Bool
  pub approval_function : Option String
  pub fee_sat_per_vbyte : ℕ
  pub recent_limit : ℕ
  pub one_per_ip_per_day : Bool
  pub max_amount_per_day : Bool
  pub per_request_balance_cap : Bool
  pub balance_cap_fraction : fl.Carrier
  pub min_claim_enabled : Bool
  pub min_claim_sat : ℕ
  pub pow : PowCfg fl
