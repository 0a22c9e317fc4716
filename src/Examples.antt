-- ===== src/Examples.antt =====
-- Concrete settings, services, requests and databases, on which the children run the theorems.
mod Requests
mod Tables
mod Rulings
mod Numbers
mod Deployment
mod Onion
mod Inventory
mod Secrets
mod Claiming
mod History
mod Sampling
mod Lightning
mod Metering
mod Settings
use bitcoin_argus.Common.{ℕ, ◌+◌, ◌*◌, String, Bool, true, false, Option, none, some, List, [], ◌∷◌}
use bitcoin_argus.Common.Float.{fixed_point}
use bitcoin_argus.Faucet.Clock.{second, day_ticks}
use bitcoin_argus.Faucet.Config.{PowCfg, FaucetCfg, sha256d}
use bitcoin_argus.Faucet.Amount.{finite, decimals}
use bitcoin_argus.Faucet.Store.{Database, empty_database, init_db}
use bitcoin_argus.Faucet.Store.Operations.{
  Operation, increment_usage, record_ip_claim, record_pow_claim, redeem_nonce, apply_all,
}
use bitcoin_argus.Faucet.Rules.{LimitsView, RuleContext}
use bitcoin_argus.Faucet.Pow.Token.{Text, Codec, Payload, hasher, Challenge}
use bitcoin_argus.Faucet.Request.{Services, Request, World, sent}

-- The start of the UTC day 20,000.
abbrev pub midnight : ℕ
midnight = 20_000 * day_ticks

abbrev pub address : String
address = "tb1qw508d6qejxtdg4y5r3zarvary0c5xw7kxpjzsx"

abbrev pub pow_cfg : PowCfg fixed_point
pow_cfg = record {
  enabled = true;
  algorithm = sha256d;
  seconds_per_100k = 60_000_000;
  min_seconds = 5_000_000;
  max_seconds = 900_000_000;
  ttl_seconds = 600;
  value_pegged = none;
  value_safety_factor = 2_000_000;
  value_cap_seconds = 3_600_000_000;
  max_per_day = some 1;
  balance_anchor = true;
  balance_full_sat = 1_000_000;
  balance_max_mult = 4_000_000;
  demand_retarget = true;
  demand_target_per_day = 20;
  demand_max_mult = 8_000_000;
  reference_yespower_hps = 100_000_000;
  reference_sha256d_hps = 1_000_000_000_000;
}

-- Half of the balance for one request, which has to be for a thousand satoshis.
abbrev pub faucet_cfg : FaucetCfg fixed_point
faucet_cfg = record {
  enabled = true;
  approval_function = none;
  fee_sat_per_vbyte = 1;
  recent_limit = 20;
  one_per_ip_per_day = true;
  max_amount_per_day = true;
  per_request_balance_cap = true;
  balance_cap_fraction = 500_000;
  min_claim_enabled = true;
  min_claim_sat = 1000;
  pow = pow_cfg;
}

abbrev pub payload : Payload
payload = record {
  v = some 1;
  net = some "signet";
  addr = some address;
  amt = some 100_000;
  alg = some "sha256d";
  tgt = some (5 ∷ []);
  iat = some 1_728_000_000;
  ttl = some 600;
  non = some "n1";
}

abbrev pub challenge : Challenge
challenge = record {
  net = "signet";
  address = address;
  amount_sat = 100_000;
  algorithm = "sha256d";
  target = 5;
  issued_at = 1_728_000_000;
  ttl = 600;
  nonce = "n1";
}

-- A codec for this one payload.
abbrev pub codec : Codec
codec = record {
  sign = λ t s. 7 ∷ [];
  encode = λ p. 65 ∷ [];
  decode = λ t. some payload;
  format_hex = λ n. n ∷ [];
  parse_hex = λ t. elim t [ [] ↦ none | n ∷ _ ↦ some n ];
}

abbrev pub token : Text
token = 65 ∷ 46 ∷ 7 ∷ []

abbrev pub services : Services
services = record {
  codec = codec;
  get_hasher = λ a. hasher (λ t. 0);
  sha256 = λ t. t;
  read_decimal = λ t. some (finite false 1 (decimals 3));
  canonical_ip = λ t. some t;
  hmac_ip = λ salt ip. ip;
  policy = λ c. record { approved = true; reason = "Approved." };
  send = λ net to amount fee. sent "txid";
  ip_salt = some "salt";
  pow_secret = some "secret";
}

abbrev pub no_limits : LimitsView
no_limits = record {
  one_per_day = true;
  daily_cap_sat = some 200_000;
  balance_cap_sat = none;
  min_claim_sat = none;
  max_request_sat = some 200_000;
}

abbrev pub free_request : Request
free_request = record {
  net_key = "signet";
  chain = "signet";
  address = address;
  amount_raw = "0.001";
  client_ip = some "203.0.113.7";
  balance_sat = some 10_000_000;
  limits = no_limits;
  now = midnight;
  stored_at = midnight + second;
  challenge = [];
  solution = [];
}

abbrev pub earned_request : Request
earned_request = record {
  net_key = "signet";
  chain = "signet";
  address = address;
  amount_raw = "0.001";
  client_ip = some "203.0.113.7";
  balance_sat = some 10_000_000;
  limits = no_limits;
  now = midnight;
  stored_at = midnight + second;
  challenge = token;
  solution = 1 ∷ [];
}

abbrev pub operations : List Operation
operations =
    increment_usage "signet" midnight
    ∷ record_ip_claim "signet" "203.0.113.7" midnight
    ∷ record_pow_claim "signet" "203.0.113.7" midnight
    ∷ redeem_nonce "signet" "n0" 1_728_000_600
    ∷ []

abbrev pub used_database : Database
used_database = apply_all operations (init_db empty_database)

abbrev pub fresh_world : World
fresh_world = record { db = empty_database; paid = [] }

abbrev pub context : RuleContext
context = record {
  net_key = "signet";
  ip_hash = some "203.0.113.7";
  requested_sat = 100_000;
  balance_sat = some 10_000_000;
  now = midnight + 3600 * second;
  limits = no_limits;
  pow_verified = false;
  pow_claims_today = 0;
  pow_max_per_day = 1;
}
