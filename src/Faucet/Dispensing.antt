-- ===== src/Faucet/Dispensing.antt =====
-- What a dispense request, the services around it and its outcome are (argus/faucet/app.py).
use bitcoin_argus.Common.{
  ℕ, ◌-◌, ◌/◌, ◌%◌, String, Bool, true, false, not, ◌&&◌, Option, none, some, List, [], ◌∷◌, ◌++◌,
  ◌==◌, if◌then◌else◌,
}
use bitcoin_argus.Faucet.Clock.{whole_seconds}
use bitcoin_argus.Faucet.Config.{Algorithm, yespower, sha256d}
use bitcoin_argus.Faucet.Store.{Database}
use bitcoin_argus.Faucet.Rules.{LimitsView, RuleOutcome, Reason}
use bitcoin_argus.Faucet.Amount.{Decimal}
use bitcoin_argus.Faucet.Approval.{FaucetDecision}
use bitcoin_argus.Faucet.Pow.Token.{Text, Codec, Hasher, Challenge, PowError}

-- What a policy is told (argus/faucet/approval.py).
pub record FaucetContext : Type 0 where
  pub net_key : String
  pub chain : String
  pub address : String
  pub amount_raw : String
  pub balance_sat : Option ℕ

-- What an order to pay comes to: the node answers with the id of the payment, the client raises its own
-- error with a message, or another exception, as for an answer that is not JSON. It raises after a timeout
-- and for an answer without an id too, when the node may have paid all the same: that payment, which the
-- program does not see, has the id in `failed` and `raised`.
pub data Sending : Type 0 where
  sent : String → Sending
  failed : String → Option String → Sending
  raised : Option String → Sending

-- `read_decimal` is `Decimal(text)`; `hmac_ip` hashes the normalised form of an IP address with the
-- salt, `none` for a text that is no address. `policy` is the configured approval function.
pub record Services : Type 0 where
  pub codec : Codec
  pub get_hasher : String → Hasher
  pub sha256 : List ℕ → List ℕ
  pub read_decimal : String → Option Decimal
  pub canonical_ip : String → Option String
  pub hmac_ip : String → String → String
  pub policy : FaucetContext → FaucetDecision
  pub send : String → String → ℕ → ℕ → Sending
  pub ip_salt : Option String
  pub pow_secret : Option String

-- The form of a request, with what the route read before: the balance, the limits and the time.
-- `stored_at` is the later time that the payout row gets.
pub record Request : Type 0 where
  pub net_key : String
  pub chain : String
  pub address : String
  pub amount_raw : String
  pub client_ip : Option String
  pub balance_sat : Option ℕ
  pub limits : LimitsView
  pub now : ℕ
  pub stored_at : ℕ
  pub challenge : Text
  pub solution : Text

-- A payment that the node has made.
pub record Payment : Type 0 where
  pub net : String
  pub address : String
  pub amount : ℕ
  pub txid : String

-- The payment that a request of `amount` satoshis leads to.
abbrev pub payment : Request → ℕ → String → Payment
payment r amount txid = record {
  net = r.net_key;
  address = r.address;
  amount = amount;
  txid = txid;
}

-- The payments after one that the program does not see, if it was made.
abbrev pub with_unseen : Request → ℕ → Option String → List Payment → List Payment
with_unseen r amount none paid = paid
with_unseen r amount (some txid) paid = paid ++ payment r amount txid ∷ []

pub record World : Type 0 where
  pub db : Database
  pub paid : List Payment

-- `_human_delta`: hours with minutes, hours, minutes, or less than a minute.
pub data Delta : Type 0 where
  hours_minutes : ℕ → ℕ → Delta
  only_hours only_minutes : ℕ → Delta
  less_than_a_minute : Delta

unfoldable pub human_delta : ℕ → Delta
human_delta ticks =
    let seconds = whole_seconds ticks in
    let hours = seconds / 3600 in
    let minutes = seconds % 3600 / 60 in
    if not (hours == 0) && not (minutes == 0)
    then hours_minutes hours minutes
    else if not (hours == 0)
    then only_hours hours
    else if not (minutes == 0)
    then only_minutes minutes
    else less_than_a_minute

-- Why a proof of work that was handed in does not count.
pub data PowFailure : Type 0 where
  not_available not_solved temporarily_unavailable already_used : PowFailure
  invalid : PowError → PowFailure

pub data Detail : Type 0 where
  policy_reason : String → Detail
  amount_format : Detail
  pow_reason : PowFailure → Detail
  rule_reason : Reason → Detail

pub record Failure : Type 0 where
  pub label : String
  pub reason : Detail
  pub retry_in : Option Delta

-- The `status` of the result; `crash` is an exception that the handler does not catch.
pub data Outcome : Type 0 where
  invalid_address crash : Outcome
  disapproved : List Failure → Outcome
  payment_failure : String → Outcome
  success : String → ℕ → String → Outcome

pub data PowResult : Type 0 where
  pow_absent pow_crash : PowResult
  pow_verified : Challenge → PowResult
  pow_failed : PowFailure → PowResult

abbrev pub algorithm_name : Algorithm → String
algorithm_name yespower = "yespower"
algorithm_name sha256d = "sha256d"

abbrev pub is_pow_verified : PowResult → Bool
is_pow_verified (pow_verified _) = true
is_pow_verified _ = false

abbrev pub pow_label : PowFailure → Failure
pow_label f = record { label = "Proof of work"; reason = pow_reason f; retry_in = none }

abbrev pub pow_failures : PowResult → List Failure
pow_failures (pow_failed f) = pow_label f ∷ []
pow_failures _ = []

-- The entry of a rule's outcome in the list of failures; the wait is never negative.
abbrev pub rule_entry : ℕ → RuleOutcome → Failure
rule_entry now o = record {
  label = o.label;
  reason = rule_reason o.reason;
  retry_in = elim o.retry_after [ none ↦ none | some t ↦ some (human_delta (t - now)) ];
}
