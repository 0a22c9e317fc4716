-- ===== src/Faucet/Store.antt =====
-- The faucet's database (argus/faucet/store.py): six tables and the statements on them. A table is
-- the list of its rows, in the order of insertion; a UNIQUE index is the invariant `IsValid` of
-- Faucet/Store/Invariant.antt.
pub mod Claims
pub mod Keys
pub mod Invariant
pub mod Usage
pub mod Operations
pub mod Redemption
pub mod Statistics
pub mod Retention
use bitcoin_argus.Common.{
  ℕ, zero, suc, ◌+◌, ◌-◌, ◌≤◌, max, String, Bool, true, false, ◌&&◌, Option, none, some, List, [],
  ◌∷◌, ◌++◌, ◌*◌, ltb, leb, ◌==◌, if◌then◌else◌, is_some, not, take, filter, str_eq,
}
use bitcoin_argus.Common.Table.{find?, count, update, upsert, delete}
use bitcoin_argus.Faucet.Clock.{second, day_seconds, day_ticks, day_ordinal}

-- `amount` is the paid amount in satoshis; the table holds its fixed rendering in BTC.
pub record Payout : Type 0 where
  pub net : String
  pub txid : String
  pub amount : ℕ
  pub address : String
  pub created_at : ℕ

pub record IpClaim : Type 0 where
  pub net : String
  pub ip_hash : String
  pub last_claim_at : ℕ

pub record DailyUsage : Type 0 where
  pub net : String
  pub day : ℕ
  pub uses : ℕ

-- `expires_at` is in whole seconds: it is the sum of two integers of the challenge.
pub record RedeemedNonce : Type 0 where
  pub net : String
  pub nonce : String
  pub expires_at : ℕ

pub record PowDailyClaim : Type 0 where
  pub net : String
  pub ip_hash : String
  pub day : ℕ
  pub uses : ℕ

-- `maintenance` holds the `last_run` of each row of its table (one, after `init_db`).
pub record Database : Type 0 where
  pub payouts : List Payout
  pub ip_claims : List IpClaim
  pub usage : List DailyUsage
  pub nonces : List RedeemedNonce
  pub pow_claims : List PowDailyClaim
  pub maintenance : List ℕ

abbrev pub empty_database : Database
empty_database = record {
  payouts = [];
  ip_claims = [];
  usage = [];
  nonces = [];
  pow_claims = [];
  maintenance = [];
}

-- The WHERE clauses, by key.
abbrev pub payout_key : String → Payout → Bool
payout_key net r = str_eq r.net net

abbrev pub ip_key : String → String → IpClaim → Bool
ip_key net ip_hash r = str_eq r.net net && str_eq r.ip_hash ip_hash

abbrev pub usage_key : String → ℕ → DailyUsage → Bool
usage_key net day r = str_eq r.net net && (r.day == day)

abbrev pub nonce_key : String → String → RedeemedNonce → Bool
nonce_key net nonce r = str_eq r.net net && str_eq r.nonce nonce

abbrev pub pow_key : String → String → ℕ → PowDailyClaim → Bool
pow_key net ip_hash day r = str_eq r.net net && (str_eq r.ip_hash ip_hash && (r.day == day))

-- The seeding of the maintenance row; the tables are created elsewhere, by the database.
unfoldable pub init_db : Database → Database
init_db db = elim db.maintenance [ [] ↦ record db { maintenance = 0 ∷ [] } | _ ∷ _ ↦ db ]

unfoldable pub record_payout : String → String → ℕ → String → ℕ → Database → Database
record_payout net txid amount address ts db = record db {
  payouts =
      db.payouts
      ++ record { net = net; txid = txid; amount = amount; address = address; created_at = ts }
        ∷ [];
}

-- `order_by(created_at.desc())` as an insertion sort that puts the newest first.
insert_newest : Payout → List Payout → List Payout
insert_newest p [] = p ∷ []
insert_newest p (q ∷ qs) =
    if leb q.created_at p.created_at then p ∷ q ∷ qs else q ∷ insert_newest p qs

newest_first : List Payout → List Payout
newest_first [] = []
newest_first (p ∷ ps) = insert_newest p (newest_first ps)

unfoldable pub recent : String → ℕ → Database → List Payout
unfolding insert_newest newest_first
recent net limit db = take limit (newest_first (filter (payout_key net) db.payouts))

-- The delete statements return the number of rows removed, beside the new database.
unfoldable pub purge : String → Database → Database × ℕ
purge net db =
    (record db { payouts = delete (payout_key net) db.payouts }, count (payout_key net) db.payouts)

unfoldable pub record_ip_claim : String → String → ℕ → Database → Database
record_ip_claim net ip_hash ts db = record db {
  ip_claims =
      upsert (ip_key net ip_hash) (λ r. record r { last_claim_at = ts })
        (record { net = net; ip_hash = ip_hash; last_claim_at = ts }) db.ip_claims;
}

unfoldable pub last_ip_claim : String → String → Database → Option ℕ
last_ip_claim net ip_hash db = elim (find? (ip_key net ip_hash) db.ip_claims) [
  | none ↦ none
  | some r ↦ some r.last_claim_at
]

-- `last_claim_at < now - DAY_SECONDS`, with the subtraction moved to the other side.
abbrev pub ip_expired : ℕ → IpClaim → Bool
ip_expired now r = ltb (r.last_claim_at + day_ticks) now

unfoldable pub purge_ip_claims : ℕ → Database → Database × ℕ
purge_ip_claims now db = (
  record db { ip_claims = delete (ip_expired now) db.ip_claims },
  count (ip_expired now) db.ip_claims,
)

abbrev pub bump_usage : DailyUsage → DailyUsage
bump_usage r = record r { uses = r.uses + 1 }

-- The two statements of `increment_usage`: the UPDATE, and the INSERT for a day with no row yet.
unfoldable pub usage_update : String → ℕ → List DailyUsage → List DailyUsage
usage_update net day = update (usage_key net day) bump_usage

unfoldable pub usage_insert : String → ℕ → List DailyUsage → List DailyUsage
usage_insert net day =
    upsert (usage_key net day) bump_usage (record { net = net; day = day; uses = 1 })

unfoldable pub increment_usage : String → ℕ → Database → Database
unfolding usage_update usage_insert
increment_usage net ts db =
    let day = day_ordinal ts in
    let updated = usage_update net day db.usage in
    record db {
      usage =
          if count (usage_key net day) db.usage == 0 then usage_insert net day updated else updated;
    }

-- The count of one day, if it was logged.
unfoldable pub usage_on : String → ℕ → List DailyUsage → Option ℕ
usage_on net day rows = elim (find? (usage_key net day) rows) [ none ↦ none | some r ↦ some r.uses ]

-- `row.count if row else 0`
abbrev pub uses_of : Option ℕ → ℕ
uses_of none = 0
uses_of (some n) = n

unfoldable pub usage_today : String → ℕ → Database → ℕ
usage_today net now db = uses_of (usage_on net (day_ordinal now) db.usage)

-- SELECT MAX(count), or 0.
unfoldable pub busiest_day : String → List DailyUsage → ℕ
busiest_day net [] = 0
busiest_day net (r ∷ rs) =
    if str_eq r.net net then max r.uses (busiest_day net rs) else busiest_day net rs

-- The sum over the `n` days that end `back` days before `today`; days before the epoch have no row.
unfoldable pub window_sum : String → ℕ → ℕ → List DailyUsage → ℕ → ℕ
unfolding usage_on
window_sum net today fill rows zero = 0
window_sum net today fill rows (suc n) =
    let here =
      if leb n today
      then elim (usage_on net (today - n) rows) [ none ↦ fill | some c ↦ c ]
      else fill in
    here + window_sum net today fill rows n

-- `(expected_365, historical_max)`.
unfoldable pub usage_stats : String → ℕ → Database → ℕ × ℕ
unfolding busiest_day window_sum
usage_stats net now db =
    let historical_max = busiest_day net db.usage in
    (window_sum net (day_ordinal now) (max historical_max 10) db.usage 365, historical_max)

abbrev pub usage_retention_days : ℕ
usage_retention_days = 365

abbrev pub usage_expired : ℕ → DailyUsage → Bool
usage_expired now r = ltb (r.day + usage_retention_days) (day_ordinal now)

unfoldable pub purge_usage : ℕ → Database → Database × ℕ
purge_usage now db =
    (record db { usage = delete (usage_expired now) db.usage }, count (usage_expired now) db.usage)

-- The insert that the UNIQUE index refuses for a nonce that is there already.
unfoldable pub redeem_nonce : String → String → ℕ → Database → Database × Bool
redeem_nonce net nonce expires_at db =
    let spent = is_some (find? (nonce_key net nonce) db.nonces) in
    let new : RedeemedNonce = record { net = net; nonce = nonce; expires_at = expires_at } in
    (record db { nonces = if spent then db.nonces else db.nonces ++ new ∷ [] }, not spent)

abbrev pub nonce_expired : ℕ → RedeemedNonce → Bool
nonce_expired now r = ltb (r.expires_at * second) now

unfoldable pub purge_redeemed_nonces : ℕ → Database → Database × ℕ
purge_redeemed_nonces now db = (
  record db { nonces = delete (nonce_expired now) db.nonces },
  count (nonce_expired now) db.nonces,
)

unfoldable pub pow_on : String → String → ℕ → List PowDailyClaim → Option ℕ
pow_on net ip_hash day rows = elim (find? (pow_key net ip_hash day) rows) [
  | none ↦ none
  | some r ↦ some r.uses
]

unfoldable pub pow_claims_today : String → String → ℕ → Database → ℕ
pow_claims_today net ip_hash ts db = uses_of (pow_on net ip_hash (day_ordinal ts) db.pow_claims)

abbrev pub bump_pow : PowDailyClaim → PowDailyClaim
bump_pow r = record r { uses = r.uses + 1 }

unfoldable pub record_pow_claim : String → String → ℕ → Database → Database
record_pow_claim net ip_hash ts db =
    let key = pow_key net ip_hash (day_ordinal ts) in
    let updated = update key bump_pow db.pow_claims in
    let new : PowDailyClaim = record {
      net = net;
      ip_hash = ip_hash;
      day = day_ordinal ts;
      uses = 1;
    } in
    record db {
      pow_claims =
          if count key db.pow_claims == 0 then upsert key bump_pow new updated else updated;
    }

abbrev pub pow_expired : ℕ → PowDailyClaim → Bool
pow_expired now r = ltb (r.day + 1) (day_ordinal now)

unfoldable pub purge_pow_claims : ℕ → Database → Database × ℕ
purge_pow_claims now db = (
  record db { pow_claims = delete (pow_expired now) db.pow_claims },
  count (pow_expired now) db.pow_claims,
)

-- `last_run <= when - interval`, with the subtraction moved to the other side.
abbrev pub run_due : ℕ → ℕ → ℕ → Bool
run_due now interval last_run = leb (last_run + interval) now

unfoldable pub claim_maintenance_run : ℕ → ℕ → Database → Database × Bool
claim_maintenance_run now interval db = (
  record db { maintenance = update (run_due now interval) (λ _. now) db.maintenance },
  count (run_due now interval) db.maintenance == 1,
)
