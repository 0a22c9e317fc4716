-- ===== src/Faucet/Store/Operations.antt =====
-- The operations of argus/faucet/store.py that write, as data, and the invariant.
use bitcoin_argus.Common.{ℕ, ◌≤◌, String, refl, List, [], ◌∷◌, arith}
use bitcoin_argus.Common.Table.{count-delete-le, All-delete}
use bitcoin_argus.Faucet.Store
use bitcoin_argus.Faucet.Store.{
  Database, init_db, empty_database, DailyUsage, PowDailyClaim, ip_key, usage_key, nonce_key,
  pow_key, ip_expired, usage_expired, nonce_expired, pow_expired, run_due,
}
use bitcoin_argus.Faucet.Store.Invariant.{
  IsValid, record_ip_claim_unique, increment_unique, increment-positive, record_pow_claim_unique,
  record_pow-positive, redeem_nonce_unique, length-update,
}

pub data Operation : Type 0 where
  record_payout : String → String → ℕ → String → ℕ → Operation
  record_ip_claim record_pow_claim : String → String → ℕ → Operation
  increment_usage : String → ℕ → Operation
  redeem_nonce : String → String → ℕ → Operation
  purge : String → Operation
  purge_ip_claims purge_usage purge_redeemed_nonces purge_pow_claims : ℕ → Operation
  claim_maintenance_run : ℕ → ℕ → Operation

-- The database after an operation.
unfoldable pub apply : Operation → Database → Database
apply (record_payout net txid amount address ts) db =
    Store.record_payout net txid amount address ts db
apply (record_ip_claim net ip ts) db = Store.record_ip_claim net ip ts db
apply (record_pow_claim net ip ts) db = Store.record_pow_claim net ip ts db
apply (increment_usage net ts) db = Store.increment_usage net ts db
apply (redeem_nonce net nonce expires) db = (Store.redeem_nonce net nonce expires db).0
apply (purge net) db = (Store.purge net db).0
apply (purge_ip_claims now) db = (Store.purge_ip_claims now db).0
apply (purge_usage now) db = (Store.purge_usage now db).0
apply (purge_redeemed_nonces now) db = (Store.purge_redeemed_nonces now db).0
apply (purge_pow_claims now) db = (Store.purge_pow_claims now db).0
apply (claim_maintenance_run now interval) db = (Store.claim_maintenance_run now interval db).0

unfoldable pub apply_all : List Operation → Database → Database
apply_all [] db = db
apply_all (op ∷ ops) db = apply_all ops (apply op db)

record_payout-IsValid :
    (net txid : String) (amount : ℕ) (address : String) (ts : ℕ) {db : Database}
    → IsValid db
    → IsValid (apply (record_payout net txid amount address ts) db)
unfolding apply Store.record_payout
record_payout-IsValid net txid amount address ts {db} v = record {
  ip_unique = v.ip_unique;
  usage_unique = v.usage_unique;
  usage_positive = v.usage_positive;
  nonce_unique = v.nonce_unique;
  pow_unique = v.pow_unique;
  pow_positive = v.pow_positive;
  one_row = v.one_row;
}

record_ip_claim-IsValid :
    (net ip : String) (ts : ℕ) {db : Database}
    → IsValid db
    → IsValid (apply (record_ip_claim net ip ts) db)
unfolding apply Store.record_ip_claim
record_ip_claim-IsValid net ip ts {db} v = record {
  ip_unique = record_ip_claim_unique net ip ts db v.ip_unique;
  usage_unique = v.usage_unique;
  usage_positive = v.usage_positive;
  nonce_unique = v.nonce_unique;
  pow_unique = v.pow_unique;
  pow_positive = v.pow_positive;
  one_row = v.one_row;
}

record_pow_claim-IsValid :
    (net ip : String) (ts : ℕ) {db : Database}
    → IsValid db
    → IsValid (apply (record_pow_claim net ip ts) db)
unfolding apply Store.record_pow_claim
record_pow_claim-IsValid net ip ts {db} v = record {
  ip_unique = v.ip_unique;
  usage_unique = v.usage_unique;
  usage_positive = v.usage_positive;
  nonce_unique = v.nonce_unique;
  pow_unique = record_pow_claim_unique net ip ts db v.pow_unique;
  pow_positive = record_pow-positive net ip ts db v.pow_positive;
  one_row = v.one_row;
}

increment_usage-IsValid :
    (net : String) (ts : ℕ) {db : Database}
    → IsValid db
    → IsValid (apply (increment_usage net ts) db)
unfolding apply Store.increment_usage
increment_usage-IsValid net ts {db} v = record {
  ip_unique = v.ip_unique;
  usage_unique = increment_unique net ts db v.usage_unique;
  usage_positive = increment-positive net ts db v.usage_positive;
  nonce_unique = v.nonce_unique;
  pow_unique = v.pow_unique;
  pow_positive = v.pow_positive;
  one_row = v.one_row;
}

redeem_nonce-IsValid :
    (net nonce : String) (expires : ℕ) {db : Database}
    → IsValid db
    → IsValid (apply (redeem_nonce net nonce expires) db)
unfolding apply Store.redeem_nonce
redeem_nonce-IsValid net nonce expires {db} v = record {
  ip_unique = v.ip_unique;
  usage_unique = v.usage_unique;
  usage_positive = v.usage_positive;
  nonce_unique = redeem_nonce_unique net nonce expires db v.nonce_unique;
  pow_unique = v.pow_unique;
  pow_positive = v.pow_positive;
  one_row = v.one_row;
}

purge-IsValid : (net : String) {db : Database} → IsValid db → IsValid (apply (purge net) db)
unfolding apply Store.purge
purge-IsValid net {db} v = record {
  ip_unique = v.ip_unique;
  usage_unique = v.usage_unique;
  usage_positive = v.usage_positive;
  nonce_unique = v.nonce_unique;
  pow_unique = v.pow_unique;
  pow_positive = v.pow_positive;
  one_row = v.one_row;
}

purge_ip_claims-IsValid :
    (now : ℕ) {db : Database} → IsValid db → IsValid (apply (purge_ip_claims now) db)
unfolding apply Store.purge_ip_claims
purge_ip_claims-IsValid now {db} v = record {
  ip_unique = λ net ip.
      omega
        (arith, count-delete-le (ip_expired now) (ip_key net ip) db.ip_claims, v.ip_unique net ip);
  usage_unique = v.usage_unique;
  usage_positive = v.usage_positive;
  nonce_unique = v.nonce_unique;
  pow_unique = v.pow_unique;
  pow_positive = v.pow_positive;
  one_row = v.one_row;
}

purge_usage-IsValid : (now : ℕ) {db : Database} → IsValid db → IsValid (apply (purge_usage now) db)
unfolding apply Store.purge_usage
purge_usage-IsValid now {db} v = record {
  ip_unique = v.ip_unique;
  usage_unique = λ net day. omega (
    arith,
    count-delete-le (usage_expired now) (usage_key net day) db.usage,
    v.usage_unique net day,
  );
  usage_positive =
      All-delete (λ (r : DailyUsage). 1 ≤ r.uses) (usage_expired now) db.usage v.usage_positive;
  nonce_unique = v.nonce_unique;
  pow_unique = v.pow_unique;
  pow_positive = v.pow_positive;
  one_row = v.one_row;
}

purge_redeemed_nonces-IsValid :
    (now : ℕ) {db : Database} → IsValid db → IsValid (apply (purge_redeemed_nonces now) db)
unfolding apply Store.purge_redeemed_nonces
purge_redeemed_nonces-IsValid now {db} v = record {
  ip_unique = v.ip_unique;
  usage_unique = v.usage_unique;
  usage_positive = v.usage_positive;
  nonce_unique = λ net nonce. omega (
    arith,
    count-delete-le (nonce_expired now) (nonce_key net nonce) db.nonces,
    v.nonce_unique net nonce,
  );
  pow_unique = v.pow_unique;
  pow_positive = v.pow_positive;
  one_row = v.one_row;
}

purge_pow_claims-IsValid :
    (now : ℕ) {db : Database} → IsValid db → IsValid (apply (purge_pow_claims now) db)
unfolding apply Store.purge_pow_claims
purge_pow_claims-IsValid now {db} v = record {
  ip_unique = v.ip_unique;
  usage_unique = v.usage_unique;
  usage_positive = v.usage_positive;
  nonce_unique = v.nonce_unique;
  pow_unique = λ net ip day. omega (
    arith,
    count-delete-le (pow_expired now) (pow_key net ip day) db.pow_claims,
    v.pow_unique net ip day,
  );
  pow_positive =
      All-delete (λ (r : PowDailyClaim). 1 ≤ r.uses) (pow_expired now) db.pow_claims v.pow_positive;
  one_row = v.one_row;
}

claim_maintenance_run-IsValid :
    (now interval : ℕ) {db : Database}
    → IsValid db
    → IsValid (apply (claim_maintenance_run now interval) db)
unfolding apply Store.claim_maintenance_run
claim_maintenance_run-IsValid now interval {db} v = record {
  ip_unique = v.ip_unique;
  usage_unique = v.usage_unique;
  usage_positive = v.usage_positive;
  nonce_unique = v.nonce_unique;
  pow_unique = v.pow_unique;
  pow_positive = v.pow_positive;
  one_row =
      omega (arith, length-update (run_due now interval) (λ _. now) db.maintenance, v.one_row);
}

-- Every operation keeps the invariant.
pub apply-IsValid : (op : Operation) {db : Database} → IsValid db → IsValid (apply op db)
apply-IsValid (record_payout net txid amount address ts) v =
    record_payout-IsValid net txid amount address ts v
apply-IsValid (record_ip_claim net ip ts) v = record_ip_claim-IsValid net ip ts v
apply-IsValid (record_pow_claim net ip ts) v = record_pow_claim-IsValid net ip ts v
apply-IsValid (increment_usage net ts) v = increment_usage-IsValid net ts v
apply-IsValid (redeem_nonce net nonce expires) v = redeem_nonce-IsValid net nonce expires v
apply-IsValid (purge net) v = purge-IsValid net v
apply-IsValid (purge_ip_claims now) v = purge_ip_claims-IsValid now v
apply-IsValid (purge_usage now) v = purge_usage-IsValid now v
apply-IsValid (purge_redeemed_nonces now) v = purge_redeemed_nonces-IsValid now v
apply-IsValid (purge_pow_claims now) v = purge_pow_claims-IsValid now v
apply-IsValid (claim_maintenance_run now interval) v = claim_maintenance_run-IsValid now interval v

init_db-IsValid : IsValid (init_db empty_database)
unfolding init_db
init_db-IsValid = record {
  ip_unique = λ net ip. omega arith;
  usage_unique = λ net day. omega arith;
  usage_positive = tt;
  nonce_unique = λ net nonce. omega arith;
  pow_unique = λ net ip day. omega arith;
  pow_positive = tt;
  one_row = refl;
}

run-IsValid : (ops : List Operation) (db : Database) → IsValid db → IsValid (apply_all ops db)
unfolding apply_all
run-IsValid [] db v = v
run-IsValid (op ∷ ops) db v = run-IsValid ops (apply op db) (apply-IsValid op v)

-- After any sequence of operations on the database that `init_db` sets up, no table holds a key
-- twice, every counting row counts at least one use, and there is one maintenance row.
pub apply_all-IsValid : (ops : List Operation) → IsValid (apply_all ops (init_db empty_database))
apply_all-IsValid ops = run-IsValid ops (init_db empty_database) init_db-IsValid
