-- ===== src/Faucet/Store/Keys.antt =====
-- Reads after writes of the keyed tables of argus/faucet/store.py, for the written key and the others.
use bitcoin_argus.Common.{
  ℕ, ◌+◌, String, ◌≡◌, refl, inl, inr, Bool, true, false, ◌&&◌, some, List, arith, ◌==◌,
  if◌then◌else◌, Bool-cases, str_eq, str_eq_iff,
}
use bitcoin_argus.Common.Table.{
  count, find?-upsert_self, find?-upsert_ne, find?-update_self, find?-update_ne, find?-ne_none,
  update_absent,
}
use bitcoin_argus.Faucet.Store.{
  Database, IpClaim, DailyUsage, PowDailyClaim, RedeemedNonce, ip_key, usage_key, pow_key,
  nonce_key, bump_usage, usage_update, usage_insert, usage_on, uses_of, record_ip_claim,
  last_ip_claim,
}

pub str_eq_refl : (s : String) → str_eq s s ≡ true
str_eq_refl s = (str_eq_iff s s).1 refl

pub ==_refl : (n : ℕ) → (n == n) ≡ true
==_refl n = ground arith

abbrev pub same_ip : String → String → String → String → Bool
same_ip net ip net' ip' = str_eq net net' && str_eq ip ip'

pub ip_key-disjoint :
    (net ip net' ip' : String) (r : IpClaim)
    → same_ip net ip net' ip' ≡ false
    → ip_key net ip r ≡ true
    → ip_key net' ip' r ≡ false
ip_key-disjoint net ip net' ip' r d h = ground (
  arith,
  str_eq_iff r.net net,
  str_eq_iff r.ip_hash ip,
  str_eq_iff r.net net',
  str_eq_iff r.ip_hash ip',
  str_eq_iff net net',
  str_eq_iff ip ip',
)

pub same_ip-eq :
    (net ip net' ip' : String) → same_ip net ip net' ip' ≡ true → (net ≡ net') × (ip ≡ ip')
same_ip-eq net ip net' ip' h = ground (arith, str_eq_iff net net', str_eq_iff ip ip')

last_ip_claim-record_self :
    (net ip : String) (ts : ℕ) (db : Database)
    → last_ip_claim net ip (record_ip_claim net ip ts db) ≡ some ts
unfolding last_ip_claim record_ip_claim
last_ip_claim-record_self net ip ts db = ground (
  arith,
  find?-upsert_self (ip_key net ip) (λ r. record r { last_claim_at = ts })
      (record { net = net; ip_hash = ip; last_claim_at = ts }) db.ip_claims
      (ground (arith, str_eq_refl net, str_eq_refl ip)) (λ r. refl),
)

last_ip_claim-record_ne :
    (net ip net' ip' : String) (ts : ℕ) (db : Database)
    → same_ip net ip net' ip' ≡ false
    → last_ip_claim net' ip' (record_ip_claim net ip ts db) ≡ last_ip_claim net' ip' db
unfolding last_ip_claim record_ip_claim
last_ip_claim-record_ne net ip net' ip' ts db d = rw (
  find?-upsert_ne (ip_key net ip) (λ r. record r { last_claim_at = ts }) (ip_key net' ip')
      (record { net = net; ip_hash = ip; last_claim_at = ts }) db.ip_claims d
      (λ r. ip_key-disjoint net ip net' ip' r d) (λ r. ip_key-disjoint net ip net' ip' r d),
  last_ip_claim,
)

pub last_ip_claim-record :
    (net ip net' ip' : String) (ts : ℕ) (db : Database)
    → last_ip_claim net' ip' (record_ip_claim net ip ts db)
      ≡ (if same_ip net ip net' ip' then some ts else last_ip_claim net' ip' db)
last_ip_claim-record net ip net' ip' ts db = elim (Bool-cases (same_ip net ip net' ip')) [
  | inl e ↦
      let (p, q) = same_ip-eq net ip net' ip' e in
      rw (e, ← p, ← q) (last_ip_claim-record_self net ip ts db)
  | inr e ↦ rw e (last_ip_claim-record_ne net ip net' ip' ts db e)
]

abbrev pub same_day : String → ℕ → String → ℕ → Bool
same_day net day net' day' = str_eq net net' && (day == day')

pub usage_key-disjoint :
    (net : String) (day : ℕ) (net' : String) (day' : ℕ) (r : DailyUsage)
    → same_day net day net' day' ≡ false
    → usage_key net day r ≡ true
    → usage_key net' day' r ≡ false
usage_key-disjoint net day net' day' r d h =
    ground (arith, str_eq_iff r.net net, str_eq_iff r.net net', str_eq_iff net net')

pub same_day-eq :
    (net : String) (day : ℕ) (net' : String) (day' : ℕ)
    → same_day net day net' day' ≡ true
    → (net ≡ net') × (day ≡ day')
same_day-eq net day net' day' h = ground (arith, str_eq_iff net net')

module _ (net : String) (day : ℕ) (rows : List DailyUsage) where
  abbrev fresh_day : DailyUsage
  fresh_day = record { net = net; day = day; uses = 1 }

  -- The insert counts one use of the day, whether or not a row was there.
  pub uses-insert_self :
      uses_of (usage_on net day (usage_insert net day rows)) ≡ uses_of (usage_on net day rows) + 1
  unfolding usage_on usage_insert
  uses-insert_self = ground (
    arith,
    find?-upsert_self (usage_key net day) bump_usage fresh_day rows
        (ground (arith, str_eq_refl net)) (λ r. refl),
  )

  -- The update counts one use of a day that has a row.
  pub uses-update_self :
      ¬ (count (usage_key net day) rows ≡ 0)
      → uses_of (usage_on net day (usage_update net day rows)) ≡ uses_of (usage_on net day rows) + 1
  unfolding usage_on usage_update
  uses-update_self h = ground (
    arith,
    find?-update_self (usage_key net day) bump_usage rows (λ r. refl),
    find?-ne_none (usage_key net day) rows h,
  )

  pub usage_update_absent : count (usage_key net day) rows ≡ 0 → usage_update net day rows ≡ rows
  unfolding usage_update
  usage_update_absent h = update_absent (usage_key net day) bump_usage rows h

  module _ (net' : String) (day' : ℕ) (d : same_day net day net' day' ≡ false) where
    pub usage_on-insert_ne :
        usage_on net' day' (usage_insert net day rows) ≡ usage_on net' day' rows
    unfolding usage_on usage_insert
    usage_on-insert_ne = rw (
      find?-upsert_ne (usage_key net day) bump_usage (usage_key net' day') fresh_day rows d
          (λ r. usage_key-disjoint net day net' day' r d)
          (λ r. usage_key-disjoint net day net' day' r d),
      usage_on,
    )

    pub usage_on-update_ne :
        usage_on net' day' (usage_update net day rows) ≡ usage_on net' day' rows
    unfolding usage_on usage_update
    usage_on-update_ne = rw (
      find?-update_ne (usage_key net day) bump_usage (usage_key net' day') rows
          (λ r. usage_key-disjoint net day net' day' r d)
          (λ r. usage_key-disjoint net day net' day' r d),
      usage_on,
    )

abbrev pub same_pow : String → String → ℕ → String → String → ℕ → Bool
same_pow net ip day net' ip' day' = str_eq net net' && (str_eq ip ip' && (day == day'))

pub pow_key-disjoint :
    (net ip : String) (day : ℕ) (net' ip' : String) (day' : ℕ) (r : PowDailyClaim)
    → same_pow net ip day net' ip' day' ≡ false
    → pow_key net ip day r ≡ true
    → pow_key net' ip' day' r ≡ false
pow_key-disjoint net ip day net' ip' day' r d h = ground (
  arith,
  str_eq_iff r.net net,
  str_eq_iff r.ip_hash ip,
  str_eq_iff r.net net',
  str_eq_iff r.ip_hash ip',
  str_eq_iff net net',
  str_eq_iff ip ip',
)

pub same_pow-eq :
    (net ip : String) (day : ℕ) (net' ip' : String) (day' : ℕ)
    → same_pow net ip day net' ip' day' ≡ true
    → (net ≡ net') × (ip ≡ ip') × (day ≡ day')
same_pow-eq net ip day net' ip' day' h = ground (arith, str_eq_iff net net', str_eq_iff ip ip')

pub nonce_key-disjoint :
    (net nonce net' nonce' : String) (r : RedeemedNonce)
    → same_ip net nonce net' nonce' ≡ false
    → nonce_key net nonce r ≡ true
    → nonce_key net' nonce' r ≡ false
nonce_key-disjoint net nonce net' nonce' r d h = ground (
  arith,
  str_eq_iff r.net net,
  str_eq_iff r.nonce nonce,
  str_eq_iff r.net net',
  str_eq_iff r.nonce nonce',
  str_eq_iff net net',
  str_eq_iff nonce nonce',
)
