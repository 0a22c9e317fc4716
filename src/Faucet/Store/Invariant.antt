-- ===== src/Faucet/Store/Invariant.antt =====
-- The invariant of the faucet's database: what the UNIQUE indexes and `init_db` establish, for
-- the tables of argus/faucet/store.py.
use bitcoin_argus.Common.{
  ℕ, suc, ◌+◌, ◌≤◌, String, ◌≡◌, refl, ap, inl, inr, Bool, none, List, [], ◌∷◌, ◌++◌, arith, ◌==◌,
  length, if◌then◌else◌, Bool-cases, is_some, All,
}
use bitcoin_argus.Common.Table.{
  find?, count, update, count-upsert_self, count-upsert_ne, count-update, All-update, All-upsert,
}
use bitcoin_argus.Faucet.Clock.{day_ordinal}
use bitcoin_argus.Faucet.Store.{
  Database, IpClaim, DailyUsage, RedeemedNonce, PowDailyClaim, ip_key, usage_key, nonce_key,
  pow_key, record_ip_claim, bump_usage, bump_pow, usage_update, usage_insert, increment_usage,
  redeem_nonce, record_pow_claim,
}
use bitcoin_argus.Faucet.Store.Keys.{
  str_eq_refl, same_ip, same_ip-eq, ip_key-disjoint, same_day, same_day-eq, usage_key-disjoint,
  same_pow, same_pow-eq, pow_key-disjoint,
}

abbrev pub IpUnique : List IpClaim → Type 0
IpUnique rows = (net ip : String) → count (ip_key net ip) rows ≤ 1

abbrev pub UsageUnique : List DailyUsage → Type 0
UsageUnique rows = (net : String) (day : ℕ) → count (usage_key net day) rows ≤ 1

abbrev pub NonceUnique : List RedeemedNonce → Type 0
NonceUnique rows = (net nonce : String) → count (nonce_key net nonce) rows ≤ 1

abbrev pub PowUnique : List PowDailyClaim → Type 0
PowUnique rows = (net ip : String) (day : ℕ) → count (pow_key net ip day) rows ≤ 1

-- No key is stored twice, a counting row counts at least one use, and there is one maintenance row.
pub record IsValid (db : Database) : Type 0 where
  pub ip_unique : IpUnique db.ip_claims
  pub usage_unique : UsageUnique db.usage
  pub usage_positive : All (λ r. 1 ≤ r.uses) db.usage
  pub nonce_unique : NonceUnique db.nonces
  pub pow_unique : PowUnique db.pow_claims
  pub pow_positive : All (λ r. 1 ≤ r.uses) db.pow_claims
  pub one_row : length db.maintenance ≡ 1

pub record_ip_claim_unique :
    (net ip : String) (ts : ℕ) (db : Database)
    → IpUnique db.ip_claims
    → IpUnique (record_ip_claim net ip ts db).ip_claims
unfolding record_ip_claim
record_ip_claim_unique net ip ts db h net' ip' = elim (Bool-cases (same_ip net ip net' ip')) [
  | inl e ↦
      let (p, q) = same_ip-eq net ip net' ip' e in
      rw (← p, ← q)
        (omega (
          arith,
          count-upsert_self (ip_key net ip) (λ r. record r { last_claim_at = ts })
              (record { net = net; ip_hash = ip; last_claim_at = ts }) db.ip_claims
              (ground (arith, str_eq_refl net, str_eq_refl ip)) (λ r. refl),
          h net ip,
        ))
  | inr d ↦
      rw
        (count-upsert_ne (ip_key net ip) (λ r. record r { last_claim_at = ts }) (ip_key net' ip')
          (record { net = net; ip_hash = ip; last_claim_at = ts }) db.ip_claims d
          (λ r. ip_key-disjoint net ip net' ip' r d) (λ r. ip_key-disjoint net ip net' ip' r d))
        (h net' ip')
]

usage_insert_unique :
    (net : String) (day : ℕ) (rows : List DailyUsage)
    → UsageUnique rows
    → UsageUnique (usage_insert net day rows)
unfolding usage_insert
usage_insert_unique net day rows h net' day' =
    let new : DailyUsage = record { net = net; day = day; uses = 1 } in
    elim (Bool-cases (same_day net day net' day')) [
      | inl e ↦
          let (p, q) = same_day-eq net day net' day' e in
          rw (← p, ← q)
            (omega (
              arith,
              count-upsert_self (usage_key net day) bump_usage new rows
                  (ground (arith, str_eq_refl net)) (λ r. refl),
              h net day,
            ))
      | inr d ↦
          rw
            (count-upsert_ne (usage_key net day) bump_usage (usage_key net' day') new rows d
              (λ r. usage_key-disjoint net day net' day' r d)
              (λ r. usage_key-disjoint net day net' day' r d))
            (h net' day')
    ]

pub increment_unique :
    (net : String) (ts : ℕ) (db : Database)
    → UsageUnique db.usage
    → UsageUnique (increment_usage net ts db).usage
unfolding increment_usage usage_update
increment_unique net ts db h =
    let day = day_ordinal ts in
    let key = usage_key net day in
    let updated : UsageUnique (update key bump_usage db.usage) = λ net' day'.
      rw (count-update key (usage_key net' day') bump_usage db.usage (λ r. refl)) (h net' day') in
    elim (Bool-cases (count key db.usage == 0)) [
      | inl e ↦ rw e (usage_insert_unique net day (update key bump_usage db.usage) updated)
      | inr e ↦ rw e updated
    ]

pub increment-positive :
    (net : String) (ts : ℕ) (db : Database)
    → All (λ r. 1 ≤ r.uses) db.usage
    → All (λ r. 1 ≤ r.uses) (increment_usage net ts db).usage
unfolding increment_usage usage_update usage_insert
increment-positive net ts db h =
    let day = day_ordinal ts in
    let key = usage_key net day in
    let updated =
      All-update (λ (r : DailyUsage). 1 ≤ r.uses) key bump_usage db.usage (λ r q. omega arith) h in
    elim (Bool-cases (count key db.usage == 0)) [
      | inl e ↦ rw e (
          All-upsert (λ (r : DailyUsage). 1 ≤ r.uses) key bump_usage
            (record { net = net; day = day; uses = 1 }) (update key bump_usage db.usage)
            (λ r q. omega arith) (omega arith) updated)
      | inr e ↦ rw e updated
    ]

pub record_pow_claim_unique :
    (net ip : String) (ts : ℕ) (db : Database)
    → PowUnique db.pow_claims
    → PowUnique (record_pow_claim net ip ts db).pow_claims
unfolding record_pow_claim
record_pow_claim_unique net ip ts db h =
    let day = day_ordinal ts in
    let key = pow_key net ip day in
    let new : PowDailyClaim = record { net = net; ip_hash = ip; day = day; uses = 1 } in
    let updated : PowUnique (update key bump_pow db.pow_claims) = λ net' ip' day'.
      rw (count-update key (pow_key net' ip' day') bump_pow db.pow_claims (λ r. refl))
        (h net' ip' day') in
    elim (Bool-cases (count key db.pow_claims == 0)) [
      | inl e ↦ rw e λ net' ip' day'. elim (Bool-cases (same_pow net ip day net' ip' day')) [
        | inl s ↦
            let (p, q, t) = same_pow-eq net ip day net' ip' day' s in
            rw (← p, ← q, ← t)
              (omega (
                arith,
                count-upsert_self key bump_pow new (update key bump_pow db.pow_claims)
                    (ground (arith, str_eq_refl net, str_eq_refl ip)) (λ r. refl),
                updated net ip day,
              ))
        | inr d ↦
            rw
              (count-upsert_ne key bump_pow (pow_key net' ip' day') new
                (update key bump_pow db.pow_claims) d
                (λ r. pow_key-disjoint net ip day net' ip' day' r d)
                (λ r. pow_key-disjoint net ip day net' ip' day' r d))
              (updated net' ip' day')
      ]
      | inr e ↦ rw e updated
    ]

pub record_pow-positive :
    (net ip : String) (ts : ℕ) (db : Database)
    → All (λ r. 1 ≤ r.uses) db.pow_claims
    → All (λ r. 1 ≤ r.uses) (record_pow_claim net ip ts db).pow_claims
unfolding record_pow_claim
record_pow-positive net ip ts db h =
    let day = day_ordinal ts in
    let key = pow_key net ip day in
    let updated =
      All-update (λ (r : PowDailyClaim). 1 ≤ r.uses) key bump_pow db.pow_claims (λ r q. omega arith)
        h in
    elim (Bool-cases (count key db.pow_claims == 0)) [
      | inl e ↦ rw e (
          All-upsert (λ (r : PowDailyClaim). 1 ≤ r.uses) key bump_pow
            (record { net = net; ip_hash = ip; day = day; uses = 1 })
            (update key bump_pow db.pow_claims) (λ r q. omega arith) (omega arith) updated)
      | inr e ↦ rw e updated
    ]

count-snoc :
    {R : Type 0} (p : R → Bool) (rs : List R) (new : R)
    → count p (rs ++ new ∷ []) ≡ count p rs + (if p new then 1 else 0)
count-snoc p [] new = ground arith
count-snoc p (r ∷ rs) new = ground (arith, count-snoc p rs new)

count-find_none : {R : Type 0} (p : R → Bool) (rs : List R) → find? p rs ≡ none → count p rs ≡ 0
count-find_none p [] h = refl
count-find_none p (r ∷ rs) h = ground (arith, count-find_none p rs)

pub redeem_nonce_unique :
    (net nonce : String) (expires : ℕ) (db : Database)
    → NonceUnique db.nonces
    → NonceUnique (redeem_nonce net nonce expires db).0.nonces
unfolding redeem_nonce
redeem_nonce_unique net nonce expires db h net' nonce' =
    let new : RedeemedNonce = record { net = net; nonce = nonce; expires_at = expires } in
    elim (Bool-cases (is_some (find? (nonce_key net nonce) db.nonces))) [
      | inl e ↦ rw e (h net' nonce')
      | inr e ↦ elim (Bool-cases (same_ip net nonce net' nonce')) [
        | inl s ↦
            let (p, q) = same_ip-eq net nonce net' nonce' s in
            rw (e, ← p, ← q, count-snoc (nonce_key net nonce) db.nonces new)
              (ground (arith, count-find_none (nonce_key net nonce) db.nonces))
        | inr d ↦
            rw (e, count-snoc (nonce_key net' nonce') db.nonces new) (ground (arith, h net' nonce'))
      ]
    ]

pub length-update :
    {R : Type 0} (p : R → Bool) (f : R → R) (rs : List R) → length (update p f rs) ≡ length rs
length-update p f [] = refl
length-update p f (r ∷ rs) = ap suc (length-update p f rs)
