-- ===== src/Faucet/Store/Claims.antt =====
-- The last free claim of an address (argus/faucet/store.py) through the operations on the database.
use bitcoin_argus.Common.{
  ℕ, ◌+◌, ◌≤◌, ◌<◌, String, ◌≡◌, ◌∙◌, Bool, false, some, List, [], ◌∷◌, arith, All, inl, inr,
  Bool-cases, Option-cases,
}
use bitcoin_argus.Common.Table.{find?, delete}
use bitcoin_argus.Faucet.Clock.{day_ticks}
use bitcoin_argus.Faucet.Store
use bitcoin_argus.Faucet.Store.{Database, IpClaim, ip_key, ip_expired, last_ip_claim}
use bitcoin_argus.Faucet.Store.Keys.{same_ip, last_ip_claim-record}
use bitcoin_argus.Faucet.Store.Operations.{
  Operation, apply, apply_all, record_payout, record_ip_claim, record_pow_claim, increment_usage,
  redeem_nonce, purge, purge_ip_claims, purge_usage, purge_redeemed_nonces, purge_pow_claims,
  claim_maintenance_run,
}

find?-delete_kept :
    {R : Type 0} (p q : R → Bool) (rs : List R) {r : R}
    → find? q rs ≡ some r
    → p r ≡ false
    → find? q (delete p rs) ≡ some r
find?-delete_kept p q [] e k = cc
find?-delete_kept p q (x ∷ rs) {r} e k = elim (Bool-cases (q x)) [
  | inl t ↦ let same : x ≡ r = ground arith in ground arith
  | inr f ↦ ground (arith, find?-delete_kept p q rs {r = r})
]

-- The claims and the purges of claims that an operation makes are dated between `since` and `now`: the
-- claims at `since` or later, and the purges at `now` or before.
abbrev pub Timely : ℕ → ℕ → Operation → Type 0
Timely since now (record_ip_claim net ip ts) = since ≤ ts
Timely since now (purge_ip_claims t) = t ≤ now
Timely since now _ = Unit

-- The address has claimed at `since` or later.
abbrev pub HasClaimed : String → String → ℕ → Database → Type 0
HasClaimed net ip since db = (t : ℕ) × (last_ip_claim net ip db ≡ some t) × (since ≤ t)

module _ (net ip : String) (since now : ℕ) (soon : now < since + day_ticks) where
  last_ip_claim-purge :
      (t last : ℕ) (db : Database)
      → t ≤ now
      → since ≤ last
      → last_ip_claim net ip db ≡ some last
      → last_ip_claim net ip (Store.purge_ip_claims t db).0 ≡ some last
  unfolding last_ip_claim Store.purge_ip_claims
  last_ip_claim-purge t last db early late h =
      elim (Option-cases (find? (ip_key net ip) db.ip_claims)) [
        | inl e ↦ absurd (ground arith)
        | inr (r, e) ↦
            let same : r.last_claim_at ≡ last = ground arith in
            let kept : ip_expired t r ≡ false = ground arith in
            ground (arith, find?-delete_kept (ip_expired t) (ip_key net ip) db.ip_claims e kept)
      ]

  apply-HasClaimed :
      (op : Operation) (db : Database)
      → Timely since now op
      → HasClaimed net ip since db
      → HasClaimed net ip since (apply op db)
  unfolding apply last_ip_claim Store.record_payout Store.record_pow_claim Store.increment_usage
      Store.redeem_nonce Store.purge Store.purge_usage Store.purge_redeemed_nonces
      Store.purge_pow_claims Store.claim_maintenance_run
  apply-HasClaimed (record_payout n t a ad ts) db b h = h
  apply-HasClaimed (record_ip_claim n i ts) db b (t, e, l) =
      let read = last_ip_claim-record n i net ip ts db in
      elim (Bool-cases (same_ip n i net ip)) [
        | inl s ↦ (ts, read ∙ rw (s), b)
        | inr s ↦ (t, read ∙ rw (s) e, l)
      ]
  apply-HasClaimed (record_pow_claim n i ts) db b h = h
  apply-HasClaimed (increment_usage n ts) db b h = h
  apply-HasClaimed (redeem_nonce n k e) db b h = h
  apply-HasClaimed (purge n) db b h = h
  apply-HasClaimed (purge_ip_claims t) db b (last, e, l) =
      (last, last_ip_claim-purge t last db b l e, l)
  apply-HasClaimed (purge_usage t) db b h = h
  apply-HasClaimed (purge_redeemed_nonces t) db b h = h
  apply-HasClaimed (purge_pow_claims t) db b h = h
  apply-HasClaimed (claim_maintenance_run t i) db b h = h

  -- An address that claimed at `since` or later still has such a claim after all operations whose
  -- claims are not earlier and whose purges are not later than `now`, within a day of `since`.
  pub apply_all-HasClaimed :
      (ops : List Operation) (db : Database)
      → All (Timely since now) ops
      → HasClaimed net ip since db
      → HasClaimed net ip since (apply_all ops db)
  unfolding apply_all
  apply_all-HasClaimed [] db b h = h
  apply_all-HasClaimed (op ∷ ops) db b h =
      apply_all-HasClaimed ops (apply op db) b.1 (apply-HasClaimed op db b.0 h)
