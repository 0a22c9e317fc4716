-- ===== src/Faucet/Store/Redemption.antt =====
-- The spent nonces of argus/faucet/store.py through the operations on the database.
use bitcoin_argus.Common.{
  ℕ, ◌*◌, ◌≤◌, String, ◌≡◌, Bool, true, false, List, [], ◌∷◌, ◌++◌, ◌&&◌, arith, leb, is_some, All,
  str_eq_iff,
}
use bitcoin_argus.Common.Table.{find?, find?-delete_ne}
use bitcoin_argus.Faucet.Clock.{second}
use bitcoin_argus.Faucet.Store
use bitcoin_argus.Faucet.Store.{Database, RedeemedNonce, nonce_key, nonce_expired}
use bitcoin_argus.Faucet.Store.Operations.{
  Operation, apply, apply_all, record_payout, record_ip_claim, record_pow_claim, increment_usage,
  redeem_nonce, purge, purge_ip_claims, purge_usage, purge_redeemed_nonces, purge_pow_claims,
  claim_maintenance_run,
}

-- The rows of a nonce that live until `expires`, at least.
abbrev held_key : String → String → ℕ → RedeemedNonce → Bool
held_key net nonce expires r = nonce_key net nonce r && leb expires r.expires_at

-- The nonce is spent, and the row that says so lives until `expires`, at least.
unfoldable pub is_held : String → String → ℕ → Database → Bool
is_held net nonce expires db = is_some (find? (held_key net nonce expires) db.nonces)

find?-append_last :
    {R : Type 0} (p : R → Bool) (rs : List R) (x : R)
    → p x ≡ true
    → is_some (find? p (rs ++ x ∷ [])) ≡ true
find?-append_last p [] x h = ground arith
find?-append_last p (r ∷ rs) x h = ground (arith, find?-append_last p rs x h)

find?-append :
    {R : Type 0} (p : R → Bool) (rs : List R) (x : R)
    → is_some (find? p rs) ≡ true
    → is_some (find? p (rs ++ x ∷ [])) ≡ true
find?-append p [] x h = cc
find?-append p (r ∷ rs) x h = ground (arith, find?-append p rs x)

find?-weaken :
    {R : Type 0} (p q : R → Bool) (rs : List R)
    → ((r : R) → p r ≡ true → q r ≡ true)
    → is_some (find? p rs) ≡ true
    → is_some (find? q rs) ≡ true
find?-weaken p q [] i h = h
find?-weaken p q (r ∷ rs) i h = ground (arith, find?-weaken p q rs i, i r)

-- What was redeemed is held.
pub redeem_nonce-is_held :
    (net nonce : String) (expires : ℕ) (db : Database)
    → (Store.redeem_nonce net nonce expires db).1 ≡ true
    → is_held net nonce expires (Store.redeem_nonce net nonce expires db).0 ≡ true
unfolding is_held Store.redeem_nonce
redeem_nonce-is_held net nonce expires db h =
    let new : RedeemedNonce = record { net = net; nonce = nonce; expires_at = expires } in
    ground (
      arith,
      str_eq_iff net net,
      str_eq_iff nonce nonce,
      find?-append_last (held_key net nonce expires) db.nonces new,
    )

-- What is held is not redeemed again.
pub is_held-redeem_nonce :
    (net nonce : String) (expires expires' : ℕ) (db : Database)
    → is_held net nonce expires db ≡ true
    → (Store.redeem_nonce net nonce expires' db).1 ≡ false
unfolding is_held Store.redeem_nonce
is_held-redeem_nonce net nonce expires expires' db h = ground (
  arith,
  find?-weaken (held_key net nonce expires) (nonce_key net nonce) db.nonces (λ r k. ground arith) h,
)

-- The purges of nonces among the operations are at `now` or before.
abbrev pub Before : ℕ → Operation → Type 0
Before now (purge_redeemed_nonces t) = t ≤ now
Before now _ = Unit

module _ (net nonce : String) (expires now : ℕ) (alive : now ≤ expires * second) where
  pub apply-is_held :
      (op : Operation) (db : Database)
      → Before now op
      → is_held net nonce expires db ≡ true
      → is_held net nonce expires (apply op db) ≡ true
  unfolding is_held apply Store.record_payout Store.record_ip_claim Store.record_pow_claim
      Store.increment_usage Store.redeem_nonce Store.purge Store.purge_ip_claims Store.purge_usage
      Store.purge_redeemed_nonces Store.purge_pow_claims Store.claim_maintenance_run
  apply-is_held (record_payout n t a ad ts) db b h = h
  apply-is_held (record_ip_claim n i ts) db b h = h
  apply-is_held (record_pow_claim n i ts) db b h = h
  apply-is_held (increment_usage n ts) db b h = h
  apply-is_held (redeem_nonce n k e) db b h =
      let new : RedeemedNonce = record { net = n; nonce = k; expires_at = e } in
      ground (arith, find?-append (held_key net nonce expires) db.nonces new h)
  apply-is_held (purge n) db b h = h
  apply-is_held (purge_ip_claims t) db b h = h
  apply-is_held (purge_usage t) db b h = h
  apply-is_held (purge_redeemed_nonces t) db b h =
      let older : (r : RedeemedNonce)
          → held_key net nonce expires r ≡ true
          → nonce_expired t r ≡ false =
        λ r k. ground arith in
      rw (find?-delete_ne (nonce_expired t) (held_key net nonce expires) db.nonces older) h
  apply-is_held (purge_pow_claims t) db b h = h
  apply-is_held (claim_maintenance_run t i) db b h = h

  -- A nonce that is spent stays spent through all operations, purges included, up to the end of the
  -- time that its challenge lives.
  pub apply_all-is_held :
      (ops : List Operation) (db : Database)
      → All (Before now) ops
      → is_held net nonce expires db ≡ true
      → is_held net nonce expires (apply_all ops db) ≡ true
  unfolding apply_all
  apply_all-is_held [] db b h = h
  apply_all-is_held (op ∷ ops) db b h =
      apply_all-is_held ops (apply op db) b.1 (apply-is_held op db b.0 h)
