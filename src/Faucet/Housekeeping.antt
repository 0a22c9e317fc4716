-- ===== src/Faucet/Housekeeping.antt =====
-- The housekeeping of the faucet: argus/faucet/maintenance.py, and the purge of a network that is
-- reset, argus/faucet/reset.py.
use bitcoin_argus.Common.{ℕ, String, List, [], ◌∷◌, if◌then◌else◌, inl, inr, Bool-cases}
use bitcoin_argus.Faucet.Store.{
  Database, init_db, purge, purge_redeemed_nonces, purge_pow_claims, purge_ip_claims, purge_usage,
  claim_maintenance_run,
}
use bitcoin_argus.Faucet.Store.Operations
use bitcoin_argus.Faucet.Store.Invariant.{IsValid}
use bitcoin_argus.Faucet.Store.Operations.{apply, apply-IsValid}

-- The database after the purges, and the numbers of claims and of usage rows that went.
unfoldable pub run_maintenance : ℕ → Database → Database × (ℕ × ℕ)
run_maintenance now db =
    let db1 = (purge_redeemed_nonces now db).0 in
    let db2 = (purge_pow_claims now db1).0 in
    let (db3, ip_removed) = purge_ip_claims now db2 in
    let (db4, usage_removed) = purge_usage now db3 in (db4, (ip_removed, usage_removed))

-- One turn of `_loop` of a worker, which wakes at `now`.
unfoldable pub tick : ℕ → ℕ → Database → Database
tick interval now db =
    let (db', claimed) = claim_maintenance_run now interval db in
    if claimed then (run_maintenance now db').0 else db'

-- `maintenance.main`
unfoldable pub maintenance_main : ℕ → Database → Database
maintenance_main now db = (run_maintenance now (init_db db)).0

-- `reset.main`: its exit code, and the database.
unfoldable pub reset_main : List String → Database → ℕ × Database
reset_main (net ∷ []) db = (0, (purge net (init_db db)).0)
reset_main [] db = (2, db)
reset_main (a ∷ b ∷ more) db = (2, db)

run_maintenance-IsValid :
    (now : ℕ) {db : Database} → IsValid db → IsValid (run_maintenance now db).0
unfolding run_maintenance apply
run_maintenance-IsValid now v = apply-IsValid (Operations.purge_usage now) (
    apply-IsValid (Operations.purge_ip_claims now) (
      apply-IsValid (Operations.purge_pow_claims now)
        (apply-IsValid (Operations.purge_redeemed_nonces now) v)))

-- A turn of the loop keeps the invariant of the database.
pub tick-IsValid : (interval now : ℕ) {db : Database} → IsValid db → IsValid (tick interval now db)
unfolding tick apply
tick-IsValid interval now {db} v =
    let claimed : IsValid (claim_maintenance_run now interval db).0 =
      apply-IsValid (Operations.claim_maintenance_run now interval) v in
    elim (Bool-cases (claim_maintenance_run now interval db).1) [
      | inl e ↦ rw (e) (run_maintenance-IsValid now claimed)
      | inr e ↦ rw (e) claimed
    ]
