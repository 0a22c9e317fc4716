-- ===== src/Faucet/Request/Limits.antt =====
-- One free claim for an address and a day, over two requests of argus/faucet/app.py.
use mathlib.Core.Path.{subst}
use bitcoin_argus.Common.{
  ℕ, ◌+◌, ◌<◌, String, ◌≡◌, ◌≢◌, refl, true, some, List, [], arith, str_eq_iff, All,
}
use bitcoin_argus.Common.Float.{Float}
use bitcoin_argus.Faucet.Clock.{day_ticks}
use bitcoin_argus.Faucet.Config.{FaucetCfg}
use bitcoin_argus.Faucet.Store
use bitcoin_argus.Faucet.Store.{Database, last_ip_claim}
use bitcoin_argus.Faucet.Store.Keys.{last_ip_claim-record}
use bitcoin_argus.Faucet.Store.Operations.{Operation, apply_all}
use bitcoin_argus.Faucet.Store.Claims.{Timely, HasClaimed, apply_all-HasClaimed}
use bitcoin_argus.Faucet.Request.{
  Services, Request, World, success, PowResult, pow_absent, hash_ip, verify_pow, after_amount,
  dispense, record_success, spend, settle, all_failures, with_amount, process,
}
use bitcoin_argus.Faucet.Request.Success.{Cleared, process_success_iff, all_failures_nil_iff}

module _ (fl : Float) (svc : Services) (cfg : FaucetCfg fl) where
  process-dispense :
      (r : Request) (w : World) (txid address : String) (amount : ℕ)
      → (process fl svc cfg r w).0 ≡ success txid amount address
      → verify_pow fl svc cfg r amount ≡ pow_absent
      → (process fl svc cfg r w ≡ dispense fl svc cfg r amount pow_absent w)
        × Cleared fl svc cfg r w amount pow_absent txid
  unfolding process after_amount with_amount settle spend
  process-dispense r w txid address amount h v =
      let p = ((process_success_iff fl svc cfg r w txid address amount).0 h).0 in
      let c : Cleared fl svc cfg r w amount pow_absent txid =
        subst (λ (q : PowResult). Cleared fl svc cfg r w amount q txid) v p.cleared in
      let none_failed : all_failures fl svc cfg r amount pow_absent w.db ≡ [] =
        (all_failures_nil_iff fl svc cfg r w amount pow_absent).1 (c.approved, refl, c.permits) in
      (ground (arith, p.address_ok, p.amount_read), c)

  -- A free payment notes its time as the last claim of the address.
  pub process-last_ip_claim :
      (r : Request) (w : World) (txid address ip : String) (amount : ℕ)
      → (process fl svc cfg r w).0 ≡ success txid amount address
      → verify_pow fl svc cfg r amount ≡ pow_absent
      → hash_ip fl svc cfg r.client_ip ≡ some ip
      → last_ip_claim r.net_key ip (process fl svc cfg r w).1.db ≡ some r.now
  unfolding dispense record_success
  process-last_ip_claim r w txid address ip amount h v known =
      let d = process-dispense r w txid address amount h v in
      let u =
        Store.increment_usage r.net_key r.now
          (Store.record_payout r.net_key txid amount r.address r.stored_at w.db) in
      rw (d.0) (
        ground (
          arith,
          d.1.node,
          last_ip_claim-record r.net_key ip r.net_key ip r.now u,
          str_eq_iff r.net_key r.net_key,
          str_eq_iff ip ip,
        ))

  -- With the limit of one free claim on, after a free payment to a client whose address is known and
  -- any operations on the database whose claims are not earlier than that payment and whose purges of
  -- claims are not later than `again.now`, the request `again` of that client on the network without
  -- a proof of work is not answered with a success unless a whole day has gone by.
  pub one_free_claim_a_day :
      (r again : Request) (w w' : World) (ops : List Operation)
      (txid address txid' address' ip : String) (amount amount' : ℕ)
      → cfg.one_per_ip_per_day ≡ true
      → (process fl svc cfg r w).0 ≡ success txid amount address
      → verify_pow fl svc cfg r amount ≡ pow_absent
      → hash_ip fl svc cfg r.client_ip ≡ some ip
      → again.net_key ≡ r.net_key
      → hash_ip fl svc cfg again.client_ip ≡ some ip
      → verify_pow fl svc cfg again amount' ≡ pow_absent
      → again.now < r.now + day_ticks
      → All (Timely r.now again.now) ops
      → w'.db ≡ apply_all ops (process fl svc cfg r w).1.db
      → (process fl svc cfg again w').0 ≢ success txid' amount' address'
  one_free_claim_a_day r again w w' ops txid address txid' address' ip amount amount' on h v known
        net known' v' soon timely same h' =
      let d = process-dispense again w' txid' address' amount' h' v' in
      let claimed : HasClaimed r.net_key ip r.now (process fl svc cfg r w).1.db =
        (r.now, process-last_ip_claim r w txid address ip amount h v known, omega arith) in
      let (last, noted, later) =
        apply_all-HasClaimed r.net_key ip r.now again.now soon ops (process fl svc cfg r w).1.db
          timely claimed in
      let noted' : last_ip_claim again.net_key ip w'.db ≡ some last = rw (net, same) noted in
      let waited = d.1.permits.free_claim refl on ip last known' noted' in
      omega (arith, waited, soon, later)
