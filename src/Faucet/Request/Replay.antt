-- ===== src/Faucet/Request/Replay.antt =====
-- The use of one proof of work for two payments: `_verify_pow` and `_process` of argus/faucet/app.py
-- with the spent nonces of argus/faucet/store.py and the lifetime of argus/faucet/pow.py.
use mathlib.Core.Path.{subst}
use bitcoin_argus.Common.{
  ℕ, ◌+◌, ◌*◌, ◌≤◌, String, ◌≡◌, refl, ◌≢◌, true, false, some, List, [], arith, inl, inr, All,
  Bool-cases, Option-cases,
}
use bitcoin_argus.Common.Float.{Float}
use bitcoin_argus.Faucet.Clock.{second}
use bitcoin_argus.Faucet.Config.{FaucetCfg}
use bitcoin_argus.Faucet.Store.{Database, redeem_nonce}
use bitcoin_argus.Faucet.Store
use bitcoin_argus.Faucet.Store.Operations.{Operation, apply_all}
use bitcoin_argus.Faucet.Store.Redemption.{
  is_held, Before, apply_all-is_held, redeem_nonce-is_held, is_held-redeem_nonce,
}
use bitcoin_argus.Faucet.Pow.Token.{
  Challenge, Verdict, verified, refused, type_error, verify, Check, answer, pow_error,
  pow_unavailable, encoding_error, check_solution,
}
use bitcoin_argus.Faucet.Pow.Token.Laws.{verify-verified}
use bitcoin_argus.Faucet.Request.{
  Services, Request, World, success, PowResult, pow_verified, Sending, sent, failed, raised,
  hash_ip, is_pow_verified, judge, after_verify, verify_pow, after_amount, dispense, record_success,
  spend, settle, all_failures, with_amount, process,
}
use bitcoin_argus.Faucet.Request.Success.{Cleared, process_success_iff, all_failures_nil_iff}

module _ (fl : Float) (svc : Services) (cfg : FaucetCfg fl) where
  judge-verified :
      (c ch : Challenge) (k : Check)
      → judge fl svc cfg c k ≡ pow_verified ch
      → (c ≡ ch) × (k ≡ answer true)
  unfolding judge
  judge-verified c ch (answer true) h = ground arith
  judge-verified c ch (answer false) h = absurd (cc)
  judge-verified c ch (pow_error e) h = absurd (cc)
  judge-verified c ch pow_unavailable h = absurd (cc)
  judge-verified c ch encoding_error h = absurd (cc)

  after_verify-verified :
      (v : Verdict) (r : Request) (ch : Challenge)
      → after_verify fl svc cfg v r ≡ pow_verified ch
      → (v ≡ verified ch) × (check_solution svc.get_hasher r.challenge r.solution ch ≡ answer true)
  unfolding after_verify
  after_verify-verified (refused e) r ch h = absurd (cc)
  after_verify-verified type_error r ch h = absurd (cc)
  after_verify-verified (verified c) r ch h =
      let j = judge-verified c ch (check_solution svc.get_hasher r.challenge r.solution c) h in
      (rw (j.0), rw (← j.0) j.1)

  -- A proof that counts is the solution of a challenge that was accepted for this very request.
  pub verify_pow-verified :
      (r : Request) (amount : ℕ) (ch : Challenge)
      → verify_pow fl svc cfg r amount ≡ pow_verified ch
      → (secret : String) × (svc.pow_secret ≡ some secret)
        × (verify svc.codec r.challenge secret r.net_key r.address amount r.now ≡ verified ch)
        × (check_solution svc.get_hasher r.challenge r.solution ch ≡ answer true)
  unfolding verify_pow
  verify_pow-verified r amount ch h = elim (Option-cases svc.pow_secret) [
    | inl e ↦ absurd (ground arith)
    | inr (secret, e) ↦
        let v = verify svc.codec r.challenge secret r.net_key r.address amount r.now in
        let inside : after_verify fl svc cfg v r ≡ pow_verified ch = ground arith in
        let a = after_verify-verified v r ch inside in (secret, e, a.0, a.1)
  ]

  -- How long a challenge lives, in seconds.
  abbrev deadline : Challenge → ℕ
  deadline ch = ch.issued_at + ch.ttl

  verify_pow-alive :
      (r : Request) (amount : ℕ) (ch : Challenge)
      → verify_pow fl svc cfg r amount ≡ pow_verified ch
      → r.now ≤ deadline ch * second
  verify_pow-alive r amount ch h =
      let v = verify_pow-verified r amount ch h in
      let b = verify-verified svc.codec r.challenge v.0 r.net_key r.address amount r.now ch v.2 in
      b.4.young

  record_success-is_held :
      (r : Request) (amount : ℕ) (pow : PowResult) (txid net nonce : String) (expires : ℕ)
      (db : Database)
      → is_held net nonce expires db ≡ true
      → is_held net nonce expires (record_success fl svc cfg r amount pow txid db) ≡ true
  unfolding record_success is_held Store.record_payout Store.increment_usage Store.record_pow_claim
      Store.record_ip_claim
  record_success-is_held r amount pow txid net nonce expires db h =
      elim (Option-cases (hash_ip fl svc cfg r.client_ip)) [
        | inl e ↦ ground arith
        | inr (ip, e) ↦ elim (Bool-cases (is_pow_verified pow)) [
          | inl t ↦ ground arith
          | inr t ↦ ground arith
        ]
      ]

  dispense-is_held :
      (r : Request) (amount : ℕ) (pow : PowResult) (net nonce : String) (expires : ℕ) (w : World)
      → is_held net nonce expires w.db ≡ true
      → is_held net nonce expires (dispense fl svc cfg r amount pow w).1.db ≡ true
  unfolding dispense
  dispense-is_held r amount pow net nonce expires w h =
      after_sending (svc.send r.net_key r.address amount cfg.fee_sat_per_vbyte) refl
    where
      after_sending :
          (s : Sending)
          → svc.send r.net_key r.address amount cfg.fee_sat_per_vbyte ≡ s
          → is_held net nonce expires (dispense fl svc cfg r amount pow w).1.db ≡ true
      after_sending (sent txid) e =
          ground (arith, record_success-is_held r amount pow txid net nonce expires w.db h)
      after_sending (failed m unseen) e = ground arith
      after_sending (raised unseen) e = ground arith

  spend-is_held :
      (r : Request) (amount : ℕ) (ch : Challenge) (w : World)
      → (redeem_nonce r.net_key ch.nonce (deadline ch) w.db).1 ≡ true
      → is_held r.net_key ch.nonce
          (deadline ch)
          (spend fl svc cfg r amount (pow_verified ch) w).1.db
        ≡ true
  unfolding spend
  spend-is_held r amount ch w won =
      let u = record w { db = (redeem_nonce r.net_key ch.nonce (deadline ch) w.db).0 } in
      ground (
        arith,
        dispense-is_held r amount (pow_verified ch) r.net_key ch.nonce (deadline ch) u
            (redeem_nonce-is_held r.net_key ch.nonce (deadline ch) w.db won),
      )

  -- What a successful request with a verified proof does to the database.
  process-spend :
      (r : Request) (w : World) (txid address : String) (amount : ℕ) (ch : Challenge)
      → (process fl svc cfg r w).0 ≡ success txid amount address
      → verify_pow fl svc cfg r amount ≡ pow_verified ch
      → (process fl svc cfg r w ≡ spend fl svc cfg r amount (pow_verified ch) w)
        × ((redeem_nonce r.net_key ch.nonce (deadline ch) w.db).1 ≡ true)
  unfolding process after_amount with_amount settle
  process-spend r w txid address amount ch h v =
      let p = ((process_success_iff fl svc cfg r w txid address amount).0 h).0 in
      let c : Cleared fl svc cfg r w amount (pow_verified ch) txid =
        subst (λ (q : PowResult). Cleared fl svc cfg r w amount q txid) v p.cleared in
      let none_failed : all_failures fl svc cfg r amount (pow_verified ch) w.db ≡ [] =
        (all_failures_nil_iff fl svc cfg r w amount (pow_verified ch)).1
          (c.approved, refl, c.permits) in
      (
        ground (arith, p.address_ok, p.amount_read),
        elim c.proof [
          | inl e ↦ absurd (cc)
          | inr (c', e, won) ↦ let q : c' ≡ ch = ground arith in rw (← q) won
        ],
      )

  -- After a payment on a proof of work, its nonce is spent for as long as its challenge lives.
  pub process-is_held :
      (r : Request) (w : World) (txid address : String) (amount : ℕ) (ch : Challenge)
      → (process fl svc cfg r w).0 ≡ success txid amount address
      → verify_pow fl svc cfg r amount ≡ pow_verified ch
      → is_held r.net_key ch.nonce (deadline ch) (process fl svc cfg r w).1.db ≡ true
  process-is_held r w txid address amount ch h v =
      let s = process-spend r w txid address amount ch h v in
      rw (s.0) (spend-is_held r amount ch w s.1)

  -- No proof of work is paid twice: after a payment on a solved challenge, and any operations on the
  -- database whose purges of nonces are not later than `again.now`, the request `again` on the
  -- same network with a proof for the same challenge is not answered with a success.
  pub no_replay :
      (r again : Request) (w w' : World) (ops : List Operation)
      (txid address txid' address' : String) (amount amount' : ℕ) (ch : Challenge)
      → (process fl svc cfg r w).0 ≡ success txid amount address
      → verify_pow fl svc cfg r amount ≡ pow_verified ch
      → again.net_key ≡ r.net_key
      → verify_pow fl svc cfg again amount' ≡ pow_verified ch
      → All (Before again.now) ops
      → w'.db ≡ apply_all ops (process fl svc cfg r w).1.db
      → (process fl svc cfg again w').0 ≢ success txid' amount' address'
  no_replay r again w w' ops txid address txid' address' amount amount' ch h v net v' before later
        h' =
      let held =
        apply_all-is_held r.net_key ch.nonce (deadline ch) again.now
          (verify_pow-alive again amount' ch v') ops (process fl svc cfg r w).1.db before
          (process-is_held r w txid address amount ch h v) in
      let held' : is_held again.net_key ch.nonce (deadline ch) w'.db ≡ true =
        rw (net, later) held in
      let lost =
        is_held-redeem_nonce again.net_key ch.nonce (deadline ch) (deadline ch) w'.db held' in
      let won = (process-spend again w' txid' address' amount' ch h' v').1 in absurd (ground arith)
