-- ===== src/Faucet/Request/Success.antt =====
-- When a request of argus/faucet/app.py is paid: the demands on it, written without the order of the
-- tests of `_process`.
use bitcoin_argus.Common.{
  ℕ, ◌+◌, String, ◌≡◌, ◌↔◌, refl, true, List, [], ◌∷◌, ◌++◌, map, arith, inl, inr, ◌⊎◌, Bool-cases,
}
use bitcoin_argus.Common.Float.{Float}
use bitcoin_argus.Faucet.Config.{FaucetCfg}
use bitcoin_argus.Faucet.Store.{redeem_nonce}
use bitcoin_argus.Faucet.Rules.{evaluate}
use bitcoin_argus.Faucet.Rules.Permits.{Permits, evaluate-Permits}
use bitcoin_argus.Faucet.Pow.Token.{Challenge}
use bitcoin_argus.Faucet.Address.{codes, is_valid_address}
use bitcoin_argus.Faucet.Amount.{Conversion, rejected, sats, overflow}
use bitcoin_argus.Faucet.Request.{
  Services, Request, World, success, Failure, PowResult, pow_absent, pow_crash, pow_verified,
  pow_failed, Sending, sent, failed, raised, to_sats, rule_entry, pow_failures, rule_context,
  policy_failures, decision, verify_pow, after_amount, dispense, spend, settle, all_failures,
  with_amount, process,
}

append_nil_iff : {A : Type 0} (xs ys : List A) → (xs ++ ys ≡ []) ↔ ((xs ≡ []) × (ys ≡ []))
append_nil_iff [] ys = (λ h. (refl, h), λ h. h.1)
append_nil_iff (x ∷ xs) ys = (λ h. absurd (cc), λ h. absurd (cc))

map_nil_iff : {A B : Type 0} (f : A → B) (xs : List A) → (map f xs ≡ []) ↔ (xs ≡ [])
map_nil_iff f [] = (λ h. refl, λ h. refl)
map_nil_iff f (x ∷ xs) = (λ h. absurd (cc), λ h. absurd (cc))

module _ (fl : Float) (svc : Services) (cfg : FaucetCfg fl) (r : Request) (w : World) where
  -- What was handed in as a proof: nothing, or the solution of a challenge whose nonce is not spent.
  abbrev ProofOk : PowResult → Type 0
  ProofOk pow =
      (pow ≡ pow_absent)
      ⊎ ((ch : Challenge) × (pow ≡ pow_verified ch)
          × ((redeem_nonce r.net_key ch.nonce (ch.issued_at + ch.ttl) w.db).1 ≡ true))

  -- The demands on a request whose amount and proof were read.
  pub record Cleared (amount : ℕ) (pow : PowResult) (txid : String) : Type 0 where
    pub approved : (decision fl svc cfg r).approved ≡ true
    pub permits : Permits fl cfg (rule_context fl svc cfg r amount pow w.db) w.db
    pub proof : ProofOk pow
    pub node : svc.send r.net_key r.address amount cfg.fee_sat_per_vbyte ≡ sent txid

  policy_nil_iff : (policy_failures fl svc cfg r ≡ []) ↔ ((decision fl svc cfg r).approved ≡ true)
  unfolding policy_failures
  policy_nil_iff = elim (Bool-cases (decision fl svc cfg r).approved) [
    | inl e ↦ ground arith
    | inr e ↦ ground arith
  ]

  pub all_failures_nil_iff :
      (amount : ℕ) (pow : PowResult)
      → (all_failures fl svc cfg r amount pow w.db ≡ []) ↔ (
          ((decision fl svc cfg r).approved ≡ true)
          × (pow_failures pow ≡ [])
          × Permits fl cfg (rule_context fl svc cfg r amount pow w.db) w.db)
  unfolding all_failures
  all_failures_nil_iff amount pow =
      let ctx = rule_context fl svc cfg r amount pow w.db in
      let rules = evaluate fl cfg ctx w.db in
      let policy = policy_failures fl svc cfg r in
      let a = append_nil_iff (policy ++ pow_failures pow) (map (rule_entry r.now) rules) in
      let b = append_nil_iff policy (pow_failures pow) in
      let c = map_nil_iff (rule_entry r.now) rules in
      let d = evaluate-Permits fl cfg ctx w.db in
      (
        λ h. let p = a.0 h in let q = b.0 p.0 in (policy_nil_iff.0 q.0, q.1, d.0 (c.0 p.1)),
        λ h. a.1 (b.1 (policy_nil_iff.1 h.0, h.1), c.1 (d.1 h.2)),
      )

  dispense-success :
      (amount : ℕ) (pow : PowResult) (u : World) (txid : String) (a : ℕ) (ad : String)
      → (dispense fl svc cfg r amount pow u).0 ≡ success txid a ad
      → (svc.send r.net_key r.address amount cfg.fee_sat_per_vbyte ≡ sent txid)
        × (a ≡ amount)
        × (ad ≡ r.address)
  unfolding dispense
  dispense-success amount pow u txid a ad h =
      after_sending (svc.send r.net_key r.address amount cfg.fee_sat_per_vbyte) refl
    where
      after_sending :
          (s : Sending)
          → svc.send r.net_key r.address amount cfg.fee_sat_per_vbyte ≡ s
          → (svc.send r.net_key r.address amount cfg.fee_sat_per_vbyte ≡ sent txid)
            × (a ≡ amount)
            × (ad ≡ r.address)
      after_sending (sent t) e = ground arith
      after_sending (failed m lost) e = absurd (ground arith)
      after_sending (raised lost) e = absurd (ground arith)

  success-dispense :
      (amount : ℕ) (pow : PowResult) (u : World) (txid : String)
      → svc.send r.net_key r.address amount cfg.fee_sat_per_vbyte ≡ sent txid
      → (dispense fl svc cfg r amount pow u).0 ≡ success txid amount r.address
  unfolding dispense
  success-dispense amount pow u txid h = ground arith

  spend-success :
      (amount : ℕ) (pow : PowResult) (txid : String) (a : ℕ) (ad : String)
      → pow_failures pow ≡ []
      → ¬ (pow ≡ pow_crash)
      → (spend fl svc cfg r amount pow w).0 ≡ success txid a ad
      → ProofOk pow
        × (svc.send r.net_key r.address amount cfg.fee_sat_per_vbyte ≡ sent txid)
        × (a ≡ amount)
        × (ad ≡ r.address)
  unfolding spend
  spend-success amount (pow_verified ch) txid a ad nf nc h =
      let spent = redeem_nonce r.net_key ch.nonce (ch.issued_at + ch.ttl) w.db in
      elim (Bool-cases spent.1) [
        | inl won ↦
            let d =
              dispense-success amount (pow_verified ch) (record w { db = spent.0 }) txid a ad
                (ground arith) in
            (inr (ch, refl, won), d.0, d.1, d.2)
        | inr lost ↦ absurd (ground arith)
      ]
  spend-success amount pow_absent txid a ad nf nc h =
      let d = dispense-success amount pow_absent w txid a ad h in (inl refl, d.0, d.1, d.2)
  spend-success amount pow_crash txid a ad nf nc h = absurd (nc refl)
  spend-success amount (pow_failed f) txid a ad nf nc h = absurd (cc)

  success-spend :
      (amount : ℕ) (pow : PowResult) (txid : String)
      → ProofOk pow
      → svc.send r.net_key r.address amount cfg.fee_sat_per_vbyte ≡ sent txid
      → (spend fl svc cfg r amount pow w).0 ≡ success txid amount r.address
  unfolding spend
  success-spend amount pow txid (inl e) h = rw (e) (success-dispense amount pow_absent w txid h)
  success-spend amount pow txid (inr (ch, e, won)) h =
      let u = record w { db = (redeem_nonce r.net_key ch.nonce (ch.issued_at + ch.ttl) w.db).0 } in
      ground (arith, success-dispense amount (pow_verified ch) u txid h)

  settle-success :
      (fs : List Failure) (amount : ℕ) (pow : PowResult) (txid : String) (a : ℕ) (ad : String)
      → (settle fl svc cfg fs r amount pow w).0 ≡ success txid a ad
      → (fs ≡ []) × ((spend fl svc cfg r amount pow w).0 ≡ success txid a ad)
  unfolding settle
  settle-success [] amount pow txid a ad h = (refl, h)
  settle-success (f ∷ fs) amount pow txid a ad h = absurd (cc)

  settled :
      (amount : ℕ) (pow : PowResult) (txid : String) (a : ℕ) (ad : String)
      → ¬ (pow ≡ pow_crash)
      → (settle fl svc cfg (all_failures fl svc cfg r amount pow w.db) r amount pow w).0
        ≡ success txid a ad
      → Cleared amount pow txid × (a ≡ amount) × (ad ≡ r.address)
  settled amount pow txid a ad nc h =
      let s = settle-success (all_failures fl svc cfg r amount pow w.db) amount pow txid a ad h in
      let ok = (all_failures_nil_iff amount pow).0 s.0 in
      let d = spend-success amount pow txid a ad ok.1 nc s.1 in
      (record { approved = ok.0; permits = ok.2; proof = d.0; node = d.1 }, d.2, d.3)

  with_amount-success :
      (amount : ℕ) (pow : PowResult) (txid : String) (a : ℕ) (ad : String)
      → (with_amount fl svc cfg r amount pow w).0 ≡ success txid a ad
      → Cleared amount pow txid × (a ≡ amount) × (ad ≡ r.address)
  unfolding with_amount
  with_amount-success amount pow_crash txid a ad h = absurd (cc)
  with_amount-success amount pow_absent txid a ad h =
      settled amount pow_absent txid a ad (λ e. cc) h
  with_amount-success amount (pow_verified ch) txid a ad h =
      settled amount (pow_verified ch) txid a ad (λ e. cc) h
  with_amount-success amount (pow_failed f) txid a ad h =
      settled amount (pow_failed f) txid a ad (λ e. cc) h

  Cleared-spend :
      (amount : ℕ) (pow : PowResult) (txid : String)
      → pow_failures pow ≡ []
      → Cleared amount pow txid
      → (settle fl svc cfg (all_failures fl svc cfg r amount pow w.db) r amount pow w).0
        ≡ success txid amount r.address
  unfolding settle
  Cleared-spend amount pow txid nf c =
      rw ((all_failures_nil_iff amount pow).1 (c.approved, nf, c.permits))
        (success-spend amount pow txid c.proof c.node)

  success-with_amount :
      (amount : ℕ) (pow : PowResult) (txid : String)
      → Cleared amount pow txid
      → (with_amount fl svc cfg r amount pow w).0 ≡ success txid amount r.address
  unfolding with_amount
  success-with_amount amount pow_absent txid c = Cleared-spend amount pow_absent txid refl c
  success-with_amount amount (pow_verified ch) txid c =
      Cleared-spend amount (pow_verified ch) txid refl c
  success-with_amount amount pow_crash txid c = elim c.proof [
    | inl e ↦ absurd (cc)
    | inr (ch, e, won) ↦ absurd (cc)
  ]
  success-with_amount amount (pow_failed f) txid c = elim c.proof [
    | inl e ↦ absurd (cc)
    | inr (ch, e, won) ↦ absurd (cc)
  ]

-- The demands on a request at a database, with the id of the payment. The amount is the one that the
-- text of the request was read as.
pub record Payable (fl : Float) (svc : Services) (cfg : FaucetCfg fl) (r : Request) (w : World)
    (txid : String) (amount : ℕ) : Type 0 where
  pub address_ok : is_valid_address svc.sha256 (codes r.address) r.chain ≡ true
  pub amount_read : to_sats fl svc cfg r.amount_raw ≡ sats amount
  pub cleared : Cleared fl svc cfg r w amount (verify_pow fl svc cfg r amount) txid

module _ (fl : Float) (svc : Services) (cfg : FaucetCfg fl) (r : Request) (w : World) where
  after_amount-success :
      (c : Conversion) (txid : String) (a : ℕ) (ad : String)
      → (after_amount fl svc cfg c r w).0 ≡ success txid a ad
      → (c ≡ sats a) × (ad ≡ r.address) × Cleared fl svc cfg r w a (verify_pow fl svc cfg r a) txid
  unfolding after_amount
  after_amount-success overflow txid a ad h = absurd (cc)
  after_amount-success rejected txid a ad h = absurd (cc)
  after_amount-success (sats amount) txid a ad h =
      let c =
        with_amount-success fl svc cfg r w amount (verify_pow fl svc cfg r amount) txid a ad h in
      (rw (c.1), c.2, rw (c.1) c.0)

  -- A request is answered with a success exactly when its address is valid on its chain, its amount
  -- was read as that many satoshis, the policy approves, the rules permit it, no proof of work was
  -- handed in or one that holds and whose nonce is not spent, and the node made the payment; the
  -- answer names the address of the request and the node's id of the payment.
  pub process_success_iff :
      (txid address : String) (amount : ℕ)
      → ((process fl svc cfg r w).0 ≡ success txid amount address)
        ↔ (Payable fl svc cfg r w txid amount × (address ≡ r.address))
  unfolding process after_amount
  process_success_iff txid address amount = (forth, back)
    where
      forth :
          (process fl svc cfg r w).0 ≡ success txid amount address
          → Payable fl svc cfg r w txid amount × (address ≡ r.address)
      forth h = elim (Bool-cases (is_valid_address svc.sha256 (codes r.address) r.chain)) [
        | inr bad ↦ absurd (ground arith)
        | inl good ↦
            let c =
              after_amount-success (to_sats fl svc cfg r.amount_raw) txid amount address
                (ground arith) in
            (record { address_ok = good; amount_read = c.0; cleared = c.2 }, c.1)
      ]

      back :
          Payable fl svc cfg r w txid amount × (address ≡ r.address)
          → (process fl svc cfg r w).0 ≡ success txid amount address
      back (p, e) =
          let read : (after_amount fl svc cfg (to_sats fl svc cfg r.amount_raw) r w).0
              ≡ success txid amount r.address =
            rw (p.amount_read) (
              success-with_amount fl svc cfg r w amount (verify_pow fl svc cfg r amount) txid
                p.cleared) in
          ground (arith, read, p.address_ok)
