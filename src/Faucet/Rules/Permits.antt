-- ===== src/Faucet/Rules/Permits.antt =====
-- What the rules of argus/faucet/rules.py ask of a request, written without the rules,
-- and `evaluate`.
use bitcoin_argus.Common.{
  ℕ, ◌+◌, ◌≤◌, ◌<◌, String, ◌≡◌, ◌↔◌, refl, inl, inr, true, false, Option, none, some, List, [],
  ◌∷◌, arith, Bool-cases, Option-cases,
}
use bitcoin_argus.Common.Float.{Float}
use bitcoin_argus.Faucet.Clock.{day_ticks}
use bitcoin_argus.Faucet.Config.{FaucetCfg}
use bitcoin_argus.Faucet.Store.{Database, last_ip_claim}
use bitcoin_argus.Faucet.Rules.{
  RuleContext, RuleOutcome, one_per_ip_rule, max_amount_rule, balance_cap_rule, min_claim_rule,
  pow_cap_rule, failures_of, evaluate,
}

module _ (fl : Float) (cfg : FaucetCfg fl) (ctx : RuleContext) (db : Database) where
  -- Without a proof of work, a known address with a claim has waited a day since.
  abbrev pub FreeClaimOk : Type 0
  FreeClaimOk =
      ctx.pow_verified ≡ false
      → cfg.one_per_ip_per_day ≡ true
      → (ip : String) (last : ℕ) → ctx.ip_hash ≡ some ip
      → last_ip_claim ctx.net_key ip db ≡ some last
      → last + day_ticks ≤ ctx.now

  one_per_ip_ok : (one_per_ip_rule fl cfg ctx db ≡ none) ↔ FreeClaimOk
  unfolding one_per_ip_rule
  one_per_ip_ok = (forth, back)
    where
      forth : one_per_ip_rule fl cfg ctx db ≡ none → FreeClaimOk
      forth h free on ip last eip elast = ground arith

      back : FreeClaimOk → one_per_ip_rule fl cfg ctx db ≡ none
      back h = elim (Bool-cases ctx.pow_verified) [
        | inl v ↦ ground arith
        | inr v ↦ elim (Option-cases ctx.ip_hash) [
          | inl e ↦ ground arith
          | inr (ip, e) ↦ elim (Option-cases (last_ip_claim ctx.net_key ip db)) [
            | inl f ↦ ground arith
            | inr (last, f) ↦ elim (Bool-cases cfg.one_per_ip_per_day) [
              | inl on ↦ ground (arith, h v on ip last e f)
              | inr off ↦ ground arith
            ]
          ]
        ]
      ]

-- The five demands on a request. Those on the amount speak of the ceilings that the request's
-- context holds, if it holds them.
pub record Permits (fl : Float) (cfg : FaucetCfg fl) (ctx : RuleContext) (db : Database)
    : Type 0 where
  pub free_claim : FreeClaimOk fl cfg ctx db
  pub pow_claims :
      ctx.pow_verified ≡ true → 0 < ctx.pow_max_per_day → ctx.pow_claims_today < ctx.pow_max_per_day
  pub daily_maximum :
      cfg.max_amount_per_day ≡ true
      → (cap : ℕ) → ctx.limits.daily_cap_sat ≡ some cap
      → ctx.requested_sat ≤ cap
  pub balance_share :
      cfg.per_request_balance_cap ≡ true
      → (cap : ℕ) → ctx.limits.balance_cap_sat ≡ some cap
      → ctx.requested_sat ≤ cap
  pub minimum : cfg.min_claim_enabled ≡ true → cfg.min_claim_sat ≤ ctx.requested_sat

-- A rule's outcome, if there is one, is a failure.
abbrev Fails : Option RuleOutcome → Type 0
Fails o = (r : RuleOutcome) → o ≡ some r → r.passed ≡ false

failures_of-cons :
    (o : Option RuleOutcome) (os : List (Option RuleOutcome))
    → Fails o
    → (failures_of (o ∷ os) ≡ []) ↔ ((o ≡ none) × (failures_of os ≡ []))
unfolding failures_of
failures_of-cons none os f = (λ h. (refl, h), λ h. h.1)
failures_of-cons (some o) os f = ground (arith, f o refl)

module _ (fl : Float) (cfg : FaucetCfg fl) (ctx : RuleContext) (db : Database) where
  one_per_ip-Fails : Fails (one_per_ip_rule fl cfg ctx db)
  unfolding one_per_ip_rule
  one_per_ip-Fails r e = ground arith

  pow_cap-Fails : Fails (pow_cap_rule fl cfg ctx)
  unfolding pow_cap_rule
  pow_cap-Fails r e = ground arith

  max_amount-Fails : Fails (max_amount_rule fl cfg ctx)
  unfolding max_amount_rule
  max_amount-Fails r e = ground arith

  balance_cap-Fails : Fails (balance_cap_rule fl cfg ctx)
  unfolding balance_cap_rule
  balance_cap-Fails r e = ground arith

  min_claim-Fails : Fails (min_claim_rule fl cfg ctx)
  unfolding min_claim_rule
  min_claim-Fails r e = ground arith

  -- No failure is reported exactly when none of the five rules returns an outcome.
  abbrev AllPass : Type 0
  AllPass =
      (one_per_ip_rule fl cfg ctx db ≡ none)
      × (pow_cap_rule fl cfg ctx ≡ none)
      × (max_amount_rule fl cfg ctx ≡ none)
      × (balance_cap_rule fl cfg ctx ≡ none)
      × (min_claim_rule fl cfg ctx ≡ none)

  evaluate_none_iff : (evaluate fl cfg ctx db ≡ []) ↔ AllPass
  unfolding evaluate
  evaluate_none_iff =
      let a =
        failures_of-cons (one_per_ip_rule fl cfg ctx db)
          (pow_cap_rule fl cfg ctx
            ∷ max_amount_rule fl cfg ctx
            ∷ balance_cap_rule fl cfg ctx
            ∷ min_claim_rule fl cfg ctx
            ∷ [])
          one_per_ip-Fails in
      let b =
        failures_of-cons (pow_cap_rule fl cfg ctx)
          (max_amount_rule fl cfg ctx
            ∷ balance_cap_rule fl cfg ctx
            ∷ min_claim_rule fl cfg ctx
            ∷ [])
          pow_cap-Fails in
      let c =
        failures_of-cons (max_amount_rule fl cfg ctx)
          (balance_cap_rule fl cfg ctx ∷ min_claim_rule fl cfg ctx ∷ []) max_amount-Fails in
      let d =
        failures_of-cons (balance_cap_rule fl cfg ctx) (min_claim_rule fl cfg ctx ∷ [])
          balance_cap-Fails in
      let e = failures_of-cons (min_claim_rule fl cfg ctx) [] min_claim-Fails in
      (
        λ h.
            let p = a.0 h in
            let q = b.0 p.1 in
            let r = c.0 q.1 in let s = d.0 r.1 in (p.0, q.0, r.0, s.0, (e.0 s.1).0),
        λ h. a.1 (h.0, b.1 (h.1, c.1 (h.2, d.1 (h.3, e.1 (h.4, refl))))),
      )

  pass-Permits : AllPass → Permits fl cfg ctx db
  unfolding pow_cap_rule max_amount_rule balance_cap_rule min_claim_rule
  pass-Permits h = record {
    free_claim = (one_per_ip_ok fl cfg ctx db).0 h.0;
    pow_claims = λ v m. ground arith;
    daily_maximum = λ on cap e. ground arith;
    balance_share = λ on cap e. ground arith;
    minimum = λ on. ground arith;
  }

  Permits-pass : Permits fl cfg ctx db → AllPass
  unfolding pow_cap_rule max_amount_rule balance_cap_rule min_claim_rule
  Permits-pass p = (
    (one_per_ip_ok fl cfg ctx db).1 p.free_claim,
    ground (arith, p.pow_claims),
    elim (Option-cases ctx.limits.daily_cap_sat) [
      | inl e ↦ ground arith
      | inr (cap, e) ↦
          ground (arith, λ (on : cfg.max_amount_per_day ≡ true). p.daily_maximum on cap e)
    ],
    elim (Option-cases ctx.limits.balance_cap_sat) [
      | inl e ↦ ground arith
      | inr (cap, e) ↦
          ground (arith, λ (on : cfg.per_request_balance_cap ≡ true). p.balance_share on cap e)
    ],
    ground (arith, p.minimum),
  )

  -- `evaluate` reports no failure exactly when the request meets the five demands.
  pub evaluate-Permits : (evaluate fl cfg ctx db ≡ []) ↔ Permits fl cfg ctx db
  evaluate-Permits =
      (λ h. pass-Permits (evaluate_none_iff.0 h), λ p. evaluate_none_iff.1 (Permits-pass p))
