-- ===== src/Faucet/Rules/Limits.antt =====
-- The amount ceilings of argus/faucet/rules.py: what the page shows and what the rules enforce.
use bitcoin_argus.Common.{
  ℕ, ◌≤◌, ◌<◌, ◌^◌, min, String, ◌≡◌, ◌⊎◌, ◌↔◌, refl, inl, inr, true, Option, none, some, [], arith,
  Option-cases,
}
use bitcoin_argus.Common.Float.{Float, FloatLaws, FLe, fmax, le_refl}
use bitcoin_argus.Faucet.Config.{FaucetCfg}
use bitcoin_argus.Faucet.Store.{Database}
use bitcoin_argus.Faucet.Rules.{
  RuleContext, daily_cap, compute_limits, max_amount_rule, balance_cap_rule, min_active, evaluate,
}
use bitcoin_argus.Faucet.Rules.Permits.{evaluate-Permits}

fmax_ge : (fl : Float) → FloatLaws fl → (a b : fl.Carrier) → FLe fl a a → FLe fl a (fmax fl a b)
fmax_ge fl laws a b h = ground (arith, laws.lt_asym a b)

module _ (fl : Float) (laws : FloatLaws fl) (cfg : FaucetCfg fl) (net : String) (b now : ℕ)
    (horizon : fl.Carrier) (db : Database) (small : b < 2 ^ 53) where
  daily_cap-le : daily_cap fl net b now horizon db ≤ b
  unfolding daily_cap
  daily_cap-le =
      laws.trunc-div b _ small (fmax_ge fl laws (fl.of_nat 1) _ (le_refl fl laws (fl.of_nat 1)))

  -- With the balance known, the ceilings are at most the balance, if the share is at most the whole.
  pub compute_limits-le :
      FLe fl cfg.balance_cap_fraction (fl.of_nat 1)
      → let limits = compute_limits fl cfg net (some b) now horizon db in
        ((cap : ℕ) → limits.daily_cap_sat ≡ some cap → cap ≤ b)
        × ((cap : ℕ) → limits.balance_cap_sat ≡ some cap → cap ≤ b)
        × ((cap : ℕ) → limits.max_request_sat ≡ some cap → cap ≤ b)
  unfolding compute_limits
  compute_limits-le share = (
    λ cap e. ground (arith, daily_cap-le),
    λ cap e. ground (arith, laws.trunc-mul b cfg.balance_cap_fraction small share),
    λ cap e. ground (arith, daily_cap-le, laws.trunc-mul b cfg.balance_cap_fraction small share),
  )

module _ (fl : Float) (cfg : FaucetCfg fl) (net : String) (balance : Option ℕ) (now : ℕ)
    (horizon : fl.Carrier) (db : Database) where
  -- A ceiling is only there if its rule is on.
  daily_on :
      (cap : ℕ)
      → (compute_limits fl cfg net balance now horizon db).daily_cap_sat ≡ some cap
      → cfg.max_amount_per_day ≡ true
  unfolding compute_limits
  daily_on cap e = elim (Option-cases balance) [ inl f ↦ ground arith | inr (b, f) ↦ ground arith ]

  share_on :
      (cap : ℕ)
      → (compute_limits fl cfg net balance now horizon db).balance_cap_sat ≡ some cap
      → cfg.per_request_balance_cap ≡ true
  unfolding compute_limits
  share_on cap e = elim (Option-cases balance) [ inl f ↦ ground arith | inr (b, f) ↦ ground arith ]

  max_request :
      let limits = compute_limits fl cfg net balance now horizon db in
      limits.max_request_sat ≡ min_active limits.daily_cap_sat limits.balance_cap_sat
  unfolding compute_limits
  max_request = refl

-- What `min_active` is to the two ceilings.
min_active_iff :
    (a b : Option ℕ) (x : ℕ)
    → (((m : ℕ) → min_active a b ≡ some m → x ≤ m))
      ↔ (((m : ℕ) → a ≡ some m → x ≤ m) × ((m : ℕ) → b ≡ some m → x ≤ m))
min_active_iff none none x = (λ h. ((λ m e. cc), λ m e. cc), λ h m e. cc)
min_active_iff none (some b) x = (λ h. ((λ m e. cc), h), λ h. h.1)
min_active_iff (some a) none x = (λ h. (h, (λ m e. cc)), λ h. h.0)
min_active_iff (some a) (some b) x = (
  λ h. ((λ m e. ground (arith, h (min a b) refl)), λ m e. ground (arith, h (min a b) refl)),
  λ h m e. ground (arith, h.0 a refl, h.1 b refl),
)

module _ (fl : Float) (cfg : FaucetCfg fl) (ctx : RuleContext) where
  max_amount_iff :
      ((cap : ℕ) → ctx.limits.daily_cap_sat ≡ some cap → cfg.max_amount_per_day ≡ true)
      → (max_amount_rule fl cfg ctx ≡ none)
        ↔ ((m : ℕ) → ctx.limits.daily_cap_sat ≡ some m → ctx.requested_sat ≤ m)
  unfolding max_amount_rule
  max_amount_iff on = elim (Option-cases ctx.limits.daily_cap_sat) [
    | inl e ↦ ((λ h m f. ground arith), λ h. ground arith)
    | inr (cap, e) ↦ ((λ h m f. ground (arith, on cap e)), λ h. ground (arith, h cap e, on cap e))
  ]

  balance_cap_iff :
      ((cap : ℕ) → ctx.limits.balance_cap_sat ≡ some cap → cfg.per_request_balance_cap ≡ true)
      → (balance_cap_rule fl cfg ctx ≡ none)
        ↔ ((m : ℕ) → ctx.limits.balance_cap_sat ≡ some m → ctx.requested_sat ≤ m)
  unfolding balance_cap_rule
  balance_cap_iff on = elim (Option-cases ctx.limits.balance_cap_sat) [
    | inl e ↦ ((λ h m f. ground arith), λ h. ground arith)
    | inr (cap, e) ↦ ((λ h m f. ground (arith, on cap e)), λ h. ground (arith, h cap e, on cap e))
  ]

-- Of a request whose context holds the limits that the page shows: the two amount rules pass
-- exactly when the amount is at most the headline number, if there is one.
pub max_request_agrees :
    (fl : Float) (cfg : FaucetCfg fl) (ctx : RuleContext) (balance : Option ℕ)
    (horizon : fl.Carrier) (db : Database)
    → let limits = compute_limits fl cfg ctx.net_key balance ctx.now horizon db in
      let ctx' = record ctx { limits = limits } in
      ((max_amount_rule fl cfg ctx' ≡ none) × (balance_cap_rule fl cfg ctx' ≡ none))
      ↔ ((m : ℕ) → limits.max_request_sat ≡ some m → ctx.requested_sat ≤ m)
max_request_agrees fl cfg ctx balance horizon db =
    let limits = compute_limits fl cfg ctx.net_key balance ctx.now horizon db in
    let ctx' : RuleContext = record ctx { limits = limits } in
    let d = max_amount_iff fl cfg ctx' (daily_on fl cfg ctx.net_key balance ctx.now horizon db) in
    let s = balance_cap_iff fl cfg ctx' (share_on fl cfg ctx.net_key balance ctx.now horizon db) in
    let m = min_active_iff limits.daily_cap_sat limits.balance_cap_sat ctx.requested_sat in
    let e = max_request fl cfg ctx.net_key balance ctx.now horizon db in
    ((λ h. rw e (m.1 (d.0 h.0, s.0 h.1))), λ h. let q = m.0 (rw e at h) in (d.1 q.0, s.1 q.1))

-- With the balance known, one of the two amount rules on and a share of at most the whole, a
-- request that the rules let through asks for at most the balance.
pub accepted-le-balance :
    (fl : Float) (laws : FloatLaws fl) (cfg : FaucetCfg fl) (ctx : RuleContext) (b : ℕ)
    (horizon : fl.Carrier) (db : Database)
    → b < 2 ^ 53
    → FLe fl cfg.balance_cap_fraction (fl.of_nat 1)
    → (cfg.max_amount_per_day ≡ true) ⊎ (cfg.per_request_balance_cap ≡ true)
    → ctx.limits ≡ compute_limits fl cfg ctx.net_key (some b) ctx.now horizon db
    → evaluate fl cfg ctx db ≡ []
    → ctx.requested_sat ≤ b
unfolding compute_limits
accepted-le-balance fl laws cfg ctx b horizon db small share on same h =
    let p = (evaluate-Permits fl cfg ctx db).0 h in
    let le = compute_limits-le fl laws cfg ctx.net_key b ctx.now horizon db small share in
    elim on [
      | inl daily ↦
          let cap = daily_cap fl ctx.net_key b ctx.now horizon db in
          let e : ctx.limits.daily_cap_sat ≡ some cap = ground arith in
          omega (arith, p.daily_maximum daily cap e, le.0 cap (ground arith))
      | inr part ↦
          let cap = fl.trunc (fl.mul (fl.of_nat b) cfg.balance_cap_fraction) in
          let e : ctx.limits.balance_cap_sat ≡ some cap = ground arith in
          omega (arith, p.balance_share part cap e, le.1 cap (ground arith))
    ]
