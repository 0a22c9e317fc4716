-- ===== src/Faucet/Pow/Target.antt =====
-- The difficulty of a request: argus/faucet/pow.py, from `is_value_pegged` to `effective_ttl`.
use bitcoin_argus.Common.{
  ℕ, ◌-◌, ◌*◌, ◌^◌, ◌<◌, max, min, String, ◌≡◌, ◌↔◌, refl, inl, inr, Bool, true, Option, none, some,
  arith, ◌==◌, if◌then◌else◌, str_eq, Bool-cases, Option-cases,
}
use bitcoin_argus.Common.Float.{Float, FloatLaws, FLe, fmin, fmax, le_refl}
use bitcoin_argus.Faucet.Config.{Algorithm, yespower, sha256d, PowCfg}

-- `net_key in VALUE_NETWORKS`
abbrev pub is_value_network : String → Bool
is_value_network net_key = str_eq net_key "testnet3"

module _ (fl : Float) where
  open fl use {Carrier, of_nat, lt, mul, ratio, div, add, sub, trunc, ceil}

  unfoldable pub is_value_pegged : PowCfg fl → String → Bool
  is_value_pegged cfg net_key = elim cfg.value_pegged [
    | none ↦ is_value_network net_key
    | some b ↦ b
  ]

  unfoldable pub max_per_day : PowCfg fl → String → ℕ
  unfolding is_value_pegged
  max_per_day cfg net_key = elim cfg.max_per_day [
    | none ↦ if is_value_pegged cfg net_key then 1 else 0
    | some n ↦ n
  ]

  unfoldable pub reference_hps : PowCfg fl → Algorithm → Carrier
  reference_hps cfg yespower = cfg.reference_yespower_hps
  reference_hps cfg sha256d = cfg.reference_sha256d_hps

  unfoldable pub clamp : Carrier → Carrier → Carrier → Carrier
  clamp value lo hi = fmax fl lo (fmin fl hi value)

  -- The value-pegged branch, for a subsidy that is positive.
  unfoldable pub value_seconds : PowCfg fl → ℕ → ℕ → Carrier
  unfolding clamp
  value_seconds cfg amount_sat subsidy =
      let sha_hashes = ratio (amount_sat * 2 ^ 32) subsidy in
      let seconds = div (mul cfg.value_safety_factor sha_hashes) cfg.reference_sha256d_hps in
      let capped = fmin fl seconds cfg.value_cap_seconds in
      clamp capped cfg.min_seconds cfg.value_cap_seconds

  -- The factor by which the balance anchor makes the work harder.
  unfoldable pub anchor_factor : PowCfg fl → Option ℕ → Carrier → Carrier
  unfolding clamp
  anchor_factor cfg none seconds = seconds
  anchor_factor cfg (some balance) seconds =
      if cfg.balance_anchor
      then mul seconds (
          add (of_nat 1) (
            mul (sub cfg.balance_max_mult (of_nat 1))
              (sub (of_nat 1) (clamp (ratio balance cfg.balance_full_sat) (of_nat 0) (of_nat 1)))))
      else seconds

  unfoldable pub demand_factor : PowCfg fl → ℕ → Carrier → Carrier
  unfolding clamp
  demand_factor cfg claims_today seconds =
      if cfg.demand_retarget
      then mul seconds
          (clamp (ratio claims_today cfg.demand_target_per_day) (of_nat 1) cfg.demand_max_mult)
      else seconds

  unfoldable pub flat_seconds : PowCfg fl → ℕ → Option ℕ → ℕ → Carrier
  unfolding clamp anchor_factor demand_factor
  flat_seconds cfg amount_sat balance_sat claims_today =
      let base = div (mul cfg.seconds_per_100k (of_nat amount_sat)) (of_nat 100_000) in
      clamp (demand_factor cfg claims_today (anchor_factor cfg balance_sat base)) cfg.min_seconds
        cfg.max_seconds

  unfoldable pub compute_target_seconds :
      PowCfg fl → String → ℕ → Option ℕ → ℕ → Option ℕ → Option Carrier
  unfolding is_value_pegged value_seconds flat_seconds
  compute_target_seconds cfg net_key amount_sat balance_sat claims_today subsidy_sat =
      if is_value_pegged cfg net_key
      then elim subsidy_sat [
        | none ↦ none
        | some subsidy ↦ if subsidy == 0 then none else some (value_seconds cfg amount_sat subsidy)
      ]
      else some (flat_seconds cfg amount_sat balance_sat claims_today)

  -- `(threshold_int, expected_hashes)`
  unfoldable pub seconds_to_target : Carrier → Carrier → ℕ × Carrier
  seconds_to_target seconds hps =
      let expected = fmax fl (of_nat 1) (mul seconds hps) in
      (min (trunc (div (of_nat (2 ^ 256)) expected)) (2 ^ 256 - 1), expected)

  unfoldable pub effective_ttl : Carrier → ℕ → ℕ
  effective_ttl target_seconds ttl_seconds = max ttl_seconds (ceil (mul (of_nat 2) target_seconds))

-- A clamped value lies between the bounds.
clamp_bounds :
    (fl : Float)
    → FloatLaws fl
    → (v lo hi : fl.Carrier) → FLe fl lo hi
    → FLe fl lo (clamp fl v lo hi) × FLe fl (clamp fl v lo hi) hi
unfolding clamp
clamp_bounds fl laws v lo hi h = ground (
  arith,
  laws.lt_asym v hi,
  laws.lt_asym lo v,
  laws.lt_asym lo hi,
  le_refl fl laws lo,
  le_refl fl laws hi,
)

-- A target is offered exactly where the regime has what it needs: always in the flat regime, and in
-- the value-pegged regime if a positive block subsidy is known.
pub compute_target_seconds-none_iff :
    (fl : Float) (cfg : PowCfg fl) (net : String) (amount : ℕ) (balance : Option ℕ) (claims : ℕ)
    (subsidy : Option ℕ)
    → (compute_target_seconds fl cfg net amount balance claims subsidy ≡ none)
      ↔ ((is_value_pegged fl cfg net ≡ true) × ((s : ℕ) → subsidy ≡ some s → s ≡ 0))
unfolding compute_target_seconds
compute_target_seconds-none_iff fl cfg net amount balance claims none =
    ((λ h. (ground arith, λ s e. cc)), λ h. ground arith)
compute_target_seconds-none_iff fl cfg net amount balance claims (some s) =
    ((λ h. (ground arith, λ s' e. ground arith)), λ h. ground (arith, h.1 s refl))

-- The seconds of a target lie between the configured bounds: the minimum, and the maximum of the
-- regime. The maximum must not be below the minimum.
pub compute_target_seconds_bounds :
    (fl : Float) (laws : FloatLaws fl) (cfg : PowCfg fl) (net : String) (amount : ℕ)
    (balance : Option ℕ) (claims : ℕ) (subsidy : Option ℕ) (seconds : fl.Carrier)
    → compute_target_seconds fl cfg net amount balance claims subsidy ≡ some seconds
    → let highest = if is_value_pegged fl cfg net then cfg.value_cap_seconds else cfg.max_seconds in
      FLe fl cfg.min_seconds highest → FLe fl cfg.min_seconds seconds × FLe fl seconds highest
unfolding compute_target_seconds value_seconds flat_seconds
compute_target_seconds_bounds fl laws cfg net amount balance claims subsidy seconds e h =
    elim (Bool-cases (is_value_pegged fl cfg net)) [
      | inl pegged ↦ elim (Option-cases subsidy) [
        | inl missing ↦ absurd (ground arith)
        | inr (s, known) ↦
            let capped =
              fmin fl
                (fl.div (fl.mul cfg.value_safety_factor (fl.ratio (amount * 2 ^ 32) s))
                  cfg.reference_sha256d_hps)
                cfg.value_cap_seconds in
            ground (
              arith,
              clamp_bounds fl laws capped cfg.min_seconds cfg.value_cap_seconds (ground arith),
            )
      ]
      | inr flat ↦
          let base = fl.div (fl.mul cfg.seconds_per_100k (fl.of_nat amount)) (fl.of_nat 100_000) in
          let scaled = demand_factor fl cfg claims (anchor_factor fl cfg balance base) in
          ground (arith, clamp_bounds fl laws scaled cfg.min_seconds cfg.max_seconds (ground arith))
    ]

-- The threshold is a 256-bit number, the expected work at least one hash and at least the seconds
-- at the reference rate.
pub seconds_to_target_bounds :
    (fl : Float) (laws : FloatLaws fl) (seconds hps : fl.Carrier)
    → let (target, expected) = seconds_to_target fl seconds hps in
      (target < 2 ^ 256) × FLe fl (fl.of_nat 1) expected × FLe fl (fl.mul seconds hps) expected
unfolding seconds_to_target
seconds_to_target_bounds fl laws seconds hps = (
  omega arith,
  ground (arith, laws.lt_asym (fl.of_nat 1) (fl.mul seconds hps), le_refl fl laws (fl.of_nat 1)),
  ground (arith, le_refl fl laws (fl.mul seconds hps)),
)
