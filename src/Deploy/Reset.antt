-- ===== src/Deploy/Reset.antt =====
-- The estimates of when a mined network is reset (argus/reset.py), which the dashboard shows and the
-- faucet plans with.
use bitcoin_argus.Common.{
  ℕ, ◌+◌, ◌-◌, ◌*◌, ◌/◌, ◌%◌, ◌≤◌, ◌<◌, ◌≡◌, ◌↔◌, ◌⊎◌, refl, inl, inr, Bool, true, false, Option,
  none, some, arith, ltb, leb, ◌==◌, if◌then◌else◌, Bool-cases, Option-cases,
}
use bitcoin_argus.Common.Float.{Float, FloatLaws, FLe, fmin, le_refl}

abbrev pub max_block_bytes : ℕ
max_block_bytes = 4_000_000

module _ (fl : Float) where
  open fl use {Carrier, of_nat, lt, ratio, mul, div, trunc}

  unfoldable pub growth_bytes_per_second : ℕ → Carrier
  growth_bytes_per_second block_interval_seconds =
      if block_interval_seconds == 0 then of_nat 0 else ratio max_block_bytes block_interval_seconds

  unfoldable pub seconds_until_reset : Option ℕ → ℕ → ℕ → Option Carrier
  unfolding growth_bytes_per_second
  seconds_until_reset none limit_bytes interval = none
  seconds_until_reset (some size) limit_bytes interval =
      let rate = growth_bytes_per_second interval in
      if limit_bytes == 0
      then none
      else if leb limit_bytes size
      then some (of_nat 0)
      else if lt (of_nat 0) rate
      then some (div (of_nat (limit_bytes - size)) rate)
      else none

  -- `fill_fraction` is FAUCET_CAP_FILL_FRACTION at its only call.
  unfoldable pub reset_interval_seconds : ℕ → ℕ → Carrier → Option Carrier
  unfolding growth_bytes_per_second
  reset_interval_seconds limit_bytes interval fill_fraction =
      let rate = mul (growth_bytes_per_second interval) fill_fraction in
      if limit_bytes == 0
      then none
      else if lt (of_nat 0) rate
      then some (div (of_nat limit_bytes) rate)
      else none

  -- FAUCET_CAP_MAX_HORIZON_DAYS and FAUCET_CAP_FILL_FRACTION (argus/constants.py).
  abbrev pub max_horizon_days : Carrier
  max_horizon_days = of_nat 365

  abbrev pub cap_fill_fraction : Carrier
  cap_fill_fraction = ratio 1 10

  unfoldable pub faucet_cap_horizon_days : Bool → ℕ → ℕ → Carrier
  unfolding reset_interval_seconds
  faucet_cap_horizon_days false limit_bytes interval = max_horizon_days
  faucet_cap_horizon_days true limit_bytes interval =
      elim (reset_interval_seconds limit_bytes interval cap_fill_fraction) [
        | none ↦ max_horizon_days
        | some seconds ↦ fmin fl max_horizon_days (div seconds (of_nat 86_400))
      ]

  -- The horizon is a year at most, and a year for a network that is not reset or whose growth is not
  -- known.
  pub faucet_cap_horizon_days_bounds :
      FloatLaws fl
      → (enabled : Bool) (limit_bytes interval : ℕ)
      → FLe fl (faucet_cap_horizon_days enabled limit_bytes interval) (of_nat 365)
        × (((enabled ≡ false) ⊎ (limit_bytes ≡ 0))
            → faucet_cap_horizon_days enabled limit_bytes interval ≡ of_nat 365)
  unfolding faucet_cap_horizon_days
  faucet_cap_horizon_days_bounds laws false limit_bytes interval =
      (le_refl fl laws (of_nat 365), λ h. refl)
  faucet_cap_horizon_days_bounds laws true limit_bytes interval =
      elim (Option-cases (reset_interval_seconds limit_bytes interval cap_fill_fraction)) [
        | inl e ↦ (ground (arith, le_refl fl laws (of_nat 365)), ground arith)
        | inr (s, e) ↦ (
          ground (
            arith,
            laws.lt_asym (div s (of_nat 86_400)) (of_nat 365),
            le_refl fl laws (of_nat 365),
          ),
          ground arith,
        )
      ]

  -- For a known size there is no estimate exactly when the cap is zero, or when the chain is below its
  -- cap and its growth is not positive.
  pub seconds_until_reset-none_iff :
      (size limit_bytes interval : ℕ)
      → (seconds_until_reset (some size) limit_bytes interval ≡ none) ↔ (
          (limit_bytes ≡ 0)
          ⊎ ((size < limit_bytes) × (lt (of_nat 0) (growth_bytes_per_second interval) ≡ false)))
  unfolding seconds_until_reset growth_bytes_per_second
  seconds_until_reset-none_iff size limit_bytes interval = ground arith

-- `format_reset_eta`, by what the text says.
pub data Eta : Type 0 where
  imminent : Eta
  days_hours hours_minutes : ℕ → ℕ → Eta
  minutes_only : ℕ → Eta

-- The seconds are those that `int` has cut off.
unfoldable pub format_reset_eta : Option ℕ → Option Eta
format_reset_eta none = none
format_reset_eta (some seconds) =
    let days = seconds / 86400 in
    let hours = seconds % 86400 / 3600 in
    let minutes = seconds % 3600 / 60 in
    some (
      if seconds == 0
      then imminent
      else if ltb 0 days
      then days_hours days hours
      else if ltb 0 hours
      then hours_minutes hours minutes
      else minutes_only minutes)

-- The seconds that a text stands for, and how much it leaves out at most.
abbrev pub shown_seconds : Eta → ℕ
shown_seconds imminent = 0
shown_seconds (days_hours d h) = d * 86400 + h * 3600
shown_seconds (hours_minutes h m) = h * 3600 + m * 60
shown_seconds (minutes_only m) = m * 60

abbrev pub unit_seconds : Eta → ℕ
unit_seconds imminent = 1
unit_seconds (days_hours d h) = 3600
unit_seconds (hours_minutes h m) = 60
unit_seconds (minutes_only m) = 60

-- The text of a countdown is exact but for less than one of its smaller unit, an hour for days and
-- hours and a minute otherwise, which it leaves out.
pub format_reset_eta_close :
    (seconds : ℕ) (eta : Eta)
    → format_reset_eta (some seconds) ≡ some eta
    → (shown_seconds eta ≤ seconds) × (seconds < shown_seconds eta + unit_seconds eta)
unfolding format_reset_eta
format_reset_eta_close seconds eta h = elim (Bool-cases (seconds == 0)) [
  | inl z ↦ let e : imminent ≡ eta = ground arith in rw (← e) (ground arith)
  | inr z ↦ elim (Bool-cases (ltb 0 (seconds / 86400))) [
    | inl d ↦
        let e : days_hours (seconds / 86400) (seconds % 86400 / 3600) ≡ eta = ground arith in
        rw (← e) (omega arith, omega arith)
    | inr d ↦ elim (Bool-cases (ltb 0 (seconds % 86400 / 3600))) [
      | inl m ↦
          let e : hours_minutes (seconds % 86400 / 3600) (seconds % 3600 / 60) ≡ eta =
            ground arith in
          rw (← e) (ground arith)
      | inr m ↦
          let e : minutes_only (seconds % 3600 / 60) ≡ eta = ground arith in rw (← e) (ground arith)
    ]
  ]
]
