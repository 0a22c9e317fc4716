-- ===== src/Faucet/Amount/Exact.antt =====
-- `_btc_to_sats` of argus/faucet/app.py on amounts of up to twenty digits.
use native.Mathlib.Numerals.{towards_suc}
use native.Mathlib.Nat.{
  pow-suc, mul-mod_right, div-add-mod, mod-one, div-one, zero-mod, zero-div, mod-eq_of_lt,
  div-eq_of_lt, pow-le-pow_right,
}
use bitcoin_argus.Common.{
  ℕ, zero, suc, ◌+◌, ◌-◌, ◌*◌, ◌/◌, ◌%◌, ◌^◌, ◌≤◌, ◌<◌, ◌≡◌, ◌≢◌, refl, ap, ◌∙◌, inl, inr, false,
  arith, ltb, Bool-cases,
}
use bitcoin_argus.Faucet.Amount.{
  decimals, finite, rejected, sats, count_digits, integral, scaled, btc_to_sats, round_half_even,
  raise_exponent, fitted, max_decimals,
}

count_digits-le : (f n k : ℕ) → n < 10 ^ suc k → count_digits f n ≤ suc k
unfolding count_digits
count_digits-le zero n k h = omega arith
count_digits-le (suc f) n zero h = ground arith
count_digits-le (suc f) n (suc k) h = elim (Bool-cases (ltb n 10)) [
  | inl e ↦ rw e (omega arith)
  | inr e ↦ rw e (omega (arith, pow-suc 10 (suc k), count_digits-le f (n / 10) k))
]

-- Scaling by 10^8 clears up to eight decimals.
scale_up :
    (c k : ℕ)
    → k ≤ 8
    → (c * 100_000_000 % 10 ^ k ≡ 0) × (c * 100_000_000 / 10 ^ k ≡ c * 10 ^ (8 - k))
scale_up c zero h = omega arith
scale_up c (suc zero) h = omega arith
scale_up c (suc (suc zero)) h = omega arith
scale_up c (suc (suc (suc zero))) h = omega arith
scale_up c (suc (suc (suc (suc zero)))) h = omega arith
scale_up c (suc (suc (suc (suc (suc zero))))) h = omega arith
scale_up c (suc (suc (suc (suc (suc (suc zero)))))) h = omega arith
scale_up c (suc (suc (suc (suc (suc (suc (suc zero))))))) h = omega arith
scale_up c (suc (suc (suc (suc (suc (suc (suc (suc zero)))))))) h = omega arith
scale_up c (suc (suc (suc (suc (suc (suc (suc (suc (suc k))))))))) h = absurd (omega arith)

pow-eight : (j : ℕ) → 10 ^ (j + 8) ≡ 100_000_000 * 10 ^ j
pow-eight j = simp towards_suc (simp pow-suc (omega arith))

-- Scaling clears no more than eight.
scale_short : (c j : ℕ) → c % 10 ^ j ≢ 0 → c * 100_000_000 % 10 ^ (j + 8) ≢ 0
scale_short c j h e =
    let m = 10 ^ j in
    let q = c * 100_000_000 / 10 ^ (j + 8) in
    let d = div-add-mod (c * 100_000_000) (10 ^ (j + 8)) in
    let p : 100_000_000 * m * q ≡ c * 100_000_000 = rw (← pow-eight j) (omega (arith, d, e)) in
    let f : c ≡ m * q = omega (arith, p) in h (ap (λ x. x % m) f ∙ mul-mod_right m q)

round_half_even_zero : (n : ℕ) → round_half_even n 0 ≡ n
unfolding round_half_even
round_half_even_zero n = ground arith

-- What is less than half of the last digit that is kept is rounded away.
round_half_even-small : (n k : ℕ) → 2 * n < 10 ^ k → round_half_even n k ≡ 0
unfolding round_half_even
round_half_even-small n k h =
    let r : n % 10 ^ k ≡ n = mod-eq_of_lt (omega (arith, h)) in
    let q : n / 10 ^ k ≡ 0 = div-eq_of_lt (omega (arith, h)) in ground (arith, r, q)

integral-raise_zero :
    (n k : ℕ) → integral n (raise_exponent (decimals k) 0) ≡ integral n (decimals k)
integral-raise_zero n zero = ground (arith, mod-one n, div-one n)
integral-raise_zero n (suc k) = ground arith

integral_zero : (k : ℕ) → integral 0 (decimals k) ≡ sats 0
integral_zero k = ground (arith, zero-mod (10 ^ k), zero-div (10 ^ k))

fitted_whole : (n k : ℕ) → count_digits n n ≤ 28 → fitted n (decimals k) 0 ≡ integral n (decimals k)
unfolding fitted
fitted_whole n k few = rw (round_half_even_zero n) (ground (arith, few, integral-raise_zero n k))

fitted_tiny : (n k s : ℕ) → 2 * n < 10 ^ s → s < k → fitted n (decimals k) s ≡ sats 0
unfolding fitted
fitted_tiny n k s small below =
    rw (round_half_even-small n s small) (ground (arith, integral_zero (k - s)))

module _ (c : ℕ) (some_digit : c ≢ 0) (short : c < 10 ^ 20) where
  digits_few : count_digits (c * 100_000_000) (c * 100_000_000) ≤ 28
  digits_few = count_digits-le (c * 100_000_000) (c * 100_000_000) 27 (omega arith)

  scaled-fitted :
      (k s : ℕ)
      → s ≡ k - max_decimals
      → scaled c (decimals k) ≡ fitted (c * 100_000_000) (decimals k) s
  unfolding scaled
  scaled-fitted k s e = ap (fitted (c * 100_000_000) (decimals k)) (omega (arith, digits_few, e))

  exact_scaled :
      (k : ℕ) → k ≤ max_decimals → scaled c (decimals k) ≡ integral (c * 100_000_000) (decimals k)
  exact_scaled k l =
      scaled-fitted k 0 (omega (arith, l)) ∙ fitted_whole (c * 100_000_000) k digits_few

  tiny_scaled : (k : ℕ) → max_decimals + 28 < k → scaled c (decimals k) ≡ sats 0
  tiny_scaled k l =
      let s = k - max_decimals in
      let big : 10 ^ 29 ≤ 10 ^ s =
        pow-le-pow_right {n = 10} (omega arith) {i = 29} (omega (arith, l)) in
      scaled-fitted k s refl
      ∙ fitted_tiny (c * 100_000_000) k s (omega (arith, big)) (omega (arith, l))

  -- An amount of up to twenty digits and at most eight decimals is worth exactly its satoshis; one of up
  -- to twenty digits that has a fraction of a satoshi is rejected if it has no more decimals than the
  -- context of the products; and one of more than 1,000,054 decimals is read as no satoshis at all.
  pub btc_to_sats_exact :
      ((k : ℕ) → k ≤ 8 → btc_to_sats (finite false c (decimals k)) ≡ sats (c * 10 ^ (8 - k)))
      × ((j : ℕ)
          → j + 8 ≤ max_decimals
          → c % 10 ^ j ≢ 0
          → btc_to_sats (finite false c (decimals (j + 8))) ≡ rejected)
      × ((k : ℕ) → max_decimals + 28 < k → btc_to_sats (finite false c (decimals k)) ≡ sats 0)
  unfolding btc_to_sats
  btc_to_sats_exact = (
    λ k l. ground (arith, exact_scaled k (omega (arith, l)), scale_up c k l),
    λ j few r. ground (arith, exact_scaled (j + 8) few, scale_short c j r),
    λ k l. ground (arith, tiny_scaled k l),
  )
