-- ===== src/Faucet/Amount.antt =====
-- The amount of a request: `_btc_to_sats` of argus/faucet/app.py, on the numbers
-- that Python's `Decimal` reads from a text. A product is rounded to the 28 digits of the default
-- context, and to its smallest exponent, half to even; it raises Overflow above the largest exponent,
-- while an underflow to 0 is not an exception.
pub mod Exact
use bitcoin_argus.Common.{
  ℕ, zero, suc, ◌+◌, ◌-◌, ◌*◌, ◌/◌, ◌%◌, ◌^◌, max, Bool, true, false, ◌&&◌, ◌||◌, ltb, leb, ◌==◌,
  if◌then◌else◌,
}

-- The exponent of ten of a number: `tens k` is 10^k, `decimals k` is 10^-k.
pub data Exponent : Type 0 where
  tens : ℕ → Exponent
  decimals : ℕ → Exponent

-- What `Decimal(text)` may be, if it does not raise.
pub data Decimal : Type 0 where
  finite : Bool → ℕ → Exponent → Decimal
  infinite : Decimal
  not_a_number : Decimal

-- What `_btc_to_sats` does with a number: None, a count of satoshis, or an exception.
pub data Conversion : Type 0 where
  rejected : Conversion
  sats : ℕ → Conversion
  overflow : Conversion

abbrev pub precision : ℕ
precision = 28

abbrev pub max_exponent : ℕ
max_exponent = 999_999

-- No number of the context has more decimals: `Etiny` is the negative of this.
abbrev pub max_decimals : ℕ
max_decimals = 1_000_026

-- The number of decimal digits, with fuel; the number itself is fuel enough.
unfoldable pub count_digits : ℕ → ℕ → ℕ
count_digits zero n = 1
count_digits (suc f) n = let rest = count_digits f (n / 10) in if ltb n 10 then 1 else suc rest

-- `n / 10^k`, rounded half to even.
unfoldable pub round_half_even : ℕ → ℕ → ℕ
round_half_even n k =
    let q = n / 10 ^ k in
    let r = n % 10 ^ k in
    if ltb (2 * r) (10 ^ k)
    then q
    else if ltb (10 ^ k) (2 * r)
    then q + 1
    else if q % 2 == 0
    then q
    else q + 1

-- The exponent after `k` digits were rounded away.
abbrev pub raise_exponent : Exponent → ℕ → Exponent
raise_exponent (tens e) k = tens (e + k)
raise_exponent (decimals e) k = if leb e k then tens (k - e) else decimals (e - k)

-- `digits + exponent - 1 > max_exponent`: the product is too large.
abbrev pub too_large : ℕ → Exponent → Bool
too_large digits (tens e) = ltb (max_exponent + 1) (digits + e)
too_large digits (decimals e) = ltb (max_exponent + 1 + e) digits

-- How many decimals are below the smallest exponent.
abbrev pub below_tiny : Exponent → ℕ
below_tiny (tens e) = 0
below_tiny (decimals e) = e - max_decimals

-- `int(x)` of an integral number, and None for one that is not.
abbrev pub integral : ℕ → Exponent → Conversion
integral c (tens e) = sats (c * 10 ^ e)
integral c (decimals e) = if c % 10 ^ e == 0 then sats (c / 10 ^ e) else rejected

-- A product that is rounded by so many digits, and the test that it is integral.
unfoldable pub fitted : ℕ → Exponent → ℕ → Conversion
unfolding count_digits round_half_even
fitted product e surplus =
    let rounded = round_half_even product surplus in
    let exponent = raise_exponent e surplus in
    if too_large (count_digits rounded rounded) exponent
    then overflow
    else integral rounded exponent

-- `amount * 100_000_000`: the digits beyond the precision and those below the smallest exponent go.
unfoldable pub scaled : ℕ → Exponent → Conversion
unfolding count_digits fitted
scaled c e =
    let product = c * 100_000_000 in
    fitted product e (max (count_digits product product - precision) (below_tiny e))

unfoldable pub btc_to_sats : Decimal → Conversion
unfolding scaled
btc_to_sats infinite = rejected
btc_to_sats not_a_number = rejected
btc_to_sats (finite negative c e) = if negative || (c == 0) then rejected else scaled c e
