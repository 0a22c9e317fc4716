-- ===== src/Common/Float.antt =====
-- The floating-point numbers of the program, as an interface: a type with the operations that the
-- code uses, and the facts about IEEE doubles on which its bounds rest. The values are never NaN.
use native.Mathlib.Nat.{div-le_of_le-mul}
use bitcoin_argus.Common.{
  ℕ, ◌*◌, ◌/◌, ◌+◌, ◌-◌, ◌^◌, ◌≤◌, ◌<◌, ◌≡◌, Bool, true, false, arith, ltb, if◌then◌else◌,
}

pub record Float : Type 1 where
  pub Carrier : Type 0
  pub of_nat : ℕ → Carrier
  pub lt : Carrier → Carrier → Bool
  pub mul : Carrier → Carrier → Carrier
  -- `m / n` of two integers.
  pub ratio : ℕ → ℕ → Carrier
  pub div : Carrier → Carrier → Carrier
  pub add : Carrier → Carrier → Carrier
  pub sub : Carrier → Carrier → Carrier
  -- `int(x)`, `math.ceil(x)` and `round(x)` of a number that is not negative.
  pub trunc : Carrier → ℕ
  pub ceil : Carrier → ℕ
  pub round : Carrier → ℕ

module _ (fl : Float) where
  open fl use {Carrier, lt}

  -- Python's `min` and `max` keep the first argument unless the second is better.
  abbrev pub fmin : Carrier → Carrier → Carrier
  fmin a b = if lt b a then b else a

  abbrev pub fmax : Carrier → Carrier → Carrier
  fmax a b = if lt a b then b else a

  -- `a <= b`
  abbrev pub FLe : Carrier → Carrier → Type 0
  FLe a b = lt b a ≡ false

-- The order is asymmetric and total. A product with a factor of at most 1 and a quotient by a divisor
-- of at least 1 do not exceed the other operand, which holds for integers below 2^53 after rounding,
-- since they are doubles themselves and rounding is monotone.
pub record FloatLaws (fl : Float) : Type 0 where
  pub lt_asym : (a b : fl.Carrier) → fl.lt a b ≡ true → fl.lt b a ≡ false
  pub le_trans : (a b c : fl.Carrier) → FLe fl a b → FLe fl b c → FLe fl a c
  pub trunc-mul :
      (n : ℕ) (f : fl.Carrier)
      → n < 2 ^ 53
      → FLe fl f (fl.of_nat 1)
      → fl.trunc (fl.mul (fl.of_nat n) f) ≤ n
  pub trunc-div :
      (n : ℕ) (e : fl.Carrier)
      → n < 2 ^ 53
      → FLe fl (fl.of_nat 1) e
      → fl.trunc (fl.div (fl.of_nat n) e) ≤ n

pub le_refl : (fl : Float) → FloatLaws fl → (a : fl.Carrier) → FLe fl a a
le_refl fl laws a = ground (arith, laws.lt_asym a a)

-- Fixed point with six decimals: a number stands for its millionth part.
abbrev pub million : ℕ
million = 1_000_000

abbrev pub fixed_point : Float
fixed_point = record {
  Carrier = ℕ;
  of_nat = λ n. n * million;
  lt = ltb;
  mul = λ a b. a * b / million;
  ratio = λ m n. m * million / n;
  div = λ a b. a * million / b;
  add = λ a b. a + b;
  sub = λ a b. a - b;
  trunc = λ a. a / million;
  ceil = λ a. (a + 999_999) / million;
  round = λ a. (a + 500_000) / million;
}

fixed-mul : (n f : ℕ) → ltb (1 * million) f ≡ false → n * million * f / million / million ≤ n
fixed-mul n f h =
    let le : f ≤ million = ground arith in let p : n * f ≤ n * million = grind arith in omega arith

fixed-div : (n e : ℕ) → ltb e (1 * million) ≡ false → n * million * million / e / million ≤ n
fixed-div n e h =
    let le : million ≤ e = ground arith in
    let p : n * million ≤ n * e = grind arith in
    let q : n * million * million / e ≤ n * million = div-le_of_le-mul e (omega (arith, p)) in
    omega arith

pub fixed_point_laws : FloatLaws fixed_point
fixed_point_laws = record {
  lt_asym = λ a b h. ground arith;
  le_trans = λ a b c p q. ground arith;
  trunc-mul = λ n f small h. fixed-mul n f h;
  trunc-div = λ n e small h. fixed-div n e h;
}
