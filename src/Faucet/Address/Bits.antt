-- ===== src/Faucet/Address/Bits.antt =====
-- The regrouping of bits of a SegWit program and the bytes of a base-58 number (`_convertbits` and
-- `_base58check_version` of argus/faucet/addresses.py).
use bitcoin_argus.Common.{
  ℕ, zero, suc, ◌+◌, ◌-◌, ◌*◌, ◌/◌, ◌%◌, ◌^◌, ◌≤◌, ◌<◌, ◌≡◌, refl, some, List, [], ◌∷◌, ◌++◌, arith,
  inl, inr, Bool-cases, Option-cases, All, ltb, ◌==◌,
}
use bitcoin_argus.Faucet.Address.{drain, convert_loop, convertbits, to_bytes}

-- The number that big-endian digits spell, after those that spell `n`.
unfoldable pub number : ℕ → ℕ → List ℕ → ℕ
number base n [] = n
number base n (d ∷ ds) = number base (n * base + d) ds

number-append :
    (base n : ℕ) (ds : List ℕ) (d : ℕ) → number base n (ds ++ d ∷ []) ≡ number base n ds * base + d
unfolding number
number-append base n [] d = refl
number-append base n (e ∷ ds) d = number-append base (n * base + e) ds d

bytes-append :
    (ds : List ℕ) (d : ℕ) → d < 256 → All (λ b. b < 256) ds → All (λ b. b < 256) (ds ++ d ∷ [])
bytes-append [] d h hs = (h, tt)
bytes-append (e ∷ ds) d h hs = (hs.0, bytes-append ds d h hs.1)

-- The groups spell the accumulator but for its last bits.
record Grouped (acc bits : ℕ) (ret : List ℕ) : Type 0 where
  pub few : bits < 8
  pub spelled : number 256 0 ret ≡ acc / 2 ^ bits
  pub bytes : All (λ b. b < 256) ret

step-Grouped :
    (acc bits v : ℕ) (ret : List ℕ)
    → v < 32
    → Grouped acc bits ret
    → let r = drain (bits + 5) (acc * 32 + v) (bits + 5) 8 ret in Grouped (acc * 32 + v) r.0 r.1
unfolding drain
step-Grouped acc zero v ret h g = record {
  few = omega arith;
  spelled = omega (arith, g.spelled, h);
  bytes = g.bytes;
}
step-Grouped acc (suc zero) v ret h g = record {
  few = omega arith;
  spelled = omega (arith, g.spelled, h);
  bytes = g.bytes;
}
step-Grouped acc (suc (suc zero)) v ret h g = record {
  few = omega arith;
  spelled = omega (arith, g.spelled, h);
  bytes = g.bytes;
}
step-Grouped acc (suc (suc (suc zero))) v ret h g = record {
  few = omega arith;
  spelled = omega (arith, g.spelled, h, number-append 256 0 ret ((acc * 32 + v) / 1 % 256));
  bytes = bytes-append ret _ (omega arith) g.bytes;
}
step-Grouped acc (suc (suc (suc (suc zero)))) v ret h g = record {
  few = omega arith;
  spelled = omega (arith, g.spelled, h, number-append 256 0 ret ((acc * 32 + v) / 2 % 256));
  bytes = bytes-append ret _ (omega arith) g.bytes;
}
step-Grouped acc (suc (suc (suc (suc (suc zero))))) v ret h g = record {
  few = omega arith;
  spelled = omega (arith, g.spelled, h, number-append 256 0 ret ((acc * 32 + v) / 4 % 256));
  bytes = bytes-append ret _ (omega arith) g.bytes;
}
step-Grouped acc (suc (suc (suc (suc (suc (suc zero)))))) v ret h g = record {
  few = omega arith;
  spelled = omega (arith, g.spelled, h, number-append 256 0 ret ((acc * 32 + v) / 8 % 256));
  bytes = bytes-append ret _ (omega arith) g.bytes;
}
step-Grouped acc (suc (suc (suc (suc (suc (suc (suc zero))))))) v ret h g = record {
  few = omega arith;
  spelled = omega (arith, g.spelled, h, number-append 256 0 ret ((acc * 32 + v) / 16 % 256));
  bytes = bytes-append ret _ (omega arith) g.bytes;
}
step-Grouped acc (suc (suc (suc (suc (suc (suc (suc (suc bits)))))))) v ret h g =
    absurd (omega (arith, g.few))

loop-Grouped :
    (values : List ℕ) (acc bits : ℕ) (ret : List ℕ) (acc' bits' : ℕ) (ret' : List ℕ)
    → Grouped acc bits ret
    → convert_loop values 5 8 acc bits ret ≡ some (acc', bits', ret')
    → Grouped acc' bits' ret' × (acc' ≡ number 32 acc values)
unfolding convert_loop number
loop-Grouped [] acc bits ret acc' bits' ret' g h =
    let a : acc ≡ acc' = ground arith in
    let b : bits ≡ bits' = ground arith in
    let r : ret ≡ ret' = ground arith in rw (← a, ← b, ← r) (g, refl)
loop-Grouped (v ∷ vs) acc bits ret acc' bits' ret' g h = elim (Bool-cases (ltb v 32)) [
  | inr big ↦ absurd (ground arith)
  | inl small ↦
      let r = drain (bits + 5) (acc * 32 + v) (bits + 5) 8 ret in
      let step = step-Grouped acc bits v ret (ground arith) g in
      loop-Grouped vs (acc * 32 + v) r.0 r.1 acc' bits' ret' step (ground arith)
]

-- At most four bits are left, and they are zero.
leftover_zero :
    (acc bits : ℕ) → bits < 5 → acc * 2 ^ (8 - bits) % 256 ≡ 0 → acc ≡ acc / 2 ^ bits * 2 ^ bits
leftover_zero acc zero h z = omega arith
leftover_zero acc (suc zero) h z = omega (arith, z)
leftover_zero acc (suc (suc zero)) h z = omega (arith, z)
leftover_zero acc (suc (suc (suc zero))) h z = omega (arith, z)
leftover_zero acc (suc (suc (suc (suc zero)))) h z = omega (arith, z)
leftover_zero acc (suc (suc (suc (suc (suc bits))))) h z = absurd (omega (arith, h))

-- When the symbols of a program are regrouped, the bytes spell in base 256 the number that the symbols
-- spell in base 32, but for at most four zero bits at its end.
pub convertbits_exact :
    (values ret : List ℕ)
    → convertbits values 5 8 ≡ some ret
    → All (λ b. b < 256) ret
      × ((left : ℕ) × (left < 5) × (number 32 0 values ≡ number 256 0 ret * 2 ^ left))
unfolding convertbits number
convertbits_exact values ret h = elim (Option-cases (convert_loop values 5 8 0 0 [])) [
  | inl e ↦ absurd (ground arith)
  | inr ((acc, bits, groups), e) ↦
      let start : Grouped 0 0 [] = record { few = omega arith; spelled = refl; bytes = tt } in
      let g = loop-Grouped values 0 0 [] acc bits groups start e in
      let kept : groups ≡ ret = ground arith in
      let few : bits < 5 = ground arith in
      let zeros : acc * 2 ^ (8 - bits) % 256 ≡ 0 = ground arith in
      let s = g.0.spelled in
      let a = leftover_zero acc bits few zeros in
      (rw (← kept) g.0.bytes, (bits, few, rw (← kept, ← g.1, s) a))
]

number-to_bytes_onto :
    (f num : ℕ) (rest : List ℕ) → num ≤ f → number 256 0 (to_bytes f num rest) ≡ number 256 num rest
unfolding to_bytes number
number-to_bytes_onto zero num rest h = let e : num ≡ 0 = omega (arith, h) in rw (e)
number-to_bytes_onto (suc f) num rest h = elim (Bool-cases (num == 0)) [
  | inl z ↦ let e : num ≡ 0 = ground arith in rw (e)
  | inr p ↦
      let step = number-to_bytes_onto f (num / 256) (num % 256 ∷ rest) (ground arith) in
      let whole : num / 256 * 256 + num % 256 ≡ num = omega arith in rw (p, step, whole)
]

-- The bytes of a number spell it, so the number is fuel enough for them.
pub number-to_bytes : (num : ℕ) → number 256 0 (to_bytes num num []) ≡ num
unfolding number
number-to_bytes num = number-to_bytes_onto num num [] (omega arith)
