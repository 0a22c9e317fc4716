-- ===== src/Faucet/Address/Family.antt =====
-- Which chains accept one SegWit address (argus/faucet/addresses.py).
use bitcoin_argus.Common.{
  ℕ, ◌≡◌, true, List, some, arith, inl, inr, Option-cases, Bool-cases, codes_eq, codes_eq→eq,
}
use bitcoin_argus.Faucet.Address.{Decoded, bech32_decode, is_valid_segwit}

segwit_hrp :
    (addr hrp : List ℕ)
    → is_valid_segwit addr hrp ≡ true
    → (d : Decoded) × (bech32_decode addr ≡ some d) × (d.hrp ≡ hrp)
unfolding is_valid_segwit
segwit_hrp addr hrp h = elim (Option-cases (bech32_decode addr)) [
  | inl e ↦ absurd (ground arith)
  | inr (d, e) ↦ elim (Bool-cases (codes_eq d.hrp hrp)) [
    | inl t ↦ (d, e, codes_eq→eq d.hrp hrp t)
    | inr t ↦ absurd (ground arith)
  ]
]

-- No SegWit address is valid for two human-readable prefixes, so none of one family of chains is
-- valid on a chain of another.
pub segwit_hrp_unique :
    (addr hrp hrp' : List ℕ)
    → is_valid_segwit addr hrp ≡ true
    → is_valid_segwit addr hrp' ≡ true
    → hrp ≡ hrp'
segwit_hrp_unique addr hrp hrp' h h' =
    let a = segwit_hrp addr hrp h in
    let b = segwit_hrp addr hrp' h' in
    let same : some a.0 ≡ some b.0 = cc in
    let d : a.0 ≡ b.0 = cc in let e : a.0.hrp ≡ b.0.hrp = rw (d) in cc
