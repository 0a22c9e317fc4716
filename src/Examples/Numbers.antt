-- ===== src/Examples/Numbers.antt =====
-- The theorems about amounts, policies, subsidies, difficulties and addresses, at concrete ones.
use bitcoin_argus.Common.{
  ℕ, ◌+◌, ◌*◌, ◌^◌, ◌%◌, ◌-◌, ◌≤◌, ◌<◌, ◌≡◌, ◌≢◌, refl, true, false, Option, some, List, [], ◌∷◌,
  arith, All,
}
use bitcoin_argus.Faucet.Amount.{finite, decimals, sats, rejected, btc_to_sats, max_decimals}
use bitcoin_argus.Faucet.Amount.Exact.{btc_to_sats_exact}
use bitcoin_argus.Faucet.Approval.{ApprovalFunction}
use bitcoin_argus.Faucet.Address.{convertbits, codes, is_valid_segwit}
use bitcoin_argus.Faucet.Address.Bits.{number, convertbits_exact}
use bitcoin_argus.Examples.{address}

btc_to_sats_exact_example :
    ((k : ℕ) → k ≤ 8 → btc_to_sats (finite false 15 (decimals k)) ≡ sats (15 * 10 ^ (8 - k)))
    × ((j : ℕ)
        → j + 8 ≤ max_decimals
        → 15 % 10 ^ j ≢ 0
        → btc_to_sats (finite false 15 (decimals (j + 8))) ≡ rejected)
    × ((k : ℕ) → max_decimals + 28 < k → btc_to_sats (finite false 15 (decimals k)) ≡ sats 0)
btc_to_sats_exact_example = btc_to_sats_exact 15 (omega arith) (omega arith)

abbrev policies : List (ApprovalFunction ℕ)
policies = record { name = "a"; explanation = "One."; func = 1 } ∷ []

abbrev height : Option ℕ
height = some 4_000_000

convertbits_exact_example :
    All (λ b. b < 256) (255 ∷ [])
    × ((left : ℕ) × (left < 5) × (number 32 0 (31 ∷ 28 ∷ []) ≡ number 256 0 (255 ∷ []) * 2 ^ left))
unfolding convertbits
convertbits_exact_example = convertbits_exact (31 ∷ 28 ∷ []) (255 ∷ []) refl

segwit_address : is_valid_segwit (codes address) (codes "tb") ≡ true
unfolding is_valid_segwit
segwit_address = refl
