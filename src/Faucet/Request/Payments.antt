-- ===== src/Faucet/Request/Payments.antt =====
-- What a request of argus/faucet/app.py pays and which payout it records, whatever it answers.
use bitcoin_argus.Common.{ℕ, String, ◌≡◌, ◌⊎◌, [], ◌∷◌, ◌++◌}
use bitcoin_argus.Common.Float.{Float}
use bitcoin_argus.Faucet.Config.{FaucetCfg}
use bitcoin_argus.Faucet.Amount.{sats}
use bitcoin_argus.Faucet.Request.{
  Services, Request, World, Outcome, invalid_address, crash, disapproved, payment_failure, payment,
  with_unseen, success, PowResult, Sending, sent, failed, raised, to_sats, record_success,
}

-- Nothing is paid and no payout is recorded.
abbrev Unpaid : World → World → Type 0
Unpaid w w' = (w'.paid ≡ w.paid) × (w'.db.payouts ≡ w.db.payouts)

-- One payment for a request of `amount` satoshis, with this id.
abbrev Paid : Request → ℕ → String → World → World → Type 0
Paid r amount txid w w' = w'.paid ≡ w.paid ++ payment r amount txid ∷ []

-- The payment of the amount was made or not, and no payout is recorded.
abbrev Unknown : Request → ℕ → World → World → Type 0
Unknown r amount w w' =
    ((w'.paid ≡ w.paid) ⊎ ((txid : String) × Paid r amount txid w w'))
    × (w'.db.payouts ≡ w.db.payouts)

-- What was paid for a request whose amount was read as `amount`, by its answer.
abbrev pub AccountedAt : ℕ → Request → World → Outcome × World → Type 0
AccountedAt amount r w (success txid a address, w') =
    (a ≡ amount) × (address ≡ r.address) × Paid r amount txid w w'
AccountedAt amount r w (payment_failure m, w') = Unknown r amount w w'
AccountedAt amount r w (invalid_address, w') = Unpaid w w'
AccountedAt amount r w (crash, w') = Unknown r amount w w'
AccountedAt amount r w (disapproved fs, w') = Unpaid w w'

module _ (fl : Float) (svc : Services) (cfg : FaucetCfg fl) where
  -- The payment of the amount that was read was made or not.
  abbrev AnyUnknown : Request → World → World → Type 0
  AnyUnknown r w w' =
      ((w'.paid ≡ w.paid)
        ⊎ ((amount : ℕ) × (txid : String) × (to_sats fl svc cfg r.amount_raw ≡ sats amount)
            × Paid r amount txid w w'))
      × (w'.db.payouts ≡ w.db.payouts)

  -- The same for any request; a payment is for the amount that was read.
  abbrev pub Accounted : Request → World → Outcome × World → Type 0
  Accounted r w (success txid amount address, w') =
      (to_sats fl svc cfg r.amount_raw ≡ sats amount)
      × (address ≡ r.address)
      × Paid r amount txid w w'
  Accounted r w (payment_failure m, w') = AnyUnknown r w w'
  Accounted r w (invalid_address, w') = Unpaid w w'
  Accounted r w (crash, w') = AnyUnknown r w w'
  Accounted r w (disapproved fs, w') = Unpaid w w'

  -- What `dispense` does for an answer to its order.
  abbrev dispensed : Request → ℕ → PowResult → World → Sending → Outcome × World
  dispensed r amount pow w (sent txid) = (
    success txid amount r.address,
    record {
      db = record_success fl svc cfg r amount pow txid w.db;
      paid = w.paid ++ payment r amount txid ∷ [];
    },
  )
  dispensed r amount pow w (failed m unseen) =
      (payment_failure m, record w { paid = with_unseen r amount unseen w.paid })
  dispensed r amount pow w (raised unseen) =
      (crash, record w { paid = with_unseen r amount unseen w.paid })
