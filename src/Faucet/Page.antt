-- ===== src/Faucet/Page.antt =====
-- What the faucet's page reads and hands out beside a payment (argus/faucet/app.py): `_pow_target`,
-- `_cap_horizon_days`, `_free_available` and the route `faucet_challenge`.
use bitcoin_argus.Common.{
  ℕ, ◌+◌, String, ◌≡◌, ◌↔◌, refl, Bool, true, false, Option, none, some, List, arith, leb,
  if◌then◌else◌, inl, inr, Bool-cases, Option-cases,
}
use bitcoin_argus.Common.Float.{Float}
use bitcoin_argus.Faucet.Clock.{day_ticks}
use bitcoin_argus.Faucet.Config.{FaucetCfg}
use bitcoin_argus.Faucet.Store.{Database, usage_today, last_ip_claim}
use bitcoin_argus.Faucet.Rules.{one_per_ip_rule}
use bitcoin_argus.Faucet.Amount.{sats, rejected, overflow, Conversion}
use bitcoin_argus.Faucet.Subsidy.{Cached, block_subsidy_sat}
use bitcoin_argus.Faucet.Address.{codes, is_valid_address}
use bitcoin_argus.Faucet.Pow.Target.{
  is_value_pegged, compute_target_seconds, seconds_to_target, reference_hps, effective_ttl,
}
use bitcoin_argus.Faucet.Pow.Token.{Text, issue}
use bitcoin_argus.Faucet.Request.{
  Services, Request, PowResult, hash_ip, to_sats, pow_enabled, algorithm_name, is_pow_verified,
  rule_context,
}
use bitcoin_argus.Deploy.Reset.{faucet_cap_horizon_days}

-- The dict that `_pow_target` returns.
pub record PowParameters (fl : Float) : Type 0 where
  pub target : ℕ
  pub expected : fl.Carrier
  pub seconds : fl.Carrier
  pub ttl : ℕ

-- The answer of `faucet_challenge`; `challenge_crash` is an exception that it does not catch.
pub data ChallengeAnswer (fl : Float) : Type 0 where
  pow_not_available invalid_address invalid_amount no_chain_data challenge_crash :
      ChallengeAnswer fl
  offered : Text → PowParameters fl → ChallengeAnswer fl

module _ (fl : Float) (svc : Services) (cfg : FaucetCfg fl) where
  -- The result holds the cache of subsidies, which is read only where the network is pegged.
  unfoldable pub pow_target :
      String
      → ℕ
      → Option ℕ
      → ℕ
      → Option ℕ
      → List Cached
      → Database
      → Option (PowParameters fl) × List Cached
  pow_target net_key amount balance now height cache db =
      let p = cfg.pow in
      let read =
        if is_value_pegged fl p net_key
        then block_subsidy_sat net_key now height cache
        else (none, cache) in
      elim (compute_target_seconds fl p net_key amount balance (usage_today net_key now db)
        read.0) [
          | none ↦ (none, read.1)
          | some seconds ↦
              let (target, expected) =
                seconds_to_target fl seconds (reference_hps fl p p.algorithm) in
              (
                some (record {
                  target = target;
                  expected = expected;
                  seconds = seconds;
                  ttl = effective_ttl fl seconds p.ttl_seconds;
                }),
                read.1,
              )
        ]

  -- The cap and the state of the automatic reset are the network's.
  unfoldable pub cap_horizon_days : Bool → fl.Carrier → ℕ → fl.Carrier
  cap_horizon_days reset_enabled max_size_gb block_interval_seconds =
      faucet_cap_horizon_days fl reset_enabled
        (fl.trunc (fl.mul max_size_gb (fl.of_nat 1_073_741_824))) block_interval_seconds

  unfoldable pub free_available : String → Option String → ℕ → Database → Bool
  free_available net_key client_ip now db =
      if cfg.one_per_ip_per_day
      then elim (hash_ip fl svc cfg client_ip) [
        | none ↦ true
        | some ip ↦ elim (last_ip_claim net_key ip db) [
          | none ↦ true
          | some last ↦ leb (last + day_ticks) now
        ]
      ]
      else true

  -- The answer for an amount that was read; `secret` is the one of the proofs of work.
  unfoldable pub offer :
      Request → String → ℕ → String → Option (PowParameters fl) → ChallengeAnswer fl
  offer r secret amount nonce none = no_chain_data
  offer r secret amount nonce (some info) =
      offered
        (issue svc.codec secret r.net_key r.address amount (algorithm_name cfg.pow.algorithm)
          info.target info.ttl nonce r.now)
        info

  unfoldable pub offer_amount :
      Request
      → String
      → String
      → Option ℕ
      → List Cached
      → Database
      → Conversion
      → ChallengeAnswer fl
  offer_amount r secret nonce height cache db rejected = invalid_amount
  offer_amount r secret nonce height cache db overflow = challenge_crash
  offer_amount r secret nonce height cache db (sats amount) =
      offer r secret amount nonce
        (pow_target r.net_key amount r.balance_sat r.now height cache db).0

  -- The request holds the address and the amount that are asked for; `nonce` is drawn at random, and
  -- `height` is the chain's height, if it can be read.
  unfoldable pub faucet_challenge :
      Request → String → Option ℕ → List Cached → Database → ChallengeAnswer fl
  faucet_challenge r nonce height cache db = elim svc.pow_secret [
    | none ↦ pow_not_available
    | some secret ↦
        if pow_enabled fl svc cfg
        then if is_valid_address svc.sha256 (codes r.address) r.chain
          then offer_amount r secret nonce height cache db (to_sats fl svc cfg r.amount_raw)
          else invalid_address
        else pow_not_available
  ]

  -- The page says that a free claim is left exactly when the rule of one claim a day would let a
  -- request without a proof of work pass at that time.
  pub free_available_iff :
      (r : Request) (amount : ℕ) (pow : PowResult) (db : Database)
      → is_pow_verified pow ≡ false
      → (free_available r.net_key r.client_ip r.now db ≡ true)
        ↔ (one_per_ip_rule fl cfg (rule_context fl svc cfg r amount pow db) db ≡ none)
  unfolding free_available one_per_ip_rule
  free_available_iff r amount pow db free = elim (Option-cases (hash_ip fl svc cfg r.client_ip)) [
    | inl e ↦ ground arith
    | inr (ip, e) ↦ elim (Option-cases (last_ip_claim r.net_key ip db)) [
      | inl f ↦ ground arith
      | inr (last, f) ↦ ground arith
    ]
  ]

  offer-offered :
      (r : Request) (secret : String) (amount : ℕ) (nonce : String) (o : Option (PowParameters fl))
      (token : Text) (info : PowParameters fl)
      → offer r secret amount nonce o ≡ offered token info
      → token
        ≡ issue svc.codec secret r.net_key r.address amount
            (algorithm_name cfg.pow.algorithm)
            info.target
            info.ttl
            nonce
            r.now
  unfolding offer
  offer-offered r secret amount nonce none token info h = absurd (cc)
  offer-offered r secret amount nonce (some i) token info h =
      let e : i ≡ info = ground arith in
      let t : issue svc.codec secret r.net_key r.address amount (algorithm_name cfg.pow.algorithm)
            i.target i.ttl nonce r.now
          ≡ token =
        ground arith in
      rw (← e, ← t)

  offer_amount-offered :
      (r : Request) (secret nonce : String) (height : Option ℕ) (cache : List Cached)
      (db : Database) (c : Conversion) (token : Text) (info : PowParameters fl)
      → offer_amount r secret nonce height cache db c ≡ offered token info
      → (amount : ℕ) × (c ≡ sats amount)
        × (token
            ≡ issue svc.codec secret r.net_key r.address amount
                (algorithm_name cfg.pow.algorithm)
                info.target
                info.ttl
                nonce
                r.now)
  unfolding offer_amount
  offer_amount-offered r secret nonce height cache db rejected token info h = absurd (cc)
  offer_amount-offered r secret nonce height cache db overflow token info h = absurd (cc)
  offer_amount-offered r secret nonce height cache db (sats amount) token info h =
      (amount, refl, offer-offered r secret amount nonce _ token info h)

  -- A challenge is offered only for a valid address and an amount that was read, and what is offered is
  -- the token that `issue` makes for that request under the secret of the proofs of work.
  pub faucet_challenge-offered :
      (r : Request) (nonce : String) (height : Option ℕ) (cache : List Cached) (db : Database)
      (token : Text) (info : PowParameters fl)
      → faucet_challenge r nonce height cache db ≡ offered token info
      → (secret : String) × (amount : ℕ) × (svc.pow_secret ≡ some secret)
        × (is_valid_address svc.sha256 (codes r.address) r.chain ≡ true)
        × (to_sats fl svc cfg r.amount_raw ≡ sats amount)
        × (token
            ≡ issue svc.codec secret r.net_key r.address amount
                (algorithm_name cfg.pow.algorithm)
                info.target
                info.ttl
                nonce
                r.now)
  unfolding faucet_challenge
  faucet_challenge-offered r nonce height cache db token info h =
      elim (Option-cases svc.pow_secret) [
        | inl e ↦ absurd (ground arith)
        | inr (secret, e) ↦ elim (Bool-cases (pow_enabled fl svc cfg)) [
          | inr off ↦ absurd (ground arith)
          | inl on ↦ elim (Bool-cases (is_valid_address svc.sha256 (codes r.address) r.chain)) [
            | inr bad ↦ absurd (ground arith)
            | inl good ↦
                let a =
                  offer_amount-offered r secret nonce height cache db
                    (to_sats fl svc cfg r.amount_raw) token info (ground arith) in
                (secret, a.0, e, good, a.1, a.2)
          ]
        ]
      ]
