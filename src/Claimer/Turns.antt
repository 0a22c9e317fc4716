-- ===== src/Claimer/Turns.antt =====
-- The loop of the claimer (argus/claimer_src/claim.py): claims, the forwarding of the balance and the
-- status. The world has, beside the state of the other programs, a record of the blocks submitted and of
-- the sweeps made.
use bitcoin_argus.Common.{
  ℕ, zero, suc, ◌-◌, String, Bool, true, false, not, Option, none, some, List, ◌∷◌, ltb, leb,
  if◌then◌else◌, str_eq,
}
use bitcoin_argus.Common.Float.{Float}
use bitcoin_argus.Claimer.{
  nbits_to_target, target_to_difficulty, is_above, Block, Reply, answered, failed, rpc_error,
  ChainInfo, System, Settings, grind, build_block,
}

-- A block that was submitted, and whether the call was answered without a rejection.
pub record Submission : Type 0 where
  pub block : Block
  pub accepted : Bool

-- The status file.
pub record Status (fl : Float) : Type 0 where
  pub tip_height : ℕ
  pub difficulty : fl.Carrier
  pub secs_since_last_block : ℕ
  pub window_open : Bool
  pub reset_detected : Bool
  pub blocks_claimed_total : ℕ
  pub last_claim_at : Option ℕ
  pub wallet_balance : fl.Carrier
  pub forwarded_total : ℕ
  pub forwarding : Bool
  pub updated_at : ℕ

-- `state`
pub record Counters : Type 0 where
  pub claimed : ℕ
  pub last_claim_at : Option ℕ
  pub forwarded : ℕ

pub record World {fl : Float} (sys : System fl) : Type 0 where
  pub system : sys.State
  pub submitted : List Submission
  pub swept : List String
  pub status : Option (Status fl)

-- What a turn of the loop ends with: an exception that nothing catches ends the program.
pub data Turn {fl : Float} (sys : System fl) : Type 0 where
  running : World sys → Counters → ℕ → Turn sys
  crashed : World sys → Turn sys

abbrev pub sats : (fl : Float) → fl.Carrier → ℕ
sats fl balance = fl.round (fl.mul balance (fl.of_nat 100_000_000))

abbrev pub is_text : String → Bool
is_text t = not (str_eq t "")

abbrev pub status_of :
    {fl : Float} → Settings fl → Counters → ℕ → ChainInfo fl → fl.Carrier → Status fl
status_of {fl} cfg c now info balance =
    let secs = now - info.tip_time in
    record {
      tip_height = info.blocks;
      difficulty = info.difficulty;
      secs_since_last_block = secs;
      window_open = leb cfg.window_seconds secs;
      reset_detected = not (fl.lt cfg.max_difficulty info.difficulty);
      blocks_claimed_total = c.claimed;
      last_claim_at = c.last_claim_at;
      wallet_balance = balance;
      forwarded_total = c.forwarded;
      forwarding = cfg.forward;
      updated_at = now;
    }

-- A forwarding is counted if there is a transaction id and it is not the empty text.
abbrev pub count_forward : Option String → Counters → Counters
count_forward none c = c
count_forward (some txid) c = record {
  claimed = c.claimed;
  last_claim_at = c.last_claim_at;
  forwarded = if is_text txid then suc c.forwarded else c.forwarded;
}

module _ {fl : Float} {sys : System fl} where
  abbrev pub at_system : sys.State → World sys → World sys
  at_system s w = record { system = s; submitted = w.submitted; swept = w.swept; status = w.status }

  abbrev pub log_submission : Submission → World sys → World sys
  log_submission b w = record {
    system = w.system;
    submitted = b ∷ w.submitted;
    swept = w.swept;
    status = w.status;
  }

  abbrev pub log_sweep : String → World sys → World sys
  log_sweep dest w = record {
    system = w.system;
    submitted = w.submitted;
    swept = dest ∷ w.swept;
    status = w.status;
  }

  abbrev pub put_status : Status fl → World sys → World sys
  put_status st w = record {
    system = w.system;
    submitted = w.submitted;
    swept = w.swept;
    status = some st;
  }

  -- The call of `submitblock`: no text means that the block was accepted.
  unfoldable pub submit : Block → World sys → World sys × Reply Bool
  submit block w =
      let (s, reply) = sys.submitblock block w.system in
      elim reply [
        | failed e ↦
            (log_submission (record { block = block; accepted = false }) (at_system s w), failed e)
        | answered reject ↦
            let accepted : Bool = elim reject [ none ↦ true | some text ↦ str_eq text "" ] in
            (
              log_submission (record { block = block; accepted = accepted }) (at_system s w),
              answered accepted,
            )
      ]

  -- `try_claim_one`, without the difficulty that the caller drops.
  unfoldable pub try_claim_one : Settings fl → List ℕ → World sys → World sys × Reply Bool
  try_claim_one cfg reward_spk w =
      let (s, reply) = sys.getblocktemplate w.system in
      let w' = at_system s w in
      elim reply [
        | failed e ↦ (w', failed e)
        | answered tmpl ↦
            let target = nbits_to_target tmpl.bits in
            elim (is_above fl (target_to_difficulty fl target) cfg.max_difficulty) [
              | true ↦ (w', answered false)
              | false ↦
                  let (s', ground_block) = grind sys (build_block sys tmpl reward_spk) target s in
                  elim ground_block [
                    | failed e ↦ (at_system s' w, failed e)
                    | answered none ↦ (at_system s' w, answered false)
                    | answered (some block) ↦ submit block (at_system s' w)
                  ]
            ]
      ]

  abbrev pub count_claim : World sys → Counters → Counters
  count_claim w c = record {
    claimed = suc c.claimed;
    last_claim_at = some (sys.time w.system);
    forwarded = c.forwarded;
  }

  -- The claims of a turn, so many at most.
  unfoldable pub claim_blocks :
      ℕ → Settings fl → List ℕ → World sys → Counters → World sys × Counters
  claim_blocks zero cfg reward_spk w c = (w, c)
  claim_blocks (suc left) cfg reward_spk w c =
      let (w', reply) = try_claim_one cfg reward_spk w in
      elim reply [
        | failed e ↦ (w', c)
        | answered false ↦ (w', c)
        | answered true ↦ claim_blocks left cfg reward_spk w' (count_claim w' c)
      ]

  -- The call of `sendall`: a sweep is made if it is answered.
  unfoldable pub sweep : String → World sys → World sys × Reply (Option String)
  sweep dest w =
      let (s, reply) = sys.sendall dest w.system in
      elim reply [
        | failed rpc_error ↦ (at_system s w, answered none)
        | failed e ↦ (at_system s w, failed e)
        | answered txid ↦ (log_sweep dest (at_system s w), answered txid)
      ]

  -- The address is empty if there is no text in its file.
  unfoldable pub maybe_forward : Settings fl → World sys → World sys × Reply (Option String)
  maybe_forward cfg w = elim (cfg.forward) [
    | false ↦ (w, answered none)
    | true ↦ elim (sys.lnd_address w.system) [
      | none ↦ (w, answered none)
      | some dest ↦ elim (is_text dest) [
        | false ↦ (w, answered none)
        | true ↦
            let (s, reply) = sys.getbalance w.system in
            elim reply [
              | failed e ↦ (at_system s w, failed e)
              | answered balance ↦ elim (ltb (sats fl balance) cfg.forward_threshold_sat) [
                | true ↦ (at_system s w, answered none)
                | false ↦ sweep dest (at_system s w)
              ]
            ]
      ]
    ]
  ]

  unfoldable pub write_status : Settings fl → Counters → World sys → World sys
  write_status cfg c w =
      let (s, info) = sys.getblockchaininfo w.system in
      elim info [
        | failed e ↦ at_system s w
        | answered i ↦
            let (s', balance) = sys.getbalance s in
            elim balance [
              | failed e ↦ at_system s' w
              | answered b ↦ put_status (status_of cfg c (sys.time s') i b) (at_system s' w)
            ]
      ]

  unfoldable pub turn : Settings fl → List ℕ → World sys → Counters → ℕ → Turn sys
  turn cfg reward_spk w c last_status =
      let (w', c') = claim_blocks cfg.max_blocks_per_run cfg reward_spk w c in
      let (w'', reply) = maybe_forward cfg w' in
      elim reply [
        | failed e ↦ crashed w''
        | answered txid ↦
            let c'' = count_forward txid c' in
            let now = sys.time w''.system in
            if leb cfg.status_interval (now - last_status)
            then running (write_status cfg c'' w'') c'' now
            else running w'' c'' last_status
      ]

  -- So many turns of `while True`.
  unfoldable pub turns : ℕ → Settings fl → List ℕ → Turn sys → Turn sys
  turns zero cfg reward_spk t = t
  turns (suc n) cfg reward_spk (crashed w) = crashed w
  turns (suc n) cfg reward_spk (running w c last_status) =
      turns n cfg reward_spk (turn cfg reward_spk w c last_status)
