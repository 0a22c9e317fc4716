-- ===== src/Examples/Claiming.antt =====
-- The theorems about the claimer, at a small system: every hash is 3 at an odd nonce and far too large at
-- an even one, and the grinder answers with the time of the header.
use bitcoin_argus.Common.{
  ◌<◌, ℕ, ◌+◌, ◌*◌, ◌%◌, ◌^◌, ◌≡◌, ◌↔◌, refl, true, none, some, List, [], ◌∷◌, if◌then◌else◌, ◌==◌,
}
use bitcoin_argus.Common.Float.{fixed_point}
use bitcoin_argus.Claimer.{
  Target, nbits_to_target, target_to_difficulty, Template, Block, answered, failed, rpc_error,
  System, Settings, build_block, grind_from, grind, grind_time_bumps,
}
use bitcoin_argus.Claimer.Search.{Explained, grind-Explained}
use bitcoin_argus.Claimer.Turns.{
  Counters, World, Turn, running, crashed, claim_blocks, try_claim_one, submit, maybe_forward,
  sweep, write_status, turn, turns,
}
use bitcoin_argus.Claimer.Eligible.{accepted}
use bitcoin_argus.Claimer.Startup.{
  Backend, ready, wait_for_synced_node, SyncedAt, wait_for_synced_node_iff,
}
use bitcoin_argus.Claimer.Honest.{Honest, turns-Honest}

abbrev template : Template
template = record {
  version = 4;
  previousblockhash = 99;
  height = 120_000;
  coinbasevalue = 625_000_000;
  curtime = 1000;
  mintime = 1001;
  bits = 486_604_799;
}

-- The node takes three blocks and then refuses templates; its state is the number that it took.
abbrev small_system : System fixed_point
small_system = record {
  State = ℕ;
  getblocktemplate = λ s. (s, if s == 3 then failed rpc_error else answered template);
  grind = λ h s. (s, answered h.time);
  submitblock = λ b s. (s + 1, answered none);
  getbalance = λ s. (s, answered 7_000_000);
  sendall = λ dest s. (s, answered (some "txid"));
  getblockchaininfo =
      λ s. (s, answered (record { blocks = s; difficulty = 1_000_000; tip_time = 900 }));
  time = λ s. 1000 + s;
  lnd_address = λ s. some "tb1qdeposit";
  sha256 = λ h. if h.nonce % 2 == 1 then 3 else 2 ^ 255;
  calc_merkle_root = λ c. 5;
  get_witness_script = λ c n. 106 ∷ [];
}

abbrev settings : Settings fixed_point
settings = record {
  max_difficulty = 1_000_000;
  status_interval = 30;
  max_blocks_per_run = 2;
  window_seconds = 1200;
  forward = true;
  forward_threshold_sat = 100_000;
}

abbrev script : List ℕ
script = 0 ∷ 20 ∷ []

abbrev start : World small_system
start = record { system = 0; submitted = []; swept = []; status = none }

abbrev no_counts : Counters
no_counts = record { claimed = 0; last_claim_at = none; forwarded = 0 }

-- The bits of difficulty 1, and an exponent below 3.
easy_target : nbits_to_target 486_604_799 ≡ record { num = 65_535 * 2 ^ 208; den = 1 }
unfolding nbits_to_target
easy_target = refl

small_target : nbits_to_target (2 ^ 25 + 300) ≡ record { num = 300; den = 256 }
unfolding nbits_to_target
small_target = refl

abbrev pub world_after : Turn small_system → World small_system
world_after (running w c l) = w
world_after (crashed w) = w

-- Two turns claim three blocks and sweep twice.
two_turns : accepted (world_after (turns 2 settings script (running start no_counts 0))) ≡ 3
unfolding turns turn claim_blocks try_claim_one submit maybe_forward sweep write_status
    nbits_to_target target_to_difficulty build_block grind grind_from
two_turns = refl

turns-Honest_example :
    Honest settings script 0 (turns 2 settings script (running start no_counts 0))
turns-Honest_example = turns-Honest settings script 2 0 (running start no_counts 0) (tt, refl)

abbrev block : Block
block = build_block small_system template script

abbrev target : Target
target = nbits_to_target template.bits

grind-Explained_example :
    Explained small_system block target block.header.time
      (block.header.time + grind_time_bumps)
      (grind small_system block target 0).1
grind-Explained_example = grind-Explained small_system block target 0

-- A node that fails once, is still downloading, and is then synced; its state counts the polls.
abbrev backend : Backend
backend = record {
  State = ℕ;
  getblockchaininfo = λ s. (s + 1, if s == 0 then failed rpc_error else answered (s == 1));
  createwallet = λ s. (s, some rpc_error);
  loadwallet = λ s. (s, none);
  getaddressinfo = λ a s. (s, answered true);
  getnewaddress = λ s. (s, answered "tb1qclaimer");
}

wait_for_synced_node_iff_example :
    (wait_for_synced_node backend 4 0 ≡ ready 3) ↔ ((k : ℕ) × (k < 4) × SyncedAt backend k 0 3)
wait_for_synced_node_iff_example = wait_for_synced_node_iff backend 4 0 3

-- The third poll finds it synced.
synced_then : wait_for_synced_node backend 4 0 ≡ ready 3
unfolding wait_for_synced_node
synced_then = refl
