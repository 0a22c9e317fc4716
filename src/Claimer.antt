-- ===== src/Claimer.antt =====
-- The block claimer of the test networks (argus/claimer_src/claim.py): the targets, the blocks and what
-- it asks of the node, its wallet and the grinder.
pub mod Grind
pub mod Search
pub mod Turns
pub mod Eligible
pub mod Forward
pub mod Honest
pub mod Startup
use bitcoin_argus.Common.{
  ℕ, zero, suc, ◌+◌, ◌-◌, ◌*◌, ◌/◌, ◌%◌, ◌^◌, max, String, Bool, true, false, not, ◌&&◌, Option,
  none, some, List, [], ◌∷◌, ltb, leb, ◌≡◌, ◌⊎◌, inl, inr, refl, ◌==◌, if◌then◌else◌, str_eq,
}
use bitcoin_argus.Common.Float.{Float}

-- The exceptions that the calls raise.
pub data Failure : Type 0 where
  rpc_error os_error value_error subprocess_error : Failure

pub data Reply {ℓ} (A : Type ℓ) : Type ℓ where
  answered : A → Reply A
  failed : Failure → Reply A

pub Reply-cases {ℓ} :
    {A : Type ℓ} (r : Reply A) → ((e : Failure) × (r ≡ failed e)) ⊎ ((a : A) × (r ≡ answered a))
Reply-cases (answered a) = inr (a, refl)
Reply-cases (failed e) = inl (e, refl)

-- A target is the number `num / den`: for an exponent below 3 the power of two is a fraction.
pub record Target : Type 0 where
  pub num : ℕ
  pub den : ℕ

unfoldable pub nbits_to_target : ℕ → Target
nbits_to_target nbits =
    let shift = nbits / 2 ^ 24 % 256 in
    let mantissa = nbits % 2 ^ 23 in
    if leb 3 shift
    then record { num = mantissa * 2 ^ (8 * (shift - 3)); den = 1 }
    else record { num = mantissa; den = 2 ^ (8 * (3 - shift)) }

-- `_DIFF1_TARGET`
abbrev pub diff1_target : ℕ
diff1_target = 65_535 * 2 ^ 208

-- There is no number for infinity.
unfoldable pub target_to_difficulty : (fl : Float) → Target → Option fl.Carrier
target_to_difficulty fl t =
    if t.num == 0 then none else some (fl.ratio (diff1_target * t.den) t.num)

-- `difficulty > MAX_DIFFICULTY`
abbrev pub is_above : (fl : Float) → Option fl.Carrier → fl.Carrier → Bool
is_above fl none limit = true
is_above fl (some d) limit = fl.lt limit d

-- `block.sha256 <= target`
abbrev pub meets : ℕ → Target → Bool
meets hash t = leb (hash * t.den) t.num

pub record Template : Type 0 where
  pub version : ℕ
  pub previousblockhash : ℕ
  pub height : ℕ
  pub coinbasevalue : ℕ
  pub curtime : ℕ
  pub mintime : ℕ
  pub bits : ℕ

pub record Header : Type 0 where
  pub version : ℕ
  pub prev_block : ℕ
  pub merkle_root : ℕ
  pub time : ℕ
  pub bits : ℕ
  pub nonce : ℕ

-- The coinbase transaction; its scripts are lists of bytes.
pub record Coinbase : Type 0 where
  pub height : ℕ
  pub outputs : List (ℕ × List ℕ)
  pub witness : List ℕ

pub record Block : Type 0 where
  pub header : Header
  pub coinbase : Coinbase

pub record ChainInfo (fl : Float) : Type 0 where
  pub blocks : ℕ
  pub difficulty : fl.Carrier
  pub tip_time : ℕ

-- The programs around the claimer, with a state of their own: the node, its wallet, `bitcoin-util grind`,
-- the clock, the address file of the LND node; and the hashes of the test framework.
pub record System (fl : Float) : Type 1 where
  pub State : Type 0
  pub getblocktemplate : State → State × Reply Template
  pub grind : Header → State → State × Reply ℕ
  pub submitblock : Block → State → State × Reply (Option String)
  pub getbalance : State → State × Reply fl.Carrier
  pub sendall : String → State → State × Reply (Option String)
  pub getblockchaininfo : State → State × Reply (ChainInfo fl)
  pub time : State → ℕ
  pub lnd_address : State → Option String
  pub sha256 : Header → ℕ
  pub calc_merkle_root : Coinbase → ℕ
  pub get_witness_script : Coinbase → ℕ → List ℕ

-- The settings that the environment gives.
pub record Settings (fl : Float) : Type 0 where
  pub max_difficulty : fl.Carrier
  pub status_interval : ℕ
  pub max_blocks_per_run : ℕ
  pub window_seconds : ℕ
  pub forward : Bool
  pub forward_threshold_sat : ℕ

abbrev pub grind_time_bumps : ℕ
grind_time_bumps = 120

-- The bytes of the witness nonce: 32 zeros.
abbrev pub zeros : ℕ → List ℕ
zeros zero = []
zeros (suc n) = 0 ∷ zeros n

abbrev pub with_time : ℕ → Block → Block
with_time t b = record {
  header = record {
    version = b.header.version;
    prev_block = b.header.prev_block;
    merkle_root = b.header.merkle_root;
    time = t;
    bits = b.header.bits;
    nonce = b.header.nonce;
  };
  coinbase = b.coinbase;
}

abbrev pub with_nonce : ℕ → Block → Block
with_nonce n b = record {
  header = record {
    version = b.header.version;
    prev_block = b.header.prev_block;
    merkle_root = b.header.merkle_root;
    time = b.header.time;
    bits = b.header.bits;
    nonce = n;
  };
  coinbase = b.coinbase;
}

module _ {fl : Float} (sys : System fl) where
  unfoldable pub build_block : Template → List ℕ → Block
  build_block tmpl reward_spk =
      let paying : Coinbase = record {
        height = tmpl.height;
        outputs = (tmpl.coinbasevalue, reward_spk) ∷ [];
        witness = [];
      } in
      let coinbase : Coinbase = record {
        height = tmpl.height;
        outputs = (tmpl.coinbasevalue, reward_spk) ∷ (0, sys.get_witness_script paying 0) ∷ [];
        witness = zeros 32;
      } in
      record {
        header = record {
          version = tmpl.version;
          prev_block = tmpl.previousblockhash;
          merkle_root = sys.calc_merkle_root coinbase;
          time = max tmpl.curtime tmpl.mintime;
          bits = tmpl.bits;
          nonce = 0;
        };
        coinbase = coinbase;
      }

  -- The rest of the loop of `_grind`: so many tries, the next of them at `base_time + bump`.
  unfoldable pub grind_from :
      ℕ → ℕ → ℕ → Block → Target → sys.State → sys.State × Reply (Option Block)
  grind_from zero bump base_time block target s = (s, answered none)
  grind_from (suc tries) bump base_time block target s =
      let timed = with_time (base_time + bump) block in
      let (s', reply) = sys.grind timed.header s in
      elim reply [
        | failed e ↦ (s', failed e)
        | answered nonce ↦
            let solved = with_nonce nonce timed in
            elim (meets (sys.sha256 solved.header) target) [
              | true ↦ (s', answered (some solved))
              | false ↦ grind_from tries (suc bump) base_time solved target s'
            ]
      ]

  unfoldable pub grind : Block → Target → sys.State → sys.State × Reply (Option Block)
  grind block target s = grind_from grind_time_bumps 0 block.header.time block target s
