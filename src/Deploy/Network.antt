-- ===== src/Deploy/Network.antt =====
-- The settings of one network: the parts of `NetworkCfg` (argus/config.py) and of `NetworkSpec`
-- (argus/constants.py) that decide which services of the network are deployed, with the methods
-- that settle what a setting left open means.
use bitcoin_argus.Common.{
  ℕ, ◌+◌, String, Bool, true, false, ◌&&◌, Option, none, some, List, [], ◌∷◌, str_eq, or_else, any,
  filter,
}

pub record NetworkSpec : Type 0 where
  pub chain : String
  pub default_mempool : Bool
  pub supports_miner : Bool

pub record IndexerCfg : Type 0 where
  pub enabled : Bool

-- The nodes of the Lightning ring that a bridge can aim at.
pub data RingNode : Type 0 where
  argus1 argus2 argus3 : RingNode

pub data FundingMode : Type 0 where
  auto external : FundingMode

-- `BitcartPortsCfg`
pub record BitcartPorts : Type 0 where
  pub store : Option ℕ
  pub admin : Option ℕ
  pub api : Option ℕ
  pub daemon : Option ℕ

-- The name of a host port: one of the fixed names, or that of a numbered service. The name of an
-- override is the one of these that its text spells.
pub data PortName : Type 0 where
  fixed : String → PortName
  numbered : String → ℕ → String → PortName

-- `none` is a setting that the configuration leaves open.
pub record NetworkCfg : Type 0 where
  pub enabled : Bool
  pub indexers : List IndexerCfg
  pub mempool : Option Bool
  pub reset : Option Bool
  pub channels : Option Bool
  pub funding : Option FundingMode
  pub rebalancer : Option Bool
  pub secondary : Option Bool
  pub tertiary : Option Bool
  pub miner : Bool
  pub faucet : Bool
  pub forward_to_faucet : Option Bool
  pub fedimint : Bool
  pub guardians : ℕ
  pub ark : Bool
  pub ark_target : RingNode
  pub bitcart : Bool
  pub bitcart_ports : BitcartPorts
  pub ports : List (PortName × ℕ)

unfoldable pub enabled_indexers : NetworkCfg → List IndexerCfg
enabled_indexers net = filter (λ ix. ix.enabled) net.indexers

unfoldable pub mempool_enabled : NetworkCfg → NetworkSpec → Bool
mempool_enabled net spec = or_else net.mempool spec.default_mempool

abbrev pub mineable_networks : List String
mineable_networks = "regtest" ∷ "custom-signet-short" ∷ "custom-signet-long" ∷ []

unfoldable pub reset_enabled : NetworkCfg → String → Bool
reset_enabled net net_key = or_else net.reset (any (str_eq net_key) mineable_networks)

unfoldable pub lnd_channels_enabled : NetworkCfg → Bool
lnd_channels_enabled net = or_else net.channels true

unfoldable pub lnd_secondary_enabled : NetworkCfg → Bool
unfolding lnd_channels_enabled
lnd_secondary_enabled net = or_else net.secondary (lnd_channels_enabled net)

unfoldable pub lnd_tertiary_enabled : NetworkCfg → Bool
unfolding lnd_channels_enabled
lnd_tertiary_enabled net = or_else net.tertiary (lnd_channels_enabled net)

unfoldable pub lnd_funding_mode : NetworkCfg → NetworkSpec → FundingMode
lnd_funding_mode net spec = elim net.funding [
  | some mode ↦ mode
  | none ↦ elim (spec.supports_miner && net.miner) [ true ↦ auto | false ↦ external ]
]

unfoldable pub claimer_forwards : NetworkCfg → Bool
claimer_forwards net = or_else net.forward_to_faucet net.faucet

unfoldable pub lnd_rebalancer_enabled : NetworkCfg → Bool
unfolding lnd_channels_enabled
lnd_rebalancer_enabled net = or_else net.rebalancer (lnd_channels_enabled net)

abbrev pub fedimint_supported_chains : List String
fedimint_supported_chains = "regtest" ∷ "test" ∷ "testnet4" ∷ "signet" ∷ []

unfoldable pub fedimint_supported : NetworkSpec → Bool
fedimint_supported spec = any (str_eq spec.chain) fedimint_supported_chains

unfoldable pub fedimint_enabled : NetworkCfg → NetworkSpec → Bool
unfolding fedimint_supported
fedimint_enabled net spec = net.fedimint && fedimint_supported spec

abbrev pub int_of_bool : Bool → ℕ
int_of_bool true = 1
int_of_bool false = 0

unfoldable pub fedimint_available_ring_nodes : NetworkCfg → ℕ
unfolding lnd_secondary_enabled lnd_tertiary_enabled
fedimint_available_ring_nodes net =
    1 + int_of_bool (lnd_secondary_enabled net) + int_of_bool (lnd_tertiary_enabled net)

unfoldable pub fedimint_guardian_count : NetworkCfg → NetworkSpec → ℕ
unfolding fedimint_enabled
fedimint_guardian_count net spec = elim (fedimint_enabled net spec) [
  | true ↦ net.guardians
  | false ↦ 0
]

unfoldable pub ark_target_enabled : NetworkCfg → Bool
unfolding lnd_secondary_enabled lnd_tertiary_enabled
ark_target_enabled net = elim net.ark_target [
  | argus1 ↦ true
  | argus2 ↦ lnd_secondary_enabled net
  | argus3 ↦ lnd_tertiary_enabled net
]
