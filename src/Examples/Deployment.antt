-- ===== src/Examples/Deployment.antt =====
-- The theorems about ports and resets, at a concrete configuration.
use bitcoin_argus.Common.{
  ◌≤◌, String, ◌≡◌, refl, true, false, none, some, Option, List, [], ◌∷◌, All, if◌then◌else◌,
  str_eq,
}
use bitcoin_argus.Deploy.Network.{
  NetworkCfg, NetworkSpec, argus1, enabled_indexers, fedimint_guardian_count, fixed,
  lnd_secondary_enabled, lnd_tertiary_enabled, mempool_enabled, fedimint_enabled,
}
use bitcoin_argus.Deploy.Ports.{
  Items, Allocation, allocation_error, bitcart_overrides, assign, assign_all, fulcrum_ports,
  guardian_ports, gateway_ports, bitcart_pools, index, allocated, allocate, enabled_networks,
  allocate_from, network_ports, default_ports, block_base, claim_ports, apply_overrides,
}
use bitcoin_argus.Deploy.Ports.Distinct.{uses_of_port, allocate_distinct}
use bitcoin_argus.Deploy.Firewall.{
  PublicCfg, Rule, public_rules, rules_for, ports_of, port_of, openings, electrum_openings,
  fedimint_openings, ark_enabled, electrum_relay_enabled,
}
use bitcoin_argus.Deploy.Firewall.Closed.{closed_uses, public_rules-closed}

-- A network with one indexer, two guardians and a moved port.
abbrev pub network : NetworkCfg
network = record {
  enabled = true;
  indexers = record { enabled = true } ∷ [];
  mempool = none;
  reset = none;
  channels = none;
  funding = none;
  rebalancer = none;
  secondary = none;
  tertiary = none;
  miner = true;
  faucet = true;
  forward_to_faucet = none;
  fedimint = true;
  guardians = 2;
  ark = false;
  ark_target = argus1;
  bitcart = true;
  bitcart_ports = record { store = some 443; admin = none; api = none; daemon = none };
  ports = (fixed "lnd_p2p", 9735) ∷ [];
}

abbrev pub signet : NetworkSpec
signet = record { chain = "signet"; default_mempool = false; supports_miner = false }

-- One network of seven is enabled.
abbrev pub one_network : String → Option NetworkCfg
one_network key = if str_eq key "signet" then some network else none

-- What is given out; nothing, after an error.
abbrev pub given : Allocation (List (String × Items)) → List (String × Items)
given (allocated result) = result
given (allocation_error e) = []

pub given_out : allocate one_network ≡ allocated (given (allocate one_network))
unfolding allocate enabled_networks allocate_from network_ports apply_overrides default_ports
    claim_ports bitcart_overrides assign assign_all fulcrum_ports guardian_ports gateway_ports
    bitcart_pools block_base index fedimint_guardian_count enabled_indexers
given_out = refl

allocate_distinct_example : uses_of_port 9735 (given (allocate one_network)) ≤ 1
allocate_distinct_example =
    allocate_distinct one_network (given (allocate one_network)) given_out 9735

-- The settings of the same network for the firewall.
abbrev pub public_cfg : PublicCfg
public_cfg = record {
  network = network;
  p2p_public = false;
  cashu = true;
  cashu_wallet = false;
  electrum = true;
  relay = true;
  relay_public = false;
  btclnd_p2p_pool_size = 5;
  cashupayserver = false;
  woocommerce = false;
}

abbrev public_nets : List (String × (PublicCfg × NetworkSpec))
public_nets = ("signet", (public_cfg, signet)) ∷ []

abbrev pub rules_given : Option (List Rule) → List Rule
rules_given none = []
rules_given (some rules) = rules

written :
    public_rules public_nets (given (allocate one_network))
    ≡ some (rules_given (public_rules public_nets (given (allocate one_network))))
unfolding public_rules rules_for ports_of port_of openings electrum_openings fedimint_openings
    ark_enabled electrum_relay_enabled allocate enabled_networks allocate_from network_ports
    apply_overrides default_ports claim_ports bitcart_overrides assign assign_all fulcrum_ports
    guardian_ports gateway_ports bitcart_pools block_base index fedimint_guardian_count
    enabled_indexers lnd_secondary_enabled lnd_tertiary_enabled mempool_enabled fedimint_enabled
written = refl

public_rules-closed_example :
    All
      (λ r. closed_uses r.first (given (allocate one_network)) ≡ 0)
      (rules_given (public_rules public_nets (given (allocate one_network))))
public_rules-closed_example =
    public_rules-closed one_network (given (allocate one_network)) public_nets
      (rules_given (public_rules public_nets (given (allocate one_network)))) given_out written
