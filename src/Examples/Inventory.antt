-- ===== src/Examples/Inventory.antt =====
-- The theorems about the dashboard's rows and donations, at a concrete configuration.
use bitcoin_argus.Common.{◌≡◌, refl, true, none, some, Option, List, [], All}
use bitcoin_argus.Common.Float.{fixed_point}
use bitcoin_argus.Common.Traverse.{traverse}
use bitcoin_argus.Faucet.Address.{codes}
use bitcoin_argus.Deploy.Network.{
  enabled_indexers, fedimint_guardian_count, lnd_secondary_enabled, lnd_tertiary_enabled,
  mempool_enabled, fedimint_enabled,
}
use bitcoin_argus.Deploy.Ports.{
  Items, bitcart_overrides, assign, assign_all, fulcrum_ports, guardian_ports, gateway_ports,
  bitcart_pools, index, allocate, enabled_networks, allocate_from, network_ports, default_ports,
  block_base, claim_ports, apply_overrides,
}
use bitcoin_argus.Deploy.Firewall.{port_of, ports_of, ark_enabled}
use bitcoin_argus.Web.Inventory.{
  Bucket, Nodes, node_links, lnd_row, lnd_rows, indexer_rows, cashu_rows, guardian_rows,
  gateway_rows, ark_rows, shop_rows, planned_rows,
}
use bitcoin_argus.Web.Inventory.Rows.{
  OnionView, Usage, ServiceRow, port_ref, link_ref, service_row, service_rows,
}
use bitcoin_argus.Web.Inventory.Shown.{is_told, service_rows-told}
use bitcoin_argus.Web.Inventory.Led.{is_live, service_rows-live}
use bitcoin_argus.Web.Lnurl.{Text}
use bitcoin_argus.Web.Donations.{DonationCfg, Published, build_donations}
use bitcoin_argus.Web.Donations.Resolved.{Agrees, build_donations-Agrees}
use bitcoin_argus.Examples.Deployment.{signet, one_network, given, given_out}
use bitcoin_argus.Examples.Onion.{site_cfg, ports, sites, rules, sites_written, rules_written}

-- Nothing was measured, and the first node's key is known.
abbrev usage : Bucket → Option (Usage fixed_point)
usage b = none

abbrev view : OnionView
view = record { named = true; ports = []; faucet = true }

abbrev nodes : Nodes
nodes = record { lnd = some "02aa"; lnd2 = none; lnd3 = none }

abbrev own_ports : Items
own_ports = elim (ports_of "signet" ports) [ none ↦ [] | some items ↦ items ]

abbrev rows : List (ServiceRow fixed_point)
rows = elim (service_rows usage view true "signet" site_cfg signet nodes own_ports) [
  | none ↦ []
  | some rs ↦ rs
]

found : ports_of "signet" ports ≡ some own_ports
unfolding ports_of allocate enabled_networks allocate_from network_ports apply_overrides
    default_ports claim_ports bitcart_overrides assign assign_all fulcrum_ports guardian_ports
    gateway_ports bitcart_pools block_base index fedimint_guardian_count enabled_indexers
found = refl

rows_made : service_rows usage view true "signet" site_cfg signet nodes own_ports ≡ some rows
unfolding service_rows service_row planned_rows port_ref link_ref traverse node_links lnd_row
    lnd_rows indexer_rows cashu_rows guardian_rows gateway_rows ark_rows shop_rows port_of ports_of
    allocate enabled_networks allocate_from network_ports apply_overrides default_ports claim_ports
    bitcart_overrides assign assign_all fulcrum_ports guardian_ports gateway_ports bitcart_pools
    block_base index fedimint_guardian_count enabled_indexers lnd_secondary_enabled
    lnd_tertiary_enabled mempool_enabled fedimint_enabled ark_enabled
rows_made = refl

service_rows-told_example : All (λ r. All (λ q. is_told rules own_ports q ≡ true) r.ports) rows
service_rows-told_example =
    service_rows-told usage view true one_network (given (allocate one_network)) [] [] "signet"
      site_cfg signet nodes own_ports rules rows given_out found rules_written rows_made

service_rows-live_example : All (λ r. All (λ l. is_live sites l ≡ true) r.links) rows
service_rows-live_example =
    service_rows-live usage view true ports [] [] "signet" site_cfg signet nodes own_ports sites
      rows found sites_written rows_made

abbrev donation_cfg : DonationCfg
donation_cfg = record {
  lnurl = record {
    web_enabled = true;
    enabled = true;
    min_sat = 1;
    max_sat = 1000;
    comment_length = 5;
    default_network = none;
  };
  ssl_enabled = true;
  hostname = codes "argus.example";
  networks = λ key. some true;
}

abbrev info : Text → Published
info key = record { address = none; total_received = none; balance = none }

build_donations-Agrees_example :
    All (Agrees donation_cfg none) (build_donations donation_cfg (some (codes "abc.onion")) info)
build_donations-Agrees_example =
    build_donations-Agrees donation_cfg (some (codes "abc.onion")) info none
