-- ===== src/Examples/Onion.antt =====
-- The theorems about sites, routes and the firewall's script, at a concrete configuration.
use bitcoin_argus.Common.{◌≡◌, refl, true, false, none, some, Option, List, [], ◌∷◌, All, String}
use bitcoin_argus.Deploy.Network.{
  enabled_indexers, fedimint_guardian_count, lnd_secondary_enabled, lnd_tertiary_enabled,
  mempool_enabled, fedimint_enabled,
}
use bitcoin_argus.Deploy.Ports.{
  Items, bitcart_overrides, assign, assign_all, fulcrum_ports, guardian_ports, gateway_ports,
  bitcart_pools, index, allocate, enabled_networks, allocate_from, network_ports, default_ports,
  block_base, claim_ports, apply_overrides,
}
use bitcoin_argus.Deploy.Firewall.{
  Rule, public_rules, rules_for, ports_of, port_of, openings, electrum_openings, fedimint_openings,
  ark_enabled, electrum_relay_enabled,
}
use bitcoin_argus.Deploy.Firewall.Closed.{closed_uses}
use bitcoin_argus.Deploy.Sites.{
  SiteCfg, SharedCfg, HttpSite, fedimint_fronts, fronts, site_of, sites_for, http_sites,
  web_public_port, faucet_networks, onion_web_path_routed,
}
use bitcoin_argus.Deploy.Sites.Reachable.{public_nets}
use bitcoin_argus.Deploy.Onion.{
  OnionRoute, electrum_links, web_links, lnd_links, links, route_of, routes_for, network_routes,
  dashboard_routes, onion_routes, socks_open_to_containers,
}
use bitcoin_argus.Deploy.Onion.Known.{is_known}
use bitcoin_argus.Deploy.Onion.Reach.{onion_routes-known, onion_routes-closed}
use bitcoin_argus.Deploy.Script.{
  Allow, dashboard_allow, socks_allow, render_firewall, tor_socks_port,
}
use bitcoin_argus.Deploy.Script.Reachable.{lets_in, lets_containers_in, render_firewall-reachable}
use bitcoin_argus.Deploy.Complete.Served.{plain_nets, allocate_complete}
use bitcoin_argus.Deploy.Ports.{enabled_from}
use bitcoin_argus.Examples.Deployment.{public_cfg, signet, one_network, given, given_out}

-- A dashboard with a faucet on the network, a wallet beside the mint, and an onion service.
abbrev pub site_cfg : SiteCfg
site_cfg = record {
  public = record public_cfg { cashu_wallet = true };
  cashu_ssl = true;
  relay_ssl = true;
  mempool_ssl = true;
  bitcart_ssl = false;
  cashupayserver_ssl = true;
  woocommerce_ssl = true;
}

abbrev pub shared : SharedCfg
shared = record {
  ssl_enabled = true;
  web_enabled = true;
  web_ssl = true;
  web_port = none;
  tor = record {
    enabled = true;
    expose_web = true;
    expose_electrum = true;
    expose_lnd_p2p = true;
    expose_bitcoind_p2p = true;
  };
  enabled_networks = ("signet", (site_cfg, signet)) ∷ [];
}

abbrev pub ports : List (String × Items)
ports = given (allocate one_network)

abbrev pub listed : {A : Type 0} → Option (List A) → List A
listed none = []
listed (some xs) = xs

abbrev pub routes : List OnionRoute
routes = listed (onion_routes shared ports)

abbrev pub sites : List HttpSite
sites = listed (http_sites true shared.enabled_networks ports)

abbrev pub rules : List Rule
rules = listed (public_rules (public_nets shared.enabled_networks) ports)

abbrev lines : List Allow
lines = listed (render_firewall shared ports)

routes_written : onion_routes shared ports ≡ some routes
unfolding onion_routes network_routes routes_for route_of links web_links lnd_links electrum_links
    dashboard_routes onion_web_path_routed faucet_networks ports_of port_of allocate
    enabled_networks allocate_from network_ports apply_overrides default_ports claim_ports
    bitcart_overrides assign assign_all fulcrum_ports guardian_ports gateway_ports bitcart_pools
    block_base index fedimint_guardian_count enabled_indexers lnd_secondary_enabled
    lnd_tertiary_enabled mempool_enabled fedimint_enabled
routes_written = refl

pub sites_written : http_sites true shared.enabled_networks ports ≡ some sites
unfolding http_sites sites_for site_of fronts fedimint_fronts ports_of port_of allocate
    enabled_networks allocate_from network_ports apply_overrides default_ports claim_ports
    bitcart_overrides assign assign_all fulcrum_ports guardian_ports gateway_ports bitcart_pools
    block_base index fedimint_guardian_count enabled_indexers mempool_enabled fedimint_enabled
    ark_enabled electrum_relay_enabled
sites_written = refl

pub rules_written : public_rules (public_nets shared.enabled_networks) ports ≡ some rules
unfolding public_nets public_rules rules_for ports_of port_of openings electrum_openings
    fedimint_openings ark_enabled electrum_relay_enabled allocate enabled_networks allocate_from
    network_ports apply_overrides default_ports claim_ports bitcart_overrides assign assign_all
    fulcrum_ports guardian_ports gateway_ports bitcart_pools block_base index
    fedimint_guardian_count enabled_indexers lnd_secondary_enabled lnd_tertiary_enabled
    mempool_enabled fedimint_enabled
rules_written = refl

lines_written : render_firewall shared ports ≡ some lines
unfolding render_firewall dashboard_allow socks_allow web_public_port public_nets public_rules
    rules_for ports_of port_of openings electrum_openings fedimint_openings ark_enabled
    electrum_relay_enabled allocate enabled_networks allocate_from network_ports apply_overrides
    default_ports claim_ports bitcart_overrides assign assign_all fulcrum_ports guardian_ports
    gateway_ports bitcart_pools block_base index fedimint_guardian_count enabled_indexers
    lnd_secondary_enabled lnd_tertiary_enabled mempool_enabled fedimint_enabled
lines_written = refl

onion_routes-known_example : All (λ r. is_known shared sites rules r ≡ true) routes
onion_routes-known_example =
    onion_routes-known shared ports routes sites rules routes_written sites_written rules_written

onion_routes-closed_example :
    All (λ r. ¬ (r.net_key ≡ none) → closed_uses r.virtual_port ports ≡ 0) routes
onion_routes-closed_example =
    onion_routes-closed one_network shared ports routes sites rules given_out routes_written
      sites_written rules_written

render_firewall-reachable_example :
    All (λ s. lets_in lines s.public_port ≡ true) sites
    × (true ≡ true → lets_in lines (web_public_port shared) ≡ true)
    × (socks_open_to_containers shared ≡ true → lets_containers_in lines tor_socks_port ≡ true)
render_firewall-reachable_example =
    render_firewall-reachable shared ports lines sites lines_written sites_written

nets_same : plain_nets shared.enabled_networks ≡ enabled_networks one_network
unfolding plain_nets enabled_networks enabled_from
nets_same = refl

allocate_complete_example :
    (¬ (public_rules (public_nets shared.enabled_networks) ports ≡ none))
    × (¬ (http_sites true shared.enabled_networks ports ≡ none))
    × (¬ (onion_routes shared ports ≡ none))
allocate_complete_example = allocate_complete one_network shared ports given_out nets_same
