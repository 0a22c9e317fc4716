-- ===== src/Examples/Settings.antt =====
-- The theorem about accepted configurations, at the network of the examples about ports.
use bitcoin_argus.Common.{String, ◌≡◌, refl, true, false, ◌&&◌, none, some, [], ◌∷◌, All}
use bitcoin_argus.Common.Float.{fixed_point}
use bitcoin_argus.Deploy.Network.{
  argus2, enabled_indexers, mempool_enabled, lnd_channels_enabled, lnd_secondary_enabled,
  lnd_tertiary_enabled, lnd_funding_mode, fedimint_enabled, fedimint_supported,
  fedimint_available_ring_nodes, ark_target_enabled,
}
use bitcoin_argus.Deploy.Ports.{network_specs}
use bitcoin_argus.Deploy.Firewall.{ark_enabled, electrum_relay_enabled}
use bitcoin_argus.Deploy.Validation.{
  Checked, ArgusCfg, configured, enabled_settings, validate_semantics, unknown_errors,
  all_network_errors, network_errors, node_errors, ring_errors, shop_errors, bridge_errors,
  default_network_errors, has_public_ssl, electrum_target_enabled, electrum_funding_mode,
}
use bitcoin_argus.Deploy.Image.{core_major_from_image, after_colon, strip_v, leading_number}
use bitcoin_argus.Deploy.Validation.Sound.{Sound, validate_semantics-Sound}
use bitcoin_argus.Examples.Deployment.{public_cfg}

abbrev checked : Checked fixed_point
checked = record {
  public = public_cfg;
  prune = 0;
  claimer = false;
  channel_btc = 100_000;
  fund_btc = 1_000_000;
  bitcart_admin_email = some "admin@argus.example";
  liquidity_disabled = true;
  cashout_lightning_address = none;
  referral_fee_amount = 0;
  cashupayserver_admin = none;
  woocommerce_admin = none;
  electrum_target = argus2;
  electrum_funding = none;
  cashu_ssl = false;
  relay_ssl = false;
  bitcart_ssl = true;
  cashupayserver_ssl = false;
  woocommerce_ssl = false;
  mempool_ssl = false;
  indexers_ssl = true ∷ [];
}

abbrev argus_cfg : ArgusCfg fixed_point
argus_cfg = record {
  networks = ("signet", checked) ∷ [];
  bitcoind_image = "bitcoin/bitcoin:30.0";
  bitcoind_knots_image = "";
  ssl_enabled = true;
  acme_email = some "admin@argus.example";
  web_enabled = true;
  lnurl_enabled = true;
  default_network = some "signet";
}

accepted : validate_semantics argus_cfg ≡ []
unfolding validate_semantics unknown_errors all_network_errors network_errors node_errors
    ring_errors shop_errors bridge_errors default_network_errors has_public_ssl
    electrum_target_enabled electrum_funding_mode enabled_settings enabled_indexers mempool_enabled
    lnd_channels_enabled lnd_secondary_enabled lnd_tertiary_enabled lnd_funding_mode
    fedimint_enabled fedimint_supported fedimint_available_ring_nodes ark_target_enabled ark_enabled
    electrum_relay_enabled
accepted = refl

validate_semantics-Sound_example :
    All (λ n. Sound n.1.0 n.1.1) (enabled_settings network_specs argus_cfg.networks)
    × ((dn : String)
        → (argus_cfg.web_enabled && argus_cfg.lnurl_enabled) ≡ true
        → argus_cfg.default_network ≡ some dn
        → (c : Checked fixed_point) × (configured dn argus_cfg.networks ≡ some c)
          × (c.public.network.enabled ≡ true))
validate_semantics-Sound_example = validate_semantics-Sound argus_cfg accepted

-- The versions that tags of images name.
thirty : core_major_from_image "bitcoin/bitcoin:30.0" ≡ some 30
unfolding core_major_from_image after_colon strip_v leading_number
thirty = refl

with_letter : core_major_from_image "lncm/bitcoind:v28.0" ≡ some 28
unfolding core_major_from_image after_colon strip_v leading_number
with_letter = refl
