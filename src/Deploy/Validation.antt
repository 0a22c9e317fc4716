-- ===== src/Deploy/Validation.antt =====
-- The checks of a whole configuration (`_validate_semantics` of argus/config.py). An error is what it is
-- about and the network's key; the sizes of channels and the referral rate are floating-point numbers.
pub mod Sound
use bitcoin_argus.Common.{
  ℕ, zero, suc, ◌+◌, ◌-◌, ◌*◌, String, Bool, true, false, not, ◌&&◌, ◌||◌, Option, none, some,
  is_some, List, [], ◌∷◌, ◌++◌, ltb, leb, ◌==◌, if◌then◌else◌, str_eq, any,
}
use bitcoin_argus.Common.Float.{Float}
use bitcoin_argus.Common.Table.{find?}
use bitcoin_argus.Faucet.Address.{codes}
use bitcoin_argus.Deploy.Network.{
  NetworkSpec, NetworkCfg, IndexerCfg, FundingMode, auto, external, RingNode, argus1, argus2,
  argus3, enabled_indexers, mempool_enabled, lnd_channels_enabled, lnd_secondary_enabled,
  lnd_tertiary_enabled, lnd_funding_mode, fedimint_enabled, fedimint_available_ring_nodes,
  ark_target_enabled, mineable_networks,
}
use bitcoin_argus.Deploy.Ports.{network_specs}
use bitcoin_argus.Deploy.Image.{core_major_from_image}
use bitcoin_argus.Deploy.Firewall.{PublicCfg, ark_enabled, electrum_relay_enabled}

-- The settings of a network that the checks read beside those of the firewall.
pub record Checked (fl : Float) : Type 0 where
  pub public : PublicCfg
  pub prune : ℕ
  pub claimer : Bool
  pub channel_btc : fl.Carrier
  pub fund_btc : fl.Carrier
  pub bitcart_admin_email : Option String
  pub liquidity_disabled : Bool
  pub cashout_lightning_address : Option String
  pub referral_fee_amount : fl.Carrier
  pub cashupayserver_admin : Option String
  pub woocommerce_admin : Option String
  pub electrum_target : RingNode
  pub electrum_funding : Option FundingMode
  pub cashu_ssl : Bool
  pub relay_ssl : Bool
  pub bitcart_ssl : Bool
  pub cashupayserver_ssl : Bool
  pub woocommerce_ssl : Bool
  pub mempool_ssl : Bool
  -- The `ssl` of each enabled indexer.
  pub indexers_ssl : List Bool

pub record ArgusCfg (fl : Float) : Type 0 where
  pub networks : List (String × Checked fl)
  pub bitcoind_image : String
  pub bitcoind_knots_image : String
  pub ssl_enabled : Bool
  pub acme_email : Option String
  pub web_enabled : Bool
  pub lnurl_enabled : Bool
  pub default_network : Option String

pub data ConfigError : Type 0 where
  unknown_network knots_image_missing prune_conflict mining_not_implemented claimer_not_available :
      String → ConfigError
  ring_incomplete ring_funding channel_too_large reset_not_supported : String → ConfigError
  bitcart_email_missing cashout_missing referral_missing : String → ConfigError
  mint_missing cashupayserver_email_missing cashupayserver_missing woocommerce_email_missing :
      String → ConfigError
  too_many_guardians ark_target_missing core_too_old : String → ConfigError
  indexer_missing electrum_target_missing electrum_funding_impossible : String → ConfigError
  acme_email_missing : ConfigError
  default_not_configured default_not_enabled : String → ConfigError

-- `if test: errors.append(e)`
abbrev pub check : Bool → ConfigError → List ConfigError
check true e = e ∷ []
check false e = []

abbrev pub when : Bool → List ConfigError → List ConfigError
when true es = es
when false es = []

-- The truth of a text that may be missing.
abbrev pub is_text : Option String → Bool
is_text none = false
is_text (some t) = not (str_eq t "")

-- The specification's `needs_knots`, which one network has.
abbrev pub needs_knots : String → Bool
needs_knots key = str_eq key "mutinynet"

abbrev pub claim_networks : List String
claim_networks = "testnet3" ∷ "testnet4" ∷ []

abbrev pub ark_min_core_major : ℕ
ark_min_core_major = 29

abbrev pub is_auto : FundingMode → Bool
is_auto auto = true
is_auto external = false

abbrev pub is_too_old : Option ℕ → Bool
is_too_old none = false
is_too_old (some major) = ltb major ark_min_core_major

module _ {fl : Float} where
  unfoldable pub electrum_target_enabled : Checked fl → Bool
  electrum_target_enabled c = elim c.electrum_target [
    | argus1 ↦ true
    | argus2 ↦ lnd_secondary_enabled c.public.network
    | argus3 ↦ lnd_tertiary_enabled c.public.network
  ]

  unfoldable pub electrum_funding_mode : Checked fl → NetworkSpec → FundingMode
  electrum_funding_mode c spec = elim c.electrum_funding [
    | some mode ↦ mode
    | none ↦ if spec.supports_miner && c.public.network.miner then auto else external
  ]

  -- An email of the service's own, or else Bitcart's.
  abbrev pub has_email : Option String → Checked fl → Bool
  has_email own c = is_text own || is_text c.bitcart_admin_email

  unfoldable pub node_errors : ArgusCfg fl → String → Checked fl → NetworkSpec → List ConfigError
  node_errors cfg key c spec =
      let net = c.public.network in
      let uses_indexer =
        any (λ ix. true) (enabled_indexers net) || (mempool_enabled net spec || net.bitcart) in
      let mineable = any (str_eq key) mineable_networks in
      check (needs_knots key && str_eq cfg.bitcoind_knots_image "") (knots_image_missing key)
      ++ (check (ltb 0 c.prune && uses_indexer) (prune_conflict key)
          ++ (check (net.miner && (spec.supports_miner && not mineable))
                (mining_not_implemented key)
              ++ check (c.claimer && not (any (str_eq key) claim_networks))
                  (claimer_not_available key)))

  unfoldable pub ring_errors : String → Checked fl → NetworkSpec → List ConfigError
  ring_errors key c spec =
      let net = c.public.network in
      when (lnd_channels_enabled net) (
        check (not (lnd_secondary_enabled net && lnd_tertiary_enabled net)) (ring_incomplete key)
        ++ (check (is_auto (lnd_funding_mode net spec) && not (spec.supports_miner && net.miner))
              (ring_funding key)
            ++ check (fl.lt c.fund_btc c.channel_btc) (channel_too_large key)))
      ++ check
          (elim net.reset [
            | none ↦ false
            | some on ↦ on && not (any (str_eq key) mineable_networks)
          ])
          (reset_not_supported key)

  unfoldable pub shop_errors : ArgusCfg fl → String → Checked fl → List ConfigError
  shop_errors cfg key c =
      let lnurl_supplies_cashout = cfg.ssl_enabled && (cfg.web_enabled && cfg.lnurl_enabled) in
      when c.public.network.bitcart (
        check (not (is_text c.bitcart_admin_email)) (bitcart_email_missing key)
        ++ (check
              (not c.liquidity_disabled
                && (not (is_text c.cashout_lightning_address) && not lnurl_supplies_cashout))
              (cashout_missing key)
            ++ check (fl.lt (fl.of_nat 0) c.referral_fee_amount && not lnurl_supplies_cashout)
                (referral_missing key)))
      ++ (when c.public.cashupayserver (
            check (not c.public.cashu) (mint_missing key)
            ++ check (not (has_email c.cashupayserver_admin c)) (cashupayserver_email_missing key))
          ++ when c.public.woocommerce (
              check (not c.public.cashupayserver) (cashupayserver_missing key)
              ++ check (not (has_email c.woocommerce_admin c)) (woocommerce_email_missing key)))

  -- The image of the node, and whether the version that its tag names is too old.
  abbrev pub node_image : ArgusCfg fl → String → String
  node_image cfg key = if needs_knots key then cfg.bitcoind_knots_image else cfg.bitcoind_image

  unfoldable pub bridge_errors : ArgusCfg fl → String → Checked fl → NetworkSpec → List ConfigError
  bridge_errors cfg key c spec =
      let net = c.public.network in
      when (fedimint_enabled net spec)
        (check (ltb (fedimint_available_ring_nodes net) net.guardians) (too_many_guardians key))
      ++ (when (ark_enabled net spec) (
            check (not (ark_target_enabled net)) (ark_target_missing key)
            ++ check (is_too_old (core_major_from_image (node_image cfg key))) (core_too_old key))
          ++ when c.public.electrum (
              check (not (any (λ ix. true) (enabled_indexers net))) (indexer_missing key)
              ++ (check (not (electrum_target_enabled c)) (electrum_target_missing key)
                  ++ check
                      (is_auto (electrum_funding_mode c spec)
                        && not (spec.supports_miner && net.miner))
                      (electrum_funding_impossible key))))

  unfoldable pub network_errors : ArgusCfg fl → String → Checked fl → NetworkSpec → List ConfigError
  network_errors cfg key c spec =
      node_errors cfg key c spec
      ++ (ring_errors key c spec ++ (shop_errors cfg key c ++ bridge_errors cfg key c spec))

  unfoldable pub has_public_ssl : String → Checked fl → NetworkSpec → Bool
  has_public_ssl key c spec =
      let net = c.public.network in
      not (str_eq key "regtest")
      && ((c.public.cashu && c.cashu_ssl)
          || ((electrum_relay_enabled c.public && (c.public.relay_public && c.relay_ssl))
              || (fedimint_enabled net spec
                  || (ark_enabled net spec
                      || ((net.bitcart && c.bitcart_ssl)
                          || ((c.public.cashupayserver && c.cashupayserver_ssl)
                              || ((c.public.woocommerce && c.woocommerce_ssl)
                                  || ((mempool_enabled net spec && c.mempool_ssl)
                                      || any (λ b. b) c.indexers_ssl))))))))

  abbrev pub configured : String → List (String × Checked fl) → Option (Checked fl)
  configured key [] = none
  configured key ((k, c) ∷ nets) = if str_eq k key then some c else configured key nets

  -- `enabled_networks()`
  unfoldable pub enabled_settings :
      List (String × NetworkSpec)
      → List (String × Checked fl)
      → List (String × (Checked fl × NetworkSpec))
  enabled_settings [] networks = []
  enabled_settings ((key, spec) ∷ specs) networks =
      let rest = enabled_settings specs networks in
      elim (configured key networks) [
        | none ↦ rest
        | some c ↦ if c.public.network.enabled then (key, (c, spec)) ∷ rest else rest
      ]

  unfoldable pub unknown_errors : List (String × Checked fl) → List ConfigError
  unknown_errors [] = []
  unknown_errors ((key, c) ∷ nets) =
      check (not (any (λ s. str_eq s.0 key) network_specs)) (unknown_network key)
      ++ unknown_errors nets

  unfoldable pub all_network_errors :
      ArgusCfg fl → List (String × (Checked fl × NetworkSpec)) → List ConfigError
  all_network_errors cfg [] = []
  all_network_errors cfg ((key, (c, spec)) ∷ nets) =
      network_errors cfg key c spec ++ all_network_errors cfg nets

  unfoldable pub default_network_errors : ArgusCfg fl → List ConfigError
  default_network_errors cfg =
      when (cfg.web_enabled && cfg.lnurl_enabled) (elim cfg.default_network [
        | none ↦ []
        | some dn ↦ elim (configured dn cfg.networks) [
          | none ↦ default_not_configured dn ∷ []
          | some c ↦ check (not c.public.network.enabled) (default_not_enabled dn)
        ]
      ])

  -- No error means that the configuration is accepted.
  unfoldable pub validate_semantics : ArgusCfg fl → List ConfigError
  validate_semantics cfg =
      let enabled = enabled_settings network_specs cfg.networks in
      let any_public_ssl = any (λ n. has_public_ssl n.0 n.1.0 n.1.1) enabled in
      unknown_errors cfg.networks
      ++ (all_network_errors cfg enabled
          ++ (check (cfg.ssl_enabled && (any_public_ssl && not (is_text cfg.acme_email)))
                acme_email_missing
              ++ default_network_errors cfg))
