-- ===== src/Deploy/Validation/Sound.antt =====
-- What an accepted configuration (argus/config.py) grants the services that the generator deploys.
use bitcoin_argus.Common.{
  ℕ, ◌+◌, ◌≤◌, ◌≡◌, refl, String, Bool, true, false, not, ◌&&◌, ◌||◌, some, List, [], ◌∷◌, ◌++◌,
  arith, ltb, str_eq, any, All, inl, inr, Bool-cases, Option-cases,
}
use bitcoin_argus.Common.Float.{Float}
use bitcoin_argus.Deploy.Network.{
  NetworkSpec, NetworkCfg, enabled_indexers, mempool_enabled, lnd_channels_enabled,
  lnd_secondary_enabled, lnd_tertiary_enabled, fedimint_enabled, fedimint_available_ring_nodes,
  fedimint_guardian_count, ark_target_enabled, int_of_bool,
}
use bitcoin_argus.Deploy.Ports.{network_specs}
use bitcoin_argus.Deploy.Firewall.{ark_enabled}
use bitcoin_argus.Deploy.Validation.{
  Checked, ArgusCfg, ConfigError, check, when, node_errors, ring_errors, shop_errors, bridge_errors,
  network_errors, configured, prune_conflict, knots_image_missing, needs_knots, ring_incomplete,
  mint_missing, cashupayserver_missing, too_many_guardians, ark_target_missing, indexer_missing,
  electrum_target_missing, has_public_ssl, acme_email_missing, default_not_enabled,
  enabled_settings, all_network_errors, default_network_errors, unknown_errors, validate_semantics,
  electrum_target_enabled, is_text,
}

-- A test that did not fail, and the errors after it.
check_passed :
    (b : Bool) (e : ConfigError) (rest : List ConfigError)
    → check b e ++ rest ≡ []
    → (b ≡ false) × (rest ≡ [])
check_passed true e rest h = cc
check_passed false e rest h = (refl, h)

last_passed : (b : Bool) (e : ConfigError) → check b e ≡ [] → b ≡ false
last_passed true e h = cc
last_passed false e h = refl

nil-append : (xs ys : List ConfigError) → xs ++ ys ≡ [] → (xs ≡ []) × (ys ≡ [])
nil-append [] ys h = (refl, h)
nil-append (x ∷ xs) ys h = cc

-- Tests under a condition that holds, and the errors after them.
when_passed :
    (b : Bool) (es rest : List ConfigError)
    → when b es ++ rest ≡ []
    → (b ≡ true → es ≡ []) × (rest ≡ [])
when_passed true es rest h = let both = nil-append es rest h in (λ t. both.0, both.1)
when_passed false es rest h = (λ t. cc, h)

last_when_passed : (b : Bool) (es : List ConfigError) → when b es ≡ [] → b ≡ true → es ≡ []
last_when_passed true es h t = h
last_when_passed false es h t = cc

not-false : (b : Bool) → not b ≡ false → b ≡ true
not-false true h = refl
not-false false h = cc

three : (a b : Bool) → not (a && b) ≡ false → 1 + int_of_bool a + int_of_bool b ≡ 3
three true true h = refl
three true false h = cc
three false b h = cc

zero_of : (n : ℕ) (b : Bool) → (ltb 0 n && b) ≡ false → b ≡ true → n ≡ 0
zero_of n b h t = ground arith

module _ {fl : Float} where
  -- A network whose services have what they rest on.
  pub record Sound (c : Checked fl) (spec : NetworkSpec) : Type 0 where
    pub guardians :
        fedimint_guardian_count c.public.network spec
        ≤ fedimint_available_ring_nodes c.public.network
    pub ring :
        lnd_channels_enabled c.public.network ≡ true
        → fedimint_available_ring_nodes c.public.network ≡ 3
    pub ark : ark_enabled c.public.network spec ≡ true → ark_target_enabled c.public.network ≡ true
    pub electrum :
        c.public.electrum ≡ true
        → (any (λ ix. true) (enabled_indexers c.public.network) ≡ true)
          × (electrum_target_enabled c ≡ true)
    pub cashupayserver : c.public.cashupayserver ≡ true → c.public.cashu ≡ true
    pub woocommerce : c.public.woocommerce ≡ true → c.public.cashupayserver ≡ true
    pub full :
        (any (λ ix. true) (enabled_indexers c.public.network)
            || (mempool_enabled c.public.network spec || c.public.network.bitcart))
          ≡ true
        → c.prune ≡ 0

  abbrev has_indexer : Checked fl → Bool
  has_indexer c = any (λ ix. true) (enabled_indexers c.public.network)

  node_passed :
      (cfg : ArgusCfg fl) (key : String) (c : Checked fl) (spec : NetworkSpec)
      → node_errors cfg key c spec ≡ []
      → (ltb 0 c.prune
          && (has_indexer c || (mempool_enabled c.public.network spec || c.public.network.bitcart)))
        ≡ false
  unfolding node_errors
  node_passed cfg key c spec h =
      (check_passed
        (ltb 0 c.prune
          && (has_indexer c || (mempool_enabled c.public.network spec || c.public.network.bitcart)))
        (prune_conflict key) _
        (check_passed (needs_knots key && str_eq cfg.bitcoind_knots_image "")
          (knots_image_missing key) _ h).1).0

  ring_passed :
      (key : String) (c : Checked fl) (spec : NetworkSpec)
      → ring_errors key c spec ≡ []
      → lnd_channels_enabled c.public.network ≡ true
      → not (lnd_secondary_enabled c.public.network && lnd_tertiary_enabled c.public.network)
        ≡ false
  unfolding ring_errors
  ring_passed key c spec h t =
      (check_passed
        (not (lnd_secondary_enabled c.public.network && lnd_tertiary_enabled c.public.network))
        (ring_incomplete key) _ ((when_passed (lnd_channels_enabled c.public.network) _ _ h).0 t)).0

  shop_passed :
      (cfg : ArgusCfg fl) (key : String) (c : Checked fl)
      → shop_errors cfg key c ≡ []
      → (c.public.cashupayserver ≡ true → not c.public.cashu ≡ false)
        × (c.public.woocommerce ≡ true → not c.public.cashupayserver ≡ false)
  unfolding shop_errors
  shop_passed cfg key c h =
      let shops = (when_passed c.public.network.bitcart _ _ h).1 in
      let cashu = when_passed c.public.cashupayserver _ _ shops in
      (
        λ t. (check_passed (not c.public.cashu) (mint_missing key) _ (cashu.0 t)).0,
        λ t.
            (check_passed (not c.public.cashupayserver) (cashupayserver_missing key) _
              (last_when_passed c.public.woocommerce _ cashu.1 t)).0,
      )

  bridge_passed :
      (cfg : ArgusCfg fl) (key : String) (c : Checked fl) (spec : NetworkSpec)
      → bridge_errors cfg key c spec ≡ []
      → (fedimint_enabled c.public.network spec ≡ true
          → ltb (fedimint_available_ring_nodes c.public.network) c.public.network.guardians ≡ false)
        × (ark_enabled c.public.network spec ≡ true
            → not (ark_target_enabled c.public.network) ≡ false)
        × (c.public.electrum ≡ true
            → (not (has_indexer c) ≡ false) × (not (electrum_target_enabled c) ≡ false))
  unfolding bridge_errors
  bridge_passed cfg key c spec h =
      let fedimint = when_passed (fedimint_enabled c.public.network spec) _ _ h in
      let ark = when_passed (ark_enabled c.public.network spec) _ _ fedimint.1 in
      (
        λ t.
            last_passed
              (ltb (fedimint_available_ring_nodes c.public.network) c.public.network.guardians)
              (too_many_guardians key) (fedimint.0 t),
        λ t.
            (check_passed (not (ark_target_enabled c.public.network)) (ark_target_missing key) _
              (ark.0 t)).0,
        λ t.
            let swap =
              check_passed (not (has_indexer c)) (indexer_missing key) _
                (last_when_passed c.public.electrum _ ark.1 t) in
            (
              swap.0,
              (check_passed (not (electrum_target_enabled c)) (electrum_target_missing key) _
                  swap.1).0,
            ),
      )

  network_errors-Sound :
      (cfg : ArgusCfg fl) (key : String) (c : Checked fl) (spec : NetworkSpec)
      → network_errors cfg key c spec ≡ []
      → Sound c spec
  unfolding network_errors fedimint_guardian_count fedimint_available_ring_nodes
  network_errors-Sound cfg key c spec h =
      let net : NetworkCfg = c.public.network in
      let (node, h1) = nil-append (node_errors cfg key c spec) _ h in
      let (ring, h2) = nil-append (ring_errors key c spec) _ h1 in
      let (shop, bridge) = nil-append (shop_errors cfg key c) _ h2 in
      let shops = shop_passed cfg key c shop in
      let (guards, ark, swap) = bridge_passed cfg key c spec bridge in
      record {
        guardians = elim (Bool-cases (fedimint_enabled net spec)) [
          | inl t ↦ let few = guards t in ground arith
          | inr f ↦ rw (f, fedimint_guardian_count) (omega arith)
        ];
        ring = λ t.
            let both = ring_passed key c spec ring t in
            three (lnd_secondary_enabled net) (lnd_tertiary_enabled net) both;
        ark = λ t. not-false _ (ark t);
        electrum = λ t. (not-false _ (swap t).0, not-false _ (swap t).1);
        cashupayserver = λ t. not-false _ (shops.0 t);
        woocommerce = λ t. not-false _ (shops.1 t);
        full = λ t. let e = node_passed cfg key c spec node in zero_of c.prune _ e t;
      }

  all_network_errors-Sound :
      (cfg : ArgusCfg fl) (nets : List (String × (Checked fl × NetworkSpec)))
      → all_network_errors cfg nets ≡ []
      → All (λ n. Sound n.1.0 n.1.1) nets
  unfolding all_network_errors
  all_network_errors-Sound cfg [] h = tt
  all_network_errors-Sound cfg ((key, (c, spec)) ∷ nets) h =
      let (own, rest) = nil-append (network_errors cfg key c spec) _ h in
      (network_errors-Sound cfg key c spec own, all_network_errors-Sound cfg nets rest)

  default_passed :
      (cfg : ArgusCfg fl) (dn : String)
      → default_network_errors cfg ≡ []
      → (cfg.web_enabled && cfg.lnurl_enabled) ≡ true
      → cfg.default_network ≡ some dn
      → (c : Checked fl) × (configured dn cfg.networks ≡ some c) × (c.public.network.enabled ≡ true)
  unfolding default_network_errors
  default_passed cfg dn h on pinned =
      let es = last_when_passed (cfg.web_enabled && cfg.lnurl_enabled) _ h on in
      elim (Option-cases (configured dn cfg.networks)) [
        | inl n ↦ absurd (ground arith)
        | inr (c, n) ↦ (
          c,
          n,
          not-false _
              (last_passed (not c.public.network.enabled) (default_not_enabled dn) (ground arith)),
        )
      ]

  -- In a configuration that is accepted every enabled network has what its services rest on: no more
  -- guardians than ring nodes, three nodes for a ring, the nodes that the bridges aim at, an indexer for
  -- the swap provider, a mint for CashuPayServer and that for WooCommerce, and no pruning under an index;
  -- and if the dashboard and its Lightning addresses are on, a default network that is pinned is
  -- configured and enabled.
  pub validate_semantics-Sound :
      (cfg : ArgusCfg fl)
      → validate_semantics cfg ≡ []
      → All (λ n. Sound n.1.0 n.1.1) (enabled_settings network_specs cfg.networks)
        × ((dn : String)
            → (cfg.web_enabled && cfg.lnurl_enabled) ≡ true
            → cfg.default_network ≡ some dn
            → (c : Checked fl) × (configured dn cfg.networks ≡ some c)
              × (c.public.network.enabled ≡ true))
  unfolding validate_semantics
  validate_semantics-Sound cfg h =
      let enabled = enabled_settings network_specs cfg.networks in
      let (_, h1) = nil-append (unknown_errors cfg.networks) _ h in
      let (own, h2) = nil-append (all_network_errors cfg enabled) _ h1 in
      let (_, last) =
        nil-append
          (check
            (cfg.ssl_enabled
              && (any (λ n. has_public_ssl n.0 n.1.0 n.1.1) enabled
                  && not (is_text cfg.acme_email)))
            acme_email_missing)
          _ h2 in
      (
        all_network_errors-Sound cfg enabled own,
        λ dn on pinned. default_passed cfg dn last on pinned,
      )
