-- ===== src/Deploy/Complete/Names.antt =====
-- The names that the rules, the sites and the routes of a network ask for are in its layout.
use bitcoin_argus.Common.{
  ℕ, zero, suc, ◌+◌, ◌≡◌, ◌≤◌, refl, String, Bool, true, false, ◌&&◌, List, arith, str_eq, length,
  any, All, All-append,
}
use bitcoin_argus.Deploy.Network.{
  NetworkSpec, fixed, enabled_indexers, fedimint_enabled, fedimint_guardian_count,
  lnd_secondary_enabled, lnd_tertiary_enabled, mempool_enabled,
}
use bitcoin_argus.Deploy.Ports.{bitcart_pools, port_offsets}
use bitcoin_argus.Deploy.Firewall.{
  PublicCfg, Opening, one, when, electrum_openings, fedimint_openings, openings, ark_enabled,
  electrum_relay_enabled,
}
use bitcoin_argus.Deploy.Complete.Given.{Named, Named-fixed, Named-service}
use bitcoin_argus.Deploy.Complete.Numbered.{fulcrum-Named, guardian-Named, gateway-Named}

module _ (net_key : String) (cfg : PublicCfg) (spec : NetworkSpec) where
  abbrev Asked : Opening → Type 0
  Asked o = Named net_key cfg.network spec o.name

  name : (n : String) → any (λ q. str_eq n q.0) port_offsets ≡ true → All Asked (one n)
  name n h = (Named-fixed net_key cfg.network spec n h, tt)

  All-when : (b : Bool) (os : List Opening) → (b ≡ true → All Asked os) → All Asked (when b os)
  All-when true os h = h refl
  All-when false os h = tt

  electrum_openings-Named :
      (i n : ℕ) → i + n ≤ length (enabled_indexers cfg.network) → All Asked (electrum_openings i n)
  unfolding electrum_openings
  electrum_openings-Named i zero h = tt
  electrum_openings-Named i (suc n) h = (
    fulcrum-Named net_key cfg.network spec i (omega (arith, h)),
    electrum_openings-Named (suc i) n (omega (arith, h)),
  )

  fedimint_openings-Named :
      (i n : ℕ)
      → i + n ≤ fedimint_guardian_count cfg.network spec
      → All Asked (fedimint_openings i n)
  unfolding fedimint_openings
  fedimint_openings-Named i zero h = tt
  fedimint_openings-Named i (suc n) h = (
    (guardian-Named net_key cfg.network spec i (omega (arith, h))).0,
    (
      (gateway-Named net_key cfg.network spec i (omega (arith, h))).0,
      fedimint_openings-Named (suc i) n (omega (arith, h)),
    ),
  )

  pool :
      cfg.network.bitcart ≡ true → Named net_key cfg.network spec (fixed "bitcart_btclnd_p2p_base")
  unfolding bitcart_pools
  pool e = Named-service net_key cfg.network spec (fixed "bitcart_btclnd_p2p_base") 3 (rw e refl)

  pub openings-Named : All Asked (openings cfg spec)
  unfolding openings
  openings-Named =
      let net = cfg.network in
      All-append Asked _ _ (All-when cfg.p2p_public _ (λ e. name "bitcoind_p2p" refl)) (
        (name "lnd_p2p" refl).0,
        All-append Asked _ _ (All-when (lnd_secondary_enabled net) _ (λ e. name "lnd2_p2p" refl)) (
            All-append Asked _ _ (All-when (lnd_tertiary_enabled net) _ (λ e. name "lnd3_p2p" refl))
              (All-append Asked _ _
                (electrum_openings-Named 0 (length (enabled_indexers net)) (omega arith))
                (All-append Asked _ _
                  (All-when cfg.cashu _ (λ e. (
                    (name "cashu_public" refl).0,
                    All-when cfg.cashu_wallet _ (λ w. name "cashu_wallet_public" refl),
                  )))
                  (All-append Asked _ _
                    (All-when (fedimint_enabled net spec) _ (λ e.
                      fedimint_openings-Named 0 (fedimint_guardian_count net spec) (omega arith)))
                    (All-append Asked _ _
                      (All-when (ark_enabled net spec) _
                        (λ e. ((name "ark_captaind_public" refl).0, name "ark_cln_p2p" refl)))
                      (All-append Asked _ _
                        (All-when (electrum_relay_enabled cfg && cfg.relay_public) _
                          (λ e. name "nostr_relay_public" refl))
                        (All-append Asked _ _
                          (All-when (mempool_enabled net spec) _ (λ e. name "mempool_public" refl))
                          (All-append Asked _ _
                            (All-when net.bitcart _ (λ e. (
                              (name "bitcart_store_public" refl).0,
                              (
                                (name "bitcart_admin_public" refl).0,
                                ((name "bitcart_api_public" refl).0, (pool e, tt)),
                              ),
                            )))
                            (All-append Asked _ _
                              (All-when cfg.cashupayserver _
                                (λ e. name "cashupayserver_public" refl))
                              (All-when cfg.woocommerce _
                                (λ e. name "woocommerce_public" refl))))))))))),
      )
