-- ===== src/Deploy/Sites/Opened.antt =====
-- The sites of argus/shared.py against the rules of argus/firewall.py, by the names of their ports.
use bitcoin_argus.Common.{
  ℕ, zero, suc, ◌≡◌, refl, Bool, true, false, ◌&&◌, List, [], ◌∷◌, ◌++◌, arith, length, any, All,
  All-append, All-imp,
}
use bitcoin_argus.Common.Segments.{flatten, segment, any-flatten}
use bitcoin_argus.Deploy.Network.{
  NetworkSpec, PortName, fixed, fedimint_enabled, fedimint_guardian_count, mempool_enabled,
  lnd_secondary_enabled, lnd_tertiary_enabled, enabled_indexers,
}
use bitcoin_argus.Deploy.Ports.{same_name}
use bitcoin_argus.Deploy.Firewall.{
  PublicCfg, Opening, one, when, electrum_openings, fedimint_openings, openings, ark_enabled,
  electrum_relay_enabled,
}
use bitcoin_argus.Deploy.Sites.{SiteCfg, Front, fronts_when, fedimint_fronts, fronts}

-- A name is among those that are opened.
abbrev pub Opens : List Opening → PortName → Type 0
Opens os name = any (λ o. same_name name o.name) os ≡ true

-- The openings of a network, service by service.
abbrev pub services : PublicCfg → NetworkSpec → List (List Opening)
services cfg spec =
    let net = cfg.network in
    when cfg.p2p_public (one "bitcoind_p2p")
    ∷ one "lnd_p2p"
    ∷ when (lnd_secondary_enabled net) (one "lnd2_p2p")
    ∷ when (lnd_tertiary_enabled net) (one "lnd3_p2p")
    ∷ electrum_openings 0 (length (enabled_indexers net))
    ∷ when cfg.cashu (one "cashu_public" ++ when cfg.cashu_wallet (one "cashu_wallet_public"))
    ∷ when (fedimint_enabled net spec) (fedimint_openings 0 (fedimint_guardian_count net spec))
    ∷ when (ark_enabled net spec) (one "ark_captaind_public" ++ one "ark_cln_p2p")
    ∷ when (electrum_relay_enabled cfg && cfg.relay_public) (one "nostr_relay_public")
    ∷ when (mempool_enabled net spec) (one "mempool_public")
    ∷ when net.bitcart (
        one "bitcart_store_public"
        ++ (one "bitcart_admin_public"
            ++ (one "bitcart_api_public"
                ++ record {
                  name = fixed "bitcart_btclnd_p2p_base";
                  size = cfg.btclnd_p2p_pool_size;
                }
                  ∷ [])))
    ∷ when cfg.cashupayserver (one "cashupayserver_public")
    ∷ when cfg.woocommerce (one "woocommerce_public")
    ∷ []

pub openings-services :
    (cfg : PublicCfg) (spec : NetworkSpec) → openings cfg spec ≡ flatten (services cfg spec)
unfolding openings
openings-services cfg spec = refl

-- A name that one service opens.
pub Opens-service :
    (cfg : PublicCfg) (spec : NetworkSpec) (name : PortName) (i : ℕ)
    → Opens (segment i (services cfg spec)) name
    → Opens (openings cfg spec) name
Opens-service cfg spec name i h =
    rw (openings-services cfg spec)
      (any-flatten (λ o. same_name name o.name) i (services cfg spec) h)

-- Every site is on a port that is opened.
abbrev Opened : PublicCfg → NetworkSpec → List Front → Type 0
Opened cfg spec fs = All (λ f. Opens (openings cfg spec) f.public) fs

All-fronts_when :
    (P : Front → Type 0) (b : Bool) (fs : List Front)
    → (b ≡ true → All P fs)
    → All P (fronts_when b fs)
All-fronts_when P true fs h = h refl
All-fronts_when P false fs h = tt

fedimint_fronts-Opens :
    (ssl : Bool) (i n : ℕ)
    → All (λ f. Opens (fedimint_openings i n) f.public) (fedimint_fronts ssl i n)
unfolding fedimint_fronts fedimint_openings
fedimint_fronts-Opens ssl i zero = tt
fedimint_fronts-Opens ssl i (suc n) = (
  ground arith,
  (
    ground arith,
    All-imp (λ f. Opens (fedimint_openings (suc i) n) f.public) _ (fedimint_fronts ssl (suc i) n)
        (λ f h. ground arith) (fedimint_fronts-Opens ssl (suc i) n),
  ),
)

pub fronts-Opened :
    (ssl_enabled : Bool) (cfg : SiteCfg) (spec : NetworkSpec)
    → Opened cfg.public spec (fronts ssl_enabled cfg spec)
unfolding fronts
fronts-Opened ssl_enabled cfg spec =
    let public = cfg.public in
    let net = public.network in
    let opened : Front → Type 0 = λ f. Opens (openings public spec) f.public in
    let service = Opens-service public spec in
    All-append opened _ _
      (All-fronts_when opened public.cashu _ (λ e. (
        service (fixed "cashu_public") 5 (rw e refl),
        All-fronts_when opened public.cashu_wallet _
            (λ w. (service (fixed "cashu_wallet_public") 5 (rw (e, w) refl), tt)),
      )))
      (All-append opened _ _
        (All-fronts_when opened (fedimint_enabled net spec) _ (λ e.
          All-imp (λ f. Opens (fedimint_openings 0 (fedimint_guardian_count net spec)) f.public)
            opened (fedimint_fronts ssl_enabled 0 (fedimint_guardian_count net spec))
            (λ f h. service f.public 6 (rw e h))
            (fedimint_fronts-Opens ssl_enabled 0 (fedimint_guardian_count net spec))))
        (All-append opened _ _
          (All-fronts_when opened (ark_enabled net spec) _
            (λ e. (service (fixed "ark_captaind_public") 7 (rw e refl), tt)))
          (All-append opened _ _
            (All-fronts_when opened (electrum_relay_enabled public && public.relay_public) _
              (λ e. (service (fixed "nostr_relay_public") 8 (rw e refl), tt)))
            (All-append opened _ _
              (All-fronts_when opened (mempool_enabled net spec) _
                (λ e. (service (fixed "mempool_public") 9 (rw e refl), tt)))
              (All-append opened _ _
                (All-fronts_when opened net.bitcart _ (λ e. (
                  service (fixed "bitcart_store_public") 10 (rw e refl),
                  (
                    service (fixed "bitcart_admin_public") 10 (rw e refl),
                    (service (fixed "bitcart_api_public") 10 (rw e refl), tt),
                  ),
                )))
                (All-append opened _ _
                  (All-fronts_when opened public.cashupayserver _
                    (λ e. (service (fixed "cashupayserver_public") 11 (rw e refl), tt)))
                  (All-fronts_when opened public.woocommerce _
                    (λ e. (service (fixed "woocommerce_public") 12 (rw e refl), tt)))))))))
