-- ===== src/Deploy/Sites.antt =====
-- The HTTP services that the shared Caddy fronts, and the address of the dashboard (argus/shared.py).
-- The text of the Caddyfile and of the compose file is not modelled.
pub mod Opened
pub mod Reachable
use bitcoin_argus.Common.{
  ℕ, zero, suc, ◌+◌, String, Bool, true, false, ◌&&◌, ◌||◌, not, Option, none, some, List, [], ◌∷◌,
  ◌++◌, ◌==◌, if◌then◌else◌, filter, map,
}
use bitcoin_argus.Deploy.Network.{
  NetworkSpec, PortName, fixed, numbered, fedimint_enabled, fedimint_guardian_count,
  mempool_enabled,
}
use bitcoin_argus.Deploy.Ports.{Items}
use bitcoin_argus.Deploy.Firewall.{
  PublicCfg, port_of, ports_of, ark_enabled, electrum_relay_enabled,
}

-- The settings of a network that decide on the scheme of its sites, beside those of the firewall.
pub record SiteCfg : Type 0 where
  pub public : PublicCfg
  pub cashu_ssl : Bool
  pub relay_ssl : Bool
  pub mempool_ssl : Bool
  pub bitcart_ssl : Bool
  pub cashupayserver_ssl : Bool
  pub woocommerce_ssl : Bool

-- `TorCfg`
pub record TorCfg : Type 0 where
  pub enabled : Bool
  pub expose_web : Bool
  pub expose_electrum : Bool
  pub expose_lnd_p2p : Bool
  pub expose_bitcoind_p2p : Bool

-- The settings of the whole installation, and its enabled networks in their order.
pub record SharedCfg : Type 0 where
  pub ssl_enabled : Bool
  pub web_enabled : Bool
  pub web_ssl : Bool
  pub web_port : Option ℕ
  pub tor : TorCfg
  pub enabled_networks : List (String × (SiteCfg × NetworkSpec))

abbrev pub web_backend_port : ℕ
web_backend_port = 29080

abbrev pub faucet_backend_port : ℕ
faucet_backend_port = 29081

abbrev pub onion_web_backend_port : ℕ
onion_web_backend_port = 29082

pub record HttpSite : Type 0 where
  pub public_port : ℕ
  pub backend_port : ℕ
  pub ssl : Bool
  pub h2c : Bool

-- A site with the names of its ports.
pub record Front : Type 0 where
  pub public : PortName
  pub backend : PortName
  pub ssl : Bool
  pub h2c : Bool

abbrev pub front : String → String → Bool → List Front
front public backend ssl =
    record { public = fixed public; backend = fixed backend; ssl = ssl; h2c = false } ∷ []

abbrev pub fronts_when : Bool → List Front → List Front
fronts_when true fs = fs
fronts_when false fs = []

unfoldable pub fedimint_fronts : Bool → ℕ → ℕ → List Front
fedimint_fronts ssl i zero = []
fedimint_fronts ssl i (suc n) =
    record {
      public = numbered "fedimintd_" i "_api_public";
      backend = numbered "fedimintd_" i "_api";
      ssl = ssl;
      h2c = false;
    }
    ∷ record {
      public = numbered "gatewayd_" i "_api_public";
      backend = numbered "gatewayd_" i "_api";
      ssl = ssl;
      h2c = false;
    }
    ∷ fedimint_fronts ssl (suc i) n

-- What is fronted for one network, in the order of the source.
unfoldable pub fronts : Bool → SiteCfg → NetworkSpec → List Front
fronts ssl_enabled cfg spec =
    let public = cfg.public in
    let net = public.network in
    fronts_when public.cashu (
      front "cashu_public" "cashu_backend" (ssl_enabled && cfg.cashu_ssl)
      ++ fronts_when public.cashu_wallet
          (front "cashu_wallet_public" "cashu_wallet_backend" (ssl_enabled && cfg.cashu_ssl)))
    ++ (fronts_when (fedimint_enabled net spec)
          (fedimint_fronts ssl_enabled 0 (fedimint_guardian_count net spec))
        ++ (fronts_when (ark_enabled net spec) (
              record {
                public = fixed "ark_captaind_public";
                backend = fixed "ark_captaind";
                ssl = ssl_enabled;
                h2c = true;
              }
              ∷ [])
            ++ (fronts_when (electrum_relay_enabled public && public.relay_public)
                  (front "nostr_relay_public" "nostr_relay_backend" (ssl_enabled && cfg.relay_ssl))
                ++ (fronts_when (mempool_enabled net spec)
                      (front "mempool_public" "mempool_web" (ssl_enabled && cfg.mempool_ssl))
                    ++ (fronts_when net.bitcart (
                          front "bitcart_store_public" "bitcart_store"
                            (ssl_enabled && cfg.bitcart_ssl)
                          ++ (front "bitcart_admin_public" "bitcart_admin"
                                (ssl_enabled && cfg.bitcart_ssl)
                              ++ front "bitcart_api_public" "bitcart_api"
                                  (ssl_enabled && cfg.bitcart_ssl)))
                        ++ (fronts_when public.cashupayserver (
                              front "cashupayserver_public" "cashupayserver_backend"
                                (ssl_enabled && cfg.cashupayserver_ssl))
                            ++ fronts_when public.woocommerce (
                                front "woocommerce_public" "woocommerce_backend"
                                  (ssl_enabled && cfg.woocommerce_ssl))))))))

-- A site is written if both of its names have ports; Python raises KeyError otherwise.
unfoldable pub site_of : Items → Front → Option HttpSite
site_of ports f = elim (port_of f.public ports) [
  | none ↦ none
  | some p ↦ elim (port_of f.backend ports) [
    | none ↦ none
    | some b ↦ some (record { public_port = p; backend_port = b; ssl = f.ssl; h2c = f.h2c })
  ]
]

unfoldable pub sites_for : Items → List Front → Option (List HttpSite)
sites_for ports [] = some []
sites_for ports (f ∷ fs) =
    let rest = sites_for ports fs in
    elim (site_of ports f) [
      | none ↦ none
      | some s ↦ elim rest [ none ↦ none | some sites ↦ some (s ∷ sites) ]
    ]

-- `_http_sites`
unfoldable pub http_sites :
    Bool → List (String × (SiteCfg × NetworkSpec)) → List (String × Items) → Option (List HttpSite)
http_sites ssl_enabled [] port_map = some []
http_sites ssl_enabled ((key, (cfg, spec)) ∷ nets) port_map =
    let rest = http_sites ssl_enabled nets port_map in
    elim (ports_of key port_map) [
      | none ↦ none
      | some ports ↦ elim (sites_for ports (fronts ssl_enabled cfg spec)) [
        | none ↦ none
        | some sites ↦ elim rest [ none ↦ none | some more ↦ some (sites ++ more) ]
      ]
    ]

unfoldable pub web_public_port : SharedCfg → ℕ
web_public_port cfg = elim cfg.web_port [
  | some port ↦ port
  | none ↦ if cfg.ssl_enabled && cfg.web_ssl then 443 else 80
]

-- The address of the dashboard's site: with a scheme or without, and its port where that is written.
pub record SiteAddress : Type 0 where
  pub plain : Bool
  pub port : Option ℕ

unfoldable pub web_site_address : SharedCfg → SiteAddress
web_site_address cfg =
    let port = web_public_port cfg in
    let web_ssl = cfg.ssl_enabled && cfg.web_ssl in
    record {
      plain = not web_ssl;
      port =
          if (web_ssl && (port == 443)) || (not web_ssl && (port == 80)) then none else some port;
    }

-- `faucet_networks`
unfoldable pub faucet_networks : SharedCfg → List (String × (SiteCfg × NetworkSpec))
faucet_networks cfg = filter (λ n. n.1.0.public.network.faucet) cfg.enabled_networks

-- The directives of a site root: the keys whose faucet is routed to the port of the faucet, and the
-- port that all else goes to.
pub record SiteRoot : Type 0 where
  pub faucets : List String
  pub dashboard : ℕ

unfoldable pub site_root_body : List String → SiteRoot
site_root_body faucet_keys = record { faucets = faucet_keys; dashboard = web_backend_port }

unfoldable pub onion_web_path_routed : SharedCfg → Bool
onion_web_path_routed cfg =
    cfg.tor.enabled
    && (cfg.tor.expose_web
        && (cfg.web_enabled && elim (faucet_networks cfg) [ [] ↦ false | _ ∷ _ ↦ true ]))

-- The listeners on local ports that carry the site root for the onion, with what they serve.
unfoldable pub onion_site : SharedCfg → List (ℕ × SiteRoot)
onion_site cfg =
    if cfg.web_enabled && onion_web_path_routed cfg
    then (onion_web_backend_port, site_root_body (map (λ n. n.0) (faucet_networks cfg))) ∷ []
    else []
