-- ===== src/Deploy/Onion.antt =====
-- The routes of the one onion service (argus/tor.py) over the allocation of argus/ports.py. The label of
-- a route is left out, and the rest of torrc is text.
pub mod Names
pub mod Known
pub mod Backed
pub mod Reach
use bitcoin_argus.Common.{
  ℕ, zero, suc, String, Bool, true, false, ◌&&◌, Option, none, some, List, [], ◌∷◌, ◌++◌,
  if◌then◌else◌, length, any,
}
use bitcoin_argus.Deploy.Network.{
  NetworkSpec, PortName, fixed, numbered, enabled_indexers, lnd_secondary_enabled,
  lnd_tertiary_enabled, mempool_enabled,
}
use bitcoin_argus.Deploy.Ports.{Items}
use bitcoin_argus.Deploy.Firewall.{port_of, ports_of}
use bitcoin_argus.Deploy.Sites.{
  SiteCfg, TorCfg, SharedCfg, web_backend_port, onion_web_backend_port, onion_web_path_routed,
}

pub data RouteKind : Type 0 where
  http tcp : RouteKind

pub record OnionRoute : Type 0 where
  pub net_key : Option String
  pub virtual_port : ℕ
  pub target_port : ℕ
  pub kind : RouteKind

-- A route of a network, with the names of its ports.
pub record Link : Type 0 where
  pub virtual : PortName
  pub target : PortName
  pub kind : RouteKind

abbrev pub web_link : String → String → List Link
web_link virtual target =
    record { virtual = fixed virtual; target = fixed target; kind = http } ∷ []

abbrev pub peer_link : String → List Link
peer_link name = record { virtual = fixed name; target = fixed name; kind = tcp } ∷ []

abbrev pub links_when : Bool → List Link → List Link
links_when true ls = ls
links_when false ls = []

unfoldable pub electrum_links : ℕ → ℕ → List Link
electrum_links i zero = []
electrum_links i (suc n) =
    let name = numbered "fulcrum_" i "_electrum_tcp" in
    record { virtual = name; target = name; kind = tcp } ∷ electrum_links (suc i) n

unfoldable pub web_links : SiteCfg → NetworkSpec → List Link
web_links cfg spec =
    let public = cfg.public in
    let net = public.network in
    links_when public.cashu (
      web_link "cashu_public" "cashu_backend"
      ++ links_when public.cashu_wallet (web_link "cashu_wallet_public" "cashu_wallet_backend"))
    ++ (links_when (mempool_enabled net spec) (web_link "mempool_public" "mempool_web")
        ++ (links_when net.bitcart (
              web_link "bitcart_store_public" "bitcart_store"
              ++ (web_link "bitcart_admin_public" "bitcart_admin"
                  ++ web_link "bitcart_api_public" "bitcart_api"))
            ++ (links_when public.cashupayserver
                  (web_link "cashupayserver_public" "cashupayserver_backend")
                ++ links_when public.woocommerce
                    (web_link "woocommerce_public" "woocommerce_backend"))))

unfoldable pub lnd_links : SiteCfg → List Link
lnd_links cfg =
    let net = cfg.public.network in
    peer_link "lnd_p2p"
    ++ (links_when (lnd_secondary_enabled net) (peer_link "lnd2_p2p")
        ++ links_when (lnd_tertiary_enabled net) (peer_link "lnd3_p2p"))

-- What is routed for one network, in the order of the source.
unfoldable pub links : TorCfg → SiteCfg → NetworkSpec → List Link
links tor cfg spec =
    links_when tor.expose_web (web_links cfg spec)
    ++ (links_when tor.expose_electrum
          (electrum_links 0 (length (enabled_indexers cfg.public.network)))
        ++ (links_when tor.expose_lnd_p2p (lnd_links cfg)
            ++ links_when (tor.expose_bitcoind_p2p && cfg.public.p2p_public)
                (peer_link "bitcoind_p2p")))

unfoldable pub route_of : String → Items → Link → Option OnionRoute
route_of key ports l = elim (port_of l.virtual ports) [
  | none ↦ none
  | some v ↦ elim (port_of l.target ports) [
    | none ↦ none
    | some t ↦
        some (record { net_key = some key; virtual_port = v; target_port = t; kind = l.kind })
  ]
]

unfoldable pub routes_for : String → Items → List Link → Option (List OnionRoute)
routes_for key ports [] = some []
routes_for key ports (l ∷ ls) =
    let rest = routes_for key ports ls in
    elim (route_of key ports l) [
      | none ↦ none
      | some r ↦ elim rest [ none ↦ none | some routes ↦ some (r ∷ routes) ]
    ]

unfoldable pub network_routes :
    TorCfg
    → List (String × (SiteCfg × NetworkSpec))
    → List (String × Items)
    → Option (List OnionRoute)
network_routes tor [] port_map = some []
network_routes tor ((key, (cfg, spec)) ∷ nets) port_map =
    let rest = network_routes tor nets port_map in
    elim (ports_of key port_map) [
      | none ↦ none
      | some ports ↦ elim (routes_for key ports (links tor cfg spec)) [
        | none ↦ none
        | some routes ↦ elim rest [ none ↦ none | some more ↦ some (routes ++ more) ]
      ]
    ]

abbrev pub dashboard_onion_port : ℕ
dashboard_onion_port = 80

unfoldable pub dashboard_routes : SharedCfg → List OnionRoute
dashboard_routes cfg =
    if cfg.tor.expose_web && cfg.web_enabled
    then record {
      net_key = none;
      virtual_port = dashboard_onion_port;
      target_port = if onion_web_path_routed cfg then onion_web_backend_port else web_backend_port;
      kind = http;
    }
      ∷ []
    else []

unfoldable pub onion_routes : SharedCfg → List (String × Items) → Option (List OnionRoute)
onion_routes cfg port_map = elim (network_routes cfg.tor cfg.enabled_networks port_map) [
  | none ↦ none
  | some routes ↦ some (routes ++ dashboard_routes cfg)
]

unfoldable pub socks_open_to_containers : SharedCfg → Bool
socks_open_to_containers cfg =
    if cfg.tor.enabled && cfg.tor.expose_lnd_p2p
    then any (λ n. lnd_secondary_enabled n.1.0.public.network) cfg.enabled_networks
    else false
