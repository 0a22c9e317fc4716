-- ===== src/Web/Inventory/Sections.antt =====
-- The sections of argus/web/inventory.py, one per network, with the totals of their rows.
use bitcoin_argus.Common.{
  ℕ, String, Bool, true, false, ◌&&◌, Option, none, some, List, [], ◌∷◌, if◌then◌else◌, map, filter,
  str_eq,
}
use bitcoin_argus.Common.Float.{Float}
use bitcoin_argus.Deploy.Network.{NetworkSpec}
use bitcoin_argus.Deploy.Ports.{Items}
use bitcoin_argus.Deploy.Firewall.{ports_of}
use bitcoin_argus.Deploy.Sites.{SiteCfg, SharedCfg, onion_web_path_routed}
use bitcoin_argus.Deploy.Onion.{OnionRoute, onion_routes}
use bitcoin_argus.Web.Inventory.{Bucket, Nodes}
use bitcoin_argus.Web.Inventory.Rows.{OnionView, Usage, ServiceRow, service_rows, total, cpu_from}

-- `VARIANT_ORDER`
abbrev pub variant_order : List String
variant_order =
    "regtest" ∷ "custom-signet-short" ∷ "custom-signet-long" ∷ "mutinynet" ∷ "signet" ∷ "testnet4"
    ∷ "testnet3" ∷ []

-- The virtual ports of a network's routes.
unfoldable pub virtual_ports : String → List OnionRoute → List ℕ
virtual_ports key routes =
    map (λ r. r.virtual_port)
      (filter (λ r. elim r.net_key [ none ↦ false | some k ↦ str_eq k key ]) routes)

-- The onion service as the rows of a network see it.
unfoldable pub onion_view : SharedCfg → Bool → String → List OnionRoute → OnionView
onion_view cfg named key routes = record {
  named = named;
  ports = virtual_ports key routes;
  faucet = named && onion_web_path_routed cfg;
}

-- The routes are made only if the onion service has a name.
unfoldable pub routes_if : Bool → SharedCfg → List (String × Items) → Option (List OnionRoute)
routes_if named cfg port_map = if named then onion_routes cfg port_map else some []

module _ (fl : Float) where
  -- A configured network with what was measured of it.
  pub record Configured : Type 0 where
    pub settings : SiteCfg
    pub spec : NetworkSpec
    pub nodes : Nodes
    pub usage : Bucket → Option (Usage fl)

  pub record Section : Type 0 where
    pub key : String
    pub enabled : Bool
    pub services : List (ServiceRow fl)
    pub ram_total : ℕ
    pub cpu_total : fl.Carrier
    pub disk_total : ℕ
    pub net_rx_total : ℕ
    pub net_tx_total : ℕ

module _ {fl : Float} where
  unfoldable pub section : String → Bool → List (ServiceRow fl) → Section fl
  section key enabled rows = record {
    key = key;
    enabled = enabled;
    services = rows;
    ram_total = total (λ u. u.ram) rows;
    cpu_total = cpu_from (fl.of_nat 0) rows;
    disk_total = total (λ u. u.disk) rows;
    net_rx_total = total (λ u. u.net_rx) rows;
    net_tx_total = total (λ u. u.net_tx) rows;
  }

  -- A network that is off, or that has no ports, has a section without services.
  unfoldable pub section_of :
      SharedCfg
      → Bool
      → List OnionRoute
      → List (String × Items)
      → String
      → Configured fl
      → Option (Section fl)
  section_of cfg named routes port_map key net =
      let enabled = net.settings.public.network.enabled in
      elim (ports_of key port_map) [
        | none ↦ some (section key enabled [])
        | some ports ↦ elim enabled [
          | false ↦ some (section key false [])
          | true ↦
              elim (service_rows net.usage (onion_view cfg named key routes) cfg.ssl_enabled key
                net.settings net.spec net.nodes ports) [
                  | none ↦ none
                  | some rows ↦ some (section key true rows)
                ]
        ]
      ]

  unfoldable pub sections_from :
      SharedCfg
      → Bool
      → List OnionRoute
      → List (String × Items)
      → (String → Option (Configured fl))
      → List String
      → Option (List (Section fl))
  sections_from cfg named routes port_map configured [] = some []
  sections_from cfg named routes port_map configured (key ∷ keys) =
      let rest = sections_from cfg named routes port_map configured keys in
      elim (configured key) [
        | none ↦ rest
        | some net ↦ elim (section_of cfg named routes port_map key net) [
          | none ↦ none
          | some s ↦ elim rest [ none ↦ none | some sections ↦ some (s ∷ sections) ]
        ]
      ]

  -- `build_sections`
  unfoldable pub build_sections :
      SharedCfg
      → Bool
      → List (String × Items)
      → (String → Option (Configured fl))
      → Option (List (Section fl))
  build_sections cfg named port_map configured = elim (routes_if named cfg port_map) [
    | none ↦ none
    | some routes ↦ sections_from cfg named routes port_map configured variant_order
  ]
