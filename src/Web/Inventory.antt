-- ===== src/Web/Inventory.antt =====
-- The rows of the dashboard's tables (argus/web/inventory.py): the ports and links of each service with
-- its usage. Titles, versions, repositories and the picture of an invite code are left out.
pub mod Ports
pub mod Rows
pub mod Sections
pub mod Members
pub mod Shown
pub mod Led
pub mod Links
use bitcoin_argus.Common.{
  ℕ, zero, suc, ◌+◌, String, Bool, true, false, ◌&&◌, ◌||◌, Option, none, some, is_some, List, [],
  ◌∷◌, ◌++◌, ◌==◌, if◌then◌else◌, length, any, str_eq,
}
use bitcoin_argus.Deploy.Network.{
  NetworkSpec, PortName, fixed, numbered, enabled_indexers, fedimint_enabled,
  fedimint_guardian_count, lnd_secondary_enabled, lnd_tertiary_enabled, mempool_enabled,
}
use bitcoin_argus.Deploy.Ports.{Items}
use bitcoin_argus.Deploy.Firewall.{port_of, ark_enabled}
use bitcoin_argus.Deploy.Sites.{SiteCfg}

-- The key of a row in the measured usage: a name, a name with the number of a guardian or a gateway,
-- or the bucket that the name of an indexer has.
pub data Bucket : Type 0 where
  named : String → Bucket
  of_member : String → ℕ → Bucket
  of_indexer : ℕ → Bucket

-- A link on a port of the host, with its scheme; one to the wallet that names the mint; the faucet's on the
-- root; or one to a public explorer.
pub data Link : Type 0 where
  on_port : Bool → PortName → Link
  wallet : Bool → PortName → PortName → Link
  faucet elsewhere : Link

pub record Port : Type 0 where
  pub name : PortName
  pub public : Bool

-- A row with the names of its ports.
pub record Planned : Type 0 where
  pub bucket : Bucket
  pub ports : List Port
  pub links : List Link

-- What is read of a network's state: the keys of its nodes. `MEMPOOL_SPACE_LN_NODE` has a page for three
-- networks.
pub record Nodes : Type 0 where
  pub lnd : Option String
  pub lnd2 : Option String
  pub lnd3 : Option String

abbrev pub mempool_space_networks : List String
mempool_space_networks = "testnet3" ∷ "testnet4" ∷ "signet" ∷ []

abbrev pub public_port : PortName → Port
public_port name = record { name = name; public = true }

abbrev pub local_port : PortName → Port
local_port name = record { name = name; public = false }

abbrev pub rows_when : Bool → List Planned → List Planned
rows_when true rows = rows
rows_when false rows = []

abbrev pub row : String → List Port → List Link → List Planned
row bucket ports links = record { bucket = named bucket; ports = ports; links = links } ∷ []

-- `if pk`: an empty text is no key.
abbrev pub is_known_key : Option String → Bool
is_known_key none = false
is_known_key (some pk) = if str_eq pk "" then false else true

module _ (ssl_enabled : Bool) (net_key : String) (cfg : SiteCfg) (spec : NetworkSpec) where
  unfoldable pub node_links : Option String → List Link
  node_links pk =
      if is_known_key pk && mempool_enabled cfg.public.network spec
      then on_port (ssl_enabled && cfg.mempool_ssl) (fixed "mempool_public") ∷ []
      else if is_known_key pk && any (str_eq net_key) mempool_space_networks
      then elsewhere ∷ []
      else []

  -- `lnd_row`
  unfoldable pub lnd_row : String → String → String → String → Option String → List Planned
  lnd_row bucket p2p rest grpc pk =
      row bucket (public_port (fixed p2p) ∷ local_port (fixed rest) ∷ local_port (fixed grpc) ∷ [])
        (node_links pk)

  unfoldable pub lnd_rows : Nodes → List Planned
  lnd_rows nodes =
      let net = cfg.public.network in
      lnd_row "lnd" "lnd_p2p" "lnd_rest" "lnd_grpc" nodes.lnd
      ++ (rows_when (lnd_secondary_enabled net)
            (lnd_row "lnd2" "lnd2_p2p" "lnd2_rest" "lnd2_grpc" nodes.lnd2)
          ++ rows_when (lnd_tertiary_enabled net)
              (lnd_row "lnd3" "lnd3_p2p" "lnd3_rest" "lnd3_grpc" nodes.lnd3))

  unfoldable pub indexer_rows : ℕ → ℕ → List Planned
  indexer_rows i zero = []
  indexer_rows i (suc n) =
      record {
        bucket = of_indexer i;
        ports =
            public_port (numbered "fulcrum_" i "_electrum_tcp")
            ∷ local_port (numbered "fulcrum_" i "_admin")
            ∷ [];
        links = [];
      }
      ∷ indexer_rows (suc i) n

  unfoldable pub cashu_rows : List Planned
  cashu_rows =
      let https = ssl_enabled && cfg.cashu_ssl in
      row "cashu" (public_port (fixed "cashu_public") ∷ [])
        (on_port https (fixed "cashu_public") ∷ [])
      ++ rows_when cfg.public.cashu_wallet (
          row "cashu-wallet" (public_port (fixed "cashu_wallet_public") ∷ [])
            (wallet https (fixed "cashu_wallet_public") (fixed "cashu_public") ∷ []))

  unfoldable pub guardian_rows : ℕ → ℕ → List Planned
  guardian_rows i zero = []
  guardian_rows i (suc n) =
      record {
        bucket = of_member "fedimintd" i;
        ports =
            public_port (numbered "fedimintd_" i "_api_public")
            ∷ local_port (numbered "fedimintd_" i "_ui")
            ∷ [];
        links = [];
      }
      ∷ guardian_rows (suc i) n

  unfoldable pub gateway_rows : ℕ → ℕ → List Planned
  gateway_rows i zero = []
  gateway_rows i (suc n) =
      record {
        bucket = of_member "gatewayd" i;
        ports = public_port (numbered "gatewayd_" i "_api_public") ∷ [];
        links = on_port ssl_enabled (numbered "gatewayd_" i "_api_public") ∷ [];
      }
      ∷ gateway_rows (suc i) n

  unfoldable pub ark_rows : List Planned
  ark_rows =
      row "captaind"
        (public_port (fixed "ark_captaind_public") ∷ local_port (fixed "ark_captaind_admin") ∷ [])
        []
      ++ row "cln" (public_port (fixed "ark_cln_p2p") ∷ local_port (fixed "ark_cln_grpc") ∷ []) []

  unfoldable pub shop_rows : List Planned
  shop_rows =
      let store = ssl_enabled && cfg.bitcart_ssl in
      rows_when (mempool_enabled cfg.public.network spec) (
        row "mempool" (public_port (fixed "mempool_public") ∷ [])
          (on_port (ssl_enabled && cfg.mempool_ssl) (fixed "mempool_public") ∷ []))
      ++ (rows_when cfg.public.network.bitcart (
            row "bitcart"
              (public_port (fixed "bitcart_store_public")
                ∷ public_port (fixed "bitcart_admin_public")
                ∷ public_port (fixed "bitcart_api_public")
                ∷ [])
              (on_port store (fixed "bitcart_store_public")
                ∷ on_port store (fixed "bitcart_admin_public")
                ∷ on_port store (fixed "bitcart_api_public")
                ∷ []))
          ++ (rows_when cfg.public.cashupayserver (
                row "cashupayserver" (public_port (fixed "cashupayserver_public") ∷ []) (
                  on_port (ssl_enabled && cfg.cashupayserver_ssl) (fixed "cashupayserver_public")
                  ∷ []))
              ++ rows_when cfg.public.woocommerce (
                  row "woocommerce" (public_port (fixed "woocommerce_public") ∷ []) (
                    on_port (ssl_enabled && cfg.woocommerce_ssl) (fixed "woocommerce_public")
                    ∷ []))))

  -- The rows of one network, in the order of the source.
  unfoldable pub planned_rows : Nodes → List Planned
  planned_rows nodes =
      let net = cfg.public.network in
      rows_when net.faucet (row "faucet" [] (faucet ∷ []))
      ++ (row "bitcoind"
            (record { name = fixed "bitcoind_p2p"; public = cfg.public.p2p_public }
              ∷ local_port (fixed "bitcoind_rpc")
              ∷ [])
            []
          ++ (rows_when (net.miner && spec.supports_miner) (row "miner" [] [])
              ++ (lnd_rows nodes
                  ++ (indexer_rows 0 (length (enabled_indexers net))
                      ++ (rows_when cfg.public.cashu cashu_rows
                          ++ (rows_when (fedimint_enabled net spec) (
                                guardian_rows 0 (fedimint_guardian_count net spec)
                                ++ gateway_rows 0 (fedimint_guardian_count net spec))
                              ++ (rows_when (ark_enabled net spec) ark_rows ++ shop_rows)))))))
