-- ===== src/Web/Inventory/Rows.antt =====
-- The rows of argus/web/inventory.py with the ports that were given out, the links over the onion service,
-- the measured usage, and the sections with their totals.
use bitcoin_argus.Common.{
  ℕ, ◌+◌, String, Bool, true, ◌&&◌, Option, none, some, List, [], ◌∷◌, ◌==◌, any, or_else,
}
use bitcoin_argus.Common.Float.{Float}
use bitcoin_argus.Common.Traverse.{traverse}
use bitcoin_argus.Deploy.Network.{NetworkSpec}
use bitcoin_argus.Deploy.Ports.{Items}
use bitcoin_argus.Deploy.Firewall.{port_of}
use bitcoin_argus.Deploy.Sites.{SiteCfg}
use bitcoin_argus.Web.Inventory.{
  Bucket, Port, Link, on_port, wallet, faucet, elsewhere, Planned, Nodes, planned_rows,
}

pub record PortRef : Type 0 where
  pub port : ℕ
  pub public : Bool

-- A link with its scheme and port, and whether it has a form over the onion service; a wallet's also has
-- the port of the mint.
pub data LinkRef : Type 0 where
  site_link : Bool → ℕ → Bool → LinkRef
  wallet_link : Bool → ℕ → ℕ → Bool → LinkRef
  faucet_link : Bool → LinkRef
  outside : LinkRef

-- Whether the onion service has a name, the ports of the network's routes on it, and whether it leads to the
-- faucet.
pub record OnionView : Type 0 where
  pub named : Bool
  pub ports : List ℕ
  pub faucet : Bool

abbrev pub on_onion : OnionView → ℕ → Bool
on_onion view port = view.named && any (λ v. v == port) view.ports

unfoldable pub port_ref : Items → Port → Option PortRef
port_ref ports q = elim (port_of q.name ports) [
  | none ↦ none
  | some p ↦ some (record { port = p; public = q.public })
]

unfoldable pub link_ref : OnionView → Items → Link → Option LinkRef
link_ref view ports (on_port https name) = elim (port_of name ports) [
  | none ↦ none
  | some p ↦ some (site_link https p (on_onion view p))
]
link_ref view ports (wallet https name mint) = elim (port_of name ports) [
  | none ↦ none
  | some w ↦ elim (port_of mint ports) [
    | none ↦ none
    | some m ↦ some (wallet_link https w m (on_onion view w && on_onion view m))
  ]
]
link_ref view ports faucet = some (faucet_link view.faucet)
link_ref view ports elsewhere = some outside

module _ (fl : Float) where
  -- The usage of a bucket; a figure that is missing is `none`.
  pub record Usage : Type 0 where
    pub ram : Option ℕ
    pub cpu : Option fl.Carrier
    pub disk : Option ℕ
    pub net_rx : Option ℕ
    pub net_tx : Option ℕ

  pub record ServiceRow : Type 0 where
    pub bucket : Bucket
    pub ports : List PortRef
    pub links : List LinkRef
    pub usage : Option Usage

module _ {fl : Float} where
  unfoldable pub service_row :
      (Bucket → Option (Usage fl)) → OnionView → Items → Planned → Option (ServiceRow fl)
  service_row usage view ports r = elim (traverse (port_ref ports) r.ports) [
    | none ↦ none
    | some ps ↦ elim (traverse (link_ref view ports) r.links) [
      | none ↦ none
      | some ls ↦
          some (record { bucket = r.bucket; ports = ps; links = ls; usage = usage r.bucket })
    ]
  ]

  -- `_service_rows`
  unfoldable pub service_rows :
      (Bucket → Option (Usage fl))
      → OnionView
      → Bool
      → String
      → SiteCfg
      → NetworkSpec
      → Nodes
      → Items
      → Option (List (ServiceRow fl))
  service_rows usage view ssl_enabled net_key cfg spec nodes ports =
      traverse (service_row usage view ports) (planned_rows ssl_enabled net_key cfg spec nodes)

  -- `ServiceRow.audience`: whether a visitor can reach it.
  unfoldable pub is_for_visitors : ServiceRow fl → Bool
  is_for_visitors r = elim r.links [ [] ↦ any (λ q. q.public) r.ports | l ∷ ls ↦ true ]

  -- `sum(s.figure or 0 for s in services)`
  unfoldable pub total : (Usage fl → Option ℕ) → List (ServiceRow fl) → ℕ
  total figure [] = 0
  total figure (r ∷ rows) = elim r.usage [
    | none ↦ total figure rows
    | some u ↦ or_else (figure u) 0 + total figure rows
  ]

  -- The same for the floating-point figure, from the left.
  unfoldable pub cpu_from : fl.Carrier → List (ServiceRow fl) → fl.Carrier
  cpu_from sum [] = sum
  cpu_from sum (r ∷ rows) = elim r.usage [
    | none ↦ cpu_from (fl.add sum (fl.of_nat 0)) rows
    | some u ↦ cpu_from (fl.add sum (or_else u.cpu (fl.of_nat 0))) rows
  ]
