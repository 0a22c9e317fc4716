-- ===== src/Web/Donations.antt =====
-- The donation addresses that the dashboard (`build_donations` of argus/web/inventory.py) and the faucet
-- (argus/faucet/donations.py) show. A text is the list of its code points; titles are left out, and what the
-- sidecar published is an argument.
pub mod Resolved
use bitcoin_argus.Common.{
  Bool, true, false, ◌&&◌, Option, none, some, or_else, List, [], ◌∷◌, ◌++◌, map, if◌then◌else◌,
  filter, codes_eq, String,
}
use bitcoin_argus.Faucet.Address.{codes}
use bitcoin_argus.Deploy.Ports.{network_order}
use bitcoin_argus.Web.Lnurl.{Text, LnurlCfg, head?, hyphen, at_sign}
use bitcoin_argus.Web.Inventory.Sections.{variant_order}

-- The settings that are read; `networks` says of a configured network whether it is enabled.
pub record DonationCfg : Type 0 where
  pub lnurl : LnurlCfg
  pub ssl_enabled : Bool
  pub hostname : Text
  pub networks : Text → Option Bool

-- The published figures of a network.
pub record Published : Type 0 where
  pub address : Option Text
  pub total_received : Option Text
  pub balance : Option Text

pub record DonationRow : Type 0 where
  pub key : Text
  pub address : Option Text
  pub total_received : Option Text
  pub balance : Option Text
  pub lightning_address : Option Text
  pub lightning_onion : Option Text

unfoldable pub is_enabled : DonationCfg → Text → Bool
is_enabled cfg key = or_else (cfg.networks key) false

-- The keys of `enabled_networks`.
unfoldable pub enabled_keys : DonationCfg → List Text
enabled_keys cfg = filter (is_enabled cfg) (map codes network_order)

-- `lnurl.default_network or (enabled_keys[0] if enabled_keys else None)`
unfoldable pub default_net : DonationCfg → Option Text
default_net cfg = elim cfg.lnurl.default_network [
  | none ↦ head? (enabled_keys cfg)
  | some [] ↦ head? (enabled_keys cfg)
  | some (c ∷ cs) ↦ some (c ∷ cs)
]

unfoldable pub donate_name : DonationCfg → Text → Text
donate_name cfg net_key =
    if elim (default_net cfg) [ none ↦ false | some d ↦ codes_eq net_key d ]
    then codes "donate"
    else codes "donate-" ++ net_key

unfoldable pub donation_row : DonationCfg → Option Text → (Text → Published) → Text → DonationRow
donation_row cfg onion_hostname info net_key =
    let local = donate_name cfg net_key in
    let lnurl_on = cfg.lnurl.web_enabled && cfg.lnurl.enabled in
    record {
      key = net_key;
      address = (info net_key).address;
      total_received = (info net_key).total_received;
      balance = (info net_key).balance;
      lightning_address =
          if lnurl_on && cfg.ssl_enabled then some (local ++ at_sign ∷ cfg.hostname) else none;
      lightning_onion =
          if lnurl_on
          then elim onion_hostname [
            | none ↦ none
            | some [] ↦ none
            | some (c ∷ cs) ↦ some (local ++ at_sign ∷ c ∷ cs)
          ]
          else none;
    }

unfoldable pub build_donations : DonationCfg → Option Text → (Text → Published) → List DonationRow
build_donations cfg onion_hostname info =
    map (donation_row cfg onion_hostname info) (filter (is_enabled cfg) (map codes variant_order))

-- What the faucet of a network shows.
pub record DonationReminder : Type 0 where
  pub address : Option Text
  pub lightning_address : Option Text

unfoldable pub donation_reminder : DonationCfg → Option Text → Text → DonationReminder
donation_reminder cfg address net_key = record {
  address = address;
  lightning_address =
      if cfg.lnurl.web_enabled && (cfg.lnurl.enabled && cfg.ssl_enabled)
      then some (donate_name cfg net_key ++ at_sign ∷ cfg.hostname)
      else none;
}
