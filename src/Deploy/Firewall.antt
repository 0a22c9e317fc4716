-- ===== src/Deploy/Firewall.antt =====
-- The public ports that argus/firewall.py opens, over the allocation of argus/ports.py. The comments of
-- the rules and the rest of the script are text.
pub mod Closed
use bitcoin_argus.Common.{
  ℕ, zero, suc, ◌+◌, ◌-◌, String, Bool, true, false, not, ◌&&◌, ◌||◌, Option, none, some, List, [],
  ◌∷◌, ◌++◌, map, ◌==◌, if◌then◌else◌, str_eq, length, any,
}
use bitcoin_argus.Common.Table.{find?}
use bitcoin_argus.Deploy.Network.{
  NetworkSpec, NetworkCfg, PortName, fixed, numbered, enabled_indexers, fedimint_guardian_count,
  fedimint_enabled, lnd_secondary_enabled, lnd_tertiary_enabled, mempool_enabled,
}
use bitcoin_argus.Deploy.Ports.{Items, same_name}

-- The settings of a network that the firewall reads beside those of Deploy.Network.
pub record PublicCfg : Type 0 where
  pub network : NetworkCfg
  pub p2p_public : Bool
  pub cashu : Bool
  pub cashu_wallet : Bool
  pub electrum : Bool
  pub relay : Bool
  pub relay_public : Bool
  pub btclnd_p2p_pool_size : ℕ
  pub cashupayserver : Bool
  pub woocommerce : Bool

abbrev pub ark_supported_chains : List String
ark_supported_chains = "regtest" ∷ "test" ∷ "testnet4" ∷ "signet" ∷ []

unfoldable pub ark_enabled : NetworkCfg → NetworkSpec → Bool
ark_enabled net spec = net.ark && any (str_eq spec.chain) ark_supported_chains

unfoldable pub electrum_relay_enabled : PublicCfg → Bool
electrum_relay_enabled cfg = cfg.electrum && cfg.relay

-- A rule opens the port of a name, or as many ports from that of a name on.
pub record Opening : Type 0 where
  pub name : PortName
  pub size : ℕ

abbrev pub one : String → List Opening
one name = record { name = fixed name; size = 1 } ∷ []

abbrev pub when : Bool → List Opening → List Opening
when true os = os
when false os = []

unfoldable pub electrum_openings : ℕ → ℕ → List Opening
electrum_openings i zero = []
electrum_openings i (suc n) =
    record { name = numbered "fulcrum_" i "_electrum_tcp"; size = 1 } ∷ electrum_openings (suc i) n

unfoldable pub fedimint_openings : ℕ → ℕ → List Opening
fedimint_openings i zero = []
fedimint_openings i (suc n) =
    record { name = numbered "fedimintd_" i "_api_public"; size = 1 }
    ∷ record { name = numbered "gatewayd_" i "_api_public"; size = 1 }
    ∷ fedimint_openings (suc i) n

-- What is opened for one network, in the order of the source.
unfoldable pub openings : PublicCfg → NetworkSpec → List Opening
openings cfg spec =
    let net = cfg.network in
    when cfg.p2p_public (one "bitcoind_p2p")
    ++ (one "lnd_p2p"
        ++ (when (lnd_secondary_enabled net) (one "lnd2_p2p")
            ++ (when (lnd_tertiary_enabled net) (one "lnd3_p2p")
                ++ (electrum_openings 0 (length (enabled_indexers net))
                    ++ (when cfg.cashu
                          (one "cashu_public" ++ when cfg.cashu_wallet (one "cashu_wallet_public"))
                        ++ (when (fedimint_enabled net spec)
                              (fedimint_openings 0 (fedimint_guardian_count net spec))
                            ++ (when (ark_enabled net spec)
                                  (one "ark_captaind_public" ++ one "ark_cln_p2p")
                                ++ (when (electrum_relay_enabled cfg && cfg.relay_public)
                                      (one "nostr_relay_public")
                                    ++ (when (mempool_enabled net spec) (one "mempool_public")
                                        ++ (when net.bitcart (
                                              one "bitcart_store_public"
                                              ++ (one "bitcart_admin_public"
                                                  ++ (one "bitcart_api_public"
                                                      ++ record {
                                                        name = fixed "bitcart_btclnd_p2p_base";
                                                        size = cfg.btclnd_p2p_pool_size;
                                                      }
                                                        ∷ [])))
                                            ++ (when cfg.cashupayserver
                                                  (one "cashupayserver_public")
                                                ++ when cfg.woocommerce
                                                    (one "woocommerce_public"))))))))))))

pub record Rule : Type 0 where
  pub first : ℕ
  pub last : ℕ

-- `ports[name]`; there is none where Python raises KeyError.
unfoldable pub port_of : PortName → Items → Option ℕ
port_of name ports = elim (find? (λ q. same_name name q.0) ports) [
  | none ↦ none
  | some q ↦ some q.1
]

unfoldable pub rules_for : Items → List Opening → Option (List Rule)
rules_for ports [] = some []
rules_for ports (o ∷ os) =
    let rest = rules_for ports os in
    elim (port_of o.name ports) [
      | none ↦ none
      | some p ↦ elim rest [
        | none ↦ none
        | some rules ↦ some (record { first = p; last = p + o.size - 1 } ∷ rules)
      ]
    ]

-- `port_map[net_key]`
unfoldable pub ports_of : String → List (String × Items) → Option Items
ports_of key [] = none
ports_of key ((k, ports) ∷ port_map) = if str_eq k key then some ports else ports_of key port_map

-- `_public_rules`, of the enabled networks with their settings.
unfoldable pub public_rules :
    List (String × (PublicCfg × NetworkSpec)) → List (String × Items) → Option (List Rule)
public_rules [] port_map = some []
public_rules ((key, (cfg, spec)) ∷ nets) port_map =
    let rest = public_rules nets port_map in
    elim (ports_of key port_map) [
      | none ↦ none
      | some ports ↦ elim (rules_for ports (openings cfg spec)) [
        | none ↦ none
        | some rules ↦ elim rest [ none ↦ none | some more ↦ some (rules ++ more) ]
      ]
    ]
